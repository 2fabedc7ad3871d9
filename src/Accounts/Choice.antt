-- ===== src/Accounts/Choice.antt =====
-- profiles.go and runner.go: the account that is chosen.
use ccc_fork.Base.{
  ◌<◌, text_ltb, ℕ, ◌≡◌, ◌⊎◌, inl, inr, refl, sym, ◌∙◌, arith, Bool, true, false, List, [], ◌∷◌,
  filter, if◌then◌else◌, Text, text_ltb_irrefl, text_ltb_trans, Has, Has-filter, Has-filter_intro,
  Bool-cases,
}
use ccc_fork.Accounts.{
  ProfileStat, better_profile, ready_sooner, best_of, is_open, choose_among, choose_profile,
}

-- Nothing comes before itself, and what comes before comes before what follows.
record IsOrder (better : ProfileStat → ProfileStat → Bool) : Type 0 where
  irrefl : (a : ProfileStat) → better a a ≡ false
  trans : (a b c : ProfileStat) → better a b ≡ true → better b c ≡ true → better a c ≡ true

better_profile-IsOrder : IsOrder better_profile
unfolding better_profile
better_profile-IsOrder = record {
  irrefl = λ a. ground (arith, text_ltb_irrefl a.name);
  trans = λ a b c h k. ground (arith, text_ltb_trans a.name b.name c.name);
}

ready_sooner-IsOrder : IsOrder ready_sooner
unfolding ready_sooner
ready_sooner-IsOrder = record {
  irrefl = λ a. ground (arith, text_ltb_irrefl a.name);
  trans = λ a b c h k. ground (arith, text_ltb_trans a.name b.name c.name);
}

-- The account that a test prefers.
abbrev prefer : Bool → ProfileStat → ProfileStat → ProfileStat
prefer b s best = if b then s else best

prefer-cases :
    (b : Bool) (s best : ProfileStat)
    → (prefer b s best ≡ s) × (b ≡ true) ⊎ (prefer b s best ≡ best) × (b ≡ false)
prefer-cases true s best = inl (refl, refl)
prefer-cases false s best = inr (refl, refl)

module _ (better : ProfileStat → ProfileStat → Bool) (order : IsOrder better) where
  best_of-Has :
      (best : ProfileStat) (rest : List ProfileStat) → Has (best_of better best rest) (best ∷ rest)
  unfolding best_of
  best_of-Has best [] = inl refl
  best_of-Has best (s ∷ rest) = elim (best_of-Has (prefer (better s best) s best) rest) [
    | inl q ↦ elim (prefer-cases (better s best) s best) [
      | inl (e, _) ↦ inr (inl (sym e ∙ q))
      | inr (e, _) ↦ inl (sym e ∙ q)
    ]
    | inr m ↦ inr (inr m)
  ]

  prefer-keeps :
      (s best x : ProfileStat)
      → better x best ≡ false
      → better x (prefer (better s best) s best) ≡ false
  prefer-keeps s best x h = elim (prefer-cases (better s best) s best) [
    | inl (e, b) ↦ rw e (elim (Bool-cases (better x s)) [
      | inl f ↦ absurd (cc (order.trans x s best f b))
      | inr f ↦ f
    ])
    | inr (e, _) ↦ rw e h
  ]

  prefer-least : (s best : ProfileStat) → better s (prefer (better s best) s best) ≡ false
  prefer-least s best = elim (prefer-cases (better s best) s best) [
    | inl (e, _) ↦ rw e (order.irrefl s)
    | inr (e, b) ↦ rw e b
  ]

  -- What does not come before the present best does not come before the final one.
  best_of-keeps :
      (best : ProfileStat) (rest : List ProfileStat) (x : ProfileStat)
      → better x best ≡ false
      → better x (best_of better best rest) ≡ false
  unfolding best_of
  best_of-keeps best [] x h = h
  best_of-keeps best (s ∷ rest) x h =
      best_of-keeps (prefer (better s best) s best) rest x (prefer-keeps s best x h)

  best_of-least :
      (best : ProfileStat) (rest : List ProfileStat) (x : ProfileStat)
      → Has x (best ∷ rest)
      → better x (best_of better best rest) ≡ false
  unfolding best_of
  best_of-least best rest x (inl q) = best_of-keeps best rest x (rw q (order.irrefl x))
  best_of-least best [] x (inr m) = absurd m
  best_of-least best (s ∷ rest) x (inr (inl q)) =
      best_of-keeps (prefer (better s best) s best) rest x (rw (← q) (prefer-least s best))
  best_of-least best (s ∷ rest) x (inr (inr r)) =
      best_of-least (prefer (better s best) s best) rest x (inr r)

-- Less five-hour use, or as much and less seven-day use, or as much of both and fewer working agents, or as many and an
-- earlier name.
abbrev pub LessUsed : ProfileStat → ProfileStat → Type 0
LessUsed a b =
    (a.five_hour < b.five_hour)
    ⊎ (a.five_hour ≡ b.five_hour)
      × ((a.seven_day < b.seven_day)
          ⊎ (a.seven_day ≡ b.seven_day)
            × ((a.working_agents < b.working_agents)
                ⊎ (a.working_agents ≡ b.working_agents) × (text_ltb a.name b.name ≡ true)))

-- Available sooner, or as soon with an earlier name.
abbrev pub Sooner : ProfileStat → ProfileStat → Type 0
Sooner a b =
    (a.cooled_until < b.cooled_until)
    ⊎ (a.cooled_until ≡ b.cooled_until) × (text_ltb a.name b.name ≡ true)

better_profile-LessUsed : (a b : ProfileStat) → LessUsed a b → better_profile a b ≡ true
unfolding better_profile
better_profile-LessUsed a b h = ground (arith, h)

ready_sooner-Sooner : (a b : ProfileStat) → Sooner a b → ready_sooner a b ≡ true
unfolding ready_sooner
ready_sooner-Sooner a b h = ground (arith, h)

-- The account of a name that is one of some accounts, and that none of them comes before.
pub record IsFirst (Before : ProfileStat → ProfileStat → Type 0) (among : ProfileStat → Type 0)
    (name : Text) : Type 0 where
  pub best : ProfileStat
  pub candidate : among best
  pub named : name ≡ best.name
  pub unbeaten : (s : ProfileStat) → among s → ¬ Before s best

module _ (now : ℕ) where
  abbrev pub Ready : List ProfileStat → ProfileStat → Type 0
  Ready stats s = Has s stats × (is_open now s ≡ true)

  choose_among-ready :
      (first : ProfileStat) (rest found : List ProfileStat) (s : ProfileStat)
      → Has s found
      → IsFirst LessUsed (λ t. Has t found) (choose_among found first rest).name
  unfolding choose_among
  choose_among-ready first rest [] s m = absurd m
  choose_among-ready first rest (f ∷ found) s m = record {
    best = best_of better_profile f found;
    candidate = best_of-Has better_profile better_profile-IsOrder f found;
    named = refl;
    unbeaten = λ x m h. cc (
      best_of-least better_profile better_profile-IsOrder f found x m,
      better_profile-LessUsed x (best_of better_profile f found) h,
    );
  }

  -- If an account is not cooling down, the chosen one is not cooling down either, and no account that is not cooling down has
  -- less five-hour use, or as much and less seven-day use, or as much of both and fewer working agents, or as
  -- many and an earlier name.
  pub choose_profile-Ready :
      (stats : List ProfileStat) (s : ProfileStat)
      → Ready stats s
      → IsFirst LessUsed (Ready stats) (choose_profile stats now)
  unfolding choose_profile
  choose_profile-Ready [] s (m, o) = absurd m
  choose_profile-Ready (t ∷ stats) s (m, o) =
      let found =
        choose_among-ready t stats (filter (is_open now) (t ∷ stats)) s
          (Has-filter_intro (is_open now) s (t ∷ stats) m o) in
      record {
        best = found.best;
        candidate = Has-filter (is_open now) found.best (t ∷ stats) found.candidate;
        named = found.named;
        unbeaten = λ x (k, p). found.unbeaten x (Has-filter_intro (is_open now) x (t ∷ stats) k p);
      }

  choose_among-cooling :
      (first : ProfileStat) (rest found : List ProfileStat)
      → ((s : ProfileStat) → ¬ Has s found)
      → IsFirst Sooner (λ t. Has t (first ∷ rest)) (choose_among found first rest).name
  unfolding choose_among
  choose_among-cooling first rest (f ∷ found) h = absurd (h f (inl refl))
  choose_among-cooling first rest [] h = record {
    best = best_of ready_sooner first rest;
    candidate = best_of-Has ready_sooner ready_sooner-IsOrder first rest;
    named = refl;
    unbeaten = λ x m h. cc (
      best_of-least ready_sooner ready_sooner-IsOrder first rest x m,
      ready_sooner-Sooner x (best_of ready_sooner first rest) h,
    );
  }

  -- If there are accounts and every one is cooling down, the chosen one is one of them, and none is ready sooner, or as soon with
  -- an earlier name: a turn is not refused.
  pub choose_profile-cooling :
      (stats : List ProfileStat) (s : ProfileStat)
      → Has s stats
      → ((t : ProfileStat) → ¬ Ready stats t)
      → IsFirst Sooner (λ t. Has t stats) (choose_profile stats now)
  unfolding choose_profile
  choose_profile-cooling [] s m h = absurd m
  choose_profile-cooling (t ∷ stats) s m h =
      choose_among-cooling t stats (filter (is_open now) (t ∷ stats))
        λ x k. h x (Has-filter (is_open now) x (t ∷ stats) k)

  choose_among-Has :
      (first : ProfileStat) (rest found : List ProfileStat)
      → Has (choose_among found first rest) found
        ⊎ Has (choose_among found first rest) (first ∷ rest)
  unfolding choose_among
  choose_among-Has first rest [] = inr (best_of-Has ready_sooner ready_sooner-IsOrder first rest)
  choose_among-Has first rest (f ∷ found) =
      inl (best_of-Has better_profile better_profile-IsOrder f found)

  -- The chosen name is an account's, if there is one.
  pub choose_profile-Has :
      (s : ProfileStat) (stats : List ProfileStat)
      → (best : ProfileStat) × Has best (s ∷ stats) × (choose_profile (s ∷ stats) now ≡ best.name)
  unfolding choose_profile
  choose_profile-Has s stats =
      let chosen = choose_among (filter (is_open now) (s ∷ stats)) s stats in
      (
        chosen,
        elim (choose_among-Has s stats (filter (is_open now) (s ∷ stats))) [
          | inl m ↦ (Has-filter (is_open now) chosen (s ∷ stats) m).0
          | inr m ↦ m
        ],
        refl,
      )
