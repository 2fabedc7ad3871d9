-- ===== src/Accounts/Failover.antt =====
-- runner.go: what failover does over the attempts of a turn.
use ccc_fork.Base.{
  ◌&&◌, ◌⊎◌, not, ℕ, zero, suc, ◌≡◌, ◌≢◌, inl, inr, refl, sym, ap, ◌∙◌, arith, Bool, true, false,
  Option, none, some, List, [], ◌∷◌, filter, head?-Has, map, Text, text_eq, text_eq_iff,
  text_eq_refl, is_empty, Has, Has-filter, Bool-cases, Option-cases,
}
use ccc_fork.Accounts.{
  ProfileStat, Profile, Cooldowns, ErrorClass, auth_stale, rate_limited, transient, session_lost,
  fatal, classify_failure, choose_profile, profile_by_key, is_healthy, is_untried, pick_open,
  pick_implicit, pick_account, wants_implicit, implicit_account, engine_eq, has_none, engine_name,
  profile_engine, collect_profile_stats, profile_cooled_until,
}
use ccc_fork.Accounts.Choice.{choose_profile-Has}
use ccc_fork.Accounts.Attempts.{
  World, Ended, failed, Attempts, TurnClass, no_class, Run, set_name, on_failure, on_end, on_pick,
  pick, attempts, run_turn,
}

-- What the configuration is relied on for: accounts have names, and the engine has an account of its own or else the account that
-- stands in for it has the engine's name. The account that stands in for Claude is called otherwise, so Claude needs an account.
pub record IsNamed (w : World) : Type 0 where
  pub names : (p : Profile) → Has p w.profiles → is_empty p.name ≡ false
  pub stand_in :
      ((implicit_account w.implicit w.engine).name ≡ engine_name w.engine)
      ⊎ (has_none (filter (λ p. engine_eq (profile_engine p) w.engine) w.profiles) ≡ false)

module _ (usage : Text → ℕ × ℕ) (working : Text → ℕ) (now : ℕ) where
  Has-collect :
      (ps : List Profile) (m : Cooldowns) (s : ProfileStat)
      → Has s (collect_profile_stats ps usage working m now).0
      → (p : Profile) × Has p ps × (s.name ≡ p.name) × (s.engine ≡ profile_engine p)
  unfolding collect_profile_stats
  Has-collect [] m s h = absurd h
  Has-collect (p ∷ ps) m s (inl q) = (
    p,
    inl refl,
    ap (λ (t : ProfileStat). t.name) (sym q),
    ap (λ (t : ProfileStat). t.engine) (sym q),
  )
  Has-collect (p ∷ ps) m s (inr h) =
      let (q, k, e, f) = Has-collect ps (profile_cooled_until m p.name now).1 s h in
      (q, inr k, e, f)

profile_by_key-name :
    (ps : List Profile) (default : Profile) (k : Text) {p : Profile}
    → is_empty k ≡ false
    → profile_by_key ps default k ≡ some p
    → Has p ps × (p.name ≡ k)
unfolding profile_by_key
profile_by_key-name ps default k {p} e h =
    let (m, t) =
      Has-filter (λ q. text_eq q.name k) p ps
        (head?-Has (filter (λ q. text_eq q.name k) ps) (rw e at h)) in
    (m, (text_eq_iff p.name k).0 t)

module _ (ps : List Profile) (default : Profile) (now : ℕ) (found : Option Profile → Type 0) where
  -- The account picked of those that pass a test bears the name of one of them.
  pick_open-name :
      (stats : List ProfileStat) (otherwise : Option Profile)
      → ((s : ProfileStat) → Has s stats → is_empty s.name ≡ false)
      → ((s : ProfileStat) (p : Profile) → Has s stats → p.name ≡ s.name → found (some p))
      → found none
      → found otherwise
      → found (pick_open ps default stats now otherwise)
  unfolding pick_open
  pick_open-name [] otherwise named each stops h = h
  pick_open-name (s ∷ stats) otherwise named each stops h =
      let (best, m, e) = choose_profile-Has now s stats in
      elim (Option-cases (profile_by_key ps default (choose_profile (s ∷ stats) now))) [
        | inl f ↦ rw f stops
        | inr (p, f) ↦ rw f (
            each best p m (
              (profile_by_key-name ps default (choose_profile (s ∷ stats) now) (rw e (named best m))
                f).1
              ∙ e))
      ]

and_left : (a b : Bool) → (a && b) ≡ true → a ≡ true
and_left a b h = ground (arith, h)

abbrev Untried : (Text → Bool) → Option Profile → Type 0
Untried exclude none = Unit {0}
Untried exclude (some p) = exclude p.name ≡ false

module _ (w : World) (named : IsNamed w) (exclude : Text → Bool) where
  Untried-implicit : Untried exclude (pick_implicit w.profiles w.implicit w.engine exclude)
  unfolding pick_implicit
  Untried-implicit = elim (Bool-cases (wants_implicit w.profiles w.engine exclude)) [
    | inl e ↦ rw e (elim named.stand_in [
      | inl q ↦ rw q (ground (arith, e))
      | inr q ↦ absurd (
          cc (
            and_left (has_none (filter (λ p. engine_eq (profile_engine p) w.engine) w.profiles))
                (not (exclude (engine_name w.engine))) e,
            q,
          ))
    ])
    | inr e ↦ rw e tt
  ]

  module _ (stats : List ProfileStat)
      (named_stats : (s : ProfileStat) → Has s stats → is_empty s.name ≡ false)
      (needs : Text → Bool) (now : ℕ) where
    Untried-filter :
        (good : ProfileStat → Bool) (otherwise : Option Profile)
        → ((s : ProfileStat) → good s ≡ true → exclude s.name ≡ false)
        → Untried exclude otherwise
        → Untried exclude (pick_open w.profiles w.default (filter good stats) now otherwise)
    Untried-filter good otherwise free h =
        pick_open-name w.profiles w.default now (Untried exclude) (filter good stats) otherwise
          (λ s m. named_stats s (Has-filter good s stats m).0)
          (λ s p m e. rw e (free s (Has-filter good s stats m).1)) tt h

    -- Whatever is picked was not tried.
    Untried-pick_account :
        Untried exclude
          (pick_account w.profiles w.default w.implicit stats w.engine exclude needs now)
    unfolding pick_account
    Untried-pick_account =
        Untried-filter (is_healthy w.engine exclude needs) _ (λ s e. ground (arith, e))
          (Untried-filter (is_untried w.engine exclude) _ (λ s e. ground (arith, e))
            Untried-implicit)

Untried-pick : (w : World) → IsNamed w → (now : ℕ) (a : Attempts) → Untried a.tried (pick w now a).0
unfolding pick
Untried-pick w named now a =
    let stats = (collect_profile_stats w.profiles w.usage w.working a.cooldowns now).0 in
    Untried-pick_account w named a.tried stats
      (λ s m.
        let (p, k, e, _) = Has-collect w.usage w.working now w.profiles a.cooldowns s m in
        rw e (named.names p k))
      a.needs_login now

tried-pick : (w : World) (now : ℕ) (a : Attempts) → (pick w now a).1.tried ≡ a.tried
unfolding pick
tried-pick w now a = refl

-- No child process was started on an account.
abbrev pub Spared : Text → Run → Type 0
Spared x r = ¬ Has x (map (λ (l : Text × Ended). l.0) r.spawned)

set_name-other : (k x : Text) (v : Bool) (m : Text → Bool) → k ≢ x → set_name k v m x ≡ m x
set_name-other k x v m n = elim (Bool-cases (text_eq k x)) [
  | inl e ↦ absurd (n ((text_eq_iff k x).0 e))
  | inr e ↦ rw e refl
]

-- How the loop goes on: an account that was tried already is spared.
abbrev Spares : Text → (TurnClass → Attempts → Run) → Type 0
Spares x continue =
    (class : TurnClass) (a : Attempts) → a.tried x ≡ true → Spared x (continue class a)

module _ (x : Text) (continue : TurnClass → Attempts → Run) (spares : Spares x continue) where
  Spared-on_end :
      (end : Ended) (w : World) (now : ℕ) (name : Text) (a : Attempts)
      → name ≢ x
      → a.tried x ≡ true
      → Spared x (on_end end w now name a continue)
  unfolding on_end on_failure
  Spared-on_end (failed text) w now name a n t = on_class (classify_failure text)
    where
      on_class : (c : ErrorClass) → Spared x (on_failure c w now name a continue)
      on_class session_lost = spares _ _ (set_name-other name x false a.tried n ∙ t)
      on_class auth_stale = spares _ _ t
      on_class rate_limited = spares _ _ t
      on_class transient = spares _ _ (set_name-other name x false a.tried n ∙ t)
      on_class fatal = λ h. h
  Spared-on_end _ w now name a n t = λ h. h

  Spared-on_pick :
      (o : Option Profile) (w : World) (spawn : Text → Ended) (now : ℕ) (a : Attempts)
      → Untried a.tried o
      → a.tried x ≡ true
      → Spared x (on_pick o w spawn now a continue)
  unfolding on_pick
  Spared-on_pick none w spawn now a u t = λ h. h
  Spared-on_pick (some p) w spawn now a u t = λ h. elim h [
    | inl q ↦ cc (q, u, t)
    | inr m ↦
        Spared-on_end (spawn p.name) w now p.name
          (record a { tried = set_name p.name true a.tried }) (λ q. cc (q, u, t)) kept m
  ]
    where
      kept : set_name p.name true a.tried x ≡ true
      kept = elim (Bool-cases (text_eq p.name x)) [ inl e ↦ rw e refl | inr e ↦ rw e t ]

module _ (w : World) (named : IsNamed w) (clock : ℕ → ℕ) (spawn : ℕ → Text → Ended) where
  Spared-attempts : (x : Text) (n : ℕ) → Spares x (attempts w clock spawn n)
  unfolding attempts
  Spared-attempts x zero class a t = λ h. h
  Spared-attempts x (suc n) class a t =
      Spared-on_pick x (attempts w clock spawn n) (Spared-attempts x n) (pick w (clock n) a).0 w
        (spawn n) (clock n) (pick w (clock n) a).1
        (rw (tried-pick w (clock n) a) (Untried-pick w named (clock n) a))
        (rw (tried-pick w (clock n) a) t)

-- Whether the loop may start the same account again after such an end.
abbrev pub retriable : ErrorClass → Bool
retriable transient = true
retriable session_lost = true
retriable _ = false

abbrev pub is_retriable : Ended → Bool
is_retriable (failed text) = retriable (classify_failure text)
is_retriable _ = false

-- An account is started again only after an end that allows it.
abbrev pub NoRetry : List (Text × Ended) → Type 0
NoRetry [] = Unit {0}
NoRetry ((name, end) ∷ rest) =
    (Has name (map (λ (l : Text × Ended). l.0) rest) → is_retriable end ≡ true) × NoRetry rest

module _ (w : World) (now : ℕ) (name : Text) (a : Attempts) (continue : TurnClass → Attempts → Run)
    (spares : Spares name continue)
    (sound : (class : TurnClass) (b : Attempts) → NoRetry (continue class b).spawned) where
  NoRetry-on_failure : (c : ErrorClass) → NoRetry (on_failure c w now name a continue).spawned
  unfolding on_failure
  NoRetry-on_failure session_lost = sound _ _
  NoRetry-on_failure auth_stale = sound _ _
  NoRetry-on_failure rate_limited = sound _ _
  NoRetry-on_failure transient = sound _ _
  NoRetry-on_failure fatal = tt

  NoRetry-on_end : (end : Ended) → NoRetry (on_end end w now name a continue).spawned
  unfolding on_end
  NoRetry-on_end (failed text) = NoRetry-on_failure (classify_failure text)
  NoRetry-on_end _ = tt

  retriable-on_failure :
      (c : ErrorClass)
      → a.tried name ≡ true
      → Has name (map (λ (l : Text × Ended). l.0) (on_failure c w now name a continue).spawned)
      → retriable c ≡ true
  unfolding on_failure
  retriable-on_failure session_lost t h = refl
  retriable-on_failure transient t h = refl
  retriable-on_failure auth_stale t h = absurd (spares _ _ t h)
  retriable-on_failure rate_limited t h = absurd (spares _ _ t h)
  retriable-on_failure fatal t h = absurd h

  is_retriable-on_end :
      (end : Ended)
      → a.tried name ≡ true
      → Has name (map (λ (l : Text × Ended). l.0) (on_end end w now name a continue).spawned)
      → is_retriable end ≡ true
  unfolding on_end
  is_retriable-on_end (failed text) t h = retriable-on_failure (classify_failure text) t h
  is_retriable-on_end _ t h = absurd h

module _ (w : World) (named : IsNamed w) (clock : ℕ → ℕ) (spawn : ℕ → Text → Ended) where
  NoRetry-on_pick :
      (o : Option Profile) (n : ℕ) (a : Attempts)
      → ((class : TurnClass) (b : Attempts) → NoRetry (attempts w clock spawn n class b).spawned)
      → NoRetry (on_pick o w (spawn n) (clock n) a (attempts w clock spawn n)).spawned
  unfolding on_pick
  NoRetry-on_pick none n a sound = tt
  NoRetry-on_pick (some p) n a sound =
      let b : Attempts = record a { tried = set_name p.name true a.tried } in
      let spares = Spared-attempts w named clock spawn p.name n in
      (
        is_retriable-on_end w (clock n) p.name b (attempts w clock spawn n) spares sound
            (spawn n p.name) (rw (text_eq_refl p.name) refl),
        NoRetry-on_end w (clock n) p.name b (attempts w clock spawn n) spares sound
            (spawn n p.name),
      )

  NoRetry-attempts :
      (n : ℕ) (class : TurnClass) (a : Attempts)
      → NoRetry (attempts w clock spawn n class a).spawned
  unfolding attempts
  NoRetry-attempts zero class a = tt
  NoRetry-attempts (suc n) class a =
      NoRetry-on_pick (pick w (clock n) a).0 n (pick w (clock n) a).1 (NoRetry-attempts n)

  -- Whatever accounts fail and how: in one turn, failover starts the same account again only after a failure that is transient or
  -- a lost session. It holds if every registered account has a name, and the turn's engine has a registered account, or the account
  -- that stands in for it has the engine's name. So a turn of Claude without registered accounts is left out: its stand-in
  -- does not have that name.
  pub run_turn-NoRetry :
      (needs : Text → Bool) (cooldowns : Cooldowns)
      → NoRetry (run_turn w clock spawn needs cooldowns).spawned
  run_turn-NoRetry needs cooldowns = NoRetry-attempts 3 no_class _
