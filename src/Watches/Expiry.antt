-- ===== src/Watches/Expiry.antt =====
-- scheduler.go: which watches expire.
use ccc_fork.Base.{
  ◌+◌, ◌≤◌, ◌⊎◌, ◌↔◌, ℕ, ◌==◌, ==_iff, ◌≡◌, ◌≢◌, inl, inr, refl, ap, arith, true, false, not,
  Option, List, [], ◌∷◌, filter, Has, Has-filter, Has-filter_intro, Text, Bool-cases, Table,
  Answers, if◌then◌else◌,
}
use ccc_fork.Turns.{Database, Turn}
use ccc_fork.Turns.Writes.{DistinctBy, eq_of_key}
use ccc_fork.Watches.Rows.{
  Watch, Watched, Bot, has_watch_id, watch_expired, expire_one, expire_each, expire_watches,
}

abbrev pub watch_id_of : Watch → ℕ
watch_id_of w = w.id

-- Expiry is on, and the watch is enabled and was created at no known time or at least the time to live ago.
abbrev pub HasLived : ℕ → ℕ → Watch → Type 0
HasLived ttl now w =
    (ttl ≢ 0) × (w.enabled ≡ true) × ((w.created_at ≡ 0) ⊎ (w.created_at + ttl ≤ now))

enabled_of_expired : (w : Watch) (now ttl : ℕ) → watch_expired w now ttl ≡ true → w.enabled ≡ true
unfolding watch_expired
enabled_of_expired w now ttl h = ground arith

module _ (db : Table Watch) (answers : Answers db) (queue : Database) (mint : List Turn → ℕ)
    (bots : ℕ → Option Bot) (quote : Text → Text) (ttl_words : Text) (now ttl : ℕ) where
  watches-expire_one :
      (s : Watched) (w : Watch)
      → (expire_one db queue mint bots quote ttl_words now ttl s w).watches
        ≡ filter (λ r. not (has_watch_id w.id r)) s.watches
  unfolding expire_one
  watches-expire_one s w =
      rw (answers.delete_answers (has_watch_id w.id) s.watches, expire_one) refl

  -- The next state of the loop.
  abbrev after : Watch → Watched → Watched
  after w s =
      if watch_expired w now ttl
      then expire_one db queue mint bots quote ttl_words now ttl s w
      else s

  Has-after :
      (w : Watch) (s : Watched) (r : Watch)
      → Has r (after w s).watches
      → Has r s.watches × (watch_expired w now ttl ≡ true → r.id ≢ w.id)
  Has-after w s r h = elim (Bool-cases (watch_expired w now ttl)) [
    | inl e ↦
        let (m, t) =
          Has-filter (λ x. not (has_watch_id w.id x)) r s.watches
            (rw watches-expire_one at (rw e at h)) in
        (m, λ _ q. cc ((==_iff r.id w.id).1 q, ap not ((==_iff r.id w.id).1 q), t))
    | inr e ↦ (rw e at h, λ t. absurd (cc))
  ]

  after-Has :
      (w : Watch) (s : Watched) (r : Watch)
      → Has r s.watches
      → (watch_expired w now ttl ≡ true → r.id ≢ w.id)
      → Has r (after w s).watches
  after-Has w s r h apart = elim (Bool-cases (watch_expired w now ttl)) [
    | inl e ↦ rw e (
        rw watches-expire_one (
          Has-filter_intro (λ x. not (has_watch_id w.id x)) r s.watches h
            (elim (Bool-cases (has_watch_id w.id r)) [
              | inl t ↦ absurd (apart e ((==_iff r.id w.id).0 t))
              | inr t ↦ rw t refl
            ])))
    | inr e ↦ rw e h
  ]

  Has-expire_each :
      (ws : List Watch) (s : Watched) (r : Watch)
      → Has r (expire_each db queue mint bots quote ttl_words now ttl ws s).watches
      → Has r s.watches × ((w : Watch) → Has w ws → watch_expired w now ttl ≡ true → r.id ≢ w.id)
  unfolding expire_each
  Has-expire_each [] s r h = (h, λ w m. absurd m)
  Has-expire_each (x ∷ ws) s r h =
      let (k, rest) = Has-expire_each ws (after x s) r h in
      let (m, apart) = Has-after x s r k in
      (m, λ w i. elim i [ inl q ↦ rw (← q) apart | inr j ↦ rest w j ])

  expire_each-Has :
      (ws : List Watch) (s : Watched) (r : Watch)
      → Has r s.watches
      → ((w : Watch) → Has w ws → watch_expired w now ttl ≡ true → r.id ≢ w.id)
      → Has r (expire_each db queue mint bots quote ttl_words now ttl ws s).watches
  unfolding expire_each
  expire_each-Has [] s r h apart = h
  expire_each-Has (x ∷ ws) s r h apart =
      expire_each-Has ws (after x s) r (after-Has x s r h (apart x (inl refl)))
        λ w m. apart w (inr m)

  expired_off : (r : Watch) → (ttl == 0) ≡ true → watch_expired r now ttl ≡ false
  unfolding watch_expired
  expired_off r e = rw e refl

  expire_watches_off :
      (s : Watched)
      → (ttl == 0) ≡ true
      → expire_watches db queue mint bots quote ttl_words now ttl s ≡ s
  unfolding expire_watches
  expire_watches_off s e = rw e refl

  expire_watches_on :
      (s : Watched)
      → (ttl == 0) ≡ false
      → expire_watches db queue mint bots quote ttl_words now ttl s
        ≡ expire_each db queue mint bots quote ttl_words now ttl
            (filter (λ w. w.enabled) s.watches)
            s
  unfolding expire_watches
  expire_watches_on s e =
      rw (e, answers.select_answers (λ w. w.enabled) s.watches, expire_watches) refl

  kept :
      (s : Watched) (r : Watch)
      → Has r (expire_watches db queue mint bots quote ttl_words now ttl s).watches
      → Has r s.watches
  kept s r h = elim (Bool-cases (ttl == 0)) [
    | inl e ↦ rw (expire_watches_off s e) at h
    | inr e ↦
        (Has-expire_each (filter (λ w. w.enabled) s.watches) s r
          (rw (expire_watches_on s e) at h)).0
  ]

  watch_expired-HasLived : (w : Watch) → (watch_expired w now ttl ≡ true) ↔ HasLived ttl now w
  unfolding watch_expired
  watch_expired-HasLived w = (
    λ e. (
      λ z. ground (arith, e, z),
      ground (arith, e),
      elim (Bool-cases (w.created_at == 0)) [
        | inl z ↦ inl ((==_iff w.created_at 0).0 z)
        | inr z ↦ inr (ground (arith, e, z))
      ],
    ),
    λ (on, enabled, old). elim old [
      | inl z ↦ ground (arith, on, enabled, z)
      | inr z ↦ ground (arith, on, enabled, z)
    ],
  )

  left_unexpired :
      (s : Watched)
      → DistinctBy watch_id_of s.watches
      → ((r : Watch)
          → Has r (expire_watches db queue mint bots quote ttl_words now ttl s).watches
          → watch_expired r now ttl ≡ false)
        × ((r : Watch)
            → Has r s.watches
            → watch_expired r now ttl ≡ false
            → Has r (expire_watches db queue mint bots quote ttl_words now ttl s).watches)
  left_unexpired s distinct = elim (Bool-cases (ttl == 0)) [
    | inl e ↦ rw (expire_watches_off s e) (λ r h. expired_off r e, λ r h x. h)
    | inr e ↦ rw (expire_watches_on s e) (
      λ r h. elim (Bool-cases (watch_expired r now ttl)) [
        | inl x ↦
            let (m, apart) = Has-expire_each (filter (λ w. w.enabled) s.watches) s r h in
            absurd (
              apart r
                (Has-filter_intro (λ w. w.enabled) r s.watches m (enabled_of_expired r now ttl x)) x
                refl)
        | inr x ↦ x
      ],
      λ r h x. expire_each-Has (filter (λ w. w.enabled) s.watches) s r h λ w m t q.
          let same : r ≡ w =
            eq_of_key watch_id_of s.watches distinct r w h
              (Has-filter (λ w. w.enabled) w s.watches m).0 q in
          cc (same, x, t),
    )
  ]

  -- Expiry leaves exactly the watches that have not lived their time: a watch is in the table afterwards if and only if it was before and it is
  -- not true that expiry is on (`ttl` is not 0), the watch is enabled, and its creation is unset or at least `ttl` ago. It holds if the ids of watches
  -- are distinct and the statements on the table of watches succeed, whether or not the bots can be told.
  pub expire_watches-left :
      (s : Watched)
      → DistinctBy watch_id_of s.watches
      → (r : Watch)
      → Has r (expire_watches db queue mint bots quote ttl_words now ttl s).watches
        ↔ (Has r s.watches × (¬ HasLived ttl now r))
  expire_watches-left s distinct r = (
    λ h. (
      kept s r h,
      λ lived. absurd (cc ((left_unexpired s distinct).0 r h, (watch_expired-HasLived r).1 lived)),
    ),
    λ h. (left_unexpired s distinct).1 r h.0 (elim (Bool-cases (watch_expired r now ttl)) [
      | inl e ↦ absurd (h.1 ((watch_expired-HasLived r).0 e))
      | inr e ↦ e
    ]),
  )
