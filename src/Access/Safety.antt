-- ===== src/Access/Safety.antt =====
-- access.go: who gets a role, and that no message approves its sender. Nothing here assumes that the
-- statements of the database succeed.
use ccc_fork.Base.{
  ℕ, Bool, Option, some, List, ◌≡◌, ◌≢◌, ◌⊎◌, inl, inr, sym, ◌∙◌, ap, arith, Has, ℤ, pos, eq_ℤ_iff,
  Text, Table, first, first-Has, Has-write, Has-update, Has-create, ltb, length, filter, some_eq,
  write, Bool-cases, Option-cases, leb,
}
use ccc_fork.Access.{
  AccessState, put_state, stated_row, set_access_state, blocked, state_eq, max_pair_replies, Access,
  Config, approved, role_user, role_owner, role_of_row, classify_access, has_id, refresh, new_row,
  handle_new_user, handle_known_user, handle_unknown_user, gate, is_denied, max_pending_pairs,
  pending_pair_count,
}

-- The table has an approved row for the user.
abbrev pub IsApproved : ℤ → List Access → Type 0
IsApproved u rows =
    (row : Access) × Has row rows × (row.telegram_user_id ≡ u) × (row.state ≡ approved)

role_of_row-ne-owner : (o : Option Access) → role_of_row o ≢ role_owner
unfolding role_of_row
role_of_row-ne-owner o h = ground arith

module _ (db : Table Access) (rows : List Access) where
  classify_access-role_user :
      (config : Option Config) (u : ℤ)
      → classify_access db rows config u ≡ role_user
      → (row : Access) × (first db (has_id u) rows ≡ some row) × (row.state ≡ approved)
  unfolding classify_access
  classify_access-role_user config u h = elim (Option-cases (first db (has_id u) rows)) [
    | inl e ↦ absurd (ground (arith, e))
    | inr (row, e) ↦ (row, e, ground (arith, e))
  ]

  IsApproved-of_first :
      (u : ℤ) (row : Access)
      → first db (has_id u) rows ≡ some row
      → row.state ≡ approved
      → IsApproved u rows
  IsApproved-of_first u row e a =
      let (m, t) = first-Has db (has_id u) rows e in
      (row, m, (eq_ℤ_iff row.telegram_user_id u).0 t, a)

  module _ (cfg : Config) (u : ℤ) (display : Text) (chat : ℤ) (is_dm : Bool) (now : ℕ)
      (fresh : Text) where
    gate-role_user_row :
        (gate db rows cfg u display chat is_dm now fresh).role ≡ role_user
        → classify_access db rows (some cfg) u ≡ role_user
    unfolding gate
    gate-role_user_row h = ground arith

    -- An update is let through as an approved user's only if the access table holds an approved row with the
    -- sender's id.
    pub gate-role_user :
        (gate db rows cfg u display chat is_dm now fresh).role ≡ role_user → IsApproved u rows
    gate-role_user h =
        let (row, e, a) = classify_access-role_user (some cfg) u (gate-role_user_row h) in
        IsApproved-of_first u row e a

    -- An update is let through as the owner's exactly when the sender is the configured chat id and that id is not
    -- zero.
    pub gate-role_owner :
        ((gate db rows cfg u display chat is_dm now fresh).role ≡ role_owner
          → (u ≡ cfg.chat_id) × (u ≢ pos 0))
        × (u ≡ cfg.chat_id
            → u ≢ pos 0
            → (gate db rows cfg u display chat is_dm now fresh).role ≡ role_owner)
    unfolding gate classify_access
    gate-role_owner = (
      λ h. ground (
        arith,
        eq_ℤ_iff u (pos 0),
        eq_ℤ_iff u cfg.chat_id,
        eq_ℤ_iff cfg.chat_id (pos 0),
        role_of_row-ne-owner (first db (has_id u) rows),
      ),
      λ e n.
          ground (arith, eq_ℤ_iff u (pos 0), eq_ℤ_iff u cfg.chat_id, eq_ℤ_iff cfg.chat_id (pos 0)),
    )

  IsApproved-create :
      (v u : ℤ) (display : Text) (now : ℕ) (fresh : Text) {rows' : List Access}
      → db.create (new_row u display now fresh) rows ≡ some rows'
      → IsApproved v rows'
      → IsApproved v rows
  IsApproved-create v u display now fresh e (row, m, i, a) =
      elim (Has-create db (new_row u display now fresh) rows row e m) [
        | inl q ↦ absurd (cc (q, a))
        | inr m' ↦ (row, m', i, a)
      ]

  IsApproved-write :
      (v u : ℤ) (display : Text) (now : ℕ) (fresh : Text) (known : Access)
      → IsApproved v (write db (has_id u) (refresh display now fresh known) rows)
      → IsApproved v rows
  unfolding refresh
  IsApproved-write v u display now fresh known (row, m, i, a) =
      let (old, m', c) = Has-write db (has_id u) (refresh display now fresh known) rows row m in
      elim c [
        | inl q ↦ (
          old,
          m',
          ap (λ (r : Access). r.telegram_user_id) (sym q) ∙ i,
          ap (λ (r : Access). r.state) (sym q) ∙ a,
        )
        | inr (_, q) ↦ (
          old,
          m',
          ap (λ (r : Access). r.telegram_user_id) (sym q) ∙ i,
          ap (λ (r : Access). r.state) (sym q) ∙ a,
        )
      ]

  IsApproved-known :
      (v u : ℤ) (display : Text) (now : ℕ) (fresh : Text) (known : Access)
      → IsApproved v (handle_known_user db rows u display now fresh known).1
      → IsApproved v rows
  unfolding handle_known_user
  IsApproved-known v u display now fresh known h =
      elim (Bool-cases (state_eq known.state blocked)) [
        | inl e ↦ rw e at h
        | inr e ↦ elim (Bool-cases (leb max_pair_replies known.replies)) [
          | inl f ↦ rw (e, f) at h
          | inr f ↦ IsApproved-write v u display now fresh known (rw (e, f) at h)
        ]
      ]

  IsApproved-new :
      (v u : ℤ) (display : Text) (now : ℕ) (fresh : Text)
      → IsApproved v (handle_new_user db rows u display now fresh).1
      → IsApproved v rows
  unfolding handle_new_user
  IsApproved-new v u display now fresh h =
      elim (Bool-cases (leb max_pending_pairs (pending_pair_count db rows now))) [
        | inl e ↦ rw e at h
        | inr e ↦ elim (Option-cases (db.create (new_row u display now fresh) rows)) [
          | inl f ↦ rw (e, f, handle_new_user) at h
          | inr (rows', f) ↦
              IsApproved-create v u display now fresh f (rw (e, f, handle_new_user) at h)
        ]
      ]

  IsApproved-handle_unknown_user :
      (v u : ℤ) (display : Text) (now : ℕ) (fresh : Text)
      → IsApproved v (handle_unknown_user db rows u display now fresh).1
      → IsApproved v rows
  unfolding handle_unknown_user
  IsApproved-handle_unknown_user v u display now fresh h =
      elim (Option-cases (first db (has_id u) rows)) [
        | inl e ↦ IsApproved-new v u display now fresh (rw (e, handle_unknown_user) at h)
        | inr (known, e) ↦
            IsApproved-known v u display now fresh known (rw (e, handle_unknown_user) at h)
      ]

  -- Whatever the update, its sender and the state of the database, the gate approves nobody: who is approved after it
  -- was approved before.
  pub gate-IsApproved :
      (cfg : Config) (u : ℤ) (display : Text) (chat : ℤ) (is_dm : Bool) (now : ℕ) (fresh : Text)
      (v : ℤ)
      → IsApproved v (gate db rows cfg u display chat is_dm now fresh).rows
      → IsApproved v rows
  unfolding gate
  gate-IsApproved cfg u display chat is_dm now fresh v h =
      elim (Bool-cases (is_denied (classify_access db rows (some cfg) u))) [
        | inl e ↦ elim (Bool-cases is_dm) [
          | inl f ↦ IsApproved-handle_unknown_user v u display now fresh (rw (e, f) at h)
          | inr f ↦ rw (e, f) at h
        ]
        | inr e ↦ rw e at h
      ]

  IsApproved-put :
      (v u : ℤ) (display : Text) (state : AccessState) {rows' : List Access}
      → db.update (has_id u) (put_state display state) rows ≡ some rows'
      → IsApproved v rows'
      → IsApproved v rows ⊎ (v ≡ u) × (state ≡ approved)
  IsApproved-put v u display state e (row, m, i, a) =
      let (old, m', c) = Has-update db (has_id u) (put_state display state) rows row e m in
      elim c [
        | inl q ↦ inl (
          old,
          m',
          ap (λ (r : Access). r.telegram_user_id) (sym q) ∙ i,
          ap (λ (r : Access). r.state) (sym q) ∙ a,
        )
        | inr (t, q) ↦
            let same : old.telegram_user_id ≡ v =
              ap (λ (r : Access). r.telegram_user_id) (sym q) ∙ i in
            inr (
              sym same ∙ (eq_ℤ_iff old.telegram_user_id u).0 t,
              ap (λ (r : Access). r.state) (sym q) ∙ a,
            )
      ]

  IsApproved-stated :
      (v u : ℤ) (display : Text) (state : AccessState) {rows' : List Access}
      → db.create (stated_row u display state) rows ≡ some rows'
      → IsApproved v rows'
      → IsApproved v rows ⊎ (v ≡ u) × (state ≡ approved)
  IsApproved-stated v u display state e (row, m, i, a) =
      elim (Has-create db (stated_row u display state) rows row e m) [
        | inl q ↦ inr (
          sym i ∙ ap (λ (r : Access). r.telegram_user_id) q,
          ap (λ (r : Access). r.state) (sym q) ∙ a,
        )
        | inr m' ↦ inl (row, m', i, a)
      ]

module _ (db : Table Access) (rows : List Access) where
  -- After setAccessState has succeeded, an approved user was approved before, or is the user whose state was set, and
  -- the state is approved.
  pub set_access_state-IsApproved :
      (v u : ℤ) (display : Text) (state : AccessState) {rows' : List Access}
      → set_access_state db rows u display state ≡ some rows'
      → IsApproved v rows'
      → IsApproved v rows ⊎ (v ≡ u) × (state ≡ approved)
  unfolding set_access_state
  set_access_state-IsApproved v u display state {rows'} h a =
      elim (Option-cases (db.update (has_id u) (put_state display state) rows)) [
        | inl e ↦ absurd (cc (rw (e, set_access_state) at h))
        | inr (mid, e) ↦ elim (Bool-cases (ltb 0 (length (filter (has_id u) rows)))) [
          | inl f ↦
              let q : mid ≡ rows' = some_eq (rw (e, f, set_access_state) at h) in
              IsApproved-put db rows v u display state e (rw q a)
          | inr f ↦
              elim (IsApproved-stated db mid v u display state (rw (e, f, set_access_state) at h)
                a) [ inl b ↦ IsApproved-put db rows v u display state e b | inr c ↦ inr c ]
        ]
      ]
