-- ===== src/Access/Replies.antt =====
-- access.go: how often a stranger is answered, and how many may wait.
use ccc_fork.Base.{
  ℕ, ◌≤◌, ◌<◌, Bool, some, List, ◌≡◌, inl, inr, arith, Has, ℤ, Text, Table, first, Has-write,
  Has-create, write, Bool-cases, Option-cases, leb,
}
use ccc_fork.Access.{
  Access, Config, blocked, state_eq, has_id, refresh, new_row, handle_new_user, handle_known_user,
  handle_unknown_user, gate, classify_access, is_denied, max_pending_pairs, max_pair_replies,
  pending_pair_count,
}

-- No row counts more answers than a stranger gets.
abbrev pub IsCapped : List Access → Type 0
IsCapped rows = (r : Access) → Has r rows → r.replies ≤ max_pair_replies

module _ (db : Table Access) (rows : List Access) (capped : IsCapped rows) where
  IsCapped-write :
      (u : ℤ) (display : Text) (now : ℕ) (fresh : Text) (known : Access)
      → known.replies < max_pair_replies
      → IsCapped (write db (has_id u) (refresh display now fresh known) rows)
  unfolding refresh
  IsCapped-write u display now fresh known h r m =
      let (old, m', c) = Has-write db (has_id u) (refresh display now fresh known) rows r m in
      elim c [ inl q ↦ rw q (capped old m') | inr (_, q) ↦ rw q (omega arith) ]

  IsCapped-handle_known_user :
      (u : ℤ) (display : Text) (now : ℕ) (fresh : Text) (known : Access)
      → IsCapped (handle_known_user db rows u display now fresh known).1
  unfolding handle_known_user
  IsCapped-handle_known_user u display now fresh known =
      elim (Bool-cases (state_eq known.state blocked)) [
        | inl e ↦ rw e capped
        | inr e ↦ elim (Bool-cases (leb max_pair_replies known.replies)) [
          | inl f ↦ rw (e, f) capped
          | inr f ↦ rw (e, f) (IsCapped-write u display now fresh known (ground arith))
        ]
      ]

  IsCapped-create :
      (row : Access) {rows' : List Access}
      → row.replies ≤ max_pair_replies
      → db.create row rows ≡ some rows'
      → IsCapped rows'
  IsCapped-create row fits e r m = elim (Has-create db row rows r e m) [
    | inl q ↦ rw q fits
    | inr m' ↦ capped r m'
  ]

  IsCapped-handle_new_user :
      (u : ℤ) (display : Text) (now : ℕ) (fresh : Text)
      → IsCapped (handle_new_user db rows u display now fresh).1
  unfolding handle_new_user
  IsCapped-handle_new_user u display now fresh =
      elim (Bool-cases (leb max_pending_pairs (pending_pair_count db rows now))) [
        | inl e ↦ rw e capped
        | inr e ↦ elim (Option-cases (db.create (new_row u display now fresh) rows)) [
          | inl f ↦ rw (e, f, handle_new_user) capped
          | inr (rows', f) ↦
              rw (e, f, handle_new_user)
                (IsCapped-create (new_row u display now fresh) (omega arith) f)
        ]
      ]

  IsCapped-handle_unknown_user :
      (u : ℤ) (display : Text) (now : ℕ) (fresh : Text)
      → IsCapped (handle_unknown_user db rows u display now fresh).1
  unfolding handle_unknown_user
  IsCapped-handle_unknown_user u display now fresh =
      elim (Option-cases (first db (has_id u) rows)) [
        | inl e ↦ rw (e, handle_unknown_user) (IsCapped-handle_new_user u display now fresh)
        | inr (known, e) ↦
            rw (e, handle_unknown_user) (IsCapped-handle_known_user u display now fresh known)
      ]

  -- If no row counts more than two answers to its user, then after the gate has handled an update, whatever the
  -- update, no row counts more than two.
  pub gate-IsCapped :
      (cfg : Config) (u : ℤ) (display : Text) (chat : ℤ) (is_dm : Bool) (now : ℕ) (fresh : Text)
      → IsCapped (gate db rows cfg u display chat is_dm now fresh).rows
  unfolding gate
  gate-IsCapped cfg u display chat is_dm now fresh =
      elim (Bool-cases (is_denied (classify_access db rows (some cfg) u))) [
        | inl e ↦ elim (Bool-cases is_dm) [
          | inl f ↦ rw (e, f) (IsCapped-handle_unknown_user u display now fresh)
          | inr f ↦ rw (e, f) capped
        ]
        | inr e ↦ rw e capped
      ]
