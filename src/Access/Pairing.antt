-- ===== src/Access/Pairing.antt =====
-- access.go: what `/access pair <code>` and the Allow button do.
use ccc_fork.Base.{
  ℕ, true, false, List, ◌≡◌, ◌⊎◌, inl, inr, arith, Has, ℤ, Text, text_eq_iff, is_empty, to_lower,
  trim_space, Table, first, first-Has, Bool-cases, Option-cases,
}
use ccc_fork.Access.{
  Access, pending, approved, approve_row, approve_by_code, set_access_state, approval, asks_with,
  is_over,
}
use ccc_fork.Access.Safety.{IsApproved, set_access_state-IsApproved}

-- The request that a code answers, and what approving it may change.
pub record Grants (rows : List Access) (rows' : List Access) (typed : Text) (now : ℕ) : Type 0 where
  pub request : Access
  pub stands : Has request rows
  pub same_code : request.pair_code ≡ to_lower (trim_space typed)
  pub is_pending : request.state ≡ pending
  pub in_time : is_over now request.code_expires_at ≡ false
  pub only_them : (v : ℤ) → IsApproved v rows' → IsApproved v rows ⊎ (v ≡ request.telegram_user_id)

module _ (db : Table Access) (rows : List Access) where
  approve_row-only :
      (row : Access) {r : Access} {rows' : List Access}
      → approve_row db rows row ≡ approval r rows'
      → (v : ℤ) → IsApproved v rows'
      → IsApproved v rows ⊎ (v ≡ row.telegram_user_id)
  unfolding approve_row
  approve_row-only row {r} {rows'} h v a =
      elim (Option-cases (set_access_state db rows row.telegram_user_id row.display approved)) [
        | inl e ↦ absurd (cc (rw (e, approve_row) at h))
        | inr (mid, e) ↦
            let q : approval (record row { state = approved }) mid ≡ approval r rows' =
              rw (e, approve_row) at h in
            elim (set_access_state-IsApproved db rows v row.telegram_user_id row.display approved e
              (rw (rows_eq q) a)) [ inl old ↦ inl old | inr (same, _) ↦ inr same ]
      ]
    where
      rows_eq : {a b : Access} {xs ys : List Access} → approval a xs ≡ approval b ys → xs ≡ ys
      rows_eq p = cc

  asks_with-eq :
      (code : Text) (row : Access)
      → asks_with code row ≡ true
      → (row.pair_code ≡ code) × (row.state ≡ pending)
  asks_with-eq code row h = ((text_eq_iff row.pair_code code).0 (ground arith), ground arith)

  -- If a typed code approves, a pending request with that code, spaces and capitals aside, stood in the table and had
  -- not expired, and nobody but its user can have become approved.
  pub approve_by_code-Grants :
      (typed : Text) (now : ℕ) {r : Access} {rows' : List Access}
      → approve_by_code db rows typed now ≡ approval r rows'
      → Grants rows rows' typed now
  unfolding approve_by_code
  approve_by_code-Grants typed now {r} {rows'} h =
      elim (Bool-cases (is_empty (to_lower (trim_space typed)))) [
        | inl e ↦ absurd (cc (rw (e, approve_by_code) at h))
        | inr e ↦ elim (Option-cases (first db (asks_with (to_lower (trim_space typed))) rows)) [
          | inl f ↦ absurd (cc (rw (e, f, approve_by_code) at h))
          | inr (row, f) ↦ elim (Bool-cases (is_over now row.code_expires_at)) [
            | inl g ↦ absurd (cc (rw (e, f, g, approve_by_code) at h))
            | inr g ↦
                let (m, t) = first-Has db (asks_with (to_lower (trim_space typed))) rows f in
                let (c, p) = asks_with-eq (to_lower (trim_space typed)) row t in
                record {
                  request = row;
                  stands = m;
                  same_code = c;
                  is_pending = p;
                  in_time = g;
                  only_them = approve_row-only row (rw (e, f, g, approve_by_code) at h);
                }
          ]
        ]
      ]
