-- ===== src/Maintenance/Inserts.antt =====
-- maintenance.go: what a run of inserts leaves in a table.
use ccc_fork.Base.{
  ◌≡◌, ◌⊎◌, inl, inr, refl, sym, ap, some, some_eq, List, [], ◌∷◌, Has, Has-append, Has-append_left,
  Has-append_right, Has-create, Option-cases, Table,
}
use ccc_fork.Maintenance.Compaction.{create_all}

module _ {A Row : Type 0} (db : Table Row) (make : List Row → A → Row) where
  Has-created :
      (r : Row) (rows rows' : List Row) (x : Row)
      → db.create r rows ≡ some rows'
      → Has x (r ∷ rows)
      → Has x rows'
  Has-created r rows rows' x e h =
      let (before, after, a, b) = db.create_lem r rows rows' e in
      rw b (elim h [
        | inl q ↦ Has-append_right x before (r ∷ after) (inl q)
        | inr m ↦ elim (Has-append x before after (rw a at m)) [
          | inl k ↦ Has-append_left x before (r ∷ after) k
          | inr k ↦ Has-append_right x before (r ∷ after) (inr k)
        ]
      ])

  -- What stands in the table after inserts: what stood there, and a row for each entry.
  pub Has-create_all :
      (entries : List A) (rows rows' : List Row) (x : Row)
      → create_all db make entries rows ≡ some rows'
      → Has x rows'
      → Has x rows ⊎ ((a : A) × (at : List Row) × Has a entries × (x ≡ make at a))
  unfolding create_all
  Has-create_all [] rows rows' x e h = inl (rw (some_eq e) h)
  Has-create_all (a ∷ entries) rows rows' x e h =
      elim (Option-cases (db.create (make rows a) rows)) [
        | inl f ↦ absurd (cc (rw (f, create_all) at e))
        | inr (mid, f) ↦ elim (Has-create_all entries mid rows' x (rw (f, create_all) at e) h) [
          | inl m ↦ elim (Has-create db (make rows a) rows x f m) [
            | inl q ↦ inr (a, rows, inl refl, q)
            | inr k ↦ inl k
          ]
          | inr (b, at, m, q) ↦ inr (b, at, inr m, q)
        ]
      ]

  pub Has-create_all_old :
      (entries : List A) (rows rows' : List Row) (x : Row)
      → create_all db make entries rows ≡ some rows'
      → Has x rows
      → Has x rows'
  unfolding create_all
  Has-create_all_old [] rows rows' x e h = rw (sym (some_eq e)) h
  Has-create_all_old (a ∷ entries) rows rows' x e h =
      elim (Option-cases (db.create (make rows a) rows)) [
        | inl f ↦ absurd (cc (rw (f, create_all) at e))
        | inr (mid, f) ↦
            Has-create_all_old entries mid rows' x (rw (f, create_all) at e)
              (Has-created (make rows a) rows mid x f (inr h))
      ]

  pub Has-create_all_new :
      (entries : List A) (rows rows' : List Row) (a : A)
      → create_all db make entries rows ≡ some rows'
      → Has a entries
      → (at : List Row) × Has (make at a) rows'
  unfolding create_all
  Has-create_all_new [] rows rows' a e h = absurd h
  Has-create_all_new (b ∷ entries) rows rows' a e h =
      elim (Option-cases (db.create (make rows b) rows)) [
        | inl f ↦ absurd (cc (rw (f, create_all) at e))
        | inr (mid, f) ↦
            let rest = rw (f, create_all) at e in
            elim h [
              | inl q ↦ (
                rows,
                Has-create_all_old entries mid rows' (make rows a) rest
                    (Has-created (make rows b) rows mid (make rows a) f (inl (ap (make rows) q))),
              )
              | inr m ↦ Has-create_all_new entries mid rows' a rest m
            ]
      ]
