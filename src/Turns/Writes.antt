-- ===== src/Turns/Writes.antt =====
-- Writes to the rows of one key, one after another: what they clear, and what they keep.
use ccc_fork.Base.{
  ℕ, ◌≡◌, ◌≢◌, ◌⊎◌, inl, inr, refl, sym, ap, ◌∙◌, Bool, true, false, List, [], ◌∷◌, filter,
  if◌then◌else◌, Has, Has-map, Has-map_intro, Has-filter, Bool-cases, Table, Answers, update_rows,
  write,
}

module _ {Row : Type 0} (db : Table Row) (answers : Answers db) where
  write-answers :
      (p : Row → Bool) (f : Row → Row) (rows : List Row) → write db p f rows ≡ update_rows p f rows
  unfolding write
  write-answers p f rows = rw (answers.update_answers p f rows, write) refl

  -- A row after a write that answers is an old one that the condition passed over, or the image of one that it picked.
  pub Has-write_cases :
      (p : Row → Bool) (f : Row → Row) (rows : List Row) (r : Row)
      → Has r (write db p f rows)
      → (old : Row) × Has old rows × ((p old ≡ false) × (r ≡ old) ⊎ (p old ≡ true) × (r ≡ f old))
  Has-write_cases p f rows r h =
      let (old, m, e) = Has-map (λ s. if p s then f s else s) r rows (rw write-answers at h) in
      (
        old,
        m,
        elim (Bool-cases (p old)) [ inl t ↦ inr (t, rw t at e) | inr t ↦ inl (t, rw t at e) ],
      )

  -- A row that the condition passes over stays.
  pub Has-write_intro :
      (p : Row → Bool) (f : Row → Row) (rows : List Row) (r : Row)
      → Has r rows
      → p r ≡ false
      → Has r (write db p f rows)
  Has-write_intro p f rows r h e =
      rw write-answers (rw e at (Has-map_intro (λ s. if p s then f s else s) r rows h))

-- No two rows have one key.
abbrev pub DistinctBy : {Row : Type 0} → (Row → ℕ) → List Row → Type 0
DistinctBy key [] = Unit {0}
DistinctBy {Row} key (r ∷ rows) = ((s : Row) → Has s rows → key s ≢ key r) × DistinctBy key rows

module _ {Row : Type 0} (key : Row → ℕ) where
  pub DistinctBy-filter :
      (p : Row → Bool) (rows : List Row) → DistinctBy key rows → DistinctBy key (filter p rows)
  DistinctBy-filter p [] d = tt
  DistinctBy-filter p (r ∷ rows) d = elim (Bool-cases (p r)) [
    | inl e ↦ rw e (λ s m. d.0 s (Has-filter p s rows m).0, DistinctBy-filter p rows d.1)
    | inr e ↦ rw e (DistinctBy-filter p rows d.1)
  ]

  pub eq_of_key :
      (rows : List Row)
      → DistinctBy key rows
      → (r s : Row) → Has r rows
      → Has s rows
      → key r ≡ key s
      → r ≡ s
  eq_of_key [] d r s h k e = absurd h
  eq_of_key (x ∷ rows) d r s (inl a) (inl b) e = sym a ∙ b
  eq_of_key (x ∷ rows) d r s (inl a) (inr b) e = absurd (d.0 s b (sym e ∙ ap key (sym a)))
  eq_of_key (x ∷ rows) d r s (inr a) (inl b) e = absurd (d.0 r a (e ∙ ap key (sym b)))
  eq_of_key (x ∷ rows) d r s (inr a) (inr b) e = eq_of_key rows d.1 r s a b e
