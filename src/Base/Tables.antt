-- ===== src/Base/Tables.antt =====
-- The database, which the program reaches through GORM: a table's contents are its rows in the order of
-- the primary key, and each statement is an operation of `Table` that may fail. A statement that
-- fails leaves the rows as they were.
use mathlib.Core.List.{List, [], ◌∷◌, ◌++◌, map, append-nil}
use mathlib.Core.Path.{◌≡◌, refl, sym}
use mathlib.Core.Logic.{◌⊎◌, inl, inr}
use mathlib.Core.Bool.{Bool, true, not}
use mathlib.Core.Option.{Option, none, some}
use Prim.Native.Nat.{ℕ}
use native.Mathlib.Omega.{arith}
use ccc_fork.Base.Tests.{if◌then◌else◌, Option-cases}
use ccc_fork.Base.Lists.{
  length, head?, filter, Has, Has-append, Has-append_left, Has-append_right, Has-filter, Has-map,
  head?-Has,
}

abbrev pub update_rows {ℓ} : {Row : Type ℓ} → (Row → Bool) → (Row → Row) → List Row → List Row
update_rows p f rows = map (λ r. if p r then f r else r) rows

pub record Table (Row : Type 0) : Type 0 where
  -- SELECT … WHERE p ORDER BY the primary key
  pub select : (Row → Bool) → List Row → Option (List Row)
  -- UPDATE … SET f WHERE p
  pub update : (Row → Bool) → (Row → Row) → List Row → Option (List Row)
  -- DELETE … WHERE p
  pub delete : (Row → Bool) → List Row → Option (List Row)
  -- INSERT
  pub create : Row → List Row → Option (List Row)
  pub select_lem :
      (p : Row → Bool) (rows : List Row) (found : List Row)
      → select p rows ≡ some found
      → found ≡ filter p rows
  pub update_lem :
      (p : Row → Bool) (f : Row → Row) (rows : List Row) (rows' : List Row)
      → update p f rows ≡ some rows'
      → rows' ≡ update_rows p f rows
  pub delete_lem :
      (p : Row → Bool) (rows : List Row) (rows' : List Row)
      → delete p rows ≡ some rows'
      → rows' ≡ filter (λ r. not (p r)) rows
  -- the new row stands somewhere in the key order, and nothing else has changed
  pub create_lem :
      (r : Row) (rows : List Row) (rows' : List Row)
      → create r rows ≡ some rows'
      → (before : List Row) × (after : List Row) × (rows ≡ before ++ after)
        × (rows' ≡ before ++ r ∷ after)

-- No statement fails.
pub record Answers {Row : Type 0} (db : Table Row) : Type 0 where
  pub select_answers : (p : Row → Bool) (rows : List Row) → db.select p rows ≡ some (filter p rows)
  pub update_answers :
      (p : Row → Bool) (f : Row → Row) (rows : List Row)
      → db.update p f rows ≡ some (update_rows p f rows)
  pub delete_answers :
      (p : Row → Bool) (rows : List Row) → db.delete p rows ≡ some (filter (λ r. not (p r)) rows)

module _ {Row : Type 0} (db : Table Row) where
  -- db.Where(p).First(&row): the first match in key order, `none` for no match or a failure
  unfoldable pub first : (Row → Bool) → List Row → Option Row
  first p rows = elim (db.select p rows) [ none ↦ none | some found ↦ head? found ]

  -- db.Model(…).Where(p).Count(&n), its error ignored: `n` keeps its zero
  unfoldable pub count : (Row → Bool) → List Row → ℕ
  count p rows = elim (db.select p rows) [ none ↦ 0 | some found ↦ length found ]

  -- db.Model(…).Where(p).Updates(f), its error ignored
  unfoldable pub write : (Row → Bool) → (Row → Row) → List Row → List Row
  write p f rows = elim (db.update p f rows) [ none ↦ rows | some rows' ↦ rows' ]

  pub first-Has :
      (p : Row → Bool) (rows : List Row) {r : Row}
      → first p rows ≡ some r
      → Has r rows × (p r ≡ true)
  unfolding first
  first-Has p rows {r} h = elim (Option-cases (db.select p rows)) [
    | inl e ↦ absurd (cc)
    | inr (found, e) ↦
        let q : head? found ≡ some r = rw (e, first) at h in
        let s : Has r (filter p rows) = rw (db.select_lem p rows found e) at (head?-Has found q) in
        Has-filter p r rows s
  ]

  pub Has-update :
      (p : Row → Bool) (f : Row → Row) (rows : List Row) {rows' : List Row} (r : Row)
      → db.update p f rows ≡ some rows'
      → Has r rows'
      → (old : Row) × Has old rows × ((r ≡ old) ⊎ (p old ≡ true) × (r ≡ f old))
  Has-update p f rows {rows'} r e h =
      let (old, m, eq) = Has-map _ r rows (rw (db.update_lem p f rows rows' e) at h) in
      (old, m, ground (arith, eq))

  -- A row of the table after a write is an old row, or the image of one that the condition picked.
  pub Has-write :
      (p : Row → Bool) (f : Row → Row) (rows : List Row) (r : Row)
      → Has r (write p f rows)
      → (old : Row) × Has old rows × ((r ≡ old) ⊎ (p old ≡ true) × (r ≡ f old))
  unfolding write
  Has-write p f rows r h = elim (Option-cases (db.update p f rows)) [
    | inl e ↦ (r, rw (e, write) at h, inl refl)
    | inr (rows', e) ↦ let q : Has r rows' = rw (e, write) at h in Has-update p f rows r e q
  ]

  pub Has-create :
      (r : Row) (rows : List Row) {rows' : List Row} (x : Row)
      → db.create r rows ≡ some rows'
      → Has x rows'
      → (x ≡ r) ⊎ Has x rows
  Has-create r rows {rows'} x e h =
      let (before, after, e₁, e₂) = db.create_lem r rows rows' e in
      elim (Has-append x before (r ∷ after) (rw e₂ at h)) [
        | inl m ↦ inr (rw e₁ (Has-append_left x before after m))
        | inr (inl q) ↦ inl (sym q)
        | inr (inr m) ↦ inr (rw e₁ (Has-append_right x before after m))
      ]

pub some_eq : {A : Type 0} {a b : A} → some a ≡ some b → a ≡ b
some_eq h = cc

-- The table as a list in memory, in which every statement succeeds.
abbrev pub list_table : (Row : Type 0) → Table Row
list_table Row = record {
  select = λ p rows. some (filter p rows);
  update = λ p f rows. some (update_rows p f rows);
  delete = λ p rows. some (filter (λ r. not (p r)) rows);
  create = λ r rows. some (rows ++ r ∷ []);
  select_lem = λ p rows found e. sym (some_eq e);
  update_lem = λ p f rows rows' e. sym (some_eq e);
  delete_lem = λ p rows rows' e. sym (some_eq e);
  create_lem = λ r rows rows' e. (rows, [], sym (append-nil rows), sym (some_eq e));
}

pub list_table-Answers : (Row : Type 0) → Answers (list_table Row)
list_table-Answers Row = record {
  select_answers = λ p rows. refl;
  update_answers = λ p f rows. refl;
  delete_answers = λ p rows. refl;
}
