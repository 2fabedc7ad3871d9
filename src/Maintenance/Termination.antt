-- ===== src/Maintenance/Termination.antt =====
-- maintenance.go: the loop over pages of trimTurnBodies comes to an end.
use ccc_fork.Base.{
  ℕ, zero, suc, ◌+◌, ◌≤◌, ◌<◌, ◌≡◌, ◌⊎◌, inl, inr, refl, ap, ◌∙◌, arith, Bool, true, false, not,
  ◌&&◌, some, List, [], ◌∷◌, length, filter, take, ltb, if◌then◌else◌, Has, Has-filter, Bool-cases,
  Option-cases, Table, update_rows,
}
use ccc_fork.Maintenance.{
  TurnBody, Trimming, trim_row, trim_page, trim_turn_bodies, trim_body, wants_trim, has_turn_id,
  page_size,
}

-- How many rows lie beyond the cursor.
beyond : ℕ → List TurnBody → ℕ
beyond after rows = length (filter (λ (t : TurnBody). ltb after t.id) rows)

tally : ℕ → TurnBody → ℕ
tally after t = if ltb after t.id then 1 else 0

beyond-cons :
    (after : ℕ) (t : TurnBody) (rows : List TurnBody)
    → beyond after (t ∷ rows) ≡ tally after t + beyond after rows
unfolding beyond tally
beyond-cons after t rows = elim (Bool-cases (ltb after t.id)) [
  | inl e ↦ rw e (omega arith)
  | inr e ↦ rw e (omega arith)
]

tally-le : (a b : ℕ) (t : TurnBody) → a ≤ b → tally b t ≤ tally a t
unfolding tally
tally-le a b t h = ground (arith, h)

beyond-le : (a b : ℕ) (rows : List TurnBody) → a ≤ b → beyond b rows ≤ beyond a rows
beyond-le a b [] h = unfold beyond in omega arith
beyond-le a b (t ∷ rows) h =
    omega
      (arith, beyond-cons a t rows, beyond-cons b t rows, tally-le a b t h, beyond-le a b rows h)

-- Past the id of a row that was beyond, there is one less.
beyond-lt :
    (a : ℕ) (r : TurnBody) (rows : List TurnBody)
    → Has r rows
    → a < r.id
    → beyond r.id rows < beyond a rows
beyond-lt a r [] m h = absurd m
beyond-lt a r (t ∷ rows) (inl q) h =
    let same : t.id ≡ r.id = ap (λ (x : TurnBody). x.id) q in
    let (gone, there) : (tally r.id t ≡ 0) × (tally a t ≡ 1) =
      unfold tally in ground (arith, same, h) in
    omega (
      arith,
      beyond-cons a t rows,
      beyond-cons r.id t rows,
      gone,
      there,
      beyond-le a r.id rows (omega (arith, h)),
    )
beyond-lt a r (t ∷ rows) (inr m) h = omega (
  arith,
  beyond-cons a t rows,
  beyond-cons r.id t rows,
  tally-le a r.id t (omega (arith, h)),
  beyond-lt a r rows m h,
)

tally-same : (a : ℕ) (t u : TurnBody) → t.id ≡ u.id → tally a t ≡ tally a u
tally-same a t u e = unfold tally in rw e refl

beyond-le_length : (a : ℕ) (rows : List TurnBody) → beyond a rows ≤ length rows
beyond-le_length a [] = unfold beyond in omega arith
beyond-le_length a (t ∷ rows) =
    omega (arith, beyond-cons a t rows, tally-le_one a t, beyond-le_length a rows)
  where
    tally-le_one : (a : ℕ) (t : TurnBody) → tally a t ≤ 1
    tally-le_one a t = unfold tally in ground arith

-- A write that keeps ids.
beyond-update :
    (a : ℕ) (p : TurnBody → Bool) (f : TurnBody → TurnBody) (rows : List TurnBody)
    → ((t : TurnBody) → (f t).id ≡ t.id)
    → beyond a (update_rows p f rows) ≡ beyond a rows
beyond-update a p f [] i = refl
beyond-update a p f (t ∷ rows) i = omega (
  arith,
  beyond-cons a (if p t then f t else t) (update_rows p f rows),
  beyond-cons a t rows,
  tally-same a (if p t then f t else t) t (kept (Bool-cases (p t))),
  beyond-update a p f rows i,
)
  where
    kept : (p t ≡ true) ⊎ (p t ≡ false) → (if p t then f t else t).id ≡ t.id
    kept (inl e) = rw e (i t)
    kept (inr e) = rw e refl

Has-take : (n : ℕ) (x : TurnBody) (rows : List TurnBody) → Has x (take n rows) → Has x rows
Has-take zero x rows h = absurd h
Has-take (suc n) x [] h = absurd h
Has-take (suc n) x (t ∷ rows) (inl q) = inl q
Has-take (suc n) x (t ∷ rows) (inr h) = inr (Has-take n x rows h)

module _ (db : Table TurnBody) where
  trim_row-after : (t : TurnBody) (r : Trimming) → (trim_row db t r).after ≡ t.id
  unfolding trim_row
  trim_row-after t r = elim (Bool-cases (not (trim_body t.input).1 && not (trim_body t.output).1)) [
    | inl e ↦ rw e refl
    | inr e ↦
        let f : TurnBody → TurnBody =
          λ s. record s { input = (trim_body t.input).0; output = (trim_body t.output).0 } in
        elim (Option-cases (db.update (has_turn_id t.id) f r.rows)) [
          | inl g ↦ rw (e, g) refl
          | inr (rows, g) ↦ rw (e, g) refl
        ]
  ]

  trim_row-beyond :
      (a : ℕ) (t : TurnBody) (r : Trimming) → beyond a (trim_row db t r).rows ≡ beyond a r.rows
  unfolding trim_row
  trim_row-beyond a t r =
      elim (Bool-cases (not (trim_body t.input).1 && not (trim_body t.output).1)) [
        | inl e ↦ rw e refl
        | inr e ↦
            let f : TurnBody → TurnBody =
              λ s. record s { input = (trim_body t.input).0; output = (trim_body t.output).0 } in
            elim (Option-cases (db.update (has_turn_id t.id) f r.rows)) [
              | inl g ↦ rw (e, g) refl
              | inr (rows, g) ↦
                  rw (e, g)
                    (ap (beyond a) (db.update_lem (has_turn_id t.id) f r.rows rows g)
                      ∙ beyond-update a (has_turn_id t.id) f r.rows (λ s. refl))
            ]
      ]

  trim_page-beyond :
      (a : ℕ) (page : List TurnBody) (r : Trimming)
      → beyond a (trim_page db page r).rows ≡ beyond a r.rows
  unfolding trim_page
  trim_page-beyond a [] r = refl
  trim_page-beyond a (t ∷ page) r =
      trim_page-beyond a page (trim_row db t r) ∙ trim_row-beyond a t r

  -- After a page the cursor is the id of one of its rows, unless it is empty.
  trim_page-after :
      (page : List TurnBody) (r : Trimming)
      → (page ≡ []) ⊎ ((t : TurnBody) × Has t page × ((trim_page db page r).after ≡ t.id))
  unfolding trim_page
  trim_page-after [] r = inl refl
  trim_page-after (t ∷ page) r = elim (trim_page-after page (trim_row db t r)) [
    | inl e ↦ inr (t, inl refl, rw e (trim_row-after t r))
    | inr (u, m, e) ↦ inr (u, inr m, e)
  ]

  module _ (cutoff : ℕ) where
    page-progress :
        (r : Trimming) (found : List TurnBody)
        → db.select (wants_trim r.after cutoff) r.rows ≡ some found
        → ltb (length (take page_size found)) page_size ≡ false
        → let s = trim_page db (take page_size found) r in
          beyond s.after s.rows < beyond r.after r.rows
    page-progress r found e f =
        let page = take page_size found in
        let s = trim_page db page r in
        elim (trim_page-after page r) [
          | inl g ↦ absurd (cc (rw g at f))
          | inr (t, m, g) ↦
              let (there, w) = Has-filter (wants_trim r.after cutoff) t r.rows (
                rw (db.select_lem (wants_trim r.after cutoff) r.rows found e) at
                  (Has-take page_size t found m)) in
              omega (
                arith,
                trim_page-beyond s.after page r,
                ap (λ a. beyond a r.rows) g,
                beyond-lt r.after t r.rows there (ground (arith, w)),
              )
        ]

    ends-within :
        (pages : ℕ) (r : Trimming)
        → beyond r.after r.rows < pages
        → (s : Trimming) × (trim_turn_bodies db pages cutoff r ≡ some s)
    unfolding trim_turn_bodies
    ends-within zero r h = absurd (omega (arith, h))
    ends-within (suc pages) r h =
        elim (Option-cases (db.select (wants_trim r.after cutoff) r.rows)) [
          | inl e ↦ rw (e, trim_turn_bodies) (_, refl)
          | inr (found, e) ↦
              let page = take page_size found in
              elim (Bool-cases (ltb (length page) page_size)) [
                | inl f ↦ rw (e, trim_turn_bodies, f) (_, refl)
                | inr f ↦
                    rw (e, trim_turn_bodies, f)
                      (ends-within pages (trim_page db page r)
                        (omega (arith, h, page-progress r found e f)))
              ]
        ]

    -- The trimming of old turns ends, whichever statements fail: with more pages allowed than there are turns, it returns, wherever the cursor starts.
    pub trim_turn_bodies-ends :
        (pages : ℕ) (r : Trimming)
        → length r.rows < pages
        → (s : Trimming) × (trim_turn_bodies db pages cutoff r ≡ some s)
    trim_turn_bodies-ends pages r h =
        ends-within pages r (omega (arith, h, beyond-le_length r.after r.rows))
