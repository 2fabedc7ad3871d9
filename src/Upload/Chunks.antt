-- ===== src/Upload/Chunks.antt =====
-- Lists read by position, writes inside them, and sets of numbers below a bound: what the assembly of an upload
-- from its chunks rests on.
use ccc_fork.Base.{
  ℕ, zero, suc, ◌+◌, ◌-◌, ◌≤◌, ◌<◌, ◌≡◌, ◌⊎◌, inl, inr, refl, sym, ap, ◌∙◌, arith, Bool, true,
  false, not, List, [], ◌∷◌, ◌++◌, length, length-append, get_elem?, take, drop, filter, any, Has,
  Has-filter, ◌==◌, ==_iff, Bool-cases,
}
use ccc_fork.Upload.{write_at, mark}

module _ {A : Type 0} where
  pub length-take_le : (n : ℕ) (xs : List A) → n ≤ length xs → length (take n xs) ≡ n
  length-take_le zero xs h = refl
  length-take_le (suc n) [] h = absurd (omega arith)
  length-take_le (suc n) (x ∷ xs) h = ap suc (length-take_le n xs (omega arith))

  pub length-take_ge : (n : ℕ) (xs : List A) → length xs ≤ n → length (take n xs) ≡ length xs
  length-take_ge zero [] h = refl
  length-take_ge zero (x ∷ xs) h = absurd (omega arith)
  length-take_ge (suc n) [] h = refl
  length-take_ge (suc n) (x ∷ xs) h = ap suc (length-take_ge n xs (omega arith))

  pub length-drop : (n : ℕ) (xs : List A) → length (drop n xs) ≡ length xs - n
  length-drop zero xs = omega arith
  length-drop (suc n) [] = omega arith
  length-drop (suc n) (x ∷ xs) = omega (arith, length-drop n xs)

  pub get_elem?-append_left :
      (xs ys : List A) (i : ℕ) → i < length xs → get_elem? (xs ++ ys) i ≡ get_elem? xs i
  get_elem?-append_left [] ys i h = absurd (omega arith)
  get_elem?-append_left (x ∷ xs) ys zero h = refl
  get_elem?-append_left (x ∷ xs) ys (suc i) h = get_elem?-append_left xs ys i (omega arith)

  pub get_elem?-append_right :
      (xs ys : List A) (i : ℕ)
      → length xs ≤ i
      → get_elem? (xs ++ ys) i ≡ get_elem? ys (i - length xs)
  get_elem?-append_right [] ys i h = ap (get_elem? ys) (omega arith)
  get_elem?-append_right (x ∷ xs) ys zero h = absurd (omega arith)
  get_elem?-append_right (x ∷ xs) ys (suc i) h =
      get_elem?-append_right xs ys i (omega arith) ∙ ap (get_elem? ys) (omega arith)

  pub get_elem?-take :
      (n : ℕ) (xs : List A) (i : ℕ) → i < n → get_elem? (take n xs) i ≡ get_elem? xs i
  get_elem?-take zero xs i h = absurd (omega arith)
  get_elem?-take (suc n) [] i h = refl
  get_elem?-take (suc n) (x ∷ xs) zero h = refl
  get_elem?-take (suc n) (x ∷ xs) (suc i) h = get_elem?-take n xs i (omega arith)

  pub get_elem?-drop :
      (n : ℕ) (xs : List A) (i : ℕ) → get_elem? (drop n xs) i ≡ get_elem? xs (n + i)
  get_elem?-drop zero xs i = ap (get_elem? xs) (omega arith)
  get_elem?-drop (suc n) [] i = refl
  get_elem?-drop (suc n) (x ∷ xs) i =
      let e : suc (n + i) ≡ suc n + i = omega arith in
      get_elem?-drop n xs i ∙ ap (get_elem? (x ∷ xs)) e

  -- Two lists of one length that agree at every position are equal.
  pub get_elem?-ext :
      (xs ys : List A)
      → length xs ≡ length ys
      → ((i : ℕ) → i < length ys → get_elem? xs i ≡ get_elem? ys i)
      → xs ≡ ys
  get_elem?-ext [] [] e h = refl
  get_elem?-ext [] (y ∷ ys) e h = absurd (omega arith)
  get_elem?-ext (x ∷ xs) [] e h = absurd (omega arith)
  get_elem?-ext (x ∷ xs) (y ∷ ys) e h =
      cc (h 0 (omega arith), get_elem?-ext xs ys (omega arith) (λ i l. h (suc i) (omega arith)))

module _ (bytes : List ℕ) (offset : ℕ) (raw : List ℕ)
    (fits : offset + length raw ≤ length bytes) where
  pub length-write_at : length (write_at bytes offset raw) ≡ length bytes
  unfolding write_at
  length-write_at = omega (
    arith,
    length-append (take offset bytes) (raw ++ drop (offset + length raw) bytes),
    length-append raw (drop (offset + length raw) bytes),
    length-take_le offset bytes (omega arith),
    length-drop (offset + length raw) bytes,
  )

  pub get_elem?-write_at_in :
      (i : ℕ)
      → offset ≤ i
      → i < offset + length raw
      → get_elem? (write_at bytes offset raw) i ≡ get_elem? raw (i - offset)
  unfolding write_at
  get_elem?-write_at_in i lo hi =
      let e : length (take offset bytes) ≡ offset = length-take_le offset bytes (omega arith) in
      get_elem?-append_right (take offset bytes) (raw ++ drop (offset + length raw) bytes) i
        (omega arith)
      ∙ rw e
          (get_elem?-append_left raw (drop (offset + length raw) bytes) (i - offset) (omega arith))

  pub get_elem?-write_at_out :
      (i : ℕ)
      → (i < offset) ⊎ (offset + length raw ≤ i)
      → get_elem? (write_at bytes offset raw) i ≡ get_elem? bytes i
  unfolding write_at
  get_elem?-write_at_out i (inl lo) =
      let e : length (take offset bytes) ≡ offset = length-take_le offset bytes (omega arith) in
      get_elem?-append_left (take offset bytes) (raw ++ drop (offset + length raw) bytes) i
        (omega arith)
      ∙ get_elem?-take offset bytes i lo
  get_elem?-write_at_out i (inr hi) =
      let e : length (take offset bytes) ≡ offset = length-take_le offset bytes (omega arith) in
      get_elem?-append_right (take offset bytes) (raw ++ drop (offset + length raw) bytes) i
        (omega arith)
      ∙ rw e (
          get_elem?-append_right raw (drop (offset + length raw) bytes) (i - offset) (omega arith)
          ∙ (get_elem?-drop (offset + length raw) bytes (i - offset - length raw)
              ∙ ap (get_elem? bytes) (omega arith)))

-- No number stands twice.
abbrev pub Distinct : List ℕ → Type 0
Distinct [] = Unit {0}
Distinct (x ∷ xs) = (¬ Has x xs) × Distinct xs

abbrev pub Below : ℕ → List ℕ → Type 0
Below n xs = (x : ℕ) → Has x xs → x < n

abbrev differs : ℕ → ℕ → Bool
differs n x = not (x == n)

Distinct-filter : (p : ℕ → Bool) (xs : List ℕ) → Distinct xs → Distinct (filter p xs)
Distinct-filter p [] d = tt
Distinct-filter p (x ∷ xs) d = elim (Bool-cases (p x)) [
  | inl e ↦ rw e (λ m. d.0 (Has-filter p x xs m).0, Distinct-filter p xs d.1)
  | inr e ↦ rw e (Distinct-filter p xs d.1)
]

-- Nothing to take out.
length-filter_absent :
    (n : ℕ) (xs : List ℕ) → ¬ Has n xs → length (filter (differs n) xs) ≡ length xs
length-filter_absent n [] h = refl
length-filter_absent n (x ∷ xs) h = elim (Bool-cases (x == n)) [
  | inl e ↦ absurd (h (inl ((==_iff x n).0 e)))
  | inr e ↦ rw e (ap suc (length-filter_absent n xs (λ m. h (inr m))))
]

length-filter-differs :
    (n : ℕ) (xs : List ℕ) → Distinct xs → length xs ≤ length (filter (differs n) xs) + 1
length-filter-differs n [] d = omega arith
length-filter-differs n (x ∷ xs) d = elim (Bool-cases (x == n)) [
  | inl e ↦ rw e (omega (arith, length-filter_absent n xs (rw ((==_iff x n).0 e) at d.0)))
  | inr e ↦ rw e (omega (arith, length-filter-differs n xs d.1))
]

Below-filter : (n : ℕ) (xs : List ℕ) → Below (suc n) xs → Below n (filter (differs n) xs)
Below-filter n xs b x m =
    let (h, e) = Has-filter (differs n) x xs m in let l : x < suc n = b x h in ground arith

-- At most `n` different numbers lie below `n`.
pub length-le_of_Below : (n : ℕ) (xs : List ℕ) → Distinct xs → Below n xs → length xs ≤ n
length-le_of_Below zero [] d b = omega arith
length-le_of_Below zero (x ∷ xs) d b = absurd (let l : x < 0 = b x (inl refl) in omega arith)
length-le_of_Below (suc n) xs d b = omega (
  arith,
  length-filter-differs n xs d,
  length-le_of_Below n (filter (differs n) xs) (Distinct-filter (differs n) xs d)
      (Below-filter n xs b),
)

any-Has : (j : ℕ) (xs : List ℕ) → any (λ x. x == j) xs ≡ true → Has j xs
any-Has j [] h = absurd (cc)
any-Has j (x ∷ xs) h = elim (Bool-cases (x == j)) [
  | inl e ↦ inl ((==_iff x j).0 e)
  | inr e ↦ inr (any-Has j xs (rw e at h))
]

pub any-not_Has : (j : ℕ) (xs : List ℕ) → any (λ x. x == j) xs ≡ false → ¬ Has j xs
any-not_Has j [] h m = m
any-not_Has j (x ∷ xs) h m = elim (Bool-cases (x == j)) [
  | inl e ↦ absurd (cc (rw e at h))
  | inr e ↦ elim m [
    | inl q ↦ absurd (cc ((==_iff x j).1 q))
    | inr r ↦ any-not_Has j xs (rw e at h) r
  ]
]

-- `n` different numbers below `n` are all of them.
pub Has_of_full :
    (n : ℕ) (xs : List ℕ) → Distinct xs → Below n xs → length xs ≡ n → (j : ℕ) → j < n → Has j xs
Has_of_full n xs d b e j l = elim (Bool-cases (any (λ x. x == j) xs)) [
  | inl t ↦ any-Has j xs t
  | inr f ↦
      let more : length (j ∷ xs) ≤ n =
        length-le_of_Below n (j ∷ xs) (any-not_Has j xs f, d)
          (λ x m. elim m [ inl q ↦ rw (← q) l | inr r ↦ b x r ]) in
      absurd (omega arith)
]

module _ (i : ℕ) (got : List ℕ) where
  pub Distinct-mark : Distinct got → Distinct (mark i got)
  unfolding mark
  Distinct-mark d = elim (Bool-cases (any (λ j. j == i) got)) [
    | inl e ↦ rw e d
    | inr e ↦ rw e (any-not_Has i got e, d)
  ]

  pub Has-mark : (x : ℕ) → Has x (mark i got) → (x ≡ i) ⊎ Has x got
  unfolding mark
  Has-mark x h = elim (Bool-cases (any (λ j. j == i) got)) [
    | inl e ↦ inr (rw e at h)
    | inr e ↦ elim (rw e at h) [ inl q ↦ inl (sym q) | inr r ↦ inr r ]
  ]

  pub length-mark : ¬ Has i got → length (mark i got) ≡ length got + 1
  unfolding mark
  length-mark h = elim (Bool-cases (any (λ j. j == i) got)) [
    | inl e ↦ absurd (h (any-Has i got e))
    | inr e ↦ rw e (omega arith)
  ]
