-- ===== src/Base/Lists.antt =====
-- Lists: Boolean filters, lookups and the predicates that speak of every row or of some row.
use Prim.Native.Nat.{ℕ, zero, suc, ◌+◌}
use mathlib.Core.Path.{◌≡◌, refl, ap, sym}
use mathlib.Core.Logic.{◌⊎◌, inl, inr}
use mathlib.Core.Bool.{Bool, true, false}
use mathlib.Core.List.{List, [], ◌∷◌, ◌++◌, map}
use mathlib.Core.Option.{Option, none, some}
use native.Mathlib.Omega.{arith}
use ccc_fork.Base.Tests.{if◌then◌else◌, Bool-cases}

module _ {ℓ} {A : Type ℓ} where
  abbrev pub length : List A → ℕ
  length [] = 0
  length (x ∷ xs) = suc (length xs)

  abbrev pub head? : List A → Option A
  head? [] = none
  head? (x ∷ xs) = some x

  -- The rows that pass a test, in their order.
  abbrev pub filter : (A → Bool) → List A → List A
  filter p [] = []
  filter p (x ∷ xs) = if p x then x ∷ filter p xs else filter p xs

  abbrev pub any : (A → Bool) → List A → Bool
  any p [] = false
  any p (x ∷ xs) = if p x then true else any p xs

  abbrev pub get_elem? : List A → ℕ → Option A
  get_elem? [] i = none
  get_elem? (x ∷ xs) zero = some x
  get_elem? (x ∷ xs) (suc i) = get_elem? xs i

  abbrev pub take : ℕ → List A → List A
  take zero xs = []
  take (suc n) [] = []
  take (suc n) (x ∷ xs) = x ∷ take n xs

  abbrev pub drop : ℕ → List A → List A
  drop zero xs = xs
  drop (suc n) [] = []
  drop (suc n) (x ∷ xs) = drop n xs

  -- Shut: the numbers of bytes are large.
  unfoldable pub replicate : ℕ → A → List A
  replicate zero a = []
  replicate (suc n) a = a ∷ replicate n a

module _ {ℓ} {A : Type ℓ} where
  pub length-append : (xs ys : List A) → length (xs ++ ys) ≡ length xs + length ys
  length-append [] ys = omega arith
  length-append (x ∷ xs) ys = omega (arith, length-append xs ys)

module _ {A : Type 0} where
  -- `x` stands in the list: a place for it, which can be taken apart.
  abbrev pub Has : A → List A → Type 0
  Has x [] = ⊥
  Has x (y ∷ ys) = (y ≡ x) ⊎ Has x ys

  pub Has-append_left : (x : A) (xs ys : List A) → Has x xs → Has x (xs ++ ys)
  Has-append_left x [] ys h = absurd h
  Has-append_left x (y ∷ xs) ys (inl e) = inl e
  Has-append_left x (y ∷ xs) ys (inr h) = inr (Has-append_left x xs ys h)

  pub Has-append_right : (x : A) (xs ys : List A) → Has x ys → Has x (xs ++ ys)
  Has-append_right x [] ys h = h
  Has-append_right x (y ∷ xs) ys h = inr (Has-append_right x xs ys h)

  pub Has-append : (x : A) (xs ys : List A) → Has x (xs ++ ys) → Has x xs ⊎ Has x ys
  Has-append x [] ys h = inr h
  Has-append x (y ∷ xs) ys (inl e) = inl (inl e)
  Has-append x (y ∷ xs) ys (inr h) = elim (Has-append x xs ys h) [
    | inl a ↦ inl (inr a)
    | inr b ↦ inr b
  ]

module _ {A : Type 0} where
  -- One step of `Has-filter`, from what holds of the tail.
  Has-filter_step :
      (p : A → Bool) (x y : A) (ys : List A)
      → (Has x (filter p ys) → Has x ys × (p x ≡ true))
      → Has x (filter p (y ∷ ys))
      → Has x (y ∷ ys) × (p x ≡ true)
  Has-filter_step p x y ys ih h = elim (Bool-cases (p y)) [
    | inl e ↦ elim (rw e at h) [ inl q ↦ (inl q, rw (← q) e) | inr r ↦ (inr (ih r).0, (ih r).1) ]
    | inr e ↦ let r : Has x (filter p ys) = rw e at h in (inr (ih r).0, (ih r).1)
  ]

  pub Has-filter :
      (p : A → Bool) (x : A) (xs : List A) → Has x (filter p xs) → Has x xs × (p x ≡ true)
  Has-filter p x [] h = absurd h
  Has-filter p x (y ∷ ys) h = Has-filter_step p x y ys (Has-filter p x ys) h

  pub Has-filter_intro :
      (p : A → Bool) (x : A) (xs : List A) → Has x xs → p x ≡ true → Has x (filter p xs)
  Has-filter_intro p x [] h e = absurd h
  Has-filter_intro p x (y ∷ ys) (inl q) e = rw (q, e) (inl refl)
  Has-filter_intro p x (y ∷ ys) (inr h) e = elim (Bool-cases (p y)) [
    | inl t ↦ rw t (inr (Has-filter_intro p x ys h e))
    | inr f ↦ rw f (Has-filter_intro p x ys h e)
  ]

  pub head?-Has : (xs : List A) {x : A} → head? xs ≡ some x → Has x xs
  head?-Has [] h = absurd (cc)
  head?-Has (y ∷ ys) h = inl (cc)

module _ {A B : Type 0} where
  pub Has-map :
      (f : A → B) (y : B) (xs : List A) → Has y (map f xs) → (x : A) × Has x xs × (y ≡ f x)
  Has-map f y [] h = absurd h
  Has-map f y (x ∷ xs) (inl e) = (x, inl refl, sym e)
  Has-map f y (x ∷ xs) (inr h) = let (z, m, e) = Has-map f y xs h in (z, inr m, e)

  pub Has-map_intro : (f : A → B) (x : A) (xs : List A) → Has x xs → Has (f x) (map f xs)
  Has-map_intro f x [] h = absurd h
  Has-map_intro f x (y ∷ xs) (inl e) = inl (ap f e)
  Has-map_intro f x (y ∷ xs) (inr h) = inr (Has-map_intro f x xs h)

pub length-replicate {ℓ} : {A : Type ℓ} (n : ℕ) (x : A) → length (replicate n x) ≡ n
unfolding replicate
length-replicate zero x = refl
length-replicate (suc n) x = ap suc (length-replicate n x)
