-- ===== src/Watches/Diff.antt =====
-- scheduler.go: which lines a difference lists.
use ccc_fork.Base.{
  inl, inr, ◌-◌, ◌≡◌, refl, arith, false, List, [], ◌∷◌, Text, text_eq, text_eq_iff, text_eq_refl,
  Bool-cases,
}
use ccc_fork.Watches.{
  Counts, count_line, less_one, is_blank, unmatched, take_off, leftover, removed_lines, added_lines,
}

less_one-same : (l : Text) (m : Counts) → less_one l m l ≡ m l - 1
unfolding less_one
less_one-same l m = rw (text_eq_refl l) refl

less_one-other : (x l : Text) (m : Counts) → text_eq x l ≡ false → less_one x m l ≡ m l
unfolding less_one
less_one-other x l m e = rw e refl

module _ (l : Text) (listed : is_blank l ≡ false) where
  -- A line of the loop over old lines, once the line is known to be this one or not.
  count-unmatched :
      (m : Counts) (ls : List Text) → count_line l (unmatched m ls) ≡ count_line l ls - m l
  unfolding unmatched count_line
  count-unmatched m [] = omega arith
  count-unmatched m (x ∷ ls) = elim (Bool-cases (text_eq x l)) [
    | inl e ↦
        let q : x ≡ l = (text_eq_iff x l).0 e in
        ground (arith, e, q, count-unmatched (less_one x m) ls, less_one-same l m, listed)
    | inr e ↦ ground (arith, e, count-unmatched (less_one x m) ls, less_one-other x l m e)
  ]

  count-leftover :
      (m : Counts) (ls : List Text)
      → count_line l (leftover m ls) ≡ count_line l ls - (count_line l ls - m l)
  unfolding leftover count_line
  count-leftover m [] = omega arith
  count-leftover m (x ∷ ls) = elim (Bool-cases (text_eq x l)) [
    | inl e ↦
        let q : x ≡ l = (text_eq_iff x l).0 e in
        ground (arith, e, q, count-leftover (less_one x m) ls, less_one-same l m, listed)
    | inr e ↦ ground (arith, e, count-leftover (less_one x m) ls, less_one-other x l m e)
  ]

take_off-at : (l : Text) (m : Counts) (ls : List Text) → take_off m ls l ≡ m l - count_line l ls
unfolding take_off count_line
take_off-at l m [] = omega arith
take_off-at l m (x ∷ ls) = elim (Bool-cases (text_eq x l)) [
  | inl e ↦
      let q : x ≡ l = (text_eq_iff x l).0 e in
      ground (arith, e, q, take_off-at l (less_one x m) ls, less_one-same l m)
  | inr e ↦ ground (arith, e, take_off-at l (less_one x m) ls, less_one-other x l m e)
]

-- A difference lists each line that is not blank as removed exactly as often as it stands oftener among the old lines
-- than among the new, and as added exactly as often as it stands oftener among the new.
pub changed_lines-count :
    (old new : List Text) (l : Text)
    → is_blank l ≡ false
    → (count_line l (removed_lines old new) ≡ count_line l old - count_line l new)
      × (count_line l (added_lines old new) ≡ count_line l new - count_line l old)
unfolding removed_lines added_lines
changed_lines-count old new l listed = (
  count-unmatched l listed (λ x. count_line x new) old,
  omega (
    arith,
    count-leftover l listed (take_off (λ x. count_line x new) old) new,
    take_off-at l (λ x. count_line x new) old,
  ),
)
