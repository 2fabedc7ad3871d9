-- ===== src/Watches.antt =====
-- scheduler.go: watches. Here is the line difference that a changed watch hands to its bot; the rows are in Watches/Rows.
-- `lineDiff` writes as it finds the lines; here the lines that it would write are listed first, and written up to the
-- limit after.
pub mod Rows
pub mod Renewal
pub mod Expiry
pub mod Diff
pub mod Limit
mod Tests
use ccc_fork.Base.Bytes.{byte_length}
use ccc_fork.Base.{
  ℕ, ◌+◌, ◌-◌, ◌==◌, Bool, true, false, ◌||◌, ◌&&◌, List, [], ◌∷◌, ◌++◌, map, ltb, if◌then◌else◌,
  Text, codes, text_eq, is_empty, trim_space,
}

-- strings.TrimRight(s, "\n")
unfoldable pub trim_newlines : Text → Text
trim_newlines [] = []
trim_newlines (c ∷ s) =
    let rest = trim_newlines s in if c == 10 && is_empty rest then [] else c ∷ rest

abbrev cons_first : ℕ → List Text → List Text
cons_first c [] = (c ∷ []) ∷ []
cons_first c (l ∷ ls) = (c ∷ l) ∷ ls

-- strings.Split(s, "\n")
unfoldable pub split_lines : Text → List Text
split_lines [] = [] ∷ []
split_lines (c ∷ s) = let rest = split_lines s in if c == 10 then [] ∷ rest else cons_first c rest

unfoldable pub lines_of : Text → List Text
unfolding trim_newlines split_lines
lines_of s = split_lines (trim_newlines s)

-- How often a line stands among some.
unfoldable pub count_line : Text → List Text → ℕ
count_line l [] = 0
count_line l (x ∷ xs) = (if text_eq x l then 1 else 0) + count_line l xs

-- A map from lines to counts, zero where it has no entry.
abbrev pub Counts : Type 0
Counts = Text → ℕ

-- `if m[l] > 0 { m[l]-- }`
unfoldable pub less_one : Text → Counts → Counts
less_one l m j = if text_eq l j then m j - 1 else m j

abbrev pub is_blank : Text → Bool
is_blank l = is_empty (trim_space l)

-- The loop over the old lines: those without a match that is left.
unfoldable pub unmatched : Counts → List Text → List Text
unfolding less_one
unmatched m [] = []
unmatched m (l ∷ ls) =
    let rest = unmatched (less_one l m) ls in if ltb 0 (m l) || is_blank l then rest else l ∷ rest

-- The counts that the old lines leave of the new ones.
unfoldable pub take_off : Counts → List Text → Counts
unfolding less_one
take_off m [] = m
take_off m (l ∷ ls) = take_off (less_one l m) ls

-- The loop over the new lines: those with a count that is left.
unfoldable pub leftover : Counts → List Text → List Text
unfolding less_one
leftover m [] = []
leftover m (l ∷ ls) =
    let rest = leftover (less_one l m) ls in if m l == 0 || is_blank l then rest else l ∷ rest

unfoldable pub removed_lines : List Text → List Text → List Text
unfolding unmatched count_line
removed_lines old new = unmatched (λ l. count_line l new) old

unfoldable pub added_lines : List Text → List Text → List Text
unfolding leftover take_off count_line
added_lines old new = leftover (take_off (λ l. count_line l new) old) new

abbrev pub truncated_mark : Text
truncated_mark = codes "…(diff truncated)\n"

-- The writing of lines, each with its prefix, after what is written.
unfoldable pub write_lines : ℕ → Text → List (Text × Text) → Text
unfolding byte_length
write_lines limit sb [] = sb
write_lines limit sb ((prefix, line) ∷ rest) =
    let more = write_lines limit (sb ++ (prefix ++ (line ++ codes "\n"))) rest in
    if ltb limit (byte_length sb + byte_length line + 3) then sb ++ truncated_mark else more

abbrev pub marked : Text → List Text → List (Text × Text)
marked prefix ls = map (λ (l : Text). (prefix, l)) ls

abbrev pub or_reordered : Text → Text
or_reordered [] = codes "(the output was reordered; nothing was added or removed)\n"
or_reordered (c ∷ s) = c ∷ s

unfoldable pub line_diff : Text → Text → ℕ → Text
unfolding lines_of removed_lines added_lines write_lines
line_diff before after limit =
    let old = lines_of before in
    let new = lines_of after in
    or_reordered (
      write_lines limit []
        (marked (codes "- ") (removed_lines old new) ++ marked (codes "+ ") (added_lines old new)))
