-- ===== src/Watches/Limit.antt =====
-- scheduler.go: how long a difference gets.
use ccc_fork.Base.Bytes.{byte_length}
use ccc_fork.Base.{
  ℕ, inl, inr, ◌+◌, ◌≤◌, ◌≡◌, refl, arith, List, [], ◌∷◌, ◌++◌, ltb, Text, codes, Bool-cases,
}
use ccc_fork.Watches.{
  truncated_mark, write_lines, marked, or_reordered, line_diff, lines_of, removed_lines,
  added_lines,
}

byte_length-append : (s t : Text) → byte_length (s ++ t) ≡ byte_length s + byte_length t
unfolding byte_length
byte_length-append [] t = omega arith
byte_length-append (c ∷ s) t = omega (arith, byte_length-append s t)

-- Each prefix is two bytes.
IsMarked : List (Text × Text) → Type 0
IsMarked [] = Unit {0}
IsMarked ((prefix, line) ∷ rest) = (byte_length prefix ≡ 2) × IsMarked rest

IsMarked-marked :
    (prefix : Text) (ls : List Text) (rest : List (Text × Text))
    → byte_length prefix ≡ 2
    → IsMarked rest
    → IsMarked (marked prefix ls ++ rest)
unfolding IsMarked
IsMarked-marked prefix [] rest e h = h
IsMarked-marked prefix (l ∷ ls) rest e h = (e, IsMarked-marked prefix ls rest e h)

IsMarked-one :
    (prefix : Text) (ls : List Text) → byte_length prefix ≡ 2 → IsMarked (marked prefix ls)
unfolding IsMarked
IsMarked-one prefix [] e = tt
IsMarked-one prefix (l ∷ ls) e = (e, IsMarked-one prefix ls e)

byte_length-line :
    (sb prefix line : Text)
    → byte_length prefix ≡ 2
    → byte_length (sb ++ (prefix ++ (line ++ codes "\n"))) ≡ byte_length sb + byte_length line + 3
byte_length-line sb prefix line e = omega (
  arith,
  e,
  byte_length-append sb (prefix ++ (line ++ codes "\n")),
  byte_length-append prefix (line ++ codes "\n"),
  byte_length-append line (codes "\n"),
  newline,
)
  where
    newline : byte_length (codes "\n") ≡ 1
    newline = unfold byte_length in refl

mark_bytes : byte_length truncated_mark ≡ 20
unfolding byte_length
mark_bytes = refl

byte_length-write_lines :
    (limit : ℕ) (ls : List (Text × Text)) (sb : Text)
    → IsMarked ls
    → byte_length sb ≤ limit
    → byte_length (write_lines limit sb ls) ≤ limit + 20
unfolding IsMarked write_lines
byte_length-write_lines limit [] sb m h = omega arith
byte_length-write_lines limit ((prefix, line) ∷ rest) sb m h =
    elim (Bool-cases (ltb limit (byte_length sb + byte_length line + 3))) [
      | inl e ↦ rw e (omega (arith, byte_length-append sb truncated_mark, mark_bytes))
      | inr e ↦ rw e (
          byte_length-write_lines limit rest (sb ++ (prefix ++ (line ++ codes "\n"))) m.1
            (ground (arith, e, byte_length-line sb prefix line m.0)))
    ]

byte_length-or_reordered :
    (s : Text) (n : ℕ) → byte_length s ≤ n → 57 ≤ n → byte_length (or_reordered s) ≤ n
byte_length-or_reordered [] n h k = unfold byte_length in k
byte_length-or_reordered (c ∷ s) n h k = h

-- With a limit of at least 37 bytes, a difference has at most twenty bytes more than the limit, which the mark of a truncation takes,
-- however long the outputs.
pub line_diff-limit :
    (before after : Text) (limit : ℕ)
    → 37 ≤ limit
    → byte_length (line_diff before after limit) ≤ limit + 20
unfolding line_diff
line_diff-limit before after limit h =
    let old = lines_of before in
    let new = lines_of after in
    byte_length-or_reordered _ (limit + 20)
      (byte_length-write_lines limit _ []
        (IsMarked-marked (codes "- ") (removed_lines old new) _ (unfold byte_length in refl)
          (IsMarked-one (codes "+ ") (added_lines old new) (unfold byte_length in refl)))
        (unfold byte_length in omega arith))
      (omega arith)
