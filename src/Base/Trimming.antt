-- ===== src/Base/Trimming.antt =====
-- strings.TrimSpace of a trimmed text.
use mathlib.Core.Path.{◌≡◌, refl, ap, ◌∙◌}
use mathlib.Core.Logic.{inl, inr}
use mathlib.Core.Bool.{false, ◌&&◌}
use mathlib.Core.List.{[], ◌∷◌}
use ccc_fork.Base.Tests.{Bool-cases}
use ccc_fork.Base.Texts.{Text, is_space, is_empty, trim_left, trim_right, trim_space}

trim_right-trim_right : (s : Text) → trim_right (trim_right s) ≡ trim_right s
unfolding trim_right
trim_right-trim_right [] = refl
trim_right-trim_right (c ∷ s) = elim (Bool-cases (is_space c && is_empty (trim_right s))) [
  | inl e ↦ rw e refl
  | inr e ↦ rw (e, trim_right-trim_right s, e) refl
]

-- What starts without a space keeps its start.
abbrev StartsPlain : Text → Type 0
StartsPlain [] = Unit {0}
StartsPlain (c ∷ s) = is_space c ≡ false

trim_left-StartsPlain : (s : Text) → StartsPlain (trim_left s)
unfolding trim_left
trim_left-StartsPlain [] = tt
trim_left-StartsPlain (c ∷ s) = elim (Bool-cases (is_space c)) [
  | inl e ↦ rw e (trim_left-StartsPlain s)
  | inr e ↦ rw e e
]

trim_right-StartsPlain : (s : Text) → StartsPlain s → StartsPlain (trim_right s)
unfolding trim_right
trim_right-StartsPlain [] h = tt
trim_right-StartsPlain (c ∷ s) h = rw h h

trim_left-plain : (s : Text) → StartsPlain s → trim_left s ≡ s
unfolding trim_left
trim_left-plain [] h = refl
trim_left-plain (c ∷ s) h = rw h refl

pub trim_space-trim_space : (s : Text) → trim_space (trim_space s) ≡ trim_space s
unfolding trim_space
trim_space-trim_space s =
    let h = trim_right-StartsPlain (trim_left s) (trim_left-StartsPlain s) in
    ap trim_right (trim_left-plain (trim_right (trim_left s)) h)
    ∙ trim_right-trim_right (trim_left s)
