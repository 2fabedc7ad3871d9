-- ===== src/Access/Codes.antt =====
-- access.go: the pairing codes, and what a reply shows of them.
use ccc_fork.Base.{
  ℕ, ◌/◌, ◌%◌, ◌<◌, ◌≡◌, Option, none, some, [], ◌∷◌, ◌++◌, refl, ap, arith, false, ◌==◌,
  if◌then◌else◌, Bool-cases, ◌⊎◌, inl, inr, Text, codes, trim_space, is_space, to_lower, lower,
  hex_encode, hex_digit, length, Has, Has-append, ◌∙◌,
}
use ccc_fork.Access.{new_pair_code, html_escape}

hex_digit-is_space : (n : ℕ) → n < 16 → is_space (hex_digit n) ≡ false
unfolding is_space
hex_digit-is_space n h = ground arith

hex_digit-lower : (n : ℕ) → n < 16 → lower (hex_digit n) ≡ hex_digit n
hex_digit-lower n h = ground arith

-- Three bytes as hexadecimal digits hold no space, whichever end is trimmed.
trim_space-hex_encode :
    (a b c : ℕ)
    → a < 256
    → b < 256
    → c < 256
    → trim_space (hex_encode (a ∷ b ∷ c ∷ [])) ≡ hex_encode (a ∷ b ∷ c ∷ [])
unfolding trim_space hex_encode
trim_space-hex_encode a b c ha hb hc = simp (
  hex_digit-is_space (a / 16) (omega arith),
  hex_digit-is_space (a % 16) (omega arith),
  hex_digit-is_space (b / 16) (omega arith),
  hex_digit-is_space (b % 16) (omega arith),
  hex_digit-is_space (c / 16) (omega arith),
  hex_digit-is_space (c % 16) (omega arith),
)

to_lower-hex_encode :
    (a b c : ℕ)
    → a < 256
    → b < 256
    → c < 256
    → to_lower (hex_encode (a ∷ b ∷ c ∷ [])) ≡ hex_encode (a ∷ b ∷ c ∷ [])
unfolding to_lower hex_encode
to_lower-hex_encode a b c ha hb hc = simp (
  hex_digit-lower (a / 16) (omega arith),
  hex_digit-lower (a % 16) (omega arith),
  hex_digit-lower (b / 16) (omega arith),
  hex_digit-lower (b % 16) (omega arith),
  hex_digit-lower (c / 16) (omega arith),
  hex_digit-lower (c % 16) (omega arith),
)

-- A minted code has six characters, and typing it back, through the trimming and the lower case that approving does,
-- gives the code itself. It holds of the random bytes and of the clock's bytes alike.
pub new_pair_code-typed :
    (bytes : Option (ℕ × ℕ × ℕ)) (nanos : ℕ)
    → (to_lower (trim_space (new_pair_code bytes nanos)) ≡ new_pair_code bytes nanos)
      × (length (new_pair_code bytes nanos) ≡ 6)
unfolding new_pair_code
new_pair_code-typed (some (a, b, c)) nanos = (
  rw (trim_space-hex_encode (a % 256) (b % 256) (c % 256) (omega arith) (omega arith) (omega arith))
      (to_lower-hex_encode (a % 256) (b % 256) (c % 256) (omega arith) (omega arith) (omega arith)),
  refl,
)
new_pair_code-typed none n = (
  rw
      (trim_space-hex_encode (n % 256) (n / 256 % 256) (n / 65536 % 256) (omega arith) (omega arith)
        (omega arith))
      (to_lower-hex_encode (n % 256) (n / 256 % 256) (n / 65536 % 256) (omega arith) (omega arith)
        (omega arith)),
  refl,
)

-- One pass: each character by itself.
escape_char : ℕ → Text
escape_char c =
    if c == b'&'
    then codes "&amp;"
    else if c == b'<'
    then codes "&lt;"
    else if c == b'>'
    then codes "&gt;"
    else c ∷ []

pub escape_each : Text → Text
escape_each [] = []
escape_each (c ∷ s) = escape_char c ++ escape_each s

html_escape-cons : (c : ℕ) (s : Text) → html_escape (c ∷ s) ≡ escape_char c ++ html_escape s
unfolding html_escape escape_char
html_escape-cons c s = elim (Bool-cases (c == b'&')) [
  | inl e ↦ rw (e, html_escape)
  | inr e ↦ elim (Bool-cases (c == b'<')) [
    | inl f ↦ rw (e, f, html_escape)
    | inr f ↦ elim (Bool-cases (c == b'>')) [
      | inl g ↦ rw (e, f, g, html_escape)
      | inr g ↦ rw (e, f, g, html_escape)
    ]
  ]
]

-- Escaping by three passes over the text is escaping each character by itself.
pub html_escape-eq-escape_each : (s : Text) → html_escape s ≡ escape_each s
unfolding escape_each
html_escape-eq-escape_each [] = unfold html_escape in refl
html_escape-eq-escape_each (c ∷ s) =
    html_escape-cons c s ∙ ap (λ (t : Text). escape_char c ++ t) (html_escape-eq-escape_each s)

-- The characters of escaped text that open or close a tag: none.
abbrev pub IsMark : ℕ → Type 0
IsMark c = (c ≡ b'<') ⊎ (c ≡ b'>')

escape_char-no_mark : (c d : ℕ) → IsMark d → ¬ Has d (escape_char c)
unfolding escape_char
escape_char-no_mark c d m h = ground arith

escape_each-no_mark : (s : Text) (d : ℕ) → IsMark d → ¬ Has d (escape_each s)
unfolding escape_each
escape_each-no_mark [] d m h = h
escape_each-no_mark (c ∷ s) d m h = elim (Has-append d (escape_char c) (escape_each s) h) [
  | inl a ↦ escape_char-no_mark c d m a
  | inr b ↦ escape_each-no_mark s d m b
]

-- Escaped text has no `<` and no `>`.
pub html_escape-no_mark : (s : Text) (d : ℕ) → IsMark d → ¬ Has d (html_escape s)
html_escape-no_mark s d m h = escape_each-no_mark s d m (rw html_escape-eq-escape_each at h)
