-- ===== src/Env/Quoting.antt =====
-- envfile.go: a value between double quotes is read back as it was.
use ccc_fork.Base.{
  ℕ, ◌==◌, ==_iff, ◌≡◌, ◌≢◌, ◌⊎◌, inl, inr, refl, sym, ap, ◌∙◌, arith, false, some, [], ◌∷◌, ◌++◌,
  if◌then◌else◌, Text, trim_space, trim_left, trim_right, is_space, Has, Has-append, Bool-cases,
}
use ccc_fork.Env.{escape_env_value, unescape_env_value, drop_last_quote, cut_at_equals}

-- What one character of a value is written as.
escape_char : ℕ → Text
escape_char c =
    if c == b'\\' then b'\\' ∷ b'\\' ∷ [] else if c == b'"' then b'\\' ∷ b'"' ∷ [] else c ∷ []

escape_env_value-cons :
    (c : ℕ) (s : Text) → escape_env_value (c ∷ s) ≡ escape_char c ++ escape_env_value s
unfolding escape_env_value escape_char
escape_env_value-cons c s = elim (Bool-cases (c == b'\\')) [
  | inl e ↦ rw (e, escape_env_value)
  | inr e ↦ elim (Bool-cases (c == b'"')) [
    | inl f ↦ rw (e, f, escape_env_value)
    | inr f ↦ rw (e, f, escape_env_value)
  ]
]

unescape_env_value-plain :
    (c : ℕ) (t : Text)
    → (c == b'\\') ≡ false
    → unescape_env_value (c ∷ t) ≡ c ∷ unescape_env_value t
unfolding unescape_env_value
unescape_env_value-plain c [] e = refl
unescape_env_value-plain c (d ∷ t) e = rw (e, unescape_env_value) refl

unescape-escape_char :
    (c : ℕ) (t : Text) → unescape_env_value (escape_char c ++ t) ≡ c ∷ unescape_env_value t
unfolding escape_char
unescape-escape_char c t = elim (Bool-cases (c == b'\\')) [
  | inl e ↦ rw ((==_iff c b'\\').0 e) (unfold unescape_env_value in refl)
  | inr e ↦ elim (Bool-cases (c == b'"')) [
    | inl f ↦ rw ((==_iff c b'"').0 f) (unfold unescape_env_value in refl)
    | inr f ↦ rw (e, f) (unescape_env_value-plain c t e)
  ]
]

pub unescape-escape_env_value : (s : Text) → unescape_env_value (escape_env_value s) ≡ s
unescape-escape_env_value [] = unfold escape_env_value unescape_env_value in refl
unescape-escape_env_value (c ∷ s) =
    ap unescape_env_value (escape_env_value-cons c s)
    ∙ (unescape-escape_char c (escape_env_value s)
        ∙ ap (λ (t : Text). c ∷ t) (unescape-escape_env_value s))

drop_last_quote-cons :
    (c d : ℕ) (s : Text) (r : Text)
    → drop_last_quote (d ∷ s) ≡ some r
    → drop_last_quote (c ∷ d ∷ s) ≡ some (c ∷ r)
unfolding drop_last_quote
drop_last_quote-cons c d s r e = rw e refl

pub drop_last_quote-append : (s : Text) → drop_last_quote (s ++ b'"' ∷ []) ≡ some s
drop_last_quote-append [] = unfold drop_last_quote in refl
drop_last_quote-append (c ∷ []) = unfold drop_last_quote in refl
drop_last_quote-append (c ∷ d ∷ s) =
    drop_last_quote-cons c d (s ++ b'"' ∷ []) (d ∷ s) (drop_last_quote-append (d ∷ s))

pub cut_at_equals-append :
    (name rest : Text) → ¬ Has b'=' name → cut_at_equals (name ++ b'=' ∷ rest) ≡ some (name, rest)
unfolding cut_at_equals
cut_at_equals-append [] rest h = refl
cut_at_equals-append (c ∷ name) rest h = elim (Bool-cases (c == b'=')) [
  | inl e ↦ absurd (h (inl ((==_iff c b'=').0 e)))
  | inr e ↦ rw (e, cut_at_equals-append name rest (λ m. h (inr m))) refl
]

pub trim_left-first : (c : ℕ) (s : Text) → is_space c ≡ false → trim_left (c ∷ s) ≡ c ∷ s
unfolding trim_left
trim_left-first c s e = rw e refl

pub trim_right-last :
    (s : Text) (c : ℕ) → is_space c ≡ false → trim_right (s ++ c ∷ []) ≡ s ++ c ∷ []
unfolding trim_right
trim_right-last [] c e = rw e refl
trim_right-last (d ∷ []) c e = rw e (ground arith)
trim_right-last (d ∷ x ∷ s) c e = rw (trim_right-last (x ∷ s) c e) (ground arith)

-- No character of a name is a space, `=` or `#`.
abbrev pub IsEnvName : Text → Type 0
IsEnvName name = (c : ℕ) → Has c name → (is_space c ≡ false) × (c ≢ b'=') × (c ≢ b'#')

trim_right-IsEnvName : (name : Text) → IsEnvName name → trim_right name ≡ name
unfolding trim_right
trim_right-IsEnvName [] h = refl
trim_right-IsEnvName (c ∷ s) h =
    let e : is_space c ≡ false = (h c (inl refl)).0 in
    let f : trim_right s ≡ s = trim_right-IsEnvName s (λ d m. h d (inr m)) in rw (e, f) refl

pub trim_space-IsEnvName : (name : Text) → IsEnvName name → trim_space name ≡ name
unfolding trim_space
trim_space-IsEnvName [] h = unfold trim_left trim_right in refl
trim_space-IsEnvName (c ∷ s) h =
    rw (trim_left-first c s (h c (inl refl)).0) (trim_right-IsEnvName (c ∷ s) h)

-- A text between two characters that are no spaces.
pub trim_space-between :
    (c d : ℕ) (s : Text)
    → is_space c ≡ false
    → is_space d ≡ false
    → trim_space (c ∷ s ++ d ∷ []) ≡ c ∷ s ++ d ∷ []
unfolding trim_space
trim_space-between c d s e f = rw (trim_left-first c (s ++ d ∷ []) e) (trim_right-last (c ∷ s) d f)

Has-escape_char : (x c : ℕ) → Has x (escape_char c) → (x ≡ c) ⊎ (x ≡ b'\\')
unfolding escape_char
Has-escape_char x c h = ground (arith, h)

-- Escaping adds no character but backslashes.
pub Has-escape_env_value : (x : ℕ) (s : Text) → Has x (escape_env_value s) → Has x s ⊎ (x ≡ b'\\')
Has-escape_env_value x [] h = absurd (unfold escape_env_value in h)
Has-escape_env_value x (c ∷ s) h =
    elim (Has-append x (escape_char c) (escape_env_value s) (rw (escape_env_value-cons c s) at h)) [
      | inl a ↦ elim (Has-escape_char x c a) [ inl q ↦ inl (inl (sym q)) | inr q ↦ inr q ]
      | inr b ↦ elim (Has-escape_env_value x s b) [ inl m ↦ inl (inr m) | inr q ↦ inr q ]
    ]
