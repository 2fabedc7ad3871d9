-- ===== src/Env/Lines.antt =====
-- envfile.go: a written line is scanned and parsed as it was written.
use ccc_fork.Base.{
  ℕ, ◌==◌, ==_iff, ◌≡◌, ◌≢◌, inl, inr, refl, sym, ap, ◌∙◌, arith, true, false, ◌||◌, some, [], ◌∷◌,
  ◌++◌, Text, codes, is_empty, has_prefix, trim_space, is_space, Has, Has-append, Bool-cases,
  append_assoc,
}
use ccc_fork.Env.{
  escape_env_value, cut_at_equals, has_line_break, env_line, parse_cut, parse_env_line, scan_lines,
  drop_return, quote_mark, unquote, plain_or_quoted,
}
use ccc_fork.Env.Quoting.{
  IsEnvName, trim_space-IsEnvName, trim_space-between, cut_at_equals-append, drop_last_quote-append,
  unescape-escape_env_value, Has-escape_env_value,
}

-- A line is scanned off a text that begins with it.
pub scan_lines-line :
    (line rest : Text) → ¬ Has 10 line → scan_lines (line ++ (10 ∷ rest)) ≡ line ∷ scan_lines rest
unfolding scan_lines
scan_lines-line [] rest h = refl
scan_lines-line (c ∷ line) rest h = elim (Bool-cases (c == 10)) [
  | inl e ↦ absurd (h (inl ((==_iff c 10).0 e)))
  | inr e ↦ rw (e, scan_lines-line line rest (λ m. h (inr m))) refl
]

-- A line that ends with another character than the carriage return is kept whole.
pub drop_return-last :
    (s : Text) (c : ℕ) → (c == 13) ≡ false → drop_return (s ++ c ∷ []) ≡ s ++ c ∷ []
unfolding drop_return
drop_return-last [] c e = rw e refl
drop_return-last (d ∷ []) c e = rw e (ground arith)
drop_return-last (d ∷ x ∷ s) c e = rw (drop_return-last (x ∷ s) c e) (ground arith)

-- What follows the name of a written line.
abbrev value_part : Text → Text
value_part value = quote_mark ++ (escape_env_value value ++ quote_mark)

plain_or_quoted-value :
    (value : Text) → plain_or_quoted (value_part value) (unquote (value_part value)) ≡ value
plain_or_quoted-value value =
    rw (drop_last_quote-append (escape_env_value value)) (unescape-escape_env_value value)

parse_cut-value :
    (c : ℕ) (name value : Text)
    → IsEnvName (c ∷ name)
    → parse_cut (some (c ∷ name, value_part value)) ≡ some (c ∷ name, value)
unfolding parse_cut
parse_cut-value c name value h =
    rw
      (
        trim_space-IsEnvName (c ∷ name) h,
        trim_space-between b'"' b'"' (escape_env_value value) (unfold is_space in refl)
            (unfold is_space in refl),
      )
      (rw (plain_or_quoted-value value) refl)

-- A line as its first character, what follows, and the double quote at its end.
env_line-ends :
    (c : ℕ) (name value : Text)
    → env_line (c ∷ name) value
      ≡ c ∷ (name ++ (codes "=" ++ (quote_mark ++ escape_env_value value))) ++ quote_mark
unfolding env_line
env_line-ends c name value =
    ap (λ (t : Text). c ∷ t)
      (sym (append_assoc name (b'=' ∷ b'"' ∷ escape_env_value value) quote_mark))

trim_space-env_line :
    (c : ℕ) (name value : Text)
    → is_space c ≡ false
    → trim_space (env_line (c ∷ name) value) ≡ env_line (c ∷ name) value
trim_space-env_line c name value e =
    ap trim_space (env_line-ends c name value)
    ∙ (trim_space-between c b'"' (name ++ (codes "=" ++ (quote_mark ++ escape_env_value value))) e
          (unfold is_space in refl)
        ∙ sym (env_line-ends c name value))

cut-env_line :
    (c : ℕ) (name value : Text)
    → IsEnvName (c ∷ name)
    → cut_at_equals (env_line (c ∷ name) value) ≡ some (c ∷ name, value_part value)
unfolding env_line
cut-env_line c name value h =
    cut_at_equals-append (c ∷ name) (value_part value) (λ m. (h b'=' m).1 refl)

pub parse-env_line :
    (name value : Text)
    → is_empty name ≡ false
    → IsEnvName name
    → parse_env_line (env_line name value) ≡ some (name, value)
unfolding parse_env_line
parse-env_line [] value ne h = absurd (cc)
parse-env_line (c ∷ name) value ne h =
    rw (trim_space-env_line c name value (h c (inl refl)).0) (
      rw (starts c name value h)
        (rw (cut-env_line c name value h) (parse_cut-value c name value h)))
  where
    starts :
        (c : ℕ) (name value : Text)
        → IsEnvName (c ∷ name)
        → (is_empty (env_line (c ∷ name) value)
            || has_prefix (env_line (c ∷ name) value) (codes "#"))
          ≡ false
    starts c name value h =
        unfold env_line has_prefix in let n : c ≢ b'#' = (h c (inl refl)).2 in ground arith

has_line_break-Has : (s : Text) → Has 10 s → has_line_break s ≡ true
has_line_break-Has [] h = absurd h
has_line_break-Has (c ∷ s) (inl q) = rw q refl
has_line_break-Has (c ∷ s) (inr h) = ground (arith, has_line_break-Has s h)

space_in_name : is_space 10 ≢ false
unfolding is_space
space_in_name e = cc

-- A written line has no line feed, and is kept whole by the scanner.
pub env_line-one :
    (name value : Text)
    → IsEnvName name
    → has_line_break value ≡ false
    → ¬ Has 10 (env_line name value)
unfolding env_line
env_line-one name value h v m = elim (Has-append 10 name _ m) [
  | inl a ↦ space_in_name (h 10 a).0
  | inr (inl q) ↦ omega (arith, q)
  | inr (inr (inl q)) ↦ omega (arith, q)
  | inr (inr (inr b)) ↦ elim (Has-append 10 (escape_env_value value) quote_mark b) [
    | inl w ↦ elim (Has-escape_env_value 10 value w) [
      | inl k ↦ cc (has_line_break-Has value k, v)
      | inr q ↦ omega (arith, q)
    ]
    | inr (inl q) ↦ omega (arith, q)
    | inr (inr z) ↦ z
  ]
]

pub drop_return-env_line :
    (name value : Text) → drop_return (env_line name value) ≡ env_line name value
unfolding env_line
drop_return-env_line name value =
    let start : Text = name ++ (codes "=" ++ (quote_mark ++ escape_env_value value)) in
    let e : start ++ quote_mark ≡ env_line name value =
      append_assoc name (b'=' ∷ b'"' ∷ escape_env_value value) quote_mark in
    ap drop_return (sym e) ∙ (drop_return-last start b'"' (ground arith) ∙ e)
