-- ===== src/Env/RoundTrip.antt =====
-- envfile.go: what `ccc env sync` writes is what `ccc listen` reads.
use ccc_fork.Base.{
  ◌==◌, ◌≡◌, ◌⊎◌, inl, inr, refl, sym, ap, ◌∙◌, arith, Bool, true, false, Option, none, some, List,
  [], ◌∷◌, ◌++◌, any, if◌then◌else◌, Text, text_eq, text_eq_iff, text_eq_refl, is_empty, has_prefix,
  trim_space, Has, Bool-cases,
}
use ccc_fork.Env.{
  render_names, render_env_file, has_line_break, env_line, parse_env_line, scan_lines, drop_return,
  passthrough_names, is_own, Environment, set_env, is_set, load_entry, load_lines, load_env_file,
  first_comment, second_comment, third_comment,
}
use ccc_fork.Upload.Chunks.{any-not_Has}
use ccc_fork.Env.Quoting.{IsEnvName, trim_space-IsEnvName}
use ccc_fork.Env.Lines.{scan_lines-line, parse-env_line, env_line-one, drop_return-env_line}

abbrev pub or_else : Option Text → Option Text → Option Text
or_else none o = o
or_else (some v) o = some v

-- The value that a variable is written with, if it is.
abbrev pub written : Option Text → Option Text
written none = none
written (some value) = if has_line_break value then none else some value

-- One variable, set unless it is there already.
fill_one : Text → Option Text → Environment × List Text → Environment × List Text
fill_one n none r = r
fill_one n (some value) (env, loaded) =
    if is_set (env n) then (env, loaded) else (set_env n value env, loaded ++ n ∷ [])

-- An environment after the names of a list have been filled in from another.
fill : (Text → Option Text) → List Text → Environment × List Text → Environment × List Text
fill lookup [] r = r
fill lookup (n ∷ ns) r = fill lookup ns (fill_one n (written (lookup n)) r)

-- What is relied on: the names are plain, every line that is written fits the scanner's buffer, and variables can be set.
pub record IsReadable (env_passthrough : List Text) (lookup : Text → Option Text)
    (sets : Text → Text → Bool) (fits : Text → Bool) : Type 0 where
  pub plain : (n : Text) → Has n env_passthrough → IsEnvName n
  pub lines_fit :
      (n value : Text)
      → Has n env_passthrough
      → lookup n ≡ some value
      → fits (env_line n value) ≡ true
  pub comments_fit :
      (fits first_comment ≡ true) × (fits second_comment ≡ true) × (fits third_comment ≡ true)
  pub can_set : (n value : Text) → sets n value ≡ true

is_wanted-Has : (n : Text) (ws : List Text) → Has n ws → any (λ w. text_eq w n) ws ≡ true
is_wanted-Has n [] h = absurd h
is_wanted-Has n (w ∷ ws) (inl q) = rw (q, text_eq_refl n) refl
is_wanted-Has n (w ∷ ws) (inr h) = ground (arith, is_wanted-Has n ws h)

load_entry-fill :
    (wanted : List Text) (sets : Text → Text → Bool) (n value : Text) (r : Environment × List Text)
    → any (λ w. text_eq w n) wanted ≡ true
    → sets n value ≡ true
    → load_entry wanted sets (some (n, value)) r ≡ fill_one n (some value) r
unfolding load_entry fill_one
load_entry-fill wanted sets n value (env, loaded) w s = elim (Bool-cases (is_set (env n))) [
  | inl e ↦ rw (w, e) refl
  | inr e ↦ rw (w, e, s) refl
]

module _ (wanted : List Text) (lookup : Text → Option Text) (sets : Text → Text → Bool)
    (fits : Text → Bool) where
  -- One line of a name that was found.
  load_lines-env_line :
      (n value rest : Text) (r : Environment × List Text)
      → IsEnvName n
      → is_empty n ≡ false
      → has_line_break value ≡ false
      → fits (env_line n value) ≡ true
      → any (λ w. text_eq w n) wanted ≡ true
      → sets n value ≡ true
      → load_lines wanted sets fits (scan_lines (env_line n value ++ (10 ∷ rest))) r
        ≡ load_lines wanted sets fits (scan_lines rest) (fill_one n (some value) r)
  unfolding load_lines
  load_lines-env_line n value rest r plain ne one f w s =
      rw (scan_lines-line (env_line n value) rest (env_line-one n value plain one)) (
        rw (f, load_lines)
          (rw (drop_return-env_line n value) (
            rw (parse-env_line n value ne plain)
              (rw (load_entry-fill wanted sets n value r w s) refl))))

  load_lines-comment :
      (line rest : Text) (r : Environment × List Text)
      → ¬ Has 10 line
      → fits line ≡ true
      → parse_env_line (drop_return line) ≡ none
      → load_lines wanted sets fits (scan_lines (line ++ (10 ∷ rest))) r
        ≡ load_lines wanted sets fits (scan_lines rest) r
  unfolding load_lines
  load_lines-comment line rest r one f p =
      rw (scan_lines-line line rest one) (rw (f, load_lines) (rw p (entry r)))
    where
      entry :
          (r : Environment × List Text)
          → load_lines wanted sets fits (scan_lines rest) (load_entry wanted sets none r)
            ≡ load_lines wanted sets fits (scan_lines rest) r
      entry (env, loaded) = unfold load_entry in refl

  load_lines-names :
      (ns : List Text) (r : Environment × List Text)
      → ((n : Text)
          → Has n ns
          → IsEnvName n × (is_empty n ≡ false) × (any (λ w. text_eq w n) wanted ≡ true))
      → ((n value : Text)
          → Has n ns
          → lookup n ≡ some value
          → (fits (env_line n value) ≡ true) × (sets n value ≡ true))
      → load_lines wanted sets fits (scan_lines (render_names lookup ns).body) r ≡ fill lookup ns r
  unfolding render_names fill fill_one
  load_lines-names [] r good goods = unfold scan_lines load_lines in refl
  load_lines-names (n ∷ ns) r good goods = elim (value_cases (lookup n)) [
    | inl e ↦ rw e (load_lines-names ns r rest_good rest_goods)
    | inr (inl (value, e, b)) ↦ rw e (rw b (load_lines-names ns r rest_good rest_goods))
    | inr (inr (value, e, b)) ↦ rw e (
        rw b (
          load_lines-env_line n value (render_names lookup ns).body r (good n (inl refl)).0
            (good n (inl refl)).1 b (goods n value (inl refl) e).0 (good n (inl refl)).2
            (goods n value (inl refl) e).1
          ∙ load_lines-names ns (fill_one n (some value) r) rest_good rest_goods))
  ]
    where
      rest_good :
          (m : Text)
          → Has m ns
          → IsEnvName m × (is_empty m ≡ false) × (any (λ w. text_eq w m) wanted ≡ true)
      rest_good m h = good m (inr h)

      rest_goods :
          (m value : Text)
          → Has m ns
          → lookup m ≡ some value
          → (fits (env_line m value) ≡ true) × (sets m value ≡ true)
      rest_goods m value h e = goods m value (inr h) e

      value_cases :
          (o : Option Text)
          → (o ≡ none)
            ⊎ ((value : Text) × (o ≡ some value) × (has_line_break value ≡ true))
            ⊎ ((value : Text) × (o ≡ some value) × (has_line_break value ≡ false))
      value_cases none = inl refl
      value_cases (some value) = elim (Bool-cases (has_line_break value)) [
        | inl b ↦ inr (inl (value, refl, b))
        | inr b ↦ inr (inr (value, refl, b))
      ]

or_else-set : (o w : Option Text) → is_set o ≡ true → or_else o w ≡ o
or_else-set none w h = absurd (cc)
or_else-set (some v) w h = refl

or_else-unset : (o w : Option Text) → is_set o ≡ false → or_else o w ≡ w
or_else-unset none w h = refl
or_else-unset (some v) w h = absurd (cc)

fill_one-lookup :
    (n k : Text) (o : Option Text) (r : Environment × List Text)
    → (fill_one n o r).0 k ≡ (if text_eq n k then or_else (r.0 k) o else r.0 k)
unfolding fill_one
fill_one-lookup n k none r = by_cases (text_eq n k) (r.0 k)
  where
    by_cases : (b : Bool) (o : Option Text) → o ≡ (if b then or_else o none else o)
    by_cases true none = refl
    by_cases true (some v) = refl
    by_cases false o = refl
fill_one-lookup n k (some value) (env, loaded) = elim (Bool-cases (text_eq n k)) [
  | inl e ↦ elim (Bool-cases (is_set (env n))) [
    | inl f ↦ rw (e, f) (sym (or_else-set (env k) (some value) (rw ((text_eq_iff n k).0 e) at f)))
    | inr f ↦
        rw (e, f)
          (rw e (sym (or_else-unset (env k) (some value) (rw ((text_eq_iff n k).0 e) at f))))
  ]
  | inr e ↦ elim (Bool-cases (is_set (env n))) [
    | inl f ↦ rw (e, f) refl
    | inr f ↦ rw (e, f) (rw e refl)
  ]
]

fill-lookup :
    (lookup : Text → Option Text) (ns : List Text) (r : Environment × List Text) (k : Text)
    → (fill lookup ns r).0 k
      ≡ (if any (λ w. text_eq w k) ns then or_else (r.0 k) (written (lookup k)) else r.0 k)
unfolding fill
fill-lookup lookup [] r k = refl
fill-lookup lookup (n ∷ ns) r k =
    fill-lookup lookup ns (fill_one n (written (lookup n)) r) k
    ∙ rw (fill_one-lookup n k (written (lookup n)) r) (elim (Bool-cases (text_eq n k)) [
      | inl e ↦
          rw (e, (text_eq_iff n k).0 e)
            (twice (any (λ w. text_eq w k) ns) (r.0 k) (written (lookup k)))
      | inr e ↦ rw e refl
    ])
  where
    twice :
        (b : Bool) (o w : Option Text)
        → (if b then or_else (or_else o w) w else or_else o w) ≡ or_else o w
    twice true none none = refl
    twice true none (some v) = refl
    twice true (some u) w = refl
    twice false o w = refl

-- What passes: a plain name that is not for Claude, as it is.
Has-passthrough_names :
    (ps : List Text) (n : Text)
    → ((m : Text) → Has m ps → IsEnvName m)
    → Has n (passthrough_names ps)
    → Has n ps × (is_empty n ≡ false)
unfolding passthrough_names
Has-passthrough_names [] n plain h = absurd h
Has-passthrough_names (p ∷ ps) n plain h =
    let same : trim_space p ≡ p = trim_space-IsEnvName p (plain p (inl refl)) in
    elim (Bool-cases (is_own p)) [
      | inl e ↦
          let (m, f) = Has-passthrough_names ps n (λ m k. plain m (inr k)) (rw (same, e) at h) in
          (inr m, f)
      | inr e ↦ elim (rw (same, e) at h) [
        | inl q ↦ (inl q, rw (← q) (ground (arith, e)))
        | inr t ↦ let (m, f) = Has-passthrough_names ps n (λ m k. plain m (inr k)) t in (inr m, f)
      ]
    ]

comments_end :
    (any (λ c. c == 10) first_comment ≡ false)
    × (any (λ c. c == 10) second_comment ≡ false)
    × (any (λ c. c == 10) third_comment ≡ false)
comments_end = (refl, refl, refl)

comments_parse :
    (parse_env_line (drop_return first_comment) ≡ none)
    × (parse_env_line (drop_return second_comment) ≡ none)
    × (parse_env_line (drop_return third_comment) ≡ none)
unfolding parse_env_line drop_return trim_space has_prefix
comments_parse = (refl, refl, refl)

-- After `ccc env sync` has written the variables that `lookup` reads and `ccc listen` has loaded the file, a variable has the
-- value that the service had already, if any, and else, if its name passes through, the value that was read, if that
-- has no line break. It holds of plain names, without spaces, `=` and `#`, if the lines fit the reader's buffer and variables can be set.
pub load-render_env_file :
    (env_passthrough : List Text) (lookup : Text → Option Text) (sets : Text → Text → Bool)
    (fits : Text → Bool) (env : Environment)
    → IsReadable env_passthrough lookup sets fits
    → (k : Text)
    → (load_env_file env_passthrough sets fits
          (some (render_env_file env_passthrough lookup).body)
          env).0
        k
      ≡ (if any (λ w. text_eq w k) (passthrough_names env_passthrough)
          then or_else (env k) (written (lookup k))
          else env k)
unfolding load_env_file render_env_file
load-render_env_file ps lookup sets fits env ok k =
    let ns = passthrough_names ps in
    let body = (render_names lookup ns).body in
    let after_second = third_comment ++ (10 ∷ body) in
    let after_first = second_comment ++ (10 ∷ after_second) in
    ap (λ (r : Environment × List Text). r.0 k)
      (load_lines-comment ns lookup sets fits first_comment after_first (env, [])
          (any-not_Has 10 first_comment comments_end.0) ok.comments_fit.0 comments_parse.0
        ∙ (load_lines-comment ns lookup sets fits second_comment after_second (env, [])
              (any-not_Has 10 second_comment comments_end.1) ok.comments_fit.1 comments_parse.1
            ∙ (load_lines-comment ns lookup sets fits third_comment body (env, [])
                  (any-not_Has 10 third_comment comments_end.2) ok.comments_fit.2 comments_parse.2
                ∙ load_lines-names ns lookup sets fits ns (env, [])
                    (λ n h.
                      let (m, f) = Has-passthrough_names ps n ok.plain h in
                      (ok.plain n m, f, is_wanted-Has n ns h))
                    (λ n value h e. (
                      ok.lines_fit n value (Has-passthrough_names ps n ok.plain h).0 e,
                      ok.can_set n value,
                    )))))
    ∙ fill-lookup lookup ns (env, []) k
