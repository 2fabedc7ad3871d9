-- ===== src/Secrets.antt =====
-- secrets.go: the owner's vault, and how a command gets its secrets. The vault's file is an argument: its map, or the
-- error of reading it. A Go map is an association list with one entry for a key, in the order that `range` takes.
pub mod Overlay
pub mod Resolving
mod Tests
use ccc_fork.Base.{
  ℕ, ◌*◌, ◌==◌, ◌≡◌, ◌⊎◌, inl, inr, refl, Bool, true, false, not, ◌&&◌, ◌||◌, Option, none, some,
  List, [], ◌∷◌, ◌++◌, any, map, filter, ltb, leb, if◌then◌else◌, Text, codes, text_eq, text_ltb,
  is_empty, has_prefix, trim_space,
}
use ccc_fork.Base.Bytes.{byte_length}

-- What a Go function that returns a value and an error returns.
pub data Result (A : Type 0) : Type 0 where
  error : Text → Result A
  ok : A → Result A

abbrev pub Entries : Type 0
Entries = List (Text × Text)

unfoldable pub get : Text → Entries → Option Text
get k [] = none
get k ((name, v) ∷ rest) = let more = get k rest in if text_eq name k then some v else more

-- `m[k] = v`
unfoldable pub put : Text → Text → Entries → Entries
put k v [] = (k, v) ∷ []
put k v ((name, old) ∷ rest) =
    let more = put k v rest in if text_eq name k then (k, v) ∷ rest else (name, old) ∷ more

-- `delete(m, k)`
unfoldable pub remove : Text → Entries → Entries
remove k [] = []
remove k ((name, v) ∷ rest) =
    let more = remove k rest in if text_eq name k then rest else (name, v) ∷ more

abbrev is_letter : ℕ → Bool
is_letter c = leb b'A' c && leb c b'Z' || leb b'a' c && leb c b'z'

abbrev is_secret_char : Bool → ℕ → Bool
is_secret_char is_first c =
    is_letter c || not is_first && (leb b'0' c && leb c b'9' || c == b'_' || c == b'-' || c == b'.')

unfoldable all_chars : (Bool → ℕ → Bool) → Bool → Text → Bool
all_chars p is_first [] = true
all_chars p is_first (c ∷ s) = p is_first c && all_chars p false s

abbrev pub is_set : Option Text → Bool
is_set none = false
is_set (some v) = true

abbrev pub Vault : Type 0
Vault = Result Entries

-- `%q` of a text
module _ (quote : Text → Text) where
  -- What is wrong with a name, `none` for nothing.
  unfoldable pub validate_secret_name : Text → Option Text
  unfolding all_chars byte_length
  validate_secret_name raw =
      let name = trim_space raw in
      if is_empty name
      then some (codes "secret name is empty")
      else if ltb 64 (byte_length name)
      then some (codes "secret name is too long")
      else if all_chars is_secret_char true name
      then none
      else some (
          codes "secret name "
          ++ (quote name ++ codes " is not allowed (letters, then letters/digits/._-)"))

  -- unicode.IsLetter and unicode.IsDigit
  unfoldable pub validate_env_var_name : (ℕ → Bool) → (ℕ → Bool) → Text → Option Text
  unfolding all_chars
  validate_env_var_name unicode_letter unicode_digit raw =
      let name = trim_space raw in
      if is_empty name
      then some (codes "env var name is empty")
      else if has_prefix name (codes "CLAUDE") || has_prefix name (codes "ANTHROPIC")
      then some (codes "env var " ++ (name ++ codes " cannot be injected (account isolation)"))
      else if all_chars
          (λ is_first c. c == b'_' || unicode_letter c || not is_first && unicode_digit c) true name
      then none
      else some (codes "env var name " ++ (quote name ++ codes " is not allowed"))

  abbrev max_secret_bytes : ℕ
  max_secret_bytes = 64 * 1024

  -- putSecret; the writing of the file is the caller's
  unfoldable pub put_secret : Vault → Text → Text → Result Entries
  unfolding validate_secret_name put byte_length
  put_secret vault name value = elim (validate_secret_name name) [
    | some e ↦ error e
    | none ↦
        if any (λ c. c == 0) value
        then error (codes "secret value contains a NUL")
        else if ltb max_secret_bytes (byte_length value)
        then error (codes "secret value is too large")
        else elim vault [ error e ↦ error e | ok m ↦ ok (put name value m) ]
  ]

  -- deleteSecret: whether it was there, and what is left
  unfoldable pub delete_secret : Vault → Text → Result (Bool × Entries)
  unfolding validate_secret_name remove get
  delete_secret vault name = elim (validate_secret_name name) [
    | some e ↦ error e
    | none ↦ elim vault [ error e ↦ error e | ok m ↦ ok (is_set (get name m), remove name m) ]
  ]

  unfoldable pub lookup_secret : Vault → Text → Result (Option Text)
  unfolding validate_secret_name get
  lookup_secret vault name = elim (validate_secret_name name) [
    | some e ↦ error e
    | none ↦ elim vault [ error e ↦ error e | ok m ↦ ok (get name m) ]
  ]

  -- A secret that has to be there.
  unfoldable pub wanted_secret : Vault → Text → Result Text
  unfolding lookup_secret
  wanted_secret vault name = elim (lookup_secret vault name) [
    | error e ↦ error e
    | ok none ↦ error (codes "no secret named " ++ name)
    | ok (some value) ↦ ok value
  ]

  -- resolveStdinSecret
  unfoldable pub resolve_stdin_secret : Vault → Text → Result Text
  unfolding wanted_secret
  resolve_stdin_secret vault raw =
      let name = trim_space raw in if is_empty name then ok [] else wanted_secret vault name

  -- One entry of the loop of resolveSecretEnv: the assignments and the values so far.
  unfoldable pub resolve_entry :
      (ℕ → Bool)
      → (ℕ → Bool)
      → Vault
      → Text
      → Text
      → Entries × List Text
      → Result (Entries × List Text)
  unfolding validate_env_var_name validate_secret_name wanted_secret put
  resolve_entry unicode_letter unicode_digit vault env_name secret_name (extra, redact) =
      elim (validate_env_var_name unicode_letter unicode_digit env_name) [
        | some e ↦ error e
        | none ↦ elim (wanted_secret vault secret_name) [
          | error e ↦ error e
          | ok value ↦ ok (put env_name value extra, redact ++ value ∷ [])
        ]
      ]

  unfoldable pub resolve_entries :
      (ℕ → Bool) → (ℕ → Bool) → Vault → Entries → Entries × List Text → Result (Entries × List Text)
  unfolding resolve_entry
  resolve_entries unicode_letter unicode_digit vault [] r = ok r
  resolve_entries unicode_letter unicode_digit vault ((env_name, secret_name) ∷ rest) r =
      elim (resolve_entry unicode_letter unicode_digit vault (trim_space env_name)
        (trim_space secret_name) r) [
          | error e ↦ error e
          | ok r' ↦ resolve_entries unicode_letter unicode_digit vault rest r'
        ]

  -- resolveSecretEnv
  unfoldable pub resolve_secret_env :
      (ℕ → Bool) → (ℕ → Bool) → Vault → Entries → Result (Entries × List Text)
  unfolding resolve_entries
  resolve_secret_env unicode_letter unicode_digit vault env_map =
      resolve_entries unicode_letter unicode_digit vault env_map ([], [])

-- The name before the first `=`, or all.
unfoldable pub env_name : Text → Text
env_name [] = []
env_name (c ∷ s) = let rest = env_name s in if c == b'=' then [] else c ∷ rest

-- sort.Strings
unfoldable pub insert_entry : Text × Text → Entries → Entries
insert_entry e [] = e ∷ []
insert_entry e (f ∷ rest) =
    let more = insert_entry e rest in if text_ltb f.0 e.0 then f ∷ more else e ∷ f ∷ rest

unfoldable pub sort_entries : Entries → Entries
unfolding insert_entry
sort_entries [] = []
sort_entries (e ∷ rest) = insert_entry e (sort_entries rest)

abbrev pub assignment : Text × Text → Text
assignment (k, v) = k ++ (codes "=" ++ v)

-- overlayEnv
unfoldable pub overlay_env : List Text → Entries → List Text
unfolding env_name get sort_entries
overlay_env base extra =
    filter (λ kv. not (is_set (get (env_name kv) extra))) base
    ++ map assignment (sort_entries extra)

abbrev pub redact_min_len : ℕ
redact_min_len = 4

unfoldable distinct_values : List Text → List Text → List Text
unfolding byte_length
distinct_values seen [] = []
distinct_values seen (v ∷ values) =
    let rest = distinct_values seen values in
    let rest' = distinct_values (v ∷ seen) values in
    if ltb (byte_length v) redact_min_len || any (λ w. text_eq w v) seen then rest else v ∷ rest'

unfoldable replace_each : (Text → Text → Text) → List Text → Text → Text
replace_each replace [] s = s
replace_each replace (v ∷ values) s = replace_each replace values (replace v s)

-- redactSecrets: `replace v` is strings.ReplaceAll of `v` by ***, and `sort` puts longer values first, as sort.Slice does
unfoldable pub redact_secrets :
    (Text → Text → Text) → (List Text → List Text) → Text → List Text → Text
unfolding distinct_values replace_each
redact_secrets replace sort s values =
    if is_empty s then s else replace_each replace (sort (distinct_values [] values)) s

-- formatRunResult, `exit` in words
unfoldable pub format_run_result : Text → Text → Text
format_run_result exit output =
    codes "exit "
    ++ (exit
        ++ (codes "\n"
            ++ (if is_empty (trim_space output)
                then codes "(no output)\n"
                else if ends_in_newline output
                then output
                else output ++ codes "\n")))
  where
    ends_in_newline : Text → Bool
    ends_in_newline [] = false
    ends_in_newline (c ∷ []) = c == 10
    ends_in_newline (c ∷ d ∷ s) = ends_in_newline (d ∷ s)

pub Result-cases :
    {A : Type 0} (r : Result A) → ((e : Text) × (r ≡ error e)) ⊎ ((a : A) × (r ≡ ok a))
Result-cases (error e) = inl (e, refl)
Result-cases (ok a) = inr (a, refl)
