-- ===== src/Env.antt =====
-- envfile.go: the file that carries the secrets of `env_passthrough` to the service. An environment is the function that
-- os.LookupEnv reads. The writing of the file, and which lines bufio.Scanner's buffer holds, are arguments.
pub mod Quoting
pub mod Lines
pub mod RoundTrip
mod Tests
use ccc_fork.Base.{
  ℕ, ◌==◌, Bool, true, false, not, ◌&&◌, ◌||◌, Option, none, some, List, [], ◌∷◌, ◌++◌, any,
  if◌then◌else◌, Text, codes, text_eq, is_empty, has_prefix, replace_all, trim_space,
}

abbrev pub is_own : Text → Bool
is_own name =
    is_empty name || has_prefix name (codes "CLAUDE") || has_prefix name (codes "ANTHROPIC")

-- passthroughNames of `env_passthrough`
unfoldable pub passthrough_names : List Text → List Text
passthrough_names [] = []
passthrough_names (n ∷ ns) =
    let rest = passthrough_names ns in if is_own (trim_space n) then rest else trim_space n ∷ rest

-- Backslashes and double quotes with a backslash before them.
unfoldable pub escape_env_value : Text → Text
unfolding replace_all
escape_env_value s = replace_all b'"' (b'\\' ∷ b'"' ∷ []) (replace_all b'\\' (b'\\' ∷ b'\\' ∷ []) s)

-- `strings.ContainsAny(value, "\n\r")`
abbrev pub has_line_break : Text → Bool
has_line_break s = any (λ c. c == 10 || c == 13) s

pub data EnvCase : Type 0 where
  missing skipped : EnvCase
  found : Text → EnvCase

abbrev pub env_case : Option Text → EnvCase
env_case none = missing
env_case (some value) = if has_line_break value then skipped else found value

abbrev pub quote_mark : Text
quote_mark = b'"' ∷ []

unfoldable pub env_line : Text → Text → Text
unfolding escape_env_value
env_line name value = name ++ (codes "=" ++ (quote_mark ++ (escape_env_value value ++ quote_mark)))

pub record EnvSyncResult : Type 0 where
  pub found : List Text
  pub missing : List Text
  pub skipped : List Text

pub record Rendered : Type 0 where
  pub body : Text
  pub result : EnvSyncResult

abbrev pub note_case : EnvCase → Text → EnvSyncResult → EnvSyncResult
note_case missing name r = record r { missing = name ∷ r.missing }
note_case skipped name r = record r { skipped = name ∷ r.skipped }
note_case (found value) name r = record r { found = name ∷ r.found }

unfoldable pub write_case : EnvCase → Text → Text → Text
unfolding env_line
write_case missing name rest = rest
write_case skipped name rest = rest
write_case (found value) name rest = env_line name value ++ (10 ∷ rest)

unfoldable pub render_names : (Text → Option Text) → List Text → Rendered
unfolding write_case
render_names lookup [] = record {
  body = [];
  result = record { found = []; missing = []; skipped = [] };
}
render_names lookup (n ∷ ns) =
    let rest = render_names lookup ns in
    record {
      body = write_case (env_case (lookup n)) n rest.body;
      result = note_case (env_case (lookup n)) n rest.result;
    }

abbrev pub first_comment : Text
first_comment = codes "# Written by `ccc env sync`. Values come from the shell that ran it."

abbrev pub second_comment : Text
second_comment =
    codes "# Read by the ccc service (EnvironmentFile) and by `ccc listen`. Do not edit by hand:"

abbrev pub third_comment : Text
third_comment =
    codes "# the next sync overwrites it. Names come from config.json's env_passthrough."

unfoldable pub render_env_file : List Text → (Text → Option Text) → Rendered
unfolding render_names passthrough_names
render_env_file env_passthrough lookup =
    let r = render_names lookup (passthrough_names env_passthrough) in
    record r {
      body = first_comment ++ (10 ∷ (second_comment ++ (10 ∷ (third_comment ++ (10 ∷ r.body)))));
    }

abbrev keep_char : ℕ → Option (Text × Text) → Option (Text × Text)
keep_char c none = none
keep_char c (some (before, after)) = some (c ∷ before, after)

-- What stands before and after the first `=`, `none` if there is none.
unfoldable pub cut_at_equals : Text → Option (Text × Text)
cut_at_equals [] = none
cut_at_equals (c ∷ s) =
    let rest = cut_at_equals s in if c == b'=' then some ([], s) else keep_char c rest

unfoldable pub unescape_env_value : Text → Text
unescape_env_value [] = []
unescape_env_value (c ∷ []) = c ∷ []
unescape_env_value (c ∷ d ∷ s) = elim (c == b'\\' && (d == b'\\' || d == b'"')) [
  | true ↦ d ∷ unescape_env_value s
  | false ↦ c ∷ unescape_env_value (d ∷ s)
]

abbrev cons_some : ℕ → Option Text → Option Text
cons_some c none = none
cons_some c (some s) = some (c ∷ s)

-- A text without the double quote at its end.
unfoldable pub drop_last_quote : Text → Option Text
drop_last_quote [] = none
drop_last_quote (c ∷ []) = if c == b'"' then some [] else none
drop_last_quote (c ∷ d ∷ s) = cons_some c (drop_last_quote (d ∷ s))

-- What stands between the double quotes of a text of at least two characters.
abbrev pub unquote : Text → Option Text
unquote [] = none
unquote (c ∷ s) = if c == b'"' then drop_last_quote s else none

abbrev plain_or_quoted : Text → Option Text → Text
plain_or_quoted value none = value
plain_or_quoted value (some inner) = unescape_env_value inner

unfoldable pub parse_cut : Option (Text × Text) → Option (Text × Text)
unfolding drop_last_quote unescape_env_value
parse_cut none = none
parse_cut (some (before, after)) =
    let name = trim_space before in
    let value = trim_space after in
    if is_empty before || is_empty name
    then none
    else some (name, plain_or_quoted value (unquote value))

unfoldable pub parse_env_line : Text → Option (Text × Text)
unfolding parse_cut cut_at_equals
parse_env_line line =
    let l = trim_space line in
    if is_empty l || has_prefix l (codes "#") then none else parse_cut (cut_at_equals l)

-- A line without the carriage return at its end, as bufio.ScanLines gives it.
unfoldable pub drop_return : Text → Text
drop_return [] = []
drop_return (c ∷ s) = let rest = drop_return s in if c == 13 && is_empty s then [] else c ∷ rest

abbrev first_line : ℕ → List Text → List Text
first_line c [] = (c ∷ []) ∷ []
first_line c (l ∷ ls) = (c ∷ l) ∷ ls

-- The lines between line feeds; nothing after the last one is no line.
unfoldable pub scan_lines : Text → List Text
scan_lines [] = []
scan_lines (c ∷ s) = let rest = scan_lines s in if c == 10 then [] ∷ rest else first_line c rest

abbrev pub Environment : Type 0
Environment = Text → Option Text

abbrev pub set_env : Text → Text → Environment → Environment
set_env name value env k = if text_eq name k then some value else env k

abbrev is_set : Option Text → Bool
is_set none = false
is_set (some v) = true

-- The environment, and the names loaded.
unfoldable pub load_entry :
    List Text
    → (Text → Text → Bool)
    → Option (Text × Text)
    → Environment × List Text
    → Environment × List Text
load_entry wanted sets none (env, loaded) = (env, loaded)
load_entry wanted sets (some (name, value)) (env, loaded) =
    if not (any (λ w. text_eq w name) wanted) || is_set (env name)
    then (env, loaded)
    else if sets name value
    then (set_env name value env, loaded ++ name ∷ [])
    else (env, loaded)

-- The scanner ends at a line that its buffer does not hold.
unfoldable pub load_lines :
    List Text
    → (Text → Text → Bool)
    → (Text → Bool)
    → List Text
    → Environment × List Text
    → Environment × List Text
unfolding load_entry parse_env_line drop_return
load_lines wanted sets fits [] r = r
load_lines wanted sets fits (l ∷ ls) r = elim (fits l) [
  | false ↦ r
  | true ↦
      load_lines wanted sets fits ls (load_entry wanted sets (parse_env_line (drop_return l)) r)
]

-- loadEnvFile, on the file's text, `none` if it cannot be opened
unfoldable pub load_env_file :
    List Text
    → (Text → Text → Bool)
    → (Text → Bool)
    → Option Text
    → Environment
    → Environment × List Text
unfolding load_lines scan_lines passthrough_names
load_env_file env_passthrough sets fits none env = (env, [])
load_env_file env_passthrough sets fits (some body) env =
    load_lines (passthrough_names env_passthrough) sets fits (scan_lines body) (env, [])

-- envPassthroughStatus
unfoldable pub env_passthrough_status : List Text → Environment → List Text × List Text
unfolding passthrough_names
env_passthrough_status env_passthrough env = status (passthrough_names env_passthrough)
  where
    status : List Text → List Text × List Text
    status [] = ([], [])
    status (n ∷ ns) =
        if is_set (env n)
        then (n ∷ (status ns).0, (status ns).1)
        else ((status ns).0, n ∷ (status ns).1)
