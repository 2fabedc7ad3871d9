-- ===== src/Maintenance.antt =====
-- maintenance.go: the daily job. Here are the bodies of turns and the reading of what a compaction turn answers; the rows of
-- memories are in Maintenance/Compaction.
pub mod Termination
pub mod Compaction
pub mod Inserts
pub mod Restoring
pub mod Undoing
mod Tests
use ccc_fork.Base.{
  zero, suc, ℕ, ◌+◌, ◌*◌, ◌<◌, ◌==◌, Bool, true, false, not, ◌&&◌, ◌||◌, Option, none, some, List,
  [], ◌∷◌, ◌++◌, any, length, take, ltb, leb, if◌then◌else◌, Text, codes, text_eq, is_empty,
  trim_space, has_prefix, parse_int, to_lower, contains, Table,
}
use ccc_fork.Base.Bytes.{byte_length, cut_bytes}
use ccc_fork.Watches.{split_lines}

-- The columns of a turn that trimming reads and writes.
pub record TurnBody : Type 0 where
  pub id : ℕ
  pub created_at : ℕ
  pub input : Text
  pub output : Text

abbrev pub turn_body_limit : ℕ
turn_body_limit = 500

abbrev pub turn_body_marker : Text
turn_body_marker = codes "… [trimmed by maintenance]"

-- strings.HasSuffix
unfoldable pub has_suffix : Text → Text → Bool
unfolding text_eq
has_suffix [] suffix = text_eq [] suffix
has_suffix (c ∷ s) suffix = text_eq (c ∷ s) suffix || has_suffix s suffix

-- trimBody
unfoldable pub trim_body : Text → Text × Bool
unfolding byte_length cut_bytes has_suffix
trim_body s =
    if leb (byte_length s) turn_body_limit || has_suffix s turn_body_marker
    then (s, false)
    else (cut_bytes turn_body_limit s ++ turn_body_marker, true)

-- The rows of the next page: `length` of SQL counts characters.
abbrev pub wants_trim : ℕ → ℕ → TurnBody → Bool
wants_trim after cutoff t =
    ltb after t.id
    && ltb t.created_at cutoff
    && (ltb turn_body_limit (length t.input) || ltb turn_body_limit (length t.output))

abbrev pub has_turn_id : ℕ → TurnBody → Bool
has_turn_id id t = t.id == id

pub record Trimming : Type 0 where
  pub rows : List TurnBody
  -- the cursor
  pub after : ℕ
  pub trimmed : ℕ
  pub problems : ℕ

-- One row of a page.
unfoldable pub trim_row : Table TurnBody → TurnBody → Trimming → Trimming
unfolding trim_body
trim_row db t r =
    let input = trim_body t.input in
    let output = trim_body t.output in
    if not input.1 && not output.1
    then record r { after = t.id }
    else elim (db.update (has_turn_id t.id) (λ s. record s { input = input.0; output = output.0 })
        r.rows) [
          | none ↦ record r { after = t.id; problems = r.problems + 1 }
          | some rows ↦ record r { rows = rows; after = t.id; trimmed = r.trimmed + 1 }
        ]

unfoldable pub trim_page : Table TurnBody → List TurnBody → Trimming → Trimming
unfolding trim_row
trim_page db [] r = r
trim_page db (t ∷ page) r = trim_page db page (trim_row db t r)

abbrev pub page_size : ℕ
page_size = 500

-- trimTurnBodies, for at most so many pages: `none` if more are left
unfoldable pub trim_turn_bodies : Table TurnBody → ℕ → ℕ → Trimming → Option Trimming
unfolding trim_page
trim_turn_bodies db zero cutoff r = none
trim_turn_bodies db (suc pages) cutoff r = elim (db.select (wants_trim r.after cutoff) r.rows) [
  | none ↦ some (record r { problems = r.problems + 1 })
  | some found ↦
      let page = take page_size found in
      let next = trim_turn_bodies db pages cutoff (trim_page db page r) in
      if ltb (length page) page_size then some (trim_page db page r) else next
]

pub record ParsedMemory : Type 0 where
  pub key : Text
  pub text : Text

abbrev pub max_memory_key_len : ℕ
max_memory_key_len = 80

-- strings.Index of one character, and what stands before and after it.
unfoldable pub cut_at : ℕ → Text → Option (Text × Text)
cut_at d [] = none
cut_at d (c ∷ s) = let rest = cut_at d s in if c == d then some ([], s) else kept c rest
  where
    kept : ℕ → Option (Text × Text) → Option (Text × Text)
    kept c none = none
    kept c (some (before, after)) = some (c ∷ before, after)

abbrev is_mark : ℕ → Bool
is_mark c = any (λ d. d == c) (codes "-*+>#`|")

abbrev is_some : {A : Type 0} → Option A → Bool
is_some none = false
is_some (some a) = true

-- What stands before the first full stop that a space follows.
unfoldable before_stop : Text → Option Text
before_stop [] = none
before_stop (c ∷ []) = none
before_stop (c ∷ d ∷ s) =
    let rest = before_stop (d ∷ s) in if c == b'.' && d == b' ' then some [] else grown c rest
  where
    grown : ℕ → Option Text → Option Text
    grown c none = none
    grown c (some s) = some (c ∷ s)

abbrev is_number_item : Option Text → Bool
is_number_item none = false
is_number_item (some s) = not (is_empty s) && leb (byte_length s) 3 && is_some (parse_int s)

-- isMarkdownLine, of a line that is not empty
unfoldable pub is_markdown_line : Text → Bool
unfolding before_stop parse_int byte_length
is_markdown_line [] = false
is_markdown_line (c ∷ s) = is_mark c || is_number_item (before_stop (c ∷ s))

-- `parsed[at].Text = text` for a key that is there, the entry at the end for another
unfoldable pub set_parsed : Text → Text → List ParsedMemory → List ParsedMemory
set_parsed key text [] = record { key = key; text = text } ∷ []
set_parsed key text (p ∷ ps) =
    let rest = set_parsed key text ps in
    if text_eq p.key key then record p { text = text } ∷ ps else p ∷ rest

abbrev bad_key : Text → Bool
bad_key key = any (λ c. any (λ d. d == c) (codes "`*#|")) key

-- One line that is `key: text`, `none` for any other.
unfoldable pub parse_entry : Text → Option ParsedMemory
unfolding is_markdown_line cut_at byte_length
parse_entry line = if is_markdown_line line then none else entry (cut_at b':' line)
  where
    entry : Option (Text × Text) → Option ParsedMemory
    entry none = none
    entry (some (before, after)) =
        let key = trim_space before in
        let text = trim_space after in
        if is_empty before
          || is_empty key
          || is_empty text
          || ltb max_memory_key_len (byte_length key)
          || bad_key key
        then none
        else some (record { key = key; text = text })

-- What is parsed after one more line.
unfoldable pub after_line : Text → List ParsedMemory → Option (List ParsedMemory)
unfolding parse_entry set_parsed
after_line line parsed =
    if is_empty line
    then some parsed
    else elim (parse_entry line) [ none ↦ none | some p ↦ some (set_parsed p.key p.text parsed) ]

unfoldable pub parse_lines : List Text → List ParsedMemory → Option (List ParsedMemory)
unfolding after_line
parse_lines [] parsed = some parsed
parse_lines (raw ∷ rest) parsed = elim (after_line (trim_space raw) parsed) [
  | none ↦ none
  | some parsed' ↦ parse_lines rest parsed'
]

abbrev at_least_one : Option (List ParsedMemory) → Option (List ParsedMemory)
at_least_one none = none
at_least_one (some []) = none
at_least_one (some (p ∷ ps)) = some (p ∷ ps)

-- parseMemoryList, `none` for its errors
unfoldable pub parse_memory_list : Text → Option (List ParsedMemory)
unfolding parse_lines split_lines
parse_memory_list out = at_least_one (parse_lines (split_lines out) [])

-- isUnknownModelError
unfoldable pub is_unknown_model_error : Text → Bool
unfolding to_lower contains
is_unknown_model_error text =
    let l = to_lower text in
    contains l (codes "unrecognized_model")
    || contains l (codes "model catalog")
    || contains l (codes "issue with the selected model")
