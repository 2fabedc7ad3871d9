-- ===== src/Access.antt =====
-- access.go: the access table, the gate that every Telegram update passes, and pairing.
-- Times are nanoseconds since Go's zero time. The random bytes of a code, the clock and the database
-- are arguments. The columns `created_at` and `updated_at`, which GORM keeps, are left out.
pub mod Commands
pub mod Safety
pub mod Replies
pub mod Pairing
pub mod Codes
mod Tests
use ccc_fork.Base.{
  ℕ, ◌+◌, ◌*◌, ◌/◌, ◌%◌, Bool, true, false, not, ◌&&◌, ◌||◌, Option, none, some, List, [], ◌∷◌,
  ◌++◌, length, filter, ltb, leb, if◌then◌else◌, ℤ, pos, eq_ℤ, Text, codes, text_eq, is_empty,
  trim_space, to_lower, replace_all, hex_encode, Table, first, count, write,
}

pub data AccessState : Type 0 where
  pending approved blocked : AccessState

abbrev pub state_eq : AccessState → AccessState → Bool
state_eq pending pending = true
state_eq approved approved = true
state_eq blocked blocked = true
state_eq _ _ = false

pub record Access : Type 0 where
  pub telegram_user_id : ℤ
  pub display : Text
  pub state : AccessState
  pub pair_code : Text
  pub code_expires_at : Option ℕ
  pub replies : ℕ

-- The fields of `Config` that access control reads.
pub record Config : Type 0 where
  pub bot_token : Text
  pub chat_id : ℤ

abbrev pub nanoseconds : ℕ
nanoseconds = 1000000000

abbrev pub pair_code_ttl : ℕ
pair_code_ttl = 3600 * nanoseconds

abbrev pub max_pending_pairs : ℕ
max_pending_pairs = 3

abbrev pub max_pair_replies : ℕ
max_pair_replies = 2

pub data AccessRole : Type 0 where
  role_denied role_user role_owner : AccessRole

-- `config != nil && config.ChatID != 0 && userID == config.ChatID`
abbrev pub is_owner : Option Config → ℤ → Bool
is_owner none user_id = false
is_owner (some c) user_id = not (eq_ℤ c.chat_id (pos 0)) && eq_ℤ user_id c.chat_id

-- `config == nil || config.ChatID == 0`
abbrev pub no_owner : Option Config → Bool
no_owner none = true
no_owner (some c) = eq_ℤ c.chat_id (pos 0)

abbrev pub has_id : ℤ → Access → Bool
has_id user_id row = eq_ℤ row.telegram_user_id user_id

unfoldable pub role_of_row : Option Access → AccessRole
role_of_row none = role_denied
role_of_row (some row) = if state_eq row.state approved then role_user else role_denied

unfoldable pub classify_access : Table Access → List Access → Option Config → ℤ → AccessRole
unfolding role_of_row
classify_access db rows config user_id =
    if eq_ℤ user_id (pos 0)
    then role_denied
    else if is_owner config user_id
    then role_owner
    else if no_owner config
    then role_denied
    else role_of_row (first db (has_id user_id) rows)

-- The bytes are `rand.Read`'s, or the low bytes of the clock when it fails.
unfoldable pub new_pair_code : Option (ℕ × ℕ × ℕ) → ℕ → Text
unfolding hex_encode
new_pair_code (some (a, b, c)) nanos = hex_encode (a % 256 ∷ b % 256 ∷ c % 256 ∷ [])
new_pair_code none nanos = hex_encode (nanos % 256 ∷ nanos / 256 % 256 ∷ nanos / 65536 % 256 ∷ [])

-- `code_expires_at IS NULL OR code_expires_at > now`
abbrev pub unexpired : ℕ → Option ℕ → Bool
unexpired now none = true
unexpired now (some t) = ltb now t

abbrev pub is_waiting : ℕ → Access → Bool
is_waiting now row = state_eq row.state pending && unexpired now row.code_expires_at

unfoldable pub pending_pair_count : Table Access → List Access → ℕ → ℕ
pending_pair_count db rows now = count db (is_waiting now) rows

-- htmlEscape of helpers.go
unfoldable pub html_escape : Text → Text
unfolding replace_all
html_escape s =
    replace_all b'>' (codes "&gt;")
      (replace_all b'<' (codes "&lt;") (replace_all b'&' (codes "&amp;") s))

unfoldable pub pairing_reply : Text → Text
pairing_reply code =
    codes "This bot is private. Give its owner this code to be let in:\n<code>"
    ++ (html_escape code ++ codes "</code>\nIt expires in an hour.")

pub record PairingOutcome : Type 0 where
  pub reply : Text
  pub code : Text

abbrev pub silence : PairingOutcome
silence = record { reply = []; code = [] }

abbrev pub answer : Text → PairingOutcome
answer code = record { reply = pairing_reply code; code = code }

-- `row.CodeExpiresAt == nil || row.CodeExpiresAt.Before(now)`
abbrev pub lapsed : ℕ → Option ℕ → Bool
lapsed now none = true
lapsed now (some t) = ltb t now

abbrev pub code_is_stale : Access → ℕ → Bool
code_is_stale row now = is_empty row.pair_code || lapsed now row.code_expires_at

-- What one answer to a known user writes.
unfoldable pub refresh : Text → ℕ → Text → Access → Access → Access
refresh display now fresh row r = record r {
  display = display;
  pair_code = if code_is_stale row now then fresh else row.pair_code;
  code_expires_at =
      if code_is_stale row now then some (now + pair_code_ttl) else row.code_expires_at;
  replies = row.replies + 1;
}

-- The row of a user who writes for the first time.
abbrev pub new_row : ℤ → Text → ℕ → Text → Access
new_row user_id display now fresh = record {
  telegram_user_id = user_id;
  display = display;
  state = pending;
  pair_code = fresh;
  code_expires_at = some (now + pair_code_ttl);
  replies = 1;
}

unfoldable pub handle_new_user :
    Table Access → List Access → ℤ → Text → ℕ → Text → PairingOutcome × List Access
handle_new_user db rows user_id display now fresh =
    if leb max_pending_pairs (pending_pair_count db rows now)
    then (silence, rows)
    else elim (db.create (new_row user_id display now fresh) rows) [
      | none ↦ (silence, rows)
      | some rows' ↦ (answer fresh, rows')
    ]

unfoldable pub handle_known_user :
    Table Access → List Access → ℤ → Text → ℕ → Text → Access → PairingOutcome × List Access
handle_known_user db rows user_id display now fresh row =
    if state_eq row.state blocked
    then (silence, rows)
    else if leb max_pair_replies row.replies
    then (silence, rows)
    else (
      answer (if code_is_stale row now then fresh else row.pair_code),
      write db (has_id user_id) (refresh display now fresh row) rows,
    )

-- `fresh` is the code that `newPairCode` would mint now.
unfoldable pub handle_unknown_user :
    Table Access → List Access → ℤ → Text → ℕ → Text → PairingOutcome × List Access
unfolding handle_new_user handle_known_user
handle_unknown_user db rows user_id display now fresh = elim (first db (has_id user_id) rows) [
  | none ↦ handle_new_user db rows user_id display now fresh
  | some row ↦ handle_known_user db rows user_id display now fresh row
]

-- What `setAccessState` writes over a row it finds.
abbrev pub put_state : Text → AccessState → Access → Access
put_state display state r = record r {
  state = state;
  pair_code = [];
  code_expires_at = none;
  replies = 0;
  display = if is_empty display then r.display else display;
}

abbrev pub stated_row : ℤ → Text → AccessState → Access
stated_row user_id display state = record {
  telegram_user_id = user_id;
  display = display;
  state = state;
  pair_code = [];
  code_expires_at = none;
  replies = 0;
}

-- An upsert; `none` is an error of the database. `RowsAffected` is the number of matches.
unfoldable pub set_access_state :
    Table Access → List Access → ℤ → Text → AccessState → Option (List Access)
set_access_state db rows user_id display state =
    elim (db.update (has_id user_id) (put_state display state) rows) [
      | none ↦ none
      | some rows' ↦
          if ltb 0 (length (filter (has_id user_id) rows))
          then some rows'
          else db.create (stated_row user_id display state) rows'
    ]

pub data PairError : Type 0 where
  no_code no_request code_expired database : PairError

pub data Approval : Type 0 where
  approval : Access → List Access → Approval
  refused : PairError → Approval

-- The condition `pair_code = ? AND state = pending`.
abbrev pub asks_with : Text → Access → Bool
asks_with code row = text_eq row.pair_code code && state_eq row.state pending

-- `row.CodeExpiresAt != nil && row.CodeExpiresAt.Before(now)`
abbrev pub is_over : ℕ → Option ℕ → Bool
is_over now none = false
is_over now (some t) = ltb t now

unfoldable pub approve_row : Table Access → List Access → Access → Approval
approve_row db rows row =
    elim (set_access_state db rows row.telegram_user_id row.display approved) [
      | none ↦ refused database
      | some rows' ↦ approval (record row { state = approved }) rows'
    ]

unfoldable pub approve_by_code : Table Access → List Access → Text → ℕ → Approval
unfolding approve_row
approve_by_code db rows typed now =
    let code = to_lower (trim_space typed) in
    if is_empty code then refused no_code else elim (first db (asks_with code) rows) [
      | none ↦ refused no_request
      | some row ↦
          if is_over now row.code_expires_at then refused code_expired else approve_row db rows row
    ]

-- Whether a row was removed, and the rows left; `none` is an error of the database.
unfoldable pub revoke_access : Table Access → List Access → ℤ → Option (Bool × List Access)
revoke_access db rows user_id = elim (db.delete (has_id user_id) rows) [
  | none ↦ none
  | some rows' ↦ some (ltb 0 (length (filter (has_id user_id) rows)), rows')
]

-- What the gate and the commands send, the text of fixed replies left out.
pub data Message : Type 0 where
  pairing_answer : ℤ → Text → Message
  knock : ℤ → Text → ℤ → Text → Message
  access_list : List Access → Message
  list_unreadable usage usage_add usage_remove usage_block : Message
  failed : PairError → Message
  allowed : ℤ → Text → Message
  allowed_id removed_id blocked_id : ℤ → Message
  nothing_to_remove : Message
  let_in : ℤ → Message

-- notifyOwnerOfPairing: to the owner's chat, who knocks, with which code
unfoldable pub notify_owner_of_pairing : Config → ℤ → Text → Text → List Message
notify_owner_of_pairing cfg user_id display code =
    if is_empty cfg.bot_token || eq_ℤ cfg.chat_id (pos 0) || is_empty code
    then []
    else knock cfg.chat_id display user_id code ∷ []

pub record GateResult : Type 0 where
  pub role : AccessRole
  pub rows : List Access
  pub sent : List Message

unfoldable pub is_denied : AccessRole → Bool
is_denied role_denied = true
is_denied _ = false

unfoldable pub gate_pairing : Config → ℤ → Text → ℤ → PairingOutcome × List Access → GateResult
unfolding notify_owner_of_pairing
gate_pairing cfg user_id display chat_id (out, rows) = record {
  role = role_denied;
  rows = rows;
  sent =
      if is_empty out.reply
      then []
      else (if not (is_empty cfg.bot_token) && not (eq_ℤ chat_id (pos 0))
          then pairing_answer chat_id out.reply ∷ []
          else [])
        ++ notify_owner_of_pairing cfg user_id display out.code;
}

unfoldable pub gate :
    Table Access → List Access → Config → ℤ → Text → ℤ → Bool → ℕ → Text → GateResult
unfolding gate_pairing is_denied
gate db rows cfg user_id display chat_id is_dm now fresh =
    let role = classify_access db rows (some cfg) user_id in
    if not (is_denied role)
    then record { role = role; rows = rows; sent = [] }
    else if not is_dm
    then record { role = role_denied; rows = rows; sent = [] }
    else gate_pairing cfg user_id display chat_id
        (handle_unknown_user db rows user_id display now fresh)
