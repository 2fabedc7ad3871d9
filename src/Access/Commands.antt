-- ===== src/Access/Commands.antt =====
-- access.go: `/access …` and the Allow and Block buttons, which only the owner reaches, and
-- splitFirstWord of listenv3.go.
use ccc_fork.Base.{
  ℕ, ◌==◌, Bool, true, false, ◌||◌, Option, none, some, List, [], ◌∷◌, if◌then◌else◌, ℤ, pos, eq_ℤ,
  Text, codes, text_eq, is_empty, trim_space, to_lower, parse_int, Table,
}
use ccc_fork.Access

-- `s[:i]` and `s[i+1:]` at the first space or line feed, `none` if there is neither
unfoldable pub cut_at_space : Text → Option (Text × Text)
cut_at_space [] = none
cut_at_space (c ∷ s) =
    if c == 32 || c == 10
    then some ([], s)
    else elim (cut_at_space s) [ none ↦ none | some (word, rest) ↦ some (c ∷ word, rest) ]

unfoldable pub split_first_word : Text → Text × Text
unfolding cut_at_space
split_first_word s =
    let t = trim_space s in
    if is_empty t
    then ([], [])
    else elim (cut_at_space t) [ none ↦ (t, []) | some (word, rest) ↦ (word, trim_space rest) ]

-- tellUser
abbrev pub tell_user : Access.Config → ℤ → List Access.Message
tell_user cfg user_id =
    if is_empty cfg.bot_token || eq_ℤ user_id (pos 0) then [] else Access.let_in user_id ∷ []

-- The rows after a command, and what it sends.
abbrev pub Outcome : Type 0
Outcome = List Access.Access × List Access.Message

unfoldable pub pair_outcome : Access.Config → List Access.Access → Access.Approval → Outcome
pair_outcome cfg rows (Access.refused e) = (rows, Access.failed e ∷ [])
pair_outcome cfg rows (Access.approval row rows') =
    (rows', Access.allowed row.telegram_user_id row.display ∷ tell_user cfg row.telegram_user_id)

unfoldable pub stated : List Access.Access → Option (List Access.Access) → Access.Message → Outcome
stated rows none m = (rows, Access.failed Access.database ∷ [])
stated rows (some rows') m = (rows', m ∷ [])

unfoldable pub removed : List Access.Access → ℤ → Option (Bool × List Access.Access) → Outcome
removed rows user_id none = (rows, Access.failed Access.database ∷ [])
removed rows user_id (some (false, rows')) = (rows', Access.nothing_to_remove ∷ [])
removed rows user_id (some (true, rows')) = (rows', Access.removed_id user_id ∷ [])

unfoldable pub listed : List Access.Access → Option (List Access.Access) → Outcome
listed rows none = (rows, Access.list_unreadable ∷ [])
listed rows (some found) = (rows, Access.access_list found ∷ [])

-- A command about a user id: what it does with the id, or its usage if there is none.
unfoldable pub with_id : Option ℤ → Outcome → (ℤ → Outcome) → Outcome
with_id none usage act = usage
with_id (some id) usage act = act id

-- The cases of the command's `switch`.
pub data Verb : Type 0 where
  list pair add remove block other : Verb

unfoldable pub verb_of : Text → Verb
verb_of sub =
    if text_eq sub [] || text_eq sub (codes "list")
    then list
    else if text_eq sub (codes "pair")
    then pair
    else if text_eq sub (codes "add")
    then add
    else if text_eq sub (codes "remove")
    then remove
    else if text_eq sub (codes "block")
    then block
    else other

unfoldable pub run_verb :
    Table Access.Access → List Access.Access → Access.Config → Verb → Text → ℕ → Outcome
unfolding pair_outcome stated removed listed with_id
run_verb db rows cfg list arg now = listed rows (db.select (λ r. true) rows)
run_verb db rows cfg pair arg now = pair_outcome cfg rows (Access.approve_by_code db rows arg now)
run_verb db rows cfg add arg now =
    with_id (parse_int (trim_space arg)) (rows, Access.usage_add ∷ [])
      λ id.
        stated rows (Access.set_access_state db rows id [] Access.approved) (Access.allowed_id id)
run_verb db rows cfg remove arg now =
    with_id (parse_int (trim_space arg)) (rows, Access.usage_remove ∷ [])
      λ id. removed rows id (Access.revoke_access db rows id)
run_verb db rows cfg block arg now =
    with_id (parse_int (trim_space arg)) (rows, Access.usage_block ∷ [])
      λ id.
        stated rows (Access.set_access_state db rows id [] Access.blocked) (Access.blocked_id id)
run_verb db rows cfg other arg now = (rows, Access.usage ∷ [])

unfoldable pub handle_access_command :
    Table Access.Access → List Access.Access → Access.Config → Text → ℕ → Outcome
unfolding run_verb verb_of
handle_access_command db rows cfg rest now =
    let (word, arg) = split_first_word rest in
    run_verb db rows cfg (verb_of (to_lower word)) arg now

-- The cases of the callback's `switch`.
pub data Press : Type 0 where
  allow ban nothing : Press

unfoldable pub press_of : Text → Press
press_of verb =
    if text_eq verb (codes "pair")
    then allow
    else if text_eq verb (codes "block")
    then ban
    else nothing

unfoldable pub run_press :
    Table Access.Access → List Access.Access → Access.Config → Press → Text → ℕ → Outcome
unfolding pair_outcome stated with_id
run_press db rows cfg allow about now =
    pair_outcome cfg rows (Access.approve_by_code db rows about now)
run_press db rows cfg ban about now =
    with_id (parse_int about) (rows, [])
      λ id.
        stated rows (Access.set_access_state db rows id [] Access.blocked) (Access.blocked_id id)
run_press db rows cfg nothing about now = (rows, [])

-- The data of a button, split at its colons: `access`, what to do, and about whom.
unfoldable pub handle_access_callback :
    Table Access.Access → List Access.Access → Access.Config → List Text → ℕ → Outcome
unfolding run_press press_of
handle_access_callback db rows cfg (tag ∷ verb ∷ about ∷ more) now =
    run_press db rows cfg (press_of verb) about now
handle_access_callback db rows cfg _ now = (rows, [])
