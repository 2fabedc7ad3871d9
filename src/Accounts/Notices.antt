-- ===== src/Accounts/Notices.antt =====
-- runner.go: the session that a turn runs in, and what the owner is told of its end.
use ccc_fork.Base.{
  ℕ, Bool, true, false, not, ◌&&◌, Option, none, some, [], ◌++◌, if◌then◌else◌, Text, codes,
  is_empty, trim_space,
}
use ccc_fork.Access.{html_escape}
use ccc_fork.Accounts.{Engine, antigravity, codex, auth_stale, rate_limited}
use ccc_fork.Accounts.Attempts.{TurnClass, no_class, class_stopped, class_timeout, class_error}

-- The session id of a turn, and whether it resumes one.
abbrev new_session : Engine → Text → Text × Bool
new_session antigravity fresh = ([], false)
new_session codex fresh = ([], false)
new_session _ fresh = (fresh, false)

-- sessionFor, with the id that newUUID mints
unfoldable pub session_for : Text → Engine → Text → Text × Bool
session_for session_id engine fresh =
    if is_empty (trim_space session_id) then new_session engine fresh else (session_id, true)

-- sessionForTurn: the bot's session id after it, and the turn's session
unfoldable pub session_for_turn : Bool → Text → Bool → Engine → Text → Text × (Text × Bool)
unfolding session_for
session_for_turn is_general session_id idle_too_long engine fresh =
    let kept =
      if not is_general && not (is_empty (trim_space session_id)) && idle_too_long
      then []
      else session_id in
    (kept, session_for kept engine fresh)

unfoldable pub owner_session_status : TurnClass → Bool → Option Text
owner_session_status class_stopped waiting = none
owner_session_status class_timeout waiting = none
owner_session_status no_class waiting =
    if waiting then some (codes "waiting") else some (codes "done")
owner_session_status (class_error e) waiting = some (codes "error")

unfoldable pub owner_session_status_line : Text → Text → Text
unfolding html_escape
owner_session_status_line name status =
    codes "session " ++ (html_escape name ++ (codes " " ++ html_escape status))

-- failureMessage; `truncate` of helpers.go is an argument, since it counts bytes
unfoldable pub failure_message : (Text → ℕ → Text) → TurnClass → Text → Text
unfolding html_escape
failure_message truncate class_stopped detail = codes "🛑 Stopped."
failure_message truncate (class_error auth_stale) detail =
    codes "🔑 That account needs a new login and no other account could take the turn.\n<code>"
    ++ (html_escape (truncate detail 400) ++ codes "</code>")
failure_message truncate (class_error rate_limited) detail =
    codes "⏳ Every account is rate limited right now. Try again later.\n<code>"
    ++ (html_escape (truncate detail 400) ++ codes "</code>")
failure_message truncate _ detail =
    codes "❌ Turn failed.\n<code>" ++ (html_escape (truncate detail 800) ++ codes "</code>")
