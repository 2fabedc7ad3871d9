-- ===== src/Background.antt =====
-- background.go: shell jobs that outlive their turn. The state is the table of jobs, the queue that a finished job wakes
-- its bot through, the handles of the jobs that this process watches, and what it sends and signals. The files that a job's
-- wrapper leaves, the process table, the vault and the clock are arguments; times are nanoseconds since Go's zero time.
pub mod Rows
pub mod Words
pub mod Supervisor
pub mod Counting
pub mod Steps
pub mod Advancing
pub mod Cap
pub mod Operations
pub mod Starting
pub mod Writes
pub mod Holding
pub mod Sound
pub mod Life
pub mod Watching
pub mod Ending
pub mod Returning
pub mod Finish
mod Tests
use ccc_fork.Base.{
  ◌≡◌, ◌⊎◌, inl, inr, refl, ℕ, ℤ, pos, negsuc, eq_ℤ, ◌+◌, ◌*◌, ◌^◌, ◌==◌, Bool, true, false, not,
  ◌&&◌, ◌||◌, Option, none, some, List, [], ◌∷◌, ◌++◌, take, length, ltb, leb, if◌then◌else◌, Text,
  codes, text_eq, is_empty, trim_space, parse_int, Table, first, filter, map,
}
use ccc_fork.Base.Bytes.{truncate}
use ccc_fork.Turns.{Database, Store, Turn}
use ccc_fork.Watches.Rows.{Bot, live}

pub data JobStatus : Type 0 where
  job_queued job_running job_done job_failed : JobStatus

abbrev pub is_job_queued : JobStatus → Bool
is_job_queued job_queued = true
is_job_queued _ = false

abbrev pub is_job_running : JobStatus → Bool
is_job_running job_running = true
is_job_running _ = false

abbrev pub is_job_done : JobStatus → Bool
is_job_done job_done = true
is_job_done _ = false

abbrev pub is_job_failed : JobStatus → Bool
is_job_failed job_failed = true
is_job_failed _ = false

abbrev pub status_word : JobStatus → Text
status_word job_queued = codes "queued"
status_word job_running = codes "running"
status_word job_done = codes "done"
status_word job_failed = codes "failed"

-- Every job is of the one kind, shell. The pid is 0 where there is none.
pub record BackgroundJob : Type 0 where
  pub id : ℕ
  pub bot_id : ℕ
  pub name : Text
  pub status : JobStatus
  pub command : Text
  pub env_json : Text
  pub stdin_secret : Text
  pub pid : ℕ
  pub deadline : Option ℕ
  pub exit_code : Option ℤ
  pub output : Text
  pub error : Text
  pub cancel_requested : Bool
  pub created_by_turn_id : Option ℕ
  pub started_at : Option ℕ
  pub ended_at : Option ℕ

abbrev pub background_timeout : ℕ
background_timeout = 4 * 3600 * 10 ^ 9

abbrev pub max_background_per_bot : ℕ
max_background_per_bot = 8

abbrev pub background_output_limit : ℕ
background_output_limit = 64 * 1024

abbrev pub background_wake_limit : ℕ
background_wake_limit = 8 * 1024

abbrev pub background_list_limit : ℕ
background_list_limit = 20

-- bgHandle; of the command, only that it is waited for matters, which changes no state
pub record BgHandle : Type 0 where
  pub pid : ℕ
  pub redact : List Text

-- bgRuntime's map
abbrev pub Handles : Type 0
Handles = List (ℕ × BgHandle)

unfoldable pub handle_of : ℕ → Handles → Option BgHandle
handle_of id [] = none
handle_of id ((k, h) ∷ rest) = let more = handle_of id rest in if k == id then some h else more

-- adopt: `none` if the job is watched already
unfoldable pub adopt : ℕ → ℕ → List Text → Handles → Option Handles
unfolding handle_of
adopt id pid redact handles = elim (handle_of id handles) [
  | some h ↦ none
  | none ↦ some ((id, record { pid = pid; redact = redact }) ∷ handles)
]

-- redactOf
unfoldable pub redact_of : ℕ → Handles → List Text
unfolding handle_of
redact_of id handles = elim (handle_of id handles) [ none ↦ [] | some h ↦ h.redact ]

-- pidOf
unfoldable pub pid_of : ℕ → Handles → ℕ
unfolding handle_of
pid_of id handles = elim (handle_of id handles) [ none ↦ 0 | some h ↦ h.pid ]

-- drop
unfoldable pub drop_handle : ℕ → Handles → Handles
drop_handle id handles = filter (λ e. not (e.0 == id)) handles

-- What `kill(pid, 0)` answers.
pub data Signalled : Type 0 where
  exists no_permission no_process : Signalled

-- processAlive
abbrev pub process_alive : (ℕ → Signalled) → ℕ → Bool
process_alive kill pid =
    ltb 0 pid && elim (kill pid) [ exists ↦ true | no_permission ↦ true | no_process ↦ false ]

-- The files of one job's directory, `none` for one that cannot be read. The log is its bytes.
pub record Artifacts : Type 0 where
  pub exit_file : Option Text
  pub log_file : Option (List ℕ)
  pub pid_file : Option Text

-- readExitCode
unfoldable pub read_exit_code : Artifacts → Option ℤ
unfolding parse_int
read_exit_code dir = elim dir.exit_file [
  | none ↦ none
  | some body ↦ let s = trim_space body in if is_empty s then none else parse_int s
]

-- readJobLog, where `decode` reads UTF-8
unfoldable pub read_job_log : (List ℕ → Text) → Artifacts → Text
read_job_log decode dir = elim dir.log_file [
  | none ↦ []
  | some out ↦
      if ltb background_output_limit (length out)
      then decode (take background_output_limit out) ++ codes "\n…(output truncated)"
      else decode out
]

abbrev pub positive_pid : Option ℤ → ℕ
positive_pid none = 0
positive_pid (some (pos n)) = n
positive_pid (some (negsuc n)) = 0

-- readPIDFile
unfoldable pub read_pid_file : Artifacts → ℕ
unfolding parse_int
read_pid_file dir = elim dir.pid_file [
  | none ↦ 0
  | some body ↦ positive_pid (parse_int (trim_space body))
]

-- jobPID
unfoldable pub job_pid : BackgroundJob → Artifacts → ℕ
unfolding read_pid_file
job_pid j dir = if ltb 0 j.pid then j.pid else read_pid_file dir

-- jobDeadline
unfoldable pub job_deadline : BackgroundJob → ℕ → ℕ
job_deadline j now = elim j.deadline [
  | some d ↦ d
  | none ↦ elim j.started_at [ some t ↦ t + background_timeout | none ↦ now + background_timeout ]
]
