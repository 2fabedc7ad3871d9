-- ===== src/Background/Rows.antt =====
-- background.go: the rows of jobs, as the tools queue, list and cancel them, and what a finish is classified as.
use ccc_fork.Base.{
  ◌||◌, ◌≡◌, ◌⊎◌, inl, inr, refl, ℕ, ℤ, pos, negsuc, eq_ℤ, ◌==◌, Bool, true, false, ◌&&◌, Option,
  none, some, List, [], ◌∷◌, ◌++◌, take, length, ltb, if◌then◌else◌, Text, codes, is_empty,
  trim_space, Table, first, filter,
}
use ccc_fork.Base.Bytes.{truncate}
use ccc_fork.Background.{
  is_job_done, is_job_failed, BackgroundJob, JobStatus, background_list_limit, is_job_queued,
  is_job_running, job_deadline, job_done, job_failed, job_queued, job_running,
}

-- The name that a job gets.
unfoldable pub job_name : Text → Text → Text
unfolding truncate
job_name name command =
    let n = trim_space name in if is_empty n then truncate command 80 else truncate n 120

-- The row that queueBackgroundJob inserts.
unfoldable pub queued_job : ℕ → ℕ → ℕ → Text → Text → Text → Text → BackgroundJob
unfolding job_name
queued_job id bot_id turn_id name command env_json stdin_secret = record {
  id = id;
  bot_id = bot_id;
  name = job_name name command;
  status = job_queued;
  command = command;
  env_json = env_json;
  stdin_secret = trim_space stdin_secret;
  pid = 0;
  deadline = none;
  exit_code = none;
  output = [];
  error = [];
  cancel_requested = false;
  created_by_turn_id = if turn_id == 0 then none else some turn_id;
  started_at = none;
  ended_at = none;
}

abbrev pub is_job : ℕ → BackgroundJob → Bool
is_job id j = j.id == id

-- `id = ? AND status = queued`, and the same for running
abbrev pub is_queued_job : ℕ → BackgroundJob → Bool
is_queued_job id j = j.id == id && is_job_queued j.status

abbrev pub is_running_job : ℕ → BackgroundJob → Bool
is_running_job id j = j.id == id && is_job_running j.status

-- `bot_id = ? AND status = running`
abbrev pub runs_for : ℕ → BackgroundJob → Bool
runs_for bot_id j = j.bot_id == bot_id && is_job_running j.status

-- Rows in the order of falling ids.
unfoldable reverse_onto : List BackgroundJob → List BackgroundJob → List BackgroundJob
reverse_onto [] acc = acc
reverse_onto (j ∷ js) acc = reverse_onto js (j ∷ acc)

-- listBackgroundJobs
unfoldable pub list_background_jobs :
    Table BackgroundJob → List BackgroundJob → ℕ → Option (List BackgroundJob)
unfolding reverse_onto
list_background_jobs db rows bot_id = elim (db.select (λ j. j.bot_id == bot_id) rows) [
  | none ↦ none
  | some found ↦ some (take background_list_limit (reverse_onto found []))
]

-- getBackgroundJob
unfoldable pub get_background_job :
    Table BackgroundJob → List BackgroundJob → ℕ → ℕ → Option BackgroundJob
unfolding first
get_background_job db rows bot_id id = first db (λ j. j.id == id && j.bot_id == bot_id) rows

-- What a tool call answers.
pub data CancelAnswer : Type 0 where
  no_job update_failed no_longer_queued cancelled_queued cancel_asked : CancelAnswer
  already : JobStatus → CancelAnswer

pub record Cancelled : Type 0 where
  pub answer : CancelAnswer
  pub jobs : List BackgroundJob
  pub signalled : List ℕ

abbrev pub cancelled_row : ℕ → BackgroundJob → BackgroundJob
cancelled_row now j = record j {
  status = job_failed;
  error = codes "cancelled";
  ended_at = some now;
}

abbrev pub asked_row : BackgroundJob → BackgroundJob
asked_row j = record j { cancel_requested = true }

-- Whether a statement with this condition affects no row.
abbrev pub affects_none : (BackgroundJob → Bool) → List BackgroundJob → Bool
affects_none p rows = length (filter p rows) == 0

-- What cancelBackgroundJob does with the row that it has read, on the rows at that time.
unfoldable pub cancel_read :
    Table BackgroundJob → BackgroundJob → ℕ → List BackgroundJob → Cancelled
cancel_read db j now rows = elim j.status [
  | job_queued ↦ elim (db.update (is_queued_job j.id) (cancelled_row now) rows) [
    | none ↦ record { answer = update_failed; jobs = rows; signalled = [] }
    | some rows' ↦ record {
      answer =
          if affects_none (is_queued_job j.id) rows then no_longer_queued else cancelled_queued;
      jobs = rows';
      signalled = [];
    }
  ]
  | job_running ↦ elim (db.update (is_job j.id) asked_row rows) [
    | none ↦ record { answer = update_failed; jobs = rows; signalled = [] }
    | some rows' ↦ record {
      answer = cancel_asked;
      jobs = rows';
      signalled = if ltb 0 j.pid then j.pid ∷ [] else [];
    }
  ]
  | job_done ↦ record { answer = already job_done; jobs = rows; signalled = [] }
  | job_failed ↦ record { answer = already job_failed; jobs = rows; signalled = [] }
]

-- cancelBackgroundJob
unfoldable pub cancel_background_job :
    Table BackgroundJob → ℕ → ℕ → ℕ → List BackgroundJob → Cancelled
unfolding get_background_job cancel_read
cancel_background_job db bot_id id now rows = elim (get_background_job db rows bot_id id) [
  | none ↦ record { answer = no_job; jobs = rows; signalled = [] }
  | some j ↦ cancel_read db j now rows
]

-- Whether a time is set and before the other.
abbrev pub ended_before : ℕ → Option ℕ → Bool
ended_before cutoff none = false
ended_before cutoff (some t) = ltb t cutoff

-- The condition of the daily cleanup: `status IN (done, failed) AND ended_at IS NOT NULL AND ended_at < ?`
abbrev pub wants_cleanup : ℕ → BackgroundJob → Bool
wants_cleanup cutoff j =
    (is_job_done j.status || is_job_failed j.status) && ended_before cutoff j.ended_at

pub record Finished : Type 0 where
  pub status : JobStatus
  pub error : Text
  pub exit : ℤ

-- classifyBackgroundFinish; an exit code in words is an argument
unfoldable pub classify_background_finish : (ℤ → Text) → BackgroundJob → ℕ → Option ℤ → Finished
unfolding job_deadline
classify_background_finish show j now code =
    let exit : ℤ = elim code [ none ↦ negsuc 0 | some c ↦ c ] in
    let succeeded : Bool = elim code [ none ↦ false | some c ↦ eq_ℤ c (pos 0) ] in
    if j.cancel_requested
    then record { status = job_failed; error = codes "cancelled"; exit = exit }
    else if succeeded
    then record { status = job_done; error = []; exit = pos 0 }
    else if ltb (job_deadline j now) now
    then record { status = job_failed; error = codes "timed out after 4h0m0s"; exit = exit }
    else elim code [
      | none ↦ record {
        status = job_failed;
        error = codes "process died without writing an exit status";
        exit = negsuc 0;
      }
      | some c ↦ record { status = job_failed; error = codes "exit status " ++ show c; exit = c }
    ]

pub JobStatus-cases :
    (t : JobStatus) → (t ≡ job_queued) ⊎ (t ≡ job_running) ⊎ (t ≡ job_done) ⊎ (t ≡ job_failed)
JobStatus-cases job_queued = inl refl
JobStatus-cases job_running = inr (inl refl)
JobStatus-cases job_done = inr (inr (inl refl))
JobStatus-cases job_failed = inr (inr (inr refl))
