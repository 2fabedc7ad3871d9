-- ===== src/Background/Supervisor.antt =====
-- background.go: the supervisor, which starts, cancels, watches and finishes jobs. What a goroutine does between two waits is
-- one function here; `go f(j)` puts `j` in `spawned`.
use ccc_fork.Base.{
  ℕ, ℤ, negsuc, ◌+◌, ◌==◌, Bool, true, false, not, ◌&&◌, Option, none, some, List, [], ◌∷◌, ◌++◌,
  ltb, leb, if◌then◌else◌, Text, codes, text_eq, is_empty, trim_space, Table, first, count, write,
}
use ccc_fork.Turns.{Database, Store, Turn, background, enqueue}
use ccc_fork.Secrets.{Entries, Vault, Result, error, ok, resolve_secret_env, resolve_stdin_secret}
use ccc_fork.Watches.Rows.{Bot, live, or_as_before}
use ccc_fork.Background.{
  BackgroundJob, JobStatus, job_running, job_failed, is_job_queued, is_job_running, is_job_failed,
  Handles, adopt, redact_of, pid_of, Signalled, process_alive, Artifacts, read_exit_code,
  read_job_log, job_pid, job_deadline, background_timeout, max_background_per_bot,
}
use ccc_fork.Background.Rows.{
  is_job, is_queued_job, is_running_job, runs_for, affects_none, classify_background_finish,
  queued_job,
}
use ccc_fork.Background.Words.{
  render_background_wake, render_job_resumed_notice, render_job_failed_notice,
}

pub record Supervisor : Type 0 where
  pub jobs : List BackgroundJob
  pub store : Store
  pub handles : Handles
  -- what notifyBot is given, with the bot's id
  pub notices : List (ℕ × Text)
  -- the pids whose process groups were sent SIGTERM
  pub signalled : List ℕ
  pub spawned : List BackgroundJob

-- killProcessGroup
abbrev pub kill_process_group : ℕ → Supervisor → Supervisor
kill_process_group pid s = if ltb 0 pid then record s { signalled = s.signalled ++ pid ∷ [] } else s

-- What one look at a job's files and process finds: at once, while it waits for an exit code to appear, and at the end of
-- the wait.
pub record Look : Type 0 where
  pub now : ℕ
  pub kill : ℕ → Signalled
  pub dir : Artifacts
  pub later : List Artifacts
  pub at_last : Artifacts

-- What starting a job's wrapper needs from the system: the error of making its directory, and its pid or an error.
pub record Launch : Type 0 where
  pub mkdir_error : Option Text
  pub start : Result ℕ

abbrev pub or_blank : Result Text → Text
or_blank (error e) = []
or_blank (ok v) = v

abbrev pub gone_row : ℕ → BackgroundJob → BackgroundJob
gone_row now j = record j { status = job_failed; error = codes "bot is gone"; ended_at = some now }

abbrev pub started_row : ℕ → BackgroundJob → BackgroundJob
started_row now j = record j {
  status = job_running;
  started_at = some now;
  deadline = some (now + background_timeout);
}

-- What a finish tells of a job.
abbrev pub told_row : JobStatus → ℤ → Text → Text → ℕ → BackgroundJob → BackgroundJob
told_row status exit output err now j = record j {
  status = status;
  ended_at = some now;
  output = output;
  error = err;
  exit_code = some exit;
}

abbrev pub finished_row : JobStatus → ℤ → Text → Text → ℕ → BackgroundJob → BackgroundJob
finished_row status exit output err now j = record (told_row status exit output err now j) {
  pid = 0;
}

abbrev pub wants_cancel : BackgroundJob → Bool
wants_cancel j = is_job_running j.status && j.cancel_requested

-- EnvJSON of a job.
abbrev pub marshalled : (Entries → Text) → Entries → Text
marshalled marshal [] = []
marshalled marshal (e ∷ es) = marshal (e ∷ es)

module _ (db : Table BackgroundJob) (queue : Database) (mint : List Turn → ℕ)
    (bots : ℕ → Option Bot) (show : ℤ → Text) (quote : Text → Text) where
  -- queueBackgroundJob, with the id that the database mints and the JSON of `env`. The text of the database's
  -- error is none of the program's
  unfoldable pub queue_background_job :
      (ℕ → Bool)
      → (ℕ → Bool)
      → (Entries → Text)
      → Vault
      → ℕ
      → ℕ
      → ℕ
      → Text
      → Text
      → Entries
      → Text
      → Supervisor
      → Result Supervisor
  unfolding queued_job resolve_secret_env resolve_stdin_secret
  queue_background_job unicode_letter unicode_digit marshal vault id bot_id turn_id name raw env
        stdin_secret s =
      let command = trim_space raw in
      let env_json = marshalled marshal env in
      if is_empty command
      then error (codes "run_background needs a command")
      else elim (resolve_secret_env quote unicode_letter unicode_digit vault env) [
        | error e ↦ error e
        | ok r ↦ elim (resolve_stdin_secret quote vault stdin_secret) [
          | error e ↦ error e
          | ok v ↦
              elim (db.create (queued_job id bot_id turn_id name command env_json stdin_secret)
                s.jobs) [
                  | none ↦ error (codes "the row was not created")
                  | some jobs ↦ ok (record s { jobs = jobs })
                ]
        ]
      ]

  -- enqueueBackgroundWake
  unfoldable pub enqueue_background_wake : Supervisor → BackgroundJob → Supervisor
  enqueue_background_wake s j = if not (live (bots j.bot_id)) then s else record s {
    store = or_as_before s.store (
        enqueue queue s.store (mint s.store.turns) j.bot_id background
          (render_background_wake show quote j) 0);
    notices =
        if is_job_failed j.status && not (text_eq j.error (codes "cancelled"))
        then s.notices ++ (j.bot_id, render_job_failed_notice j) ∷ []
        else s.notices;
  }

  -- finishBackgroundJob
  unfoldable pub finish_background_job :
      Supervisor → BackgroundJob → JobStatus → ℤ → Text → Text → ℕ → Supervisor
  unfolding enqueue_background_wake
  finish_background_job s j status exit output err now =
      elim (db.update (is_running_job j.id) (finished_row status exit output err now) s.jobs) [
        | none ↦ s
        | some jobs ↦
            if affects_none (is_running_job j.id) s.jobs
            then s
            else enqueue_background_wake (record s { jobs = jobs })
                (told_row status exit output err now j)
      ]

  -- One queued job in the loop of startQueuedBackground.
  unfoldable pub start_one : ℕ → Supervisor → BackgroundJob → Supervisor
  start_one now s j =
      if not (live (bots j.bot_id))
      then record s { jobs = write db (is_job j.id) (gone_row now) s.jobs }
      else if leb max_background_per_bot (count db (runs_for j.bot_id) s.jobs)
      then s
      else elim (db.update (is_queued_job j.id) (started_row now) s.jobs) [
        | none ↦ s
        | some jobs ↦
            if affects_none (is_queued_job j.id) s.jobs
            then s
            else record s { jobs = jobs; spawned = s.spawned ++ started_row now j ∷ [] }
      ]

  unfoldable pub start_each : ℕ → List BackgroundJob → Supervisor → Supervisor
  unfolding start_one
  start_each now [] s = s
  start_each now (j ∷ js) s = start_each now js (start_one now s j)

  -- startQueuedBackground
  unfoldable pub start_queued_background : ℕ → Supervisor → Supervisor
  unfolding start_each
  start_queued_background now s = elim (db.select (λ j. is_job_queued j.status) s.jobs) [
    | none ↦ s
    | some queued ↦ start_each now queued s
  ]

  unfoldable pub cancel_each : List BackgroundJob → Supervisor → Supervisor
  unfolding pid_of
  cancel_each [] s = s
  cancel_each (j ∷ js) s =
      let pid = pid_of j.id s.handles in
      cancel_each js (kill_process_group (if ltb 0 pid then pid else j.pid) s)

  -- applyBackgroundCancels
  unfoldable pub apply_background_cancels : Supervisor → Supervisor
  unfolding cancel_each
  apply_background_cancels s = elim (db.select wants_cancel s.jobs) [
    | none ↦ s
    | some jobs ↦ cancel_each jobs s
  ]

  -- tickBackground
  unfoldable pub tick_background : ℕ → Supervisor → Supervisor
  unfolding apply_background_cancels start_queued_background
  tick_background now s = start_queued_background now (apply_background_cancels s)

  -- runBackgroundJob up to its call of watchBackgroundJob, and whether it calls it
  unfoldable pub run_background_job :
      (ℕ → Bool)
      → (ℕ → Bool)
      → (Text → Entries)
      → Vault
      → Launch
      → ℕ
      → Supervisor
      → BackgroundJob
      → Supervisor × Bool
  unfolding finish_background_job resolve_secret_env resolve_stdin_secret adopt
  run_background_job unicode_letter unicode_digit parse_env vault launch now s j =
      elim launch.mkdir_error [
        | some e ↦ (finish_background_job s j job_failed (negsuc 0) [] e now, false)
        | none ↦
            elim (resolve_secret_env quote unicode_letter unicode_digit vault
              (parse_env j.env_json)) [
                | error e ↦ (finish_background_job s j job_failed (negsuc 0) [] e now, false)
                | ok (extra, redact) ↦ elim (resolve_stdin_secret quote vault j.stdin_secret) [
                  | error e ↦ (finish_background_job s j job_failed (negsuc 0) [] e now, false)
                  | ok stdin ↦ elim launch.start [
                    | error e ↦ (finish_background_job s j job_failed (negsuc 0) [] e now, false)
                    | ok pid ↦
                        let jobs = write db (is_job j.id) (λ r. record r { pid = pid }) s.jobs in
                        let values = if is_empty stdin then redact else redact ++ stdin ∷ [] in
                        elim (adopt j.id pid values s.handles) [
                          | none ↦ (record s { jobs = jobs }, false)
                          | some handles ↦ (record s { jobs = jobs; handles = handles }, true)
                        ]
                  ]
                ]
              ]
      ]

  -- notifyJobResumed
  unfoldable pub notify_job_resumed : Supervisor → BackgroundJob → Supervisor
  notify_job_resumed s j =
      if live (bots j.bot_id)
      then record s { notices = s.notices ++ (j.bot_id, render_job_resumed_notice j) ∷ [] }
      else s

  -- What reattaching does once the pid of the row is known.
  unfoldable pub adopt_again : Artifacts → (ℕ → Signalled) → Supervisor → BackgroundJob → Supervisor
  unfolding notify_job_resumed adopt read_exit_code job_pid
  adopt_again dir kill s j = elim (adopt j.id j.pid [] s.handles) [
    | none ↦ s
    | some handles ↦
        let s' : Supervisor = record s { handles = handles; spawned = s.spawned ++ j ∷ [] } in
        elim (read_exit_code dir) [
          | some code ↦ s'
          | none ↦ if process_alive kill (job_pid j dir) then notify_job_resumed s' j else s'
        ]
  ]

  -- One running row in the loop of reattachBackgroundJobs.
  unfoldable pub reattach_one :
      (ℕ → Artifacts) → (ℕ → Signalled) → Supervisor → BackgroundJob → Supervisor
  unfolding adopt_again job_pid
  reattach_one dirs kill s j =
      let dir = dirs j.id in
      let pid = job_pid j dir in
      if ltb 0 pid && not (j.pid == pid)
      then adopt_again dir kill
          (record s { jobs = write db (is_job j.id) (λ r. record r { pid = pid }) s.jobs })
          (record j { pid = pid })
      else adopt_again dir kill s j

  unfoldable pub reattach_each :
      (ℕ → Artifacts) → (ℕ → Signalled) → List BackgroundJob → Supervisor → Supervisor
  unfolding reattach_one
  reattach_each dirs kill [] s = s
  reattach_each dirs kill (j ∷ js) s = reattach_each dirs kill js (reattach_one dirs kill s j)

  -- reattachBackgroundJobs
  unfoldable pub reattach_background_jobs :
      (ℕ → Artifacts) → (ℕ → Signalled) → Supervisor → Supervisor
  unfolding reattach_each
  reattach_background_jobs dirs kill s = elim (db.select (λ j. is_job_running j.status) s.jobs) [
    | none ↦ s
    | some jobs ↦ reattach_each dirs kill jobs s
  ]

  -- The part that reads the log: `decode` is UTF-8, and `redact` is redactVaultOutput.
  module _ (decode : List ℕ → Text) (redact : List Text → Text → Text) where
    -- finishFromArtifacts
    unfoldable pub finish_from_artifacts :
        Supervisor → BackgroundJob → Artifacts → Option ℤ → ℕ → Supervisor
    unfolding finish_background_job classify_background_finish redact_of read_job_log
    finish_from_artifacts s j dir code now =
        let values = redact_of j.id s.handles in
        let f = classify_background_finish show j now code in
        finish_background_job s j f.status f.exit (redact values (read_job_log decode dir))
          (redact values f.error) now

    -- The wait for an exit code of a process that is gone.
    unfoldable pub await_exit_code :
        Supervisor → BackgroundJob → List Artifacts → Artifacts → ℕ → Supervisor
    unfolding finish_from_artifacts read_exit_code
    await_exit_code s j [] at_last now = finish_from_artifacts s j at_last none now
    await_exit_code s j (dir ∷ later) at_last now = elim (read_exit_code dir) [
      | some code ↦ finish_from_artifacts s j dir (some code) now
      | none ↦ await_exit_code s j later at_last now
    ]

    -- finishIfComplete: the job to go on watching, as it is read here, or `none`
    unfoldable pub finish_if_complete :
        Supervisor → BackgroundJob → Look → Option BackgroundJob × Supervisor
    unfolding await_exit_code
    finish_if_complete s j look = elim (first db (is_job j.id) s.jobs) [
      | none ↦ (none, s)
      | some latest ↦
          if not (is_job_running latest.status) then (none, s) else elim (read_exit_code look.dir) [
            | some code ↦ (none, finish_from_artifacts s latest look.dir (some code) look.now)
            | none ↦
                if process_alive look.kill (job_pid latest look.dir)
                then (some latest, s)
                else (none, await_exit_code s latest look.later look.at_last look.now)
          ]
    ]

  -- shouldStopJob, and the job as it leaves it
  unfoldable pub should_stop_job : Supervisor → BackgroundJob → ℕ → Bool × BackgroundJob
  unfolding job_deadline
  should_stop_job s j now = elim (first db (is_job j.id) s.jobs) [
    | none ↦ (false, j)
    | some latest ↦
        let j' : BackgroundJob = record j {
          cancel_requested = latest.cancel_requested;
          deadline = latest.deadline;
          started_at = latest.started_at;
          pid = latest.pid;
          status = latest.status;
        } in
        (
          is_job_running j'.status
              && (if j'.cancel_requested then true else ltb (job_deadline j' now) now),
          j',
        )
  ]
