-- ===== src/Background/Writes.antt =====
-- background.go: what the operations of the supervisor write, as steps of a job's life that neither make nor start one. Statements that write may fail.
use ccc_fork.Base.{
  first, negsuc, ◌∙◌, ℕ, ℤ, pos, ◌==◌, ◌≡◌, inl, inr, refl, Bool, true, not, ◌&&◌, Option, none,
  some, List, [], ◌∷◌, ◌++◌, Bool-cases, Option-cases, if◌then◌else◌, ltb, eq_ℤ, is_empty,
  update_rows, Table, Text, write,
}
use ccc_fork.Turns.{Database, Turn}
use ccc_fork.Watches.Rows.{Bot, live}
use ccc_fork.Secrets.{Entries, Vault, Result-cases, resolve_secret_env, resolve_stdin_secret}
use ccc_fork.Background.{
  pid_of, adopt, BackgroundJob, Artifacts, Signalled, is_job_running, JobStatus, job_failed,
  job_deadline, read_exit_code, job_pid, process_alive,
}
use ccc_fork.Background.Rows.{is_job, is_running_job, affects_none, classify_background_finish}
use ccc_fork.Background.Supervisor.{
  kill_process_group, wants_cancel, Supervisor, Look, Launch, told_row, finished_row,
  enqueue_background_wake, finish_background_job, finish_from_artifacts, await_exit_code,
  finish_if_complete, apply_background_cancels, cancel_each, run_background_job, reattach_one,
  adopt_again, reattach_each, reattach_background_jobs, notify_job_resumed,
}
use ccc_fork.Background.Steps.{
  OtherStep, OtherReach, here, then_step, pid_written, finished, is_ended, write_pid,
}

pub OtherReach-trans :
    {a b c : List BackgroundJob} → OtherReach a b → OtherReach b c → OtherReach a c
OtherReach-trans h (here rows) = h
OtherReach-trans h (then_step k s) = then_step (OtherReach-trans h k) s

module _ (db : Table BackgroundJob) where
  pub update-OtherReach :
      (p : BackgroundJob → Bool) (f : BackgroundJob → BackgroundJob)
      (rows rows' : List BackgroundJob)
      → db.update p f rows ≡ some rows'
      → OtherStep rows (update_rows p f rows)
      → OtherReach rows rows'
  update-OtherReach p f rows rows' e st =
      rw (db.update_lem p f rows rows' e) (then_step (here rows) st)

  write_pid-OtherReach :
      (k pid : ℕ) (rows : List BackgroundJob)
      → OtherReach rows (write db (is_job k) (write_pid pid) rows)
  unfolding write
  write_pid-OtherReach k pid rows =
      elim (Option-cases (db.update (is_job k) (write_pid pid) rows)) [
        | inl e ↦ rw (e, write) (here rows)
        | inr (rows', e) ↦
            rw (e, write)
              (update-OtherReach (is_job k) (write_pid pid) rows rows' e (pid_written k pid rows))
      ]

-- A job that a process no longer runs is done or has failed.
pub classify-is_ended :
    (show : ℤ → Text) (j : BackgroundJob) (now : ℕ) (code : Option ℤ)
    → is_ended (classify_background_finish show j now code).status ≡ true
unfolding classify_background_finish
classify-is_ended show j now none = elim (Bool-cases j.cancel_requested) [
  | inl e ↦ rw e refl
  | inr e ↦ elim (Bool-cases (ltb (job_deadline j now) now)) [
    | inl f ↦ rw (e, f) refl
    | inr f ↦ rw (e, f) refl
  ]
]
classify-is_ended show j now (some c) = elim (Bool-cases j.cancel_requested) [
  | inl e ↦ rw e refl
  | inr e ↦ elim (Bool-cases (eq_ℤ c (pos 0))) [
    | inl z ↦ rw (e, z) refl
    | inr z ↦ elim (Bool-cases (ltb (job_deadline j now) now)) [
      | inl f ↦ rw (e, z, f) refl
      | inr f ↦ rw (e, z, f) refl
    ]
  ]
]

signal_pid : BackgroundJob → Supervisor → ℕ
signal_pid j s = let pid = pid_of j.id s.handles in if ltb 0 pid then pid else j.pid

pub kill-jobs : (pid : ℕ) (s : Supervisor) → (kill_process_group pid s).jobs ≡ s.jobs
kill-jobs pid s = elim (Bool-cases (ltb 0 pid)) [ inl e ↦ rw e refl | inr e ↦ rw e refl ]

module _ (db : Table BackgroundJob) (queue : Database) (mint : List Turn → ℕ)
    (bots : ℕ → Option Bot) (show : ℤ → Text) (quote : Text → Text) where
  pub enqueue_background_wake-jobs :
      (s : Supervisor) (j : BackgroundJob)
      → (enqueue_background_wake db queue mint bots show quote s j).jobs ≡ s.jobs
  unfolding enqueue_background_wake
  enqueue_background_wake-jobs s j = elim (Bool-cases (live (bots j.bot_id))) [
    | inl e ↦ rw e refl
    | inr e ↦ rw e refl
  ]

  finish-OtherReach :
      (s : Supervisor) (j : BackgroundJob) (status : JobStatus) (exit : ℤ) (output err : Text)
      (now : ℕ)
      → is_ended status ≡ true
      → OtherReach s.jobs
          (finish_background_job db queue mint bots show quote s j status exit output err now).jobs
  unfolding finish_background_job
  finish-OtherReach s j status exit output err now h =
      elim (Option-cases
        (db.update (is_running_job j.id) (finished_row status exit output err now) s.jobs)) [
          | inl e ↦ rw (e, finish_background_job) (here s.jobs)
          | inr (rows', e) ↦ elim (Bool-cases (affects_none (is_running_job j.id) s.jobs)) [
            | inl z ↦ rw (e, finish_background_job, z) (here s.jobs)
            | inr z ↦
                rw (e, finish_background_job, z)
                  (rw
                    (enqueue_background_wake-jobs (record s { jobs = rows' })
                      (told_row status exit output err now j))
                    (update-OtherReach db (is_running_job j.id)
                      (finished_row status exit output err now) s.jobs rows' e
                      (finished j.id now status exit output err s.jobs h)))
          ]
        ]

  cancel_each-jobs :
      (js : List BackgroundJob) (s : Supervisor)
      → (cancel_each db queue mint bots show quote js s).jobs ≡ s.jobs
  unfolding cancel_each signal_pid
  cancel_each-jobs [] s = refl
  cancel_each-jobs (j ∷ js) s =
      cancel_each-jobs js (kill_process_group (signal_pid j s) s) ∙ kill-jobs (signal_pid j s) s

  -- Signals write nothing to the table.
  pub signals-jobs :
      (s : Supervisor) → (apply_background_cancels db queue mint bots show quote s).jobs ≡ s.jobs
  unfolding apply_background_cancels
  signals-jobs s = elim (Option-cases (db.select wants_cancel s.jobs)) [
    | inl e ↦ rw (e, apply_background_cancels) refl
    | inr (js, e) ↦ rw (e, apply_background_cancels) (cancel_each-jobs js s)
  ]

  pub run-OtherReach :
      (unicode_letter unicode_digit : ℕ → Bool) (parse_env : Text → Entries) (vault : Vault)
      (launch : Launch) (now : ℕ) (s : Supervisor) (j : BackgroundJob)
      → OtherReach s.jobs
          (run_background_job db queue mint bots show quote unicode_letter unicode_digit parse_env
            vault launch now s j).0.jobs
  unfolding run_background_job
  run-OtherReach unicode_letter unicode_digit parse_env vault launch now s j =
      elim (Option-cases launch.mkdir_error) [
        | inr (x, e) ↦ rw (e, run_background_job) (failed_to_start x)
        | inl e ↦
            elim (Result-cases (
              resolve_secret_env quote unicode_letter unicode_digit vault (parse_env j.env_json))) [
                | inl (x, f) ↦ rw (e, run_background_job, f) (failed_to_start x)
                | inr ((extra, redact), f) ↦
                    elim (Result-cases (resolve_stdin_secret quote vault j.stdin_secret)) [
                      | inl (x, g) ↦ rw (e, run_background_job, f, g) (failed_to_start x)
                      | inr (stdin, g) ↦ elim (Result-cases launch.start) [
                        | inl (x, h) ↦ rw (e, run_background_job, f, g, h) (failed_to_start x)
                        | inr (pid, h) ↦
                            elim (Option-cases (
                              adopt j.id pid
                                (if is_empty stdin then redact else redact ++ stdin ∷ [])
                                s.handles)) [
                                  | inl i ↦
                                      rw (e, run_background_job, f, g, h, i)
                                        (write_pid-OtherReach db j.id pid s.jobs)
                                  | inr (x, i) ↦
                                      rw (e, run_background_job, f, g, h, i)
                                        (write_pid-OtherReach db j.id pid s.jobs)
                                ]
                      ]
                    ]
              ]
      ]
    where
      failed_to_start :
          (x : Text)
          → OtherReach s.jobs
              (finish_background_job db queue mint bots show quote s j job_failed
                (negsuc 0)
                []
                x
                now).jobs
      failed_to_start x = finish-OtherReach s j job_failed (negsuc 0) [] x now refl

  notify-jobs :
      (s : Supervisor) (j : BackgroundJob)
      → (notify_job_resumed db queue mint bots show quote s j).jobs ≡ s.jobs
  unfolding notify_job_resumed
  notify-jobs s j = elim (Bool-cases (live (bots j.bot_id))) [
    | inl e ↦ rw e refl
    | inr e ↦ rw e refl
  ]

  adopt_again-jobs :
      (dir : Artifacts) (kill : ℕ → Signalled) (s : Supervisor) (j : BackgroundJob)
      → (adopt_again db queue mint bots show quote dir kill s j).jobs ≡ s.jobs
  unfolding adopt_again
  adopt_again-jobs dir kill s j = elim (Option-cases (adopt j.id j.pid [] s.handles)) [
    | inl e ↦ rw (e, adopt_again) refl
    | inr (handles, e) ↦ elim (Option-cases (read_exit_code dir)) [
      | inr (c, f) ↦ rw (e, adopt_again, f) refl
      | inl f ↦ elim (Bool-cases (process_alive kill (job_pid j dir))) [
        | inl g ↦ rw (e, adopt_again, f, g) (notify-jobs _ j)
        | inr g ↦ rw (e, adopt_again, f, g) refl
      ]
    ]
  ]

  reattach_one-OtherReach :
      (dirs : ℕ → Artifacts) (kill : ℕ → Signalled) (s : Supervisor) (j : BackgroundJob)
      → OtherReach s.jobs (reattach_one db queue mint bots show quote dirs kill s j).jobs
  unfolding reattach_one
  reattach_one-OtherReach dirs kill s j =
      let pid = job_pid j (dirs j.id) in
      elim (Bool-cases (ltb 0 pid && not (j.pid == pid))) [
        | inl e ↦ rw (e, adopt_again-jobs) (write_pid-OtherReach db j.id pid s.jobs)
        | inr e ↦ rw (e, adopt_again-jobs) (here s.jobs)
      ]

  reattach_each-OtherReach :
      (dirs : ℕ → Artifacts) (kill : ℕ → Signalled) (js : List BackgroundJob) (s : Supervisor)
      → OtherReach s.jobs (reattach_each db queue mint bots show quote dirs kill js s).jobs
  unfolding reattach_each
  reattach_each-OtherReach dirs kill [] s = here s.jobs
  reattach_each-OtherReach dirs kill (j ∷ js) s =
      OtherReach-trans (reattach_one-OtherReach dirs kill s j) (
        reattach_each-OtherReach dirs kill js
          (reattach_one db queue mint bots show quote dirs kill s j))

  pub reattach-OtherReach :
      (dirs : ℕ → Artifacts) (kill : ℕ → Signalled) (s : Supervisor)
      → OtherReach s.jobs (reattach_background_jobs db queue mint bots show quote dirs kill s).jobs
  reattach-OtherReach dirs kill s =
      unfold reattach_background_jobs in
      elim (Option-cases (db.select (λ j. is_job_running j.status) s.jobs)) [
        | inl e ↦ rw (e, reattach_background_jobs) (here s.jobs)
        | inr (js, e) ↦ rw (e, reattach_background_jobs) (reattach_each-OtherReach dirs kill js s)
      ]

  module _ (decode : List ℕ → Text) (redact : List Text → Text → Text) where
    artifacts-OtherReach :
        (s : Supervisor) (j : BackgroundJob) (dir : Artifacts) (code : Option ℤ) (now : ℕ)
        → OtherReach s.jobs
            (finish_from_artifacts db queue mint bots show quote decode redact s j dir code
              now).jobs
    unfolding finish_from_artifacts
    artifacts-OtherReach s j dir code now =
        finish-OtherReach s j _ _ _ _ now (classify-is_ended show j now code)

    await-OtherReach :
        (s : Supervisor) (j : BackgroundJob) (later : List Artifacts) (at_last : Artifacts)
        (now : ℕ)
        → OtherReach s.jobs
            (await_exit_code db queue mint bots show quote decode redact s j later at_last now).jobs
    unfolding await_exit_code
    await-OtherReach s j [] at_last now = artifacts-OtherReach s j at_last none now
    await-OtherReach s j (dir ∷ later) at_last now = elim (Option-cases (read_exit_code dir)) [
      | inl e ↦ rw (e, await_exit_code) (await-OtherReach s j later at_last now)
      | inr (c, e) ↦ rw (e, await_exit_code) (artifacts-OtherReach s j dir (some c) now)
    ]

    pub look-OtherReach :
        (s : Supervisor) (j : BackgroundJob) (look : Look)
        → OtherReach s.jobs
            (finish_if_complete db queue mint bots show quote decode redact s j look).1.jobs
    unfolding finish_if_complete
    look-OtherReach s j look = elim (Option-cases (first db (is_job j.id) s.jobs)) [
      | inl e ↦ rw (e, finish_if_complete) (here s.jobs)
      | inr (latest, e) ↦ elim (Bool-cases (is_job_running latest.status)) [
        | inr f ↦ rw (e, finish_if_complete, f) (here s.jobs)
        | inl f ↦ elim (Option-cases (read_exit_code look.dir)) [
          | inr (c, g) ↦
              rw (e, finish_if_complete, f, g)
                (artifacts-OtherReach s latest look.dir (some c) look.now)
          | inl g ↦ elim (Bool-cases (process_alive look.kill (job_pid latest look.dir))) [
            | inl h ↦ rw (e, finish_if_complete, f, g, h) (here s.jobs)
            | inr h ↦
                rw (e, finish_if_complete, f, g, h)
                  (await-OtherReach s latest look.later look.at_last look.now)
          ]
        ]
      ]
    ]
