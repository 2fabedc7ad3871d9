-- ===== src/Background/Ending.antt =====
-- background.go: the loop of watchBackgroundJob comes to an end, and signals its job once.
use ccc_fork.Base.{
  ℕ, ℤ, ◌+◌, ◌≤◌, ◌≡◌, inl, inr, refl, ap, arith, Bool, true, false, Option, List, [], ◌∷◌,
  Bool-cases, Option-cases, ltb, Table, first, Text, length, length-append,
}
use ccc_fork.Turns.{Database, Turn}
use ccc_fork.Watches.Rows.{Bot, live}
use ccc_fork.Background.{
  BackgroundJob, Artifacts, is_job_running, JobStatus, job_pid, read_exit_code, process_alive,
}
use ccc_fork.Background.Rows.{is_job, is_running_job, affects_none}
use ccc_fork.Background.Supervisor.{
  Supervisor, Look, kill_process_group, told_row, finished_row, enqueue_background_wake,
  finish_background_job, finish_from_artifacts, await_exit_code, finish_if_complete,
  should_stop_job,
}
use ccc_fork.Background.Watching.{
  Tick, Watch, returned, watching, stop_if_late, watch_background_job,
}

abbrev pub supervisor_of : Watch → Supervisor
supervisor_of (returned s) = s
supervisor_of (watching s) = s

-- How many signals a loop may still send.
abbrev pub signals_left : Bool → ℕ
signals_left true = 0
signals_left false = 1

abbrev pub signals : Supervisor → ℕ
signals s = length s.signalled

signals-kill : (pid : ℕ) (s : Supervisor) → signals (kill_process_group pid s) ≤ signals s + 1
signals-kill pid s = elim (Bool-cases (ltb 0 pid)) [
  | inl e ↦ rw e (omega (arith, length-append s.signalled (pid ∷ [])))
  | inr e ↦ rw e (omega arith)
]

module _ (db : Table BackgroundJob) (queue : Database) (mint : List Turn → ℕ)
    (bots : ℕ → Option Bot) (show : ℤ → Text) (quote : Text → Text) where
  wake-signalled :
      (s : Supervisor) (j : BackgroundJob)
      → (enqueue_background_wake db queue mint bots show quote s j).signalled ≡ s.signalled
  unfolding enqueue_background_wake
  wake-signalled s j = elim (Bool-cases (live (bots j.bot_id))) [
    | inl e ↦ rw e refl
    | inr e ↦ rw e refl
  ]

  finish-signalled :
      (s : Supervisor) (j : BackgroundJob) (status : JobStatus) (exit : ℤ) (output err : Text)
      (now : ℕ)
      → (finish_background_job db queue mint bots show quote s j status exit output err
          now).signalled
        ≡ s.signalled
  unfolding finish_background_job
  finish-signalled s j status exit output err now =
      elim (Option-cases
        (db.update (is_running_job j.id) (finished_row status exit output err now) s.jobs)) [
          | inl e ↦ rw (e, finish_background_job) refl
          | inr (rows', e) ↦ elim (Bool-cases (affects_none (is_running_job j.id) s.jobs)) [
            | inl z ↦ rw (e, finish_background_job, z) refl
            | inr z ↦
                rw (e, finish_background_job, z)
                  (wake-signalled (record s { jobs = rows' })
                    (told_row status exit output err now j))
          ]
        ]

  module _ (decode : List ℕ → Text) (redact : List Text → Text → Text) where
    await-signalled :
        (s : Supervisor) (j : BackgroundJob) (later : List Artifacts) (at_last : Artifacts)
        (now : ℕ)
        → (await_exit_code db queue mint bots show quote decode redact s j later at_last
            now).signalled
          ≡ s.signalled
    unfolding await_exit_code finish_from_artifacts
    await-signalled s j [] at_last now = finish-signalled s j _ _ _ _ now
    await-signalled s j (dir ∷ later) at_last now = elim (Option-cases (read_exit_code dir)) [
      | inl e ↦ rw (e, await_exit_code) (await-signalled s j later at_last now)
      | inr (c, e) ↦ rw (e, await_exit_code) (finish-signalled s j _ _ _ _ now)
    ]

    look-signalled :
        (s : Supervisor) (j : BackgroundJob) (look : Look)
        → (finish_if_complete db queue mint bots show quote decode redact s j look).1.signalled
          ≡ s.signalled
    unfolding finish_if_complete finish_from_artifacts
    look-signalled s j look = elim (Option-cases (first db (is_job j.id) s.jobs)) [
      | inl e ↦ rw (e, finish_if_complete) refl
      | inr (latest, e) ↦ elim (Bool-cases (is_job_running latest.status)) [
        | inr f ↦ rw (e, finish_if_complete, f) refl
        | inl f ↦ elim (Option-cases (read_exit_code look.dir)) [
          | inr (c, g) ↦
              rw (e, finish_if_complete, f, g) (finish-signalled s latest _ _ _ _ look.now)
          | inl g ↦ elim (Bool-cases (process_alive look.kill (job_pid latest look.dir))) [
            | inl h ↦ rw (e, finish_if_complete, f, g, h) refl
            | inr h ↦
                rw (e, finish_if_complete, f, g, h)
                  (await-signalled s latest look.later look.at_last look.now)
          ]
        ]
      ]
    ]

    stop_if_late-signals :
        (killed : Bool) (s : Supervisor) (j : BackgroundJob) (look : Look)
        → let k = stop_if_late db queue mint bots show quote decode redact killed s j look in
          signals k.2 + signals_left k.0 ≤ signals s + signals_left killed
    unfolding stop_if_late
    stop_if_late-signals true s j look = omega arith
    stop_if_late-signals false s j look =
        let r = should_stop_job db queue mint bots show quote s j look.now in
        elim (Bool-cases r.0) [
          | inl e ↦ rw e (omega (arith, signals-kill (job_pid r.1 look.dir) s))
          | inr e ↦ rw e (omega arith)
        ]

    -- Over any ticks, the loop that watches a job signals its process group at most once, and not at all if it did before.
    pub watch_background_job-signals :
        (killed : Bool) (j : BackgroundJob) (ts : List Tick) (s : Supervisor)
        → signals (
            supervisor_of
              (watch_background_job db queue mint bots show quote decode redact killed j ts s))
          ≤ signals s + signals_left killed
    unfolding watch_background_job
    watch_background_job-signals killed j [] s = omega arith
    watch_background_job-signals killed j (t ∷ ts) s =
        let s₀ : Supervisor = record s { jobs = t.others s.jobs } in
        let r = finish_if_complete db queue mint bots show quote decode redact s₀ j t.look in
        let same : signals r.1 ≡ signals s = ap length (look-signalled s₀ j t.look) in
        elim (Option-cases r.0) [
          | inl e ↦ rw (e, watch_background_job) (omega (arith, same))
          | inr (latest, e) ↦
              let k =
                stop_if_late db queue mint bots show quote decode redact killed r.1 latest t.look in
              let sent = stop_if_late-signals killed r.1 latest t.look in
              elim (Bool-cases t.stopped) [
                | inl f ↦ rw (e, watch_background_job, f) (omega (arith, same))
                | inr f ↦ elim (Bool-cases t.stopped_waiting) [
                  | inl g ↦ rw (e, watch_background_job, f, g) (omega (arith, same, sent))
                  | inr g ↦
                      rw (e, watch_background_job, f, g)
                        (omega (arith, same, sent, watch_background_job-signals k.0 k.1 ts k.2))
                ]
              ]
        ]
