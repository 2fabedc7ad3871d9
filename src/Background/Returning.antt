-- ===== src/Background/Returning.antt =====
-- background.go: once a job's wrapper has written its exit code, the loop that watches the job returns, and the job has ended.
use ccc_fork.Base.{
  ◌∙◌, ℕ, ℤ, ◌≡◌, ◌≢◌, inl, inr, refl, sym, ap, Bool, true, false, Option, none, some, List, [],
  ◌∷◌, head?, filter, Has, Has-filter_intro, Bool-cases, Option-cases, Table, Answers, first,
  first-Has, ==_iff, Text,
}
use ccc_fork.Turns.{Database, Turn}
use ccc_fork.Turns.Writes.{DistinctBy, eq_of_key}
use ccc_fork.Watches.Rows.{Bot}
use ccc_fork.Background.{
  BackgroundJob, Artifacts, is_job_running, job_pid, read_exit_code, process_alive,
}
use ccc_fork.Background.Rows.{is_job}
use ccc_fork.Background.Supervisor.{
  Supervisor, Look, finish_from_artifacts, await_exit_code, finish_if_complete, should_stop_job,
}
use ccc_fork.Background.Counting.{job_id}
use ccc_fork.Background.Finish.{NotRunning, finish-NotRunning}
use ccc_fork.Background.Writes.{classify-is_ended, kill-jobs}
use ccc_fork.Background.Watching.{
  Tick, Watch, returned, stop_if_late, watch_background_job, drop_job,
}

abbrev pub Distinct : List BackgroundJob → Type 0
Distinct rows = DistinctBy job_id rows

-- What others write keeps ids distinct, and the program does not stop.
pub record IsSteady (t : Tick) : Type 0 where
  pub keeps : (rows : List BackgroundJob) → Distinct rows → Distinct (t.others rows)
  pub goes_on : t.stopped ≡ false
  pub goes_on_waiting : t.stopped_waiting ≡ false

-- The loop has returned, and no row of the id runs.
abbrev pub HasEnded : ℕ → Watch → Type 0
HasEnded k w = (s : Supervisor) × (w ≡ returned s) × NotRunning k s.jobs

NotRunning-same :
    (k k' : ℕ) (rows : List BackgroundJob) → k ≡ k' → NotRunning k rows → NotRunning k' rows
NotRunning-same k k' rows e h r m q = h r m (q ∙ sym e)

head?-none : (rows : List BackgroundJob) (r : BackgroundJob) → head? rows ≡ none → ¬ Has r rows
head?-none [] r e m = m
head?-none (x ∷ rows) r e m = cc

module _ (db : Table BackgroundJob) (answers : Answers db) where
  first-none :
      (p : BackgroundJob → Bool) (rows : List BackgroundJob)
      → first db p rows ≡ none
      → (r : BackgroundJob) → Has r rows
      → p r ≢ true
  unfolding first
  first-none p rows e r m t =
      let e' : head? (filter p rows) ≡ none = rw (answers.select_answers p rows, first) at e in
      head?-none (filter p rows) r e' (Has-filter_intro p r rows m t)

module _ (db : Table BackgroundJob) (answers : Answers db) (queue : Database) (mint : List Turn → ℕ)
    (bots : ℕ → Option Bot) (show : ℤ → Text) (quote : Text → Text) (decode : List ℕ → Text)
    (redact : List Text → Text → Text) where
  artifacts-NotRunning :
      (s : Supervisor) (j : BackgroundJob) (dir : Artifacts) (code : Option ℤ) (now : ℕ)
      → NotRunning j.id
          (finish_from_artifacts db queue mint bots show quote decode redact s j dir code now).jobs
  unfolding finish_from_artifacts
  artifacts-NotRunning s j dir code now =
      finish-NotRunning db answers queue mint bots show quote s j _ _ _ _ now
        (classify-is_ended show j now code)

  await-NotRunning :
      (s : Supervisor) (j : BackgroundJob) (later : List Artifacts) (at_last : Artifacts) (now : ℕ)
      → NotRunning j.id
          (await_exit_code db queue mint bots show quote decode redact s j later at_last now).jobs
  unfolding await_exit_code
  await-NotRunning s j [] at_last now = artifacts-NotRunning s j at_last none now
  await-NotRunning s j (dir ∷ later) at_last now = elim (Option-cases (read_exit_code dir)) [
    | inl e ↦ rw (e, await_exit_code) (await-NotRunning s j later at_last now)
    | inr (c, e) ↦ rw (e, await_exit_code) (artifacts-NotRunning s j dir (some c) now)
  ]

  -- What a look at a job leaves, if it goes on and if it does not.
  AfterLook : Supervisor → BackgroundJob → Option BackgroundJob → Supervisor → Type 0
  AfterLook s j none s' = NotRunning j.id s'.jobs
  AfterLook s j (some latest) s' = (latest.id ≡ j.id) × (s' ≡ s)

  look-AfterLook :
      (s : Supervisor) (j : BackgroundJob) (look : Look)
      → Distinct s.jobs
      → let r = finish_if_complete db queue mint bots show quote decode redact s j look in
        AfterLook s j r.0 r.1
  unfolding finish_if_complete AfterLook
  look-AfterLook s j look d = elim (Option-cases (first db (is_job j.id) s.jobs)) [
    | inl e ↦
        rw (e, finish_if_complete)
          (λ r m q.
            absurd (first-none db answers (is_job j.id) s.jobs e r m ((==_iff r.id j.id).1 q)))
    | inr (latest, e) ↦
        let (m, i) = first-Has db (is_job j.id) s.jobs e in
        let same : latest.id ≡ j.id = (==_iff latest.id j.id).0 i in
        elim (Bool-cases (is_job_running latest.status)) [
          | inr f ↦
              rw (e, finish_if_complete, f)
                (λ r n q. rw (eq_of_key job_id s.jobs d r latest n m (q ∙ sym same)) f)
          | inl f ↦ elim (Option-cases (read_exit_code look.dir)) [
            | inr (c, g) ↦
                rw (e, finish_if_complete, f, g)
                  (NotRunning-same _ _ _ same
                    (artifacts-NotRunning s latest look.dir (some c) look.now))
            | inl g ↦ elim (Bool-cases (process_alive look.kill (job_pid latest look.dir))) [
              | inl h ↦ rw (e, finish_if_complete, f, g, h) (same, refl)
              | inr h ↦
                  rw (e, finish_if_complete, f, g, h)
                    (NotRunning-same _ _ _ same
                      (await-NotRunning s latest look.later look.at_last look.now))
            ]
          ]
        ]
  ]

  look-exit_code :
      (s : Supervisor) (j : BackgroundJob) (look : Look) {c : ℤ}
      → read_exit_code look.dir ≡ some c
      → (finish_if_complete db queue mint bots show quote decode redact s j look).0 ≡ none
  unfolding finish_if_complete
  look-exit_code s j look g = elim (Option-cases (first db (is_job j.id) s.jobs)) [
    | inl e ↦ rw (e, finish_if_complete) refl
    | inr (latest, e) ↦ elim (Bool-cases (is_job_running latest.status)) [
      | inr f ↦ rw (e, finish_if_complete, f) refl
      | inl f ↦ rw (e, finish_if_complete, f, g) refl
    ]
  ]

  should_stop-id :
      (s : Supervisor) (j : BackgroundJob) (now : ℕ)
      → (should_stop_job db queue mint bots show quote s j now).1.id ≡ j.id
  unfolding should_stop_job
  should_stop-id s j now = elim (Option-cases (first db (is_job j.id) s.jobs)) [
    | inl e ↦ rw (e, should_stop_job) refl
    | inr (latest, e) ↦ rw (e, should_stop_job) refl
  ]

  stop_if_late-kept :
      (killed : Bool) (s : Supervisor) (j : BackgroundJob) (look : Look)
      → let k = stop_if_late db queue mint bots show quote decode redact killed s j look in
        (k.1.id ≡ j.id) × (k.2.jobs ≡ s.jobs)
  unfolding stop_if_late
  stop_if_late-kept true s j look = (refl, refl)
  stop_if_late-kept false s j look =
      let r = should_stop_job db queue mint bots show quote s j look.now in
      elim (Bool-cases r.0) [
        | inl e ↦ rw e (should_stop-id s j look.now, kill-jobs (job_pid r.1 look.dir) s)
        | inr e ↦ rw e (should_stop-id s j look.now, refl)
      ]

  -- When the database answers, the program does not stop and nobody makes two rows of one id, the loop that watches a job returns by the first of its
  -- ticks that finds an exit code written, if not before, and by then no row of the job is running.
  pub watch_background_job-returns :
      (killed : Bool) (j : BackgroundJob) (ts : List Tick) (s : Supervisor) (t : Tick) {c : ℤ}
      → Distinct s.jobs
      → ((u : Tick) → Has u ts → IsSteady u)
      → Has t ts
      → read_exit_code t.look.dir ≡ some c
      → HasEnded j.id
          (watch_background_job db queue mint bots show quote decode redact killed j ts s)
  unfolding watch_background_job AfterLook
  watch_background_job-returns killed j [] s t d h m e = absurd m
  watch_background_job-returns killed j (u ∷ ts) s t d h m c =
      let s₀ : Supervisor = record s { jobs = u.others s.jobs } in
      let r = finish_if_complete db queue mint bots show quote decode redact s₀ j u.look in
      let steady = h u (inl refl) in
      let d₀ : Distinct s₀.jobs = steady.keeps s.jobs d in
      elim (Option-cases r.0) [
        | inl e ↦
            rw (e, watch_background_job)
              (drop_job j.id r.1, refl, rw e at (look-AfterLook s₀ j u.look d₀))
        | inr (latest, e) ↦ elim m [
          | inl q ↦ absurd (cc (e, look-exit_code s₀ j u.look (rw (← q) at c)))
          | inr m' ↦
              let (same, kept) : (latest.id ≡ j.id) × (r.1 ≡ s₀) =
                rw e at (look-AfterLook s₀ j u.look d₀) in
              let k =
                stop_if_late db queue mint bots show quote decode redact killed r.1 latest u.look in
              let (id_kept, jobs_kept) = stop_if_late-kept killed r.1 latest u.look in
              let jobs_same : k.2.jobs ≡ s₀.jobs =
                jobs_kept ∙ ap (λ (x : Supervisor). x.jobs) kept in
              let (s', w, n) =
                watch_background_job-returns k.0 k.1 ts k.2 t (rw jobs_same d₀) (λ v i. h v (inr i))
                  m' c in
              rw (e, watch_background_job, steady.goes_on, steady.goes_on_waiting)
                (s', w, NotRunning-same _ _ _ (id_kept ∙ same) n)
        ]
      ]
