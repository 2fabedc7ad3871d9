-- ===== src/Background/Finish.antt =====
-- background.go: what finishBackgroundJob does to the row and to the queue, and that it does it once.
use ccc_fork.Base.{
  ◌↔◌, some_eq, pos, eq_ℤ, eq_ℤ_iff, ltb, ◌∙◌, ℕ, ℤ, ◌==◌, ◌≡◌, inl, inr, refl, sym, ap, arith,
  Bool, true, false, ◌&&◌, Option, none, some, List, [], ◌∷◌, filter, Has, Has-map,
  Has-filter_intro, Bool-cases, update_rows, Table, Answers, ==_iff, Text, length,
}
use ccc_fork.Turns.{Database, Turn}
use ccc_fork.Watches.Rows.{Bot}
use ccc_fork.Background.{
  job_done, job_failed, job_deadline, BackgroundJob, is_job_running, JobStatus,
}
use ccc_fork.Background.Rows.{classify_background_finish, is_running_job, affects_none}
use ccc_fork.Background.Supervisor.{Supervisor, told_row, finished_row, finish_background_job}
use ccc_fork.Background.Steps.{is_ended}
use ccc_fork.Background.Cap.{ended-not_running}
use ccc_fork.Background.Writes.{enqueue_background_wake-jobs}

-- No row of the id runs.
abbrev pub NotRunning : ℕ → List BackgroundJob → Type 0
NotRunning k rows = (r : BackgroundJob) → Has r rows → r.id ≡ k → is_job_running r.status ≡ false

filter-none :
    (p : BackgroundJob → Bool) (rows : List BackgroundJob)
    → ((r : BackgroundJob) → Has r rows → p r ≡ false)
    → filter p rows ≡ []
filter-none p [] h = refl
filter-none p (r ∷ rows) h = rw (h r (inl refl)) (filter-none p rows (λ s m. h s (inr m)))

NotRunning-affects :
    (k : ℕ) (rows : List BackgroundJob)
    → NotRunning k rows
    → affects_none (is_running_job k) rows ≡ true
NotRunning-affects k rows h =
    rw
      (filter-none (is_running_job k) rows (λ r m. elim (Bool-cases (r.id == k)) [
        | inl e ↦ rw (e, h r m ((==_iff r.id k).0 e)) refl
        | inr e ↦ rw e refl
      ]))
      refl

has-length :
    (r : BackgroundJob) (rows : List BackgroundJob) → Has r rows → (length rows == 0) ≡ false
has-length r [] m = absurd m
has-length r (x ∷ rows) m = ground arith

affects-NotRunning :
    (k : ℕ) (rows : List BackgroundJob)
    → affects_none (is_running_job k) rows ≡ true
    → NotRunning k rows
affects-NotRunning k rows h r m e = elim (Bool-cases (is_job_running r.status)) [
  | inr f ↦ f
  | inl f ↦
      let p : is_running_job k r ≡ true = rw ((==_iff r.id k).1 e, f) refl in
      absurd (
        cc (
          h,
          has-length r (filter (is_running_job k) rows)
              (Has-filter_intro (is_running_job k) r rows m p),
        ))
]

-- After the write of a finish no row of the job runs.
finished-NotRunning :
    (k : ℕ) (status : JobStatus) (exit : ℤ) (output err : Text) (now : ℕ)
    (rows : List BackgroundJob)
    → is_ended status ≡ true
    → NotRunning k (update_rows (is_running_job k) (finished_row status exit output err now) rows)
finished-NotRunning k status exit output err now rows h r m e =
    let (old, n, q) = Has-map _ r rows m in
    elim (Bool-cases (is_running_job k old)) [
      | inl t ↦
          ap (λ (x : BackgroundJob). is_job_running x.status) (rw t at q)
          ∙ ended-not_running status h
      | inr t ↦
          let same : r ≡ old = rw t at q in
          rw same (
            not_both (old.id == k) (is_job_running old.status) ((==_iff old.id k).1 (rw same at e))
              t)
    ]
  where
    not_both : (a b : Bool) → a ≡ true → (a && b) ≡ false → b ≡ false
    not_both a b e f = ground (arith, e, f)

module _ (db : Table BackgroundJob) (answers : Answers db) (queue : Database) (mint : List Turn → ℕ)
    (bots : ℕ → Option Bot) (show : ℤ → Text) (quote : Text → Text) where
  pub finish-NotRunning :
      (s : Supervisor) (j : BackgroundJob) (status : JobStatus) (exit : ℤ) (output err : Text)
      (now : ℕ)
      → is_ended status ≡ true
      → NotRunning j.id
          (finish_background_job db queue mint bots show quote s j status exit output err now).jobs
  unfolding finish_background_job
  finish-NotRunning s j status exit output err now h =
      elim (Bool-cases (affects_none (is_running_job j.id) s.jobs)) [
        | inl z ↦
            rw
              (
                answers.update_answers (is_running_job j.id)
                    (finished_row status exit output err now) s.jobs,
                finish_background_job,
                z,
              )
              (affects-NotRunning j.id s.jobs z)
        | inr z ↦
            rw
              (
                answers.update_answers (is_running_job j.id)
                    (finished_row status exit output err now) s.jobs,
                finish_background_job,
                z,
              )
              (rw
                (enqueue_background_wake-jobs db queue mint bots show quote
                  (record s {
                    jobs =
                        update_rows (is_running_job j.id) (finished_row status exit output err now)
                          s.jobs;
                  })
                  (told_row status exit output err now j))
                (finished-NotRunning j.id status exit output err now s.jobs h))
      ]

  finish-quiet :
      (s : Supervisor) (j : BackgroundJob) (status : JobStatus) (exit : ℤ) (output err : Text)
      (now : ℕ)
      → NotRunning j.id s.jobs
      → finish_background_job db queue mint bots show quote s j status exit output err now ≡ s
  unfolding finish_background_job
  finish-quiet s j status exit output err now h =
      rw
        (
          answers.update_answers (is_running_job j.id) (finished_row status exit output err now)
              s.jobs,
          finish_background_job,
          NotRunning-affects j.id s.jobs h,
        )
        refl

  -- When the database answers, a second finish of a job changes nothing, whatever it says of the job: the row keeps the first outcome, and the bot is woken
  -- and the owner told once.
  pub finish_background_job-twice :
      (s : Supervisor) (i j : BackgroundJob) (status status' : JobStatus) (exit exit' : ℤ)
      (output output' err err' : Text) (now now' : ℕ)
      → i.id ≡ j.id
      → is_ended status ≡ true
      → finish_background_job db queue mint bots show quote
          (finish_background_job db queue mint bots show quote s i status exit output err now)
          j
          status'
          exit'
          output'
          err'
          now'
        ≡ finish_background_job db queue mint bots show quote s i status exit output err now
  finish_background_job-twice s i j status status' exit exit' output output' err err' now now' e h =
      finish-quiet _ j status' exit' output' err' now'
        (λ r m q. finish-NotRunning s i status exit output err now h r m (q ∙ sym e))

-- What a finish is classified as, in words.
module _ (show : ℤ → Text) (j : BackgroundJob) (now : ℕ) where
  failed-not_done : {A : Type 0} → job_failed ≡ job_done → A
  failed-not_done e = absurd (cc)

  done-none : (classify_background_finish show j now none).status ≡ job_failed
  unfolding classify_background_finish
  done-none = elim (Bool-cases j.cancel_requested) [
    | inl e ↦ rw e refl
    | inr e ↦ elim (Bool-cases (ltb (job_deadline j now) now)) [
      | inl f ↦ rw (e, f) refl
      | inr f ↦ rw (e, f) refl
    ]
  ]

  done-some :
      (c : ℤ)
      → (classify_background_finish show j now (some c)).status ≡ job_done
      → (j.cancel_requested ≡ false) × (some c ≡ some (pos 0))
  unfolding classify_background_finish
  done-some c h = elim (Bool-cases j.cancel_requested) [
    | inl e ↦ failed-not_done (rw e at h)
    | inr e ↦ elim (Bool-cases (eq_ℤ c (pos 0))) [
      | inl z ↦ (e, ap some ((eq_ℤ_iff c (pos 0)).0 z))
      | inr z ↦ elim (Bool-cases (ltb (job_deadline j now) now)) [
        | inl f ↦ failed-not_done (rw (e, z, f) at h)
        | inr f ↦ failed-not_done (rw (e, z, f) at h)
      ]
    ]
  ]

  -- A job whose process has ended counts as done exactly if its wrapper wrote the exit code 0 and nobody had asked to cancel it, even when it is past its
  -- deadline.
  pub classify_background_finish-done :
      (code : Option ℤ)
      → ((classify_background_finish show j now code).status ≡ job_done)
        ↔ ((j.cancel_requested ≡ false) × (code ≡ some (pos 0)))
  unfolding classify_background_finish
  classify_background_finish-done none =
      (λ h. failed-not_done (sym done-none ∙ h), λ (e, f). absurd (cc (f)))
  classify_background_finish-done (some c) = (done-some c, λ (e, f). rw (e, some_eq f) refl)
