-- ===== src/Background/Cap.antt =====
-- background.go: the steps of a job's life keep the bound on running jobs.
use ccc_fork.Base.{
  filter, not, ◌∙◌, ℕ, ◌≤◌, ◌==◌, ◌≡◌, ◌≢◌, inl, inr, refl, sym, ap, arith, Bool, true, false, List,
  [], ◌∷◌, ◌++◌, Has, Has-append, Has-append_left, Has-append_right, Bool-cases, update_rows,
  ==_iff,
}
use ccc_fork.Turns.Writes.{DistinctBy, DistinctBy-filter}
use ccc_fork.Background.{
  BackgroundJob, is_job_running, JobStatus, job_queued, job_running, job_done, job_failed,
  max_background_per_bot,
}
use ccc_fork.Background.Rows.{
  is_job, is_queued_job, is_running_job, runs_for, asked_row, cancelled_row, wants_cleanup,
}
use ccc_fork.Background.Supervisor.{started_row, gone_row, finished_row}
use ccc_fork.Background.Counting.{
  running_count, job_id, running_count-Quiet, running_count-start, DistinctBy-update_rows,
  running_count-insert, running_count-filter, after,
}
use ccc_fork.Background.Steps.{
  JobReach, JobStep, OtherStep, other, asked, cancelled, created, finished, gone, unchanged,
  cleaned, is_ended, pid_written, started, written, write_pid,
}

-- The rows have distinct ids, and no bot runs more jobs than it may.
pub record IsValid (rows : List BackgroundJob) : Type 0 where
  pub distinct : DistinctBy job_id rows
  pub capped : (b : ℕ) → running_count b rows ≤ max_background_per_bot

DistinctBy-insert :
    (row : BackgroundJob) (before after : List BackgroundJob)
    → DistinctBy job_id (before ++ after)
    → ((r : BackgroundJob) → Has r (before ++ after) → r.id ≢ row.id)
    → DistinctBy job_id (before ++ row ∷ after)
DistinctBy-insert row [] after d h = (h, d)
DistinctBy-insert row (r ∷ before) after d h = (
  λ s m. elim (Has-append s before (row ∷ after) m) [
    | inl a ↦ d.0 s (Has-append_left s before after a)
    | inr (inl q) ↦ λ e. h r (inl refl) (sym e ∙ ap job_id (sym q))
    | inr (inr a) ↦ d.0 s (Has-append_right s before after a)
  ],
  DistinctBy-insert row before after d.1 (λ s m. h s (inr m)),
)

-- A write after which only jobs run that ran before.
IsValid-Quiet :
    (p : BackgroundJob → Bool) (f : BackgroundJob → BackgroundJob) (rows : List BackgroundJob)
    → ((r : BackgroundJob) → (f r).id ≡ r.id)
    → ((b : ℕ) (r : BackgroundJob) → p r ≡ true → runs_for b (f r) ≡ true → runs_for b r ≡ true)
    → IsValid rows
    → IsValid (update_rows p f rows)
IsValid-Quiet p f rows i q v = record {
  distinct = DistinctBy-update_rows p f rows i v.distinct;
  capped = λ b. omega (arith, v.capped b, running_count-Quiet b p f rows (λ r m. q b r));
}

not_running : (b : ℕ) (r : BackgroundJob) → is_job_running r.status ≡ false → runs_for b r ≡ false
not_running b r e = ground (arith, e)

pub ended-not_running : (t : JobStatus) → is_ended t ≡ true → is_job_running t ≡ false
ended-not_running job_queued e = refl
ended-not_running job_running e = absurd (cc)
ended-not_running job_done e = refl
ended-not_running job_failed e = refl

never : {b : Bool} {A : Type 0} → b ≡ false → b ≡ true → A
never e f = absurd (cc)

-- A step that neither makes a row nor starts one.
IsValid-other : {a b : List BackgroundJob} → OtherStep a b → IsValid a → IsValid b
IsValid-other (cancelled k now rows) v =
    IsValid-Quiet (is_queued_job k) (cancelled_row now) rows (λ r. refl)
      (λ b r p. never (not_running b (cancelled_row now r) refl)) v
IsValid-other (asked k rows) v =
    IsValid-Quiet (is_job k) asked_row rows (λ r. refl) (λ b r p h. h) v
IsValid-other (pid_written k pid rows) v =
    IsValid-Quiet (is_job k) (write_pid pid) rows (λ r. refl) (λ b r p h. h) v
IsValid-other (finished k now status exit output err rows q) v =
    IsValid-Quiet (is_running_job k) (finished_row status exit output err now) rows (λ r. refl)
      (λ b r p.
        never
          (not_running b (finished_row status exit output err now r) (ended-not_running status q)))
      v

-- Each step keeps ids distinct and the number of running jobs in its bound.
pub IsValid-step : {a b : List BackgroundJob} → JobStep a b → IsValid a → IsValid b
IsValid-step (created row before after q fresh) v = record {
  distinct = DistinctBy-insert row before after v.distinct fresh;
  capped = λ b.
      rw (running_count-insert b row before after (not_running b row (rw q refl))) (v.capped b);
}
IsValid-step (started k b now rows o c) v = record {
  distinct = DistinctBy-update_rows (is_queued_job k) (started_row now) rows (λ r. refl) v.distinct;
  capped = λ x. elim (Bool-cases (b == x)) [
    | inl e ↦
        let q = (==_iff b x).0 e in
        omega (arith, rw q at c, running_count-start x k now rows v.distinct)
    | inr e ↦ omega (
      arith,
      v.capped x,
      running_count-Quiet x (is_queued_job k) (started_row now) rows
          (λ r m p h. ground (arith, o r m, p, h, e)),
    )
  ];
}
IsValid-step (gone k now rows o) v =
    IsValid-Quiet (is_job k) (gone_row now) rows (λ r. refl)
      (λ b r p. never (not_running b (gone_row now r) refl)) v
IsValid-step (other st) v = IsValid-other st v

-- A cleanup keeps both as well.
IsValid-filter :
    (p : BackgroundJob → Bool) (rows : List BackgroundJob) → IsValid rows → IsValid (filter p rows)
IsValid-filter p rows v = record {
  distinct = DistinctBy-filter job_id p rows v.distinct;
  capped = λ b. omega (arith, v.capped b, running_count-filter b p rows);
}

pub JobReach-IsValid :
    {Cutoff : ℕ → Type 0} {a b : List BackgroundJob} → JobReach Cutoff a b → IsValid a → IsValid b
JobReach-IsValid (unchanged rows) v = v
JobReach-IsValid (written h st) v = IsValid-step st (JobReach-IsValid h v)
JobReach-IsValid (cleaned {a} {b} cutoff c h) v =
    IsValid-filter (λ r. not (wants_cleanup cutoff r)) b (JobReach-IsValid h v)
