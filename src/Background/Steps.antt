-- ===== src/Background/Steps.antt =====
-- background.go: the life of a job as a step relation on the table of jobs. Each constructor is one write that the program
-- makes, with the condition of its statement and what the program knows when it makes it.
use ccc_fork.Base.{
  ◌⊎◌, filter, not, codes, ℕ, ℤ, ◌<◌, ◌≡◌, ◌≢◌, arith, Bool, true, false, ◌&&◌, List, ◌∷◌, ◌++◌,
  Has, update_rows, Text,
}
use ccc_fork.Background.{
  BackgroundJob, is_job_queued, JobStatus, job_queued, job_running, job_done, job_failed,
  max_background_per_bot,
}
use ccc_fork.Background.Rows.{
  is_job, is_queued_job, is_running_job, asked_row, cancelled_row, wants_cleanup,
}
use ccc_fork.Background.Supervisor.{started_row, gone_row, finished_row}
use ccc_fork.Background.Counting.{running_count}

abbrev pub is_ended : JobStatus → Bool
is_ended job_queued = false
is_ended job_running = false
is_ended job_done = true
is_ended job_failed = true

abbrev pub write_pid : ℕ → BackgroundJob → BackgroundJob
write_pid pid r = record r { pid = pid }

-- Every row of the id belongs to the bot.
abbrev pub OfBot : ℕ → ℕ → List BackgroundJob → Type 0
OfBot k b rows = (r : BackgroundJob) → Has r rows → r.id ≡ k → r.bot_id ≡ b

-- The row is queued, or was cancelled before it started.
abbrev pub Waits : BackgroundJob → Type 0
Waits r =
    (is_job_queued r.status ≡ true) ⊎ ((r.status ≡ job_failed) × (r.error ≡ codes "cancelled"))

-- Every row of the id waits.
abbrev pub Waiting : ℕ → List BackgroundJob → Type 0
Waiting k rows = (r : BackgroundJob) → Has r rows → r.id ≡ k → Waits r

-- The writes that neither make rows nor start them.
pub data OtherStep : List BackgroundJob → List BackgroundJob → Type 0 where
  cancelled :
      (k now : ℕ) (rows : List BackgroundJob)
      → OtherStep rows (update_rows (is_queued_job k) (cancelled_row now) rows)
  asked :
      (k : ℕ) (rows : List BackgroundJob) → OtherStep rows (update_rows (is_job k) asked_row rows)
  pid_written :
      (k pid : ℕ) (rows : List BackgroundJob)
      → OtherStep rows (update_rows (is_job k) (write_pid pid) rows)
  finished :
      (k now : ℕ) (status : JobStatus) (exit : ℤ) (output err : Text) (rows : List BackgroundJob)
      → is_ended status ≡ true
      → OtherStep rows
          (update_rows (is_running_job k) (finished_row status exit output err now) rows)

-- Any number of them.
pub data OtherReach : List BackgroundJob → List BackgroundJob → Type 0 where
  here : (rows : List BackgroundJob) → OtherReach rows rows
  then_step : {a b c : List BackgroundJob} → OtherReach a b → OtherStep b c → OtherReach a c

-- The write of a bot that is gone has no condition on the status, so it may meet a job that was cancelled in the meantime.
pub data JobStep : List BackgroundJob → List BackgroundJob → Type 0 where
  created :
      (row : BackgroundJob) (before after : List BackgroundJob)
      → row.status ≡ job_queued
      → ((r : BackgroundJob) → Has r (before ++ after) → r.id ≢ row.id)
      → JobStep (before ++ after) (before ++ row ∷ after)
  started :
      (k b now : ℕ) (rows : List BackgroundJob)
      → OfBot k b rows
      → running_count b rows < max_background_per_bot
      → JobStep rows (update_rows (is_queued_job k) (started_row now) rows)
  gone :
      (k now : ℕ) (rows : List BackgroundJob)
      → Waiting k rows
      → JobStep rows (update_rows (is_job k) (gone_row now) rows)
  other : {a b : List BackgroundJob} → OtherStep a b → JobStep a b

-- Any number of steps of jobs' lives and of cleanups, each with one of the cutoffs.
pub data JobReach (Cutoff : ℕ → Type 0) : List BackgroundJob → List BackgroundJob → Type 0 where
  unchanged : (rows : List BackgroundJob) → JobReach Cutoff rows rows
  written : {a b c : List BackgroundJob} → JobReach Cutoff a b → JobStep b c → JobReach Cutoff a c
  cleaned :
      {a b : List BackgroundJob} (cutoff : ℕ)
      → Cutoff cutoff
      → JobReach Cutoff a b
      → JobReach Cutoff a (filter (λ r. not (wants_cleanup cutoff r)) b)

pub and_left : (a b : Bool) → (a && b) ≡ true → a ≡ true
and_left a b h = ground (arith, h)

pub and_right : (a b : Bool) → (a && b) ≡ true → b ≡ true
and_right a b h = ground (arith, h)
