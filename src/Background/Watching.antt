-- ===== src/Background/Watching.antt =====
-- background.go: watchBackgroundJob, the loop of the goroutine that watches one job. A tick says what others have written to the table
-- since the last one, what the loop finds, and whether the program stops.
use ccc_fork.Base.{
  ℕ, ℤ, Bool, true, false, Option, none, some, List, [], ◌∷◌, if◌then◌else◌, Table, Text,
}
use ccc_fork.Turns.{Database, Turn}
use ccc_fork.Watches.Rows.{Bot}
use ccc_fork.Background.{BackgroundJob, drop_handle, job_pid}
use ccc_fork.Background.Supervisor.{
  Supervisor, Look, kill_process_group, finish_if_complete, should_stop_job,
}

pub record Tick : Type 0 where
  pub others : List BackgroundJob → List BackgroundJob
  pub look : Look
  -- s.stopped()
  pub stopped : Bool
  -- the stop comes while the loop waits for its ticker
  pub stopped_waiting : Bool

pub data Watch : Type 0 where
  returned : Supervisor → Watch
  watching : Supervisor → Watch

abbrev pub drop_job : ℕ → Supervisor → Supervisor
drop_job id s = record s { handles = drop_handle id s.handles }

module _ (db : Table BackgroundJob) (queue : Database) (mint : List Turn → ℕ)
    (bots : ℕ → Option Bot) (show : ℤ → Text) (quote : Text → Text) (decode : List ℕ → Text)
    (redact : List Text → Text → Text) where
  -- `if !killed && s.shouldStopJob(j)`: whether the job was killed by now, the job, and the signals
  unfoldable pub stop_if_late :
      Bool → Supervisor → BackgroundJob → Look → Bool × BackgroundJob × Supervisor
  unfolding should_stop_job job_pid
  stop_if_late true s j look = (true, j, s)
  stop_if_late false s j look =
      let (stop, j') = should_stop_job db queue mint bots show quote s j look.now in
      if stop then (true, j', kill_process_group (job_pid j' look.dir) s) else (false, j', s)

  -- watchBackgroundJob, with what it knows of a job and whether it has killed it, over ticks
  unfoldable pub watch_background_job : Bool → BackgroundJob → List Tick → Supervisor → Watch
  unfolding finish_if_complete stop_if_late drop_handle
  watch_background_job killed j [] s = watching s
  watch_background_job killed j (t ∷ ts) s =
      let r =
        finish_if_complete db queue mint bots show quote decode redact
          (record s { jobs = t.others s.jobs }) j t.look in
      elim r.0 [
        | none ↦ returned (drop_job j.id r.1)
        | some latest ↦
            if t.stopped
            then returned (drop_job j.id r.1)
            else let k = stop_if_late killed r.1 latest t.look in
              if t.stopped_waiting
              then returned (drop_job j.id k.2)
              else watch_background_job k.0 k.1 ts k.2
      ]
