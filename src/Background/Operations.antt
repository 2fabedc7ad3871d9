-- ===== src/Background/Operations.antt =====
-- background.go: the supervisor's operations and those of the tools, so that a run of the program is a list of them. A cancel
-- and a run carry the row as it was read earlier, which other operations may have changed since. The supervisor reads the queued rows
-- and starts them one by one, and other operations may come in between.
use ccc_fork.Base.{ℕ, ℤ, ◌++◌, Bool, Option, none, some, List, [], ◌∷◌, Text, Table}
use ccc_fork.Turns.{Database, Turn}
use ccc_fork.Secrets.{Entries, Vault, Result, error, ok}
use ccc_fork.Watches.Rows.{Bot}
use ccc_fork.Background.{BackgroundJob, is_job_queued, Artifacts, Signalled}
use ccc_fork.Background.Rows.{Cancelled, cancel_read, wants_cleanup}
use ccc_fork.Background.Supervisor.{
  Supervisor, Look, Launch, queue_background_job, apply_background_cancels, start_one,
  run_background_job, reattach_background_jobs, finish_if_complete,
}

pub data Operation : Type 0 where
  queues : Vault → ℕ → ℕ → Text → Text → Entries → Text → Operation
  cancels : BackgroundJob → ℕ → Operation
  -- applyBackgroundCancels
  signals : Operation
  -- startQueuedBackground reads the queued rows
  reads : Operation
  -- and turns to the next of those that it has read
  starts : ℕ → Operation
  runs : Vault → Launch → ℕ → BackgroundJob → Operation
  reattaches : (ℕ → Artifacts) → (ℕ → Signalled) → Operation
  looks : BackgroundJob → Look → Operation
  -- the daily cleanup of jobs that ended before a time
  cleans : ℕ → Operation

-- The supervisor, and the queued rows that it has read and not yet turned to.
pub record Run : Type 0 where
  pub supervisor : Supervisor
  pub batch : List BackgroundJob

-- No row is held.
abbrev pub at_rest : Supervisor → Run
at_rest s = record { supervisor = s; batch = [] }

-- What lies outside the supervisor: the two databases with the ids that they mint, the bots, words, and the decoding of
-- texts and of JSON.
pub record Surroundings : Type 0 where
  pub db : Table BackgroundJob
  pub queue : Database
  pub mint : List Turn → ℕ
  pub mint_job : List BackgroundJob → ℕ
  pub bots : ℕ → Option Bot
  pub show : ℤ → Text
  pub quote : Text → Text
  pub decode : List ℕ → Text
  pub redact : List Text → Text → Text
  pub unicode_letter : ℕ → Bool
  pub unicode_digit : ℕ → Bool
  pub parse_env : Text → Entries
  pub marshal : Entries → Text

abbrev pub or_unchanged : Supervisor → Result Supervisor → Supervisor
or_unchanged s (error e) = s
or_unchanged s (ok s') = s'

abbrev pub after_cancel : Supervisor → Cancelled → Supervisor
after_cancel s c = record s { jobs = c.jobs; signalled = s.signalled ++ c.signalled }

-- The rows that a query finds, none if it fails.
abbrev pub or_no_rows : Option (List BackgroundJob) → List BackgroundJob
or_no_rows none = []
or_no_rows (some rows) = rows

abbrev pub or_as_they_were : List BackgroundJob → Option (List BackgroundJob) → List BackgroundJob
or_as_they_were rows none = rows
or_as_they_were rows (some rows') = rows'

-- One iteration of the loop of startQueuedBackground.
unfoldable pub start_next : Surroundings → ℕ → Supervisor → List BackgroundJob → Run
start_next w now s [] = at_rest s
start_next w now s (j ∷ js) = record {
  supervisor = start_one w.db w.queue w.mint w.bots w.show w.quote now s j;
  batch = js;
}

-- The cleanup of old jobs; an error of the statement is reported only
unfoldable pub clean_jobs : Table BackgroundJob → ℕ → List BackgroundJob → List BackgroundJob
clean_jobs db cutoff rows = or_as_they_were rows (db.delete (wants_cleanup cutoff) rows)

-- The database gives no id again, so a new one is neither of a row in the table nor of one that was read before.
unfoldable pub perform : Surroundings → Operation → Run → Run
unfolding queue_background_job cancel_read apply_background_cancels start_next run_background_job
    reattach_background_jobs finish_if_complete clean_jobs
perform w (queues vault bot_id turn_id name raw env stdin_secret) r =
    let s = r.supervisor in
    record r {
      supervisor = or_unchanged s (
          queue_background_job w.db w.queue w.mint w.bots w.show w.quote w.unicode_letter
            w.unicode_digit w.marshal vault (w.mint_job (r.batch ++ s.jobs)) bot_id turn_id name raw
            env stdin_secret s);
    }
perform w (cancels j now) r = record r {
  supervisor = after_cancel r.supervisor (cancel_read w.db j now r.supervisor.jobs);
}
perform w signals r = record r {
  supervisor = apply_background_cancels w.db w.queue w.mint w.bots w.show w.quote r.supervisor;
}
perform w reads r = record r {
  batch = or_no_rows (w.db.select (λ j. is_job_queued j.status) r.supervisor.jobs);
}
perform w (starts now) r = start_next w now r.supervisor r.batch
perform w (runs vault launch now j) r = record r {
  supervisor =
      (run_background_job w.db w.queue w.mint w.bots w.show w.quote w.unicode_letter w.unicode_digit
        w.parse_env vault launch now r.supervisor j).0;
}
perform w (reattaches dirs kill) r = record r {
  supervisor =
      reattach_background_jobs w.db w.queue w.mint w.bots w.show w.quote dirs kill r.supervisor;
}
perform w (looks j look) r = record r {
  supervisor =
      (finish_if_complete w.db w.queue w.mint w.bots w.show w.quote w.decode w.redact r.supervisor j
        look).1;
}
perform w (cleans cutoff) r = record r {
  supervisor = record r.supervisor { jobs = clean_jobs w.db cutoff r.supervisor.jobs };
}

unfoldable pub perform_all : Surroundings → List Operation → Run → Run
unfolding perform
perform_all w [] r = r
perform_all w (o ∷ os) r = perform_all w os (perform w o r)
