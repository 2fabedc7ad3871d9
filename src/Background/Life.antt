-- ===== src/Background/Life.antt =====
-- background.go: whatever the supervisor and the tools do, jobs live by the step relation, with what follows for their
-- number and their outcomes.
use ccc_fork.Base.{ap, ◌∙◌, ◌⊎◌, sym, ℕ, ◌≡◌, refl, List, [], ◌∷◌, Has}
use ccc_fork.Background.{BackgroundJob, is_job_queued}
use ccc_fork.Background.Supervisor.{
  Supervisor, start_one, start_each, start_queued_background, tick_background,
  apply_background_cancels,
}
use ccc_fork.Background.Steps.{JobReach, unchanged}
use ccc_fork.Background.Advancing.{JobReach-Later, Later, CleanedUp}
use ccc_fork.Background.Cap.{IsValid, JobReach-IsValid}
use ccc_fork.Background.Starting.{Selects, queued_rows}
use ccc_fork.Background.Operations.{
  Surroundings, Operation, signals, reads, starts, cleans, at_rest, start_next, perform,
  perform_all,
}
use ccc_fork.Background.Holding.{IsHeld-nothing}
use ccc_fork.Background.Writes.{signals-jobs}
use ccc_fork.Background.Sound.{MintsFresh, IsSound-perform_all}

-- The cutoffs of the cleanups among the operations.
abbrev pub CutoffsOf : List Operation → ℕ → Type 0
CutoffsOf os cutoff = Has (cleans cutoff) os

-- From a table with distinct ids, in which no bot runs more than eight jobs, any sequence of the operations of the supervisor and the
-- tools is, on the table, a sequence of the steps of a job's life and of cleanups with the cutoffs of those in the sequence, provided that every SELECT succeeds and that a new id is
-- of no row in the table and of no row that the supervisor still holds. Updates, inserts and deletes may fail; the rows that cancels and runs go by may be out of date; and other
-- operations may come between the supervisor's reading of the queued rows and its start of each. A write that says that a bot is gone meets only jobs that are queued or were cancelled.
pub perform_all-JobReach :
    (w : Surroundings) (os : List Operation) (s : Supervisor)
    → Selects w.db
    → MintsFresh w
    → IsValid s.jobs
    → JobReach (CutoffsOf os) s.jobs (perform_all w os (at_rest s)).supervisor.jobs
perform_all-JobReach w os s selects fresh v =
    (IsSound-perform_all (CutoffsOf os) w s.jobs selects fresh v os (at_rest s) (λ cutoff m. m)
      (record { reached = unchanged s.jobs; held = IsHeld-nothing s.jobs })).reached

-- From a table with distinct ids, in which no bot runs more than eight jobs, if every SELECT succeeds and new ids are fresh, then whatever the operations of the
-- supervisor and the tools and their order, also between the reading of the queued rows and their starts, no bot ever runs more than eight jobs at a time, and no two jobs share an id.
pub perform_all-IsValid :
    (w : Surroundings) (os : List Operation) (s : Supervisor)
    → Selects w.db
    → MintsFresh w
    → IsValid s.jobs
    → IsValid (perform_all w os (at_rest s)).supervisor.jobs
perform_all-IsValid w os s selects fresh v =
    JobReach-IsValid (perform_all-JobReach w os s selects fresh v) v

-- From a table with distinct ids, in which no bot runs more than eight jobs, if every SELECT succeeds and new ids are fresh, then whatever the operations of the
-- supervisor and the tools and their order, each job is still in the table, or it ended before the cutoff of a cleanup in the sequence. A job in the table has the same bot as before, its status never goes back
-- from running to queued or from ended to either, and one that was done or failed keeps its status, exit code and output, and its error and end too, except that a job with the error "cancelled"
-- may have got the error "bot is gone" with a new end.
pub perform_all-Later :
    (w : Surroundings) (os : List Operation) (s : Supervisor)
    → Selects w.db
    → MintsFresh w
    → IsValid s.jobs
    → (r : BackgroundJob) → Has r s.jobs
    → Later r (perform_all w os (at_rest s)).supervisor.jobs ⊎ CleanedUp (CutoffsOf os) r
perform_all-Later w os s selects fresh v =
    JobReach-Later (perform_all-JobReach w os s selects fresh v)

-- A tick is its operations with nothing in between: the signals, the reading, and a start for each row read.
abbrev starts_for : ℕ → List BackgroundJob → List Operation
starts_for now [] = []
starts_for now (j ∷ js) = starts now ∷ starts_for now js

perform_all-start_each :
    (w : Surroundings) (now : ℕ) (js : List BackgroundJob) (s : Supervisor)
    → perform_all w (starts_for now js) (record { supervisor = s; batch = js })
      ≡ at_rest (start_each w.db w.queue w.mint w.bots w.show w.quote now js s)
unfolding perform_all start_each start_next
perform_all-start_each w now [] s = refl
perform_all-start_each w now (j ∷ js) s =
    perform_all-start_each w now js (start_one w.db w.queue w.mint w.bots w.show w.quote now s j)

perform-reads :
    (w : Surroundings) (s : Supervisor)
    → Selects w.db
    → perform w reads (at_rest s) ≡ record { supervisor = s; batch = queued_rows s.jobs }
unfolding perform
perform-reads w s selects = rw (selects (λ j. is_job_queued j.status) s.jobs) refl

start_queued-start_each :
    (w : Surroundings) (now : ℕ) (s : Supervisor)
    → Selects w.db
    → start_queued_background w.db w.queue w.mint w.bots w.show w.quote now s
      ≡ start_each w.db w.queue w.mint w.bots w.show w.quote now (queued_rows s.jobs) s
unfolding start_queued_background
start_queued-start_each w now s selects =
    rw (selects (λ j. is_job_queued j.status) s.jobs, start_queued_background) refl

tick_background-perform_all :
    (w : Surroundings) (now : ℕ) (s : Supervisor)
    → Selects w.db
    → perform_all w (signals ∷ reads ∷ starts_for now (queued_rows s.jobs)) (at_rest s)
      ≡ at_rest (tick_background w.db w.queue w.mint w.bots w.show w.quote now s)
unfolding perform_all tick_background
tick_background-perform_all w now s selects =
    let s' = apply_background_cancels w.db w.queue w.mint w.bots w.show w.quote s in
    let same : queued_rows s.jobs ≡ queued_rows s'.jobs =
      ap queued_rows (sym (signals-jobs w.db w.queue w.mint w.bots w.show w.quote s)) in
    ap (λ js. perform_all w (starts_for now js) (perform w reads (at_rest s'))) same
    ∙ (ap (perform_all w (starts_for now (queued_rows s'.jobs))) (perform-reads w s' selects)
        ∙ (perform_all-start_each w now (queued_rows s'.jobs) s'
            ∙ ap at_rest (sym (start_queued-start_each w now s' selects))))
