-- ===== src/Background/Tests.antt =====
-- background.go: runs of the model.
use ccc_fork.Base.{
  write, map, ◌⊎◌, ◌*◌, ℕ, ℤ, pos, ◌+◌, ◌≤◌, ◌<◌, ◌≡◌, ◌≢◌, ◌↔◌, inl, inr, refl, ap, arith, true,
  false, Option, none, some, List, [], ◌∷◌, Has, Table, list_table, list_table-Answers, Text, codes,
  trim_space, parse_int, length,
}
use ccc_fork.Turns.{Database, Turn, InboxMessage, background, queued}
use ccc_fork.Secrets.{ok}
use ccc_fork.Watches.Rows.{Bot}
use ccc_fork.Background.{
  JobStatus, BackgroundJob, job_queued, job_running, job_done, job_failed, Artifacts, exists,
  read_exit_code,
}
use ccc_fork.Background.Rows.{classify_background_finish, cancel_read}
use ccc_fork.Background.Words.{render_background_wake, human_duration}
use ccc_fork.Background.Supervisor.{Supervisor, Look, start_one, told_row, finish_background_job}
use ccc_fork.Background.Counting.{running_count-le_length}
use ccc_fork.Background.Steps.{JobReach}
use ccc_fork.Background.Advancing.{Later, CleanedUp}
use ccc_fork.Background.Cap.{IsValid}
use ccc_fork.Background.Operations.{
  Surroundings, Operation, queues, signals, reads, starts, start_next, cancels, cleans, at_rest,
  perform, perform_all,
}
use ccc_fork.Background.Life.{
  CutoffsOf, perform_all-JobReach, perform_all-IsValid, perform_all-Later,
}
use ccc_fork.Background.Finish.{finish_background_job-twice, classify_background_finish-done}
use ccc_fork.Background.Watching.{Tick, watch_background_job}
use ccc_fork.Background.Ending.{supervisor_of, watch_background_job-signals}
use ccc_fork.Background.Returning.{HasEnded, IsSteady, watch_background_job-returns}

human_duration_runs :
    (human_duration 59400000000 ≡ codes "59s")
    × (human_duration 59500000000 ≡ codes "1m00s")
    × (human_duration (3661 * 1000000000) ≡ codes "1h01m")
unfolding human_duration
human_duration_runs = (refl, refl, refl)

abbrev db : Table BackgroundJob
db = list_table BackgroundJob

abbrev queue : Database
queue = record { turns = list_table Turn; inbox = list_table InboxMessage }

abbrev bots : ℕ → Option Bot
bots id = some (record { topic_id = 3; archived = false })

abbrev first_turn : List Turn → ℕ
first_turn turns = 1

abbrev code_word : ℤ → Text
code_word c = codes "1"

abbrev unquoted : Text → Text
unquoted t = t

abbrev decoded : List ℕ → Text
decoded bytes = bytes

abbrev unredacted : List Text → Text → Text
unredacted values t = t

abbrev build : BackgroundJob
build = record {
  id = 4;
  bot_id = 5;
  name = codes "build";
  status = job_running;
  command = codes "make";
  env_json = [];
  stdin_secret = [];
  pid = 77;
  deadline = some 1000;
  exit_code = none;
  output = [];
  error = [];
  cancel_requested = false;
  created_by_turn_id = none;
  started_at = some 10;
  ended_at = none;
}

abbrev test_job : BackgroundJob
test_job = record build { id = 6; status = job_queued; pid = 0; deadline = none; started_at = none }

abbrev supervisor : Supervisor
supervisor = record {
  jobs = build ∷ test_job ∷ [];
  store = record { turns = []; inbox = [] };
  handles = [];
  notices = [];
  signalled = [];
  spawned = [];
}

classify_background_finish-done_example :
    ((classify_background_finish code_word build 2000 (some (pos 0))).status ≡ job_done)
    ↔ ((build.cancel_requested ≡ false) × (some (pos 0) ≡ some (pos 0)))
classify_background_finish-done_example =
    classify_background_finish-done code_word build 2000 (some (pos 0))

finish_background_job-twice_example :
    finish_background_job db queue first_turn bots code_word unquoted
      (finish_background_job db queue first_turn bots code_word unquoted supervisor build job_failed
        (pos 2)
        []
        (codes "exit status 2")
        20)
      build
      job_done
      (pos 0)
      []
      []
      30
    ≡ finish_background_job db queue first_turn bots code_word unquoted supervisor build job_failed
        (pos 2)
        []
        (codes "exit status 2")
        20
finish_background_job-twice_example =
    finish_background_job-twice db (list_table-Answers BackgroundJob) queue first_turn bots
      code_word unquoted supervisor build build job_failed job_done (pos 2) (pos 0) [] []
      (codes "exit status 2") [] 20 30 refl refl

abbrev report : Text
report =
    render_background_wake code_word unquoted
      (told_row job_failed (pos 2) [] (codes "exit status 2") 20 build)

abbrev woken : Turn
woken = record {
  id = 1;
  bot_id = 5;
  source = background;
  input = report;
  status = queued;
  stop_reason = [];
  trigger_message_id = 0;
}

abbrev fresh_id : List BackgroundJob → ℕ
fresh_id [] = 1
fresh_id (r ∷ rows) = r.id + fresh_id rows

fresh_id-pos : (rows : List BackgroundJob) → 0 < fresh_id rows
fresh_id-pos [] = omega arith
fresh_id-pos (r ∷ rows) = omega (arith, fresh_id-pos rows)

fresh_id-lt : (rows : List BackgroundJob) (r : BackgroundJob) → Has r rows → r.id < fresh_id rows
fresh_id-lt [] r m = absurd m
fresh_id-lt (x ∷ rows) r (inl q) = rw (← q) (omega (arith, fresh_id-pos rows))
fresh_id-lt (x ∷ rows) r (inr m) = omega (arith, fresh_id-lt rows r m)

abbrev surroundings : Surroundings
surroundings = record {
  db = db;
  queue = queue;
  mint = first_turn;
  mint_job = fresh_id;
  bots = bots;
  show = code_word;
  quote = unquoted;
  decode = decoded;
  redact = unredacted;
  unicode_letter = λ c. true;
  unicode_digit = λ c. true;
  parse_env = λ t. [];
  marshal = λ e. [];
}

abbrev operations : List Operation
operations =
    signals
    ∷ reads
    ∷ queues (ok []) 5 0 [] (codes "sleep 9") [] []
    ∷ cancels test_job 35
    ∷ starts 40
    ∷ cancels build 50
    ∷ cleans 60
    ∷ []

other_id : (s : BackgroundJob) → Has s (test_job ∷ []) → s.id ≢ build.id
other_id s (inl q) e = ground (arith, ap (λ (x : BackgroundJob). x.id) q, e)
other_id s (inr z) e = absurd z

supervisor-IsValid : IsValid supervisor.jobs
supervisor-IsValid = record {
  distinct = (λ s m e. other_id s m e, (λ s m e. absurd m, tt));
  capped = λ b. omega (arith, running_count-le_length b supervisor.jobs);
}

perform_all-JobReach_example :
    JobReach
      (CutoffsOf operations)
      supervisor.jobs
      (perform_all surroundings operations (at_rest supervisor)).supervisor.jobs
perform_all-JobReach_example =
    perform_all-JobReach surroundings operations supervisor (λ p rows. refl)
      (λ rows r m e. ground (arith, fresh_id-lt rows r m, e)) supervisor-IsValid

perform_all-IsValid_example :
    IsValid (perform_all surroundings operations (at_rest supervisor)).supervisor.jobs
perform_all-IsValid_example =
    perform_all-IsValid surroundings operations supervisor (λ p rows. refl)
      (λ rows r m e. ground (arith, fresh_id-lt rows r m, e)) supervisor-IsValid

perform_all-Later_example :
    Later test_job (perform_all surroundings operations (at_rest supervisor)).supervisor.jobs
    ⊎ CleanedUp (CutoffsOf operations) test_job
perform_all-Later_example =
    perform_all-Later surroundings operations supervisor (λ p rows. refl)
      (λ rows r m e. ground (arith, fresh_id-lt rows r m, e)) supervisor-IsValid test_job
      (inr (inl refl))

abbrev no_files : Artifacts
no_files = record { exit_file = none; log_file = none; pid_file = none }

abbrev exited : Artifacts
exited = record no_files { exit_file = some (codes "0\n") }

abbrev look_at : Artifacts → Look
look_at dir = record { now = 60; kill = λ pid. exists; dir = dir; later = []; at_last = dir }

abbrev ticks_of_build : List Tick
ticks_of_build =
    record {
      others = λ rows. rows;
      look = look_at no_files;
      stopped = false;
      stopped_waiting = false;
    }
    ∷ record {
      others = λ rows. rows;
      look = look_at exited;
      stopped = false;
      stopped_waiting = false;
    }
    ∷ []

abbrev exit_tick : Tick
exit_tick = record {
  others = λ rows. rows;
  look = look_at exited;
  stopped = false;
  stopped_waiting = false;
}

exited_code : read_exit_code exited ≡ some (pos 0)
unfolding read_exit_code trim_space parse_int
exited_code = refl

watch_background_job-signals_example :
    length
      (supervisor_of (
        watch_background_job db queue first_turn bots code_word unquoted decoded unredacted false
          build ticks_of_build supervisor)).signalled
    ≤ 0 + 1
watch_background_job-signals_example =
    watch_background_job-signals db queue first_turn bots code_word unquoted decoded unredacted
      false build ticks_of_build supervisor

watch_background_job-returns_example : HasEnded 4 (
    watch_background_job db queue first_turn bots code_word unquoted decoded unredacted false build
      ticks_of_build supervisor)
watch_background_job-returns_example =
    watch_background_job-returns db (list_table-Answers BackgroundJob) queue first_turn bots
      code_word unquoted decoded unredacted false build ticks_of_build supervisor exit_tick
      supervisor-IsValid.distinct steady (inr (inl refl)) exited_code
  where
    steady : (u : Tick) → Has u ticks_of_build → IsSteady u
    steady u (inl q) =
        rw (← q) (record { keeps = λ rows d. d; goes_on = refl; goes_on_waiting = refl })
    steady u (inr (inl q)) =
        rw (← q) (record { keeps = λ rows d. d; goes_on = refl; goes_on_waiting = refl })
    steady u (inr (inr z)) = absurd z

-- A job that is cancelled after the supervisor has read it, and whose bot is gone when its turn comes, ends up with the error of the latter.
abbrev abandoned : Surroundings
abandoned = record surroundings { bots = λ id. none }

gone_after_cancel_runs :
    map {B = JobStatus × Text × Option ℕ}
      (λ (j : BackgroundJob). (j.status, j.error, j.ended_at))
      (perform_all abandoned
        (reads ∷ cancels test_job 35 ∷ starts 40 ∷ [])
        (at_rest supervisor)).supervisor.jobs
    ≡ (job_running, [], none) ∷ (job_failed, codes "bot is gone", some 40) ∷ []
unfolding perform_all perform cancel_read start_one start_next write
gone_after_cancel_runs = refl
