-- ===== src/Background/Sound.antt =====
-- background.go: every operation of the supervisor and the tools is made of steps of jobs' lives, and leaves what is known of the
-- rows that the supervisor holds.
use ccc_fork.Base.{
  ◌∙◌, ◌⊎◌, not, Has-append_left, Has-append_right, trim_space, ℕ, ◌≡◌, ◌≢◌, inl, inr, refl, some,
  List, [], ◌∷◌, ◌++◌, Has, Bool-cases, Option-cases, is_empty, Text,
}
use ccc_fork.Secrets.{Entries, Vault, Result-cases, resolve_secret_env, resolve_stdin_secret}
use ccc_fork.Background.{BackgroundJob, job_queued, is_job_queued}
use ccc_fork.Background.Rows.{
  queued_job, is_job, is_queued_job, JobStatus-cases, cancel_read, cancelled_row, asked_row,
  wants_cleanup,
}
use ccc_fork.Background.Supervisor.{queue_background_job, marshalled, Supervisor, start_one}
use ccc_fork.Background.Steps.{
  JobReach, OtherReach, here, then_step, written, cleaned, other, created, cancelled, asked,
}
use ccc_fork.Background.Cap.{IsValid, JobReach-IsValid}
use ccc_fork.Background.Starting.{Selects, AtMostOne-JobReach, start_one-AtMostOne}
use ccc_fork.Background.Operations.{
  Surroundings, Operation, queues, cancels, signals, reads, starts, runs, reattaches, looks, cleans,
  Run, start_next, clean_jobs, after_cancel, perform, perform_all,
}
use ccc_fork.Background.Holding.{
  IsHeld, IsHeld-queued, IsHeld-rest, IsHeld-created, IsHeld-filter, IsHeld-others,
}
use ccc_fork.Background.Writes.{
  update-OtherReach, signals-jobs, run-OtherReach, reattach-OtherReach, look-OtherReach,
}

-- The id that the database gives a new row is of none of the rows that are in the table or were read before: ids are not given again.
abbrev pub MintsFresh : Surroundings → Type 0
MintsFresh w = (rows : List BackgroundJob) (r : BackgroundJob) → Has r rows → r.id ≢ w.mint_job rows

queued_job-is_queued :
    (id bot_id turn_id : ℕ) (name command env_json stdin_secret : Text)
    → let j = queued_job id bot_id turn_id name command env_json stdin_secret in
      (j.id ≡ id) × (j.status ≡ job_queued)
unfolding queued_job
queued_job-is_queued id bot_id turn_id name command env_json stdin_secret = (refl, refl)

-- What is known in a run that began with a table: how the table came to be what it is, and that the rows that are held still wait.
pub record IsSound (Cutoff : ℕ → Type 0) (rows : List BackgroundJob) (r : Run) : Type 0 where
  pub reached : JobReach Cutoff rows r.supervisor.jobs
  pub held : IsHeld r.batch r.supervisor.jobs

JobReach-others :
    (Cutoff : ℕ → Type 0) {a b c : List BackgroundJob}
    → JobReach Cutoff a b
    → OtherReach b c
    → JobReach Cutoff a c
JobReach-others Cutoff h (here rows) = h
JobReach-others Cutoff h (then_step k st) = written (JobReach-others Cutoff h k) (other st)

-- An operation that neither makes rows nor starts them.
IsSound-others :
    (Cutoff : ℕ → Type 0) (rows batch : List BackgroundJob) (s s' : Supervisor)
    → OtherReach s.jobs s'.jobs
    → IsSound Cutoff rows (record { supervisor = s; batch = batch })
    → IsSound Cutoff rows (record { supervisor = s'; batch = batch })
IsSound-others Cutoff rows batch s s' h v = record {
  reached = JobReach-others Cutoff v.reached h;
  held = IsHeld-others batch h v.held;
}

-- The insert of a new row, or none.
record Inserted (w : Surroundings) (batch rows rows' : List BackgroundJob) : Type 0 where
  before : List BackgroundJob
  behind : List BackgroundJob
  row : BackgroundJob
  old : rows ≡ before ++ behind
  new : rows' ≡ before ++ row ∷ behind
  starts_queued : row.status ≡ job_queued
  id_minted : row.id ≡ w.mint_job (batch ++ rows)

IsSound-insert :
    (Cutoff : ℕ → Type 0) (w : Surroundings) (rows batch : List BackgroundJob) (s s' : Supervisor)
    → MintsFresh w
    → (s'.jobs ≡ s.jobs) ⊎ Inserted w batch s.jobs s'.jobs
    → IsSound Cutoff rows (record { supervisor = s; batch = batch })
    → IsSound Cutoff rows (record { supervisor = s'; batch = batch })
IsSound-insert Cutoff w rows batch s s' fresh (inl e) v = record {
  reached = rw e v.reached;
  held = rw e v.held;
}
IsSound-insert Cutoff w rows batch s s' fresh (inr i) v = record {
  reached =
      rw i.new (
        written (rw i.old at v.reached) (created i.row i.before i.behind i.starts_queued in_table));
  held = rw i.new (IsHeld-created batch i.row i.before i.behind in_batch (rw i.old at v.held));
}
  where
    in_batch : (j : BackgroundJob) → Has j batch → j.id ≢ i.row.id
    in_batch j m e = fresh (batch ++ s.jobs) j (Has-append_left j batch s.jobs m) (e ∙ i.id_minted)

    in_table : (r : BackgroundJob) → Has r (i.before ++ i.behind) → r.id ≢ i.row.id
    in_table r m e =
        fresh (batch ++ s.jobs) r (Has-append_right r batch s.jobs (rw i.old m)) (e ∙ i.id_minted)

create-Inserted :
    (w : Surroundings) (row : BackgroundJob) (batch rows rows' : List BackgroundJob)
    → w.db.create row rows ≡ some rows'
    → (row.id ≡ w.mint_job (batch ++ rows)) × (row.status ≡ job_queued)
    → Inserted w batch rows rows'
create-Inserted w row batch rows rows' e (i, q) =
    let (before, behind, a, b) = w.db.create_lem row rows rows' e in
    record {
      before = before;
      behind = behind;
      row = row;
      old = a;
      new = b;
      starts_queued = q;
      id_minted = i;
    }

queue-Inserted :
    (w : Surroundings) (vault : Vault) (bot_id turn_id : ℕ) (name raw : Text) (env : Entries)
    (stdin_secret : Text) (r : Run)
    → let rows' =
        (perform w (queues vault bot_id turn_id name raw env stdin_secret) r).supervisor.jobs in
      (rows' ≡ r.supervisor.jobs) ⊎ Inserted w r.batch r.supervisor.jobs rows'
unfolding perform queue_background_job
queue-Inserted w vault bot_id turn_id name raw env stdin_secret r =
    let s = r.supervisor in
    let id = w.mint_job (r.batch ++ s.jobs) in
    let command = trim_space raw in
    let row = queued_job id bot_id turn_id name command (marshalled w.marshal env) stdin_secret in
    elim (Bool-cases (is_empty command)) [
      | inl e ↦ rw e (inl refl)
      | inr e ↦
          elim (Result-cases
            (resolve_secret_env w.quote w.unicode_letter w.unicode_digit vault env)) [
              | inl (x, f) ↦ rw (e, f, queue_background_job) (inl refl)
              | inr (v, f) ↦ elim (Result-cases (resolve_stdin_secret w.quote vault stdin_secret)) [
                | inl (x, g) ↦ rw (e, f, g, queue_background_job) (inl refl)
                | inr (v, g) ↦ elim (Option-cases (w.db.create row s.jobs)) [
                  | inl h ↦ rw (e, f, g, h, queue_background_job) (inl refl)
                  | inr (rows', h) ↦
                      rw (e, f, g, h, queue_background_job)
                        (inr (
                          create-Inserted w row r.batch s.jobs rows' h (
                            queued_job-is_queued id bot_id turn_id name command
                              (marshalled w.marshal env) stdin_secret)))
                ]
              ]
            ]
    ]

cancel-OtherReach :
    (w : Surroundings) (j : BackgroundJob) (now : ℕ) (s : Supervisor)
    → OtherReach s.jobs (after_cancel s (cancel_read w.db j now s.jobs)).jobs
unfolding cancel_read
cancel-OtherReach w j now s = elim (JobStatus-cases j.status) [
  | inl e ↦ elim (Option-cases (w.db.update (is_queued_job j.id) (cancelled_row now) s.jobs)) [
    | inl f ↦ rw (e, f, cancel_read) (here s.jobs)
    | inr (rows', f) ↦
        rw (e, f, cancel_read)
          (update-OtherReach w.db _ _ s.jobs rows' f (cancelled j.id now s.jobs))
  ]
  | inr (inl e) ↦ elim (Option-cases (w.db.update (is_job j.id) asked_row s.jobs)) [
    | inl f ↦ rw (e, f, cancel_read) (here s.jobs)
    | inr (rows', f) ↦
        rw (e, f, cancel_read) (update-OtherReach w.db _ _ s.jobs rows' f (asked j.id s.jobs))
  ]
  | inr (inr (inl e)) ↦ rw (e, cancel_read) (here s.jobs)
  | inr (inr (inr e)) ↦ rw (e, cancel_read) (here s.jobs)
]

-- The next of the rows that are held, if there is one.
IsSound-start_next :
    (Cutoff : ℕ → Type 0) (w : Surroundings) (rows batch : List BackgroundJob) (now : ℕ)
    (s : Supervisor)
    → Selects w.db
    → IsSound Cutoff rows (record { supervisor = s; batch = batch })
    → IsSound Cutoff rows (start_next w now s batch)
unfolding start_next
IsSound-start_next Cutoff w rows [] now s selects v = v
IsSound-start_next Cutoff w rows (j ∷ js) now s selects v =
    let wrote =
      start_one-AtMostOne w.db selects w.queue w.mint w.bots w.show w.quote now s j
        (v.held.pending j (inl refl)) in
    let after_it = (start_one w.db w.queue w.mint w.bots w.show w.quote now s j).jobs in
    record {
      reached = AtMostOne-JobReach Cutoff j.id rows s.jobs after_it wrote v.reached;
      held = IsHeld-rest j js s.jobs after_it wrote v.held;
    }

IsSound-clean_jobs :
    (Cutoff : ℕ → Type 0) (w : Surroundings) (rows : List BackgroundJob) (cutoff : ℕ) (r : Run)
    → Cutoff cutoff
    → IsSound Cutoff rows r
    → IsSound Cutoff rows (perform w (cleans cutoff) r)
unfolding perform clean_jobs
IsSound-clean_jobs Cutoff w rows cutoff r c v =
    let jobs = r.supervisor.jobs in
    elim (Option-cases (w.db.delete (wants_cleanup cutoff) jobs)) [
      | inl e ↦ record { reached = rw (e, clean_jobs) v.reached; held = rw (e, clean_jobs) v.held }
      | inr (rows', e) ↦
          let q = w.db.delete_lem (wants_cleanup cutoff) jobs rows' e in
          record {
            reached = rw (e, clean_jobs, q) (cleaned cutoff c v.reached);
            held =
                rw (e, clean_jobs, q)
                  (IsHeld-filter r.batch jobs (λ s. not (wants_cleanup cutoff s)) v.held);
          }
    ]

module _ (Cutoff : ℕ → Type 0) (w : Surroundings) (rows : List BackgroundJob)
    (selects : Selects w.db) (fresh : MintsFresh w) (valid : IsValid rows) where
  IsSound-perform :
      (o : Operation) (r : Run)
      → ((cutoff : ℕ) → o ≡ cleans cutoff → Cutoff cutoff)
      → IsSound Cutoff rows r
      → IsSound Cutoff rows (perform w o r)
  unfolding perform
  IsSound-perform (queues vault bot_id turn_id name raw env stdin_secret) r c v =
      IsSound-insert Cutoff w rows r.batch r.supervisor
        (perform w (queues vault bot_id turn_id name raw env stdin_secret) r).supervisor fresh
        (queue-Inserted w vault bot_id turn_id name raw env stdin_secret r) v
  IsSound-perform (cancels j now) r c v =
      IsSound-others Cutoff rows r.batch r.supervisor _ (cancel-OtherReach w j now r.supervisor) v
  IsSound-perform signals r c v = record {
    reached = rw (signals-jobs w.db w.queue w.mint w.bots w.show w.quote r.supervisor) v.reached;
    held = rw (signals-jobs w.db w.queue w.mint w.bots w.show w.quote r.supervisor) v.held;
  }
  IsSound-perform reads r c v = record {
    reached = v.reached;
    held =
        rw (selects (λ j. is_job_queued j.status) r.supervisor.jobs)
          (IsHeld-queued r.supervisor.jobs (JobReach-IsValid v.reached valid).distinct);
  }
  IsSound-perform (starts now) r c v =
      IsSound-start_next Cutoff w rows r.batch now r.supervisor selects v
  IsSound-perform (runs vault launch now j) r c v =
      IsSound-others Cutoff rows r.batch r.supervisor _
        (run-OtherReach w.db w.queue w.mint w.bots w.show w.quote w.unicode_letter w.unicode_digit
          w.parse_env vault launch now r.supervisor j)
        v
  IsSound-perform (reattaches dirs kill) r c v =
      IsSound-others Cutoff rows r.batch r.supervisor _
        (reattach-OtherReach w.db w.queue w.mint w.bots w.show w.quote dirs kill r.supervisor) v
  IsSound-perform (looks j look) r c v =
      IsSound-others Cutoff rows r.batch r.supervisor _
        (look-OtherReach w.db w.queue w.mint w.bots w.show w.quote w.decode w.redact r.supervisor j
          look)
        v
  IsSound-perform (cleans cutoff) r c v =
      IsSound-clean_jobs Cutoff w rows cutoff r (c cutoff refl) v

  pub IsSound-perform_all :
      (os : List Operation) (r : Run)
      → ((cutoff : ℕ) → Has (cleans cutoff) os → Cutoff cutoff)
      → IsSound Cutoff rows r
      → IsSound Cutoff rows (perform_all w os r)
  unfolding perform_all
  IsSound-perform_all [] r c v = v
  IsSound-perform_all (o ∷ os) r c v =
      IsSound-perform_all os (perform w o r) (λ cutoff m. c cutoff (inr m))
        (IsSound-perform o r (λ cutoff e. c cutoff (inl e)) v)
