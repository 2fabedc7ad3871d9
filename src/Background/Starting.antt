-- ===== src/Background/Starting.antt =====
-- background.go: the start of a queued job is a step of its life. Statements that write may fail.
use ccc_fork.Base.{
  ◌∙◌, ℕ, ℤ, ◌==◌, ◌≡◌, ◌≢◌, ◌⊎◌, inl, inr, refl, sym, ap, arith, Bool, true, ◌&&◌, Option, some,
  List, filter, Has, Has-map, Has-filter, Bool-cases, Option-cases, leb, update_rows, Table, count,
  ==_iff, Text, write,
}
use ccc_fork.Turns.{Database, Turn}
use ccc_fork.Turns.Writes.{DistinctBy, eq_of_key}
use ccc_fork.Watches.Rows.{Bot, live}
use ccc_fork.Background.{BackgroundJob, is_job_queued, max_background_per_bot}
use ccc_fork.Background.Rows.{is_job, is_queued_job, runs_for, affects_none}
use ccc_fork.Background.Supervisor.{Supervisor, started_row, gone_row, start_one}
use ccc_fork.Background.Counting.{running_count, job_id, after}
use ccc_fork.Background.Steps.{JobStep, JobReach, written, started, gone, OfBot, Waiting}

-- Every SELECT succeeds.
abbrev pub Selects : Table BackgroundJob → Type 0
Selects db =
    (p : BackgroundJob → Bool) (rows : List BackgroundJob) → db.select p rows ≡ some (filter p rows)

-- A step by one UPDATE to the rows of one id.
pub record OneWrite (k : ℕ) (rows rows' : List BackgroundJob) : Type 0 where
  pub p : BackgroundJob → Bool
  pub f : BackgroundJob → BackgroundJob
  pub keeps_id : (r : BackgroundJob) → (f r).id ≡ r.id
  pub of_id : (r : BackgroundJob) → p r ≡ true → r.id ≡ k
  pub is_step : JobStep rows (update_rows p f rows)
  pub result : rows' ≡ update_rows p f rows

-- Such a step, or nothing.
abbrev pub AtMostOne : ℕ → List BackgroundJob → List BackgroundJob → Type 0
AtMostOne k rows rows' = (rows' ≡ rows) ⊎ OneWrite k rows rows'

pub AtMostOne-JobReach :
    (Cutoff : ℕ → Type 0) (k : ℕ) (first rows rows' : List BackgroundJob)
    → AtMostOne k rows rows'
    → JobReach Cutoff first rows
    → JobReach Cutoff first rows'
AtMostOne-JobReach Cutoff k first rows rows' (inl e) h = rw e h
AtMostOne-JobReach Cutoff k first rows rows' (inr w) h = rw w.result (written h w.is_step)

of_job : (k : ℕ) (r : BackgroundJob) → is_job k r ≡ true → r.id ≡ k
of_job k r e = (==_iff r.id k).0 e

of_test : (k : ℕ) (b : Bool) (r : BackgroundJob) → (r.id == k && b) ≡ true → r.id ≡ k
of_test k b r e = ground (arith, e)

module _ (db : Table BackgroundJob) where
  -- An UPDATE whose error is ignored.
  pub write-AtMostOne :
      (k : ℕ) (p : BackgroundJob → Bool) (f : BackgroundJob → BackgroundJob)
      (rows : List BackgroundJob)
      → ((r : BackgroundJob) → (f r).id ≡ r.id)
      → ((r : BackgroundJob) → p r ≡ true → r.id ≡ k)
      → JobStep rows (update_rows p f rows)
      → AtMostOne k rows (write db p f rows)
  write-AtMostOne k p f rows i q st = elim (Option-cases (db.update p f rows)) [
    | inl e ↦ inl (unfold write in rw (e, write) refl)
    | inr (rows', e) ↦ inr (record {
      p = p;
      f = f;
      keeps_id = i;
      of_id = q;
      is_step = st;
      result = unfold write in rw (e, write) (db.update_lem p f rows rows' e);
    })
  ]

  pub update-OneWrite :
      (k : ℕ) (p : BackgroundJob → Bool) (f : BackgroundJob → BackgroundJob)
      (rows rows' : List BackgroundJob)
      → ((r : BackgroundJob) → (f r).id ≡ r.id)
      → ((r : BackgroundJob) → p r ≡ true → r.id ≡ k)
      → db.update p f rows ≡ some rows'
      → JobStep rows (update_rows p f rows)
      → OneWrite k rows rows'
  update-OneWrite k p f rows rows' i q e st = record {
    p = p;
    f = f;
    keeps_id = i;
    of_id = q;
    is_step = st;
    result = db.update_lem p f rows rows' e;
  }

-- What the loop knows of a job that it has still to start: the table says the same bot, and the job waits.
abbrev pub Pending : BackgroundJob → List BackgroundJob → Type 0
Pending j rows = OfBot j.id j.bot_id rows × Waiting j.id rows

-- A write to the rows of one id leaves what is known of another.
Pending-OneWrite :
    (k : ℕ) (j : BackgroundJob) (rows rows' : List BackgroundJob)
    → j.id ≢ k
    → OneWrite k rows rows'
    → Pending j rows
    → Pending j rows'
Pending-OneWrite k j rows rows' n w (o, h) =
    (λ r m e. o r (old r m e) e, λ r m e. h r (old r m e) e)
  where
    old : (r : BackgroundJob) → Has r rows' → r.id ≡ j.id → Has r rows
    old r m e =
        let (s, k', g) = Has-map (after w.p w.f) r rows (rw w.result at m) in
        elim (Bool-cases (w.p s)) [
          | inl t ↦
              let same : r.id ≡ s.id = ap job_id (rw t at g) ∙ w.keeps_id s in
              absurd (n (sym e ∙ (same ∙ w.of_id s t)))
          | inr t ↦ rw (rw t at g) k'
        ]

pub Pending-AtMostOne :
    (k : ℕ) (j : BackgroundJob) (rows rows' : List BackgroundJob)
    → j.id ≢ k
    → AtMostOne k rows rows'
    → Pending j rows
    → Pending j rows'
Pending-AtMostOne k j rows rows' n (inl e) h = rw e h
Pending-AtMostOne k j rows rows' n (inr w) h = Pending-OneWrite k j rows rows' n w h

abbrev pub queued_rows : List BackgroundJob → List BackgroundJob
queued_rows rows = filter (λ (j : BackgroundJob). is_job_queued j.status) rows

-- Each queued row is what the table says of its id.
pub Pending-queued :
    (rows : List BackgroundJob)
    → DistinctBy job_id rows
    → (j : BackgroundJob) → Has j (queued_rows rows)
    → Pending j rows
Pending-queued rows d j m =
    let (k, e) = Has-filter _ j rows m in
    (
      λ r h i. ap (λ (x : BackgroundJob). x.bot_id) (eq_of_key job_id rows d r j h k i),
      λ r h i. inl (rw (eq_of_key job_id rows d r j h k i) e),
    )

module _ (db : Table BackgroundJob) (selects : Selects db) (queue : Database) (mint : List Turn → ℕ)
    (bots : ℕ → Option Bot) (show : ℤ → Text) (quote : Text → Text) where
  abbrev started_all : ℕ → Supervisor → BackgroundJob → Supervisor
  started_all now s j = start_one db queue mint bots show quote now s j

  count-Selects :
      (b : ℕ) (rows : List BackgroundJob) → count db (runs_for b) rows ≡ running_count b rows
  unfolding count running_count
  count-Selects b rows = rw (selects (runs_for b) rows, count) refl

  pub start_one-AtMostOne :
      (now : ℕ) (s : Supervisor) (j : BackgroundJob)
      → Pending j s.jobs
      → AtMostOne j.id s.jobs (started_all now s j).jobs
  unfolding start_one
  start_one-AtMostOne now s j (o, h) = elim (Bool-cases (live (bots j.bot_id))) [
    | inr e ↦ rw e (
        write-AtMostOne db j.id (is_job j.id) (gone_row now) s.jobs (λ r. refl) (of_job j.id)
          (gone j.id now s.jobs h))
    | inl e ↦ elim (Bool-cases (leb max_background_per_bot (count db (runs_for j.bot_id) s.jobs))) [
      | inl f ↦ rw (e, f) (inl refl)
      | inr f ↦
          let st = started j.id j.bot_id now s.jobs o (ground (arith, rw count-Selects at f)) in
          elim (Option-cases (db.update (is_queued_job j.id) (started_row now) s.jobs)) [
            | inl g ↦ rw (e, f, g) (inl refl)
            | inr (rows', g) ↦ elim (Bool-cases (affects_none (is_queued_job j.id) s.jobs)) [
              | inl z ↦ rw (e, f, g, z) (inl refl)
              | inr z ↦
                  rw (e, f, g, z)
                    (inr (
                      update-OneWrite db j.id (is_queued_job j.id) (started_row now) s.jobs rows'
                        (λ r. refl) (λ r. of_test j.id (is_job_queued r.status) r) g st))
            ]
          ]
    ]
  ]
