-- ===== src/Background/Holding.antt =====
-- background.go: what the supervisor knows of the queued rows that it has read and has still to start. The tools and the
-- goroutines of other jobs may write to the table in between.
use ccc_fork.Base.{
  ◌∙◌, ◌≡◌, ◌≢◌, inl, inr, refl, sym, ap, Bool, true, List, [], ◌∷◌, ◌++◌, filter, Has, Has-map,
  Has-append, Has-append_left, Has-append_right, Has-filter, Bool-cases, update_rows,
}
use ccc_fork.Turns.Writes.{DistinctBy, DistinctBy-filter}
use ccc_fork.Background.{
  BackgroundJob, is_job_queued, is_job_running, JobStatus, job_queued, job_running, job_done,
  job_failed,
}
use ccc_fork.Background.Rows.{is_job, is_queued_job, is_running_job, asked_row, cancelled_row}
use ccc_fork.Background.Supervisor.{finished_row}
use ccc_fork.Background.Counting.{job_id, after}
use ccc_fork.Background.Steps.{
  OtherStep, OtherReach, here, then_step, cancelled, asked, pid_written, finished, Waits, write_pid,
  and_right,
}
use ccc_fork.Background.Starting.{
  Pending, Pending-queued, Pending-AtMostOne, AtMostOne, queued_rows,
}

-- The rows that the supervisor holds have distinct ids, and what it knows of each still holds.
pub record IsHeld (batch rows : List BackgroundJob) : Type 0 where
  pub distinct : DistinctBy job_id batch
  pub pending : (j : BackgroundJob) → Has j batch → Pending j rows

pub IsHeld-nothing : (rows : List BackgroundJob) → IsHeld [] rows
IsHeld-nothing rows = record { distinct = tt; pending = λ j m. absurd m }

-- The rows as they are read.
pub IsHeld-queued :
    (rows : List BackgroundJob) → DistinctBy job_id rows → IsHeld (queued_rows rows) rows
IsHeld-queued rows d = record {
  distinct = DistinctBy-filter job_id (λ j. is_job_queued j.status) rows d;
  pending = Pending-queued rows d;
}

-- Once the first is started, the others are still held.
pub IsHeld-rest :
    (j : BackgroundJob) (batch rows rows' : List BackgroundJob)
    → AtMostOne j.id rows rows'
    → IsHeld (j ∷ batch) rows
    → IsHeld batch rows'
IsHeld-rest j batch rows rows' w h = record {
  distinct = h.distinct.1;
  pending = λ i m. Pending-AtMostOne j.id i rows rows' (h.distinct.0 i m) w (h.pending i (inr m));
}

-- A new row does not have the id of a row that is held.
pub IsHeld-created :
    (batch : List BackgroundJob) (row : BackgroundJob) (before after : List BackgroundJob)
    → ((j : BackgroundJob) → Has j batch → j.id ≢ row.id)
    → IsHeld batch (before ++ after)
    → IsHeld batch (before ++ row ∷ after)
IsHeld-created batch row before after fresh h = record {
  distinct = h.distinct;
  pending = λ j m. (
    λ r k e. (h.pending j m).0 r (old j m r k e) e,
    λ r k e. (h.pending j m).1 r (old j m r k e) e,
  );
}
  where
    old :
        (j : BackgroundJob)
        → Has j batch
        → (r : BackgroundJob) → Has r (before ++ row ∷ after)
        → r.id ≡ j.id
        → Has r (before ++ after)
    old j m r k e = elim (Has-append r before (row ∷ after) k) [
      | inl a ↦ Has-append_left r before after a
      | inr (inl q) ↦ absurd (fresh j m (sym e ∙ ap job_id (sym q)))
      | inr (inr a) ↦ Has-append_right r before after a
    ]

pub IsHeld-filter :
    (batch rows : List BackgroundJob) (p : BackgroundJob → Bool)
    → IsHeld batch rows
    → IsHeld batch (filter p rows)
IsHeld-filter batch rows p h = record {
  distinct = h.distinct;
  pending = λ j m. (
    λ r k. (h.pending j m).0 r (Has-filter p r rows k).0,
    λ r k. (h.pending j m).1 r (Has-filter p r rows k).0,
  );
}

-- A write that keeps ids and bots, and that leaves a waiting row waiting.
Pending-update :
    (p : BackgroundJob → Bool) (f : BackgroundJob → BackgroundJob) (rows : List BackgroundJob)
    (j : BackgroundJob)
    → ((r : BackgroundJob) → ((f r).id ≡ r.id) × ((f r).bot_id ≡ r.bot_id))
    → ((r : BackgroundJob) → p r ≡ true → Waits r → Waits (f r))
    → Pending j rows
    → Pending j (update_rows p f rows)
Pending-update p f rows j same waits (o, h) = (λ r m e. (each r m e).0, λ r m e. (each r m e).1)
  where
    written :
        (s : BackgroundJob)
        → Has s rows
        → (after p f s).id ≡ j.id
        → ((after p f s).bot_id ≡ j.bot_id) × Waits (after p f s)
    written s k e = elim (Bool-cases (p s)) [
      | inl t ↦
          let i : s.id ≡ j.id = sym (same s).0 ∙ (rw t at e) in
          rw t ((same s).1 ∙ o s k i, waits s t (h s k i))
      | inr t ↦ rw t (o s k (rw t at e), h s k (rw t at e))
    ]

    each :
        (r : BackgroundJob)
        → Has r (update_rows p f rows)
        → r.id ≡ j.id
        → (r.bot_id ≡ j.bot_id) × Waits r
    each r m e =
        let (s, k, g) = Has-map (after p f) r rows m in rw g (written s k (ap job_id (sym g) ∙ e))

runs-not_waiting : (r : BackgroundJob) → is_job_running r.status ≡ true → ¬ Waits r
runs-not_waiting r e (inl q) = not_both r.status e q
  where
    not_both : (t : JobStatus) → is_job_running t ≡ true → is_job_queued t ≢ true
    not_both job_queued e q = cc
    not_both job_running e q = cc
    not_both job_done e q = cc
    not_both job_failed e q = cc
runs-not_waiting r e (inr (f, c)) = cc (rw f at e)

Pending-other :
    {a b : List BackgroundJob} (j : BackgroundJob) → OtherStep a b → Pending j a → Pending j b
Pending-other j (cancelled k now rows) =
    Pending-update (is_queued_job k) (cancelled_row now) rows j (λ r. (refl, refl))
      (λ r e w. inr (refl, refl))
Pending-other j (asked k rows) =
    Pending-update (is_job k) asked_row rows j (λ r. (refl, refl)) (λ r e w. w)
Pending-other j (pid_written k pid rows) =
    Pending-update (is_job k) (write_pid pid) rows j (λ r. (refl, refl)) (λ r e w. w)
Pending-other j (finished k now status exit output err rows q) =
    Pending-update (is_running_job k) (finished_row status exit output err now) rows j
      (λ r. (refl, refl)) (λ r e w. absurd (runs-not_waiting r (and_right _ _ e) w))

pub IsHeld-others :
    {a b : List BackgroundJob} (batch : List BackgroundJob)
    → OtherReach a b
    → IsHeld batch a
    → IsHeld batch b
IsHeld-others batch (here rows) h = h
IsHeld-others batch (then_step k st) h =
    let before = IsHeld-others batch k h in
    record { distinct = before.distinct; pending = λ j m. Pending-other j st (before.pending j m) }
