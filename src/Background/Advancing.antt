-- ===== src/Background/Advancing.antt =====
-- background.go: what the steps of a job's life leave of it.
use ccc_fork.Base.{
  ◌||◌, none, some, sym, Has-filter_intro, ◌⊎◌, not, codes, ◌∙◌, ℕ, ℤ, ◌≤◌, ◌<◌, ◌≡◌, ◌≢◌, inl, inr,
  refl, ap, arith, Bool, true, Option, List, ◌∷◌, Has, Has-map_intro, Has-append, Has-append_left,
  Has-append_right, Bool-cases, update_rows, ==_iff, Text,
}
use ccc_fork.Background.{
  is_job_done, is_job_failed, BackgroundJob, is_job_running, is_job_queued, JobStatus, job_queued,
  job_running, job_done, job_failed,
}
use ccc_fork.Background.Rows.{
  is_job, is_queued_job, is_running_job, asked_row, cancelled_row, wants_cleanup, ended_before,
}
use ccc_fork.Background.Supervisor.{started_row, gone_row, finished_row}
use ccc_fork.Background.Counting.{after}
use ccc_fork.Background.Steps.{
  is_ended, write_pid, Waits, OtherStep, cancelled, asked, pid_written, finished, JobStep, created,
  started, gone, other, JobReach, unchanged, written, cleaned, and_left, and_right,
}

-- What an ended job keeps.
abbrev pub outcome : BackgroundJob → JobStatus × Option ℤ × Text
outcome r = (r.status, r.exit_code, r.output)

-- Why and when it ended.
abbrev pub verdict : BackgroundJob → Text × Option ℕ
verdict r = (r.error, r.ended_at)

abbrev pub rank : JobStatus → ℕ
rank job_queued = 0
rank job_running = 1
rank job_done = 2
rank job_failed = 2

-- The error and the end are the same, or a job that was cancelled is said to have ended because its bot is gone.
abbrev pub SameVerdict : BackgroundJob → BackgroundJob → Type 0
SameVerdict r s =
    (verdict s ≡ verdict r) ⊎ ((r.error ≡ codes "cancelled") × (s.error ≡ codes "bot is gone"))

-- `s` is the same job as `r`, at the same point of its life or a later one; once ended it keeps its outcome.
pub record Advances (r s : BackgroundJob) : Type 0 where
  pub same_id : s.id ≡ r.id
  pub same_bot : s.bot_id ≡ r.bot_id
  pub not_back : rank r.status ≤ rank s.status
  pub kept : is_ended r.status ≡ true → outcome s ≡ outcome r
  pub told : is_ended r.status ≡ true → SameVerdict r s

Advances-refl : (r : BackgroundJob) → Advances r r
Advances-refl r = record {
  same_id = refl;
  same_bot = refl;
  not_back = omega arith;
  kept = λ e. refl;
  told = λ e. inl refl;
}

-- The later one of an ended job has ended as well.
still_ended :
    {r s : BackgroundJob} → Advances r s → is_ended r.status ≡ true → is_ended s.status ≡ true
still_ended {r} {s} a e = ap (λ (o : JobStatus × Option ℤ × Text). is_ended o.0) (a.kept e) ∙ e

same_error : (r s : BackgroundJob) → verdict s ≡ verdict r → s.error ≡ r.error
same_error r s e = ap (λ (v : Text × Option ℕ). v.0) e

SameVerdict-trans : (r s t : BackgroundJob) → SameVerdict r s → SameVerdict s t → SameVerdict r t
SameVerdict-trans r s t (inl e) (inl f) = inl (f ∙ e)
SameVerdict-trans r s t (inl e) (inr (c, g)) = inr (sym (same_error r s e) ∙ c, g)
SameVerdict-trans r s t (inr (c, g)) (inl f) = inr (c, same_error s t f ∙ g)
SameVerdict-trans r s t (inr (c, g)) (inr (d, h)) = inr (c, h)

Advances-trans : {r s t : BackgroundJob} → Advances r s → Advances s t → Advances r t
Advances-trans {r} {s} {t} a b = record {
  same_id = b.same_id ∙ a.same_id;
  same_bot = b.same_bot ∙ a.same_bot;
  not_back = omega (arith, a.not_back, b.not_back);
  kept = λ e. b.kept (still_ended a e) ∙ a.kept e;
  told = λ e. SameVerdict-trans r s t (a.told e) (b.told (still_ended a e));
}

-- A later row of each row.
abbrev pub Later : BackgroundJob → List BackgroundJob → Type 0
Later r rows = (s : BackgroundJob) × Has s rows × Advances r s

Later-update :
    (p : BackgroundJob → Bool) (f : BackgroundJob → BackgroundJob) (rows : List BackgroundJob)
    → (r : BackgroundJob) → Has r rows
    → (p r ≡ true → Advances r (f r))
    → Later r (update_rows p f rows)
Later-update p f rows r m h = (
  after p f r,
  Has-map_intro (after p f) r rows m,
  elim (Bool-cases (p r)) [ inl e ↦ rw e (h e) | inr e ↦ rw e (Advances-refl r) ],
)

Advances-queued :
    (r s : BackgroundJob)
    → is_job_queued r.status ≡ true
    → s.id ≡ r.id
    → s.bot_id ≡ r.bot_id
    → Advances r s
Advances-queued r s e i b = record {
  same_id = i;
  same_bot = b;
  not_back = lowest r.status (rank s.status) e;
  kept = λ h. absurd (not_ended r.status e h);
  told = λ h. absurd (not_ended r.status e h);
}
  where
    lowest : (t : JobStatus) (n : ℕ) → is_job_queued t ≡ true → rank t ≤ n
    lowest job_queued n e = omega arith
    lowest job_running n e = absurd (cc)
    lowest job_done n e = absurd (cc)
    lowest job_failed n e = absurd (cc)

    not_ended : (t : JobStatus) → is_job_queued t ≡ true → is_ended t ≢ true
    not_ended job_queued e h = cc
    not_ended job_running e h = cc
    not_ended job_done e h = cc
    not_ended job_failed e h = cc

Advances-running :
    (r s : BackgroundJob)
    → is_job_running r.status ≡ true
    → is_ended s.status ≡ true
    → s.id ≡ r.id
    → s.bot_id ≡ r.bot_id
    → Advances r s
Advances-running r s e f i b = record {
  same_id = i;
  same_bot = b;
  not_back = below r.status s.status e f;
  kept = λ h. absurd (not_ended r.status e h);
  told = λ h. absurd (not_ended r.status e h);
}
  where
    below : (t u : JobStatus) → is_job_running t ≡ true → is_ended u ≡ true → rank t ≤ rank u
    below t job_queued e f = absurd (cc)
    below t job_running e f = absurd (cc)
    below job_queued job_done e f = absurd (cc)
    below job_running job_done e f = omega arith
    below job_done job_done e f = omega arith
    below job_failed job_done e f = omega arith
    below job_queued job_failed e f = absurd (cc)
    below job_running job_failed e f = omega arith
    below job_done job_failed e f = omega arith
    below job_failed job_failed e f = omega arith

    not_ended : (t : JobStatus) → is_job_running t ≡ true → is_ended t ≢ true
    not_ended job_queued e h = cc
    not_ended job_running e h = cc
    not_ended job_done e h = cc
    not_ended job_failed e h = cc

Advances-same_outcome :
    (r s : BackgroundJob)
    → outcome s ≡ outcome r
    → verdict s ≡ verdict r
    → s.id ≡ r.id
    → s.bot_id ≡ r.bot_id
    → Advances r s
Advances-same_outcome r s o v i b = record {
  same_id = i;
  same_bot = b;
  not_back = rw (ap (λ (o : JobStatus × Option ℤ × Text). o.0) o) (omega arith);
  kept = λ h. o;
  told = λ h. inl v;
}

Advances-gone : (r : BackgroundJob) (now : ℕ) → Waits r → Advances r (gone_row now r)
Advances-gone r now (inl q) = Advances-queued r (gone_row now r) q refl refl
Advances-gone r now (inr (f, c)) = record {
  same_id = refl;
  same_bot = refl;
  not_back = rw f (omega arith);
  kept = λ h. rw f refl;
  told = λ h. inr (c, refl);
}

Later-other : {a b : List BackgroundJob} → OtherStep a b → (r : BackgroundJob) → Has r a → Later r b
Later-other (cancelled k now rows) r m =
    Later-update (is_queued_job k) (cancelled_row now) rows r m
      (λ e. Advances-queued r (cancelled_row now r) (and_right _ _ e) refl refl)
Later-other (asked k rows) r m =
    Later-update (is_job k) asked_row rows r m
      (λ e. Advances-same_outcome r (asked_row r) refl refl refl refl)
Later-other (pid_written k pid rows) r m =
    Later-update (is_job k) (write_pid pid) rows r m
      (λ e. Advances-same_outcome r (write_pid pid r) refl refl refl refl)
Later-other (finished k now status exit output err rows q) r m =
    Later-update (is_running_job k) (finished_row status exit output err now) rows r m (λ e.
      Advances-running r (finished_row status exit output err now r) (and_right _ _ e) q refl refl)

Later-step : {a b : List BackgroundJob} → JobStep a b → (r : BackgroundJob) → Has r a → Later r b
Later-step (created row before after q fresh) r m = elim (Has-append r before after m) [
  | inl h ↦ (r, Has-append_left r before (row ∷ after) h, Advances-refl r)
  | inr h ↦ (r, Has-append_right r before (row ∷ after) (inr h), Advances-refl r)
]
Later-step (started k b now rows o c) r m =
    Later-update (is_queued_job k) (started_row now) rows r m
      (λ e. Advances-queued r (started_row now r) (and_right _ _ e) refl refl)
Later-step (gone k now rows o) r m =
    Later-update (is_job k) (gone_row now) rows r m
      (λ e. Advances-gone r now (o r m ((==_iff r.id k).0 e)))
Later-step (other st) r m = Later-other st r m

-- The row had ended before the cutoff.
abbrev pub EndedBefore : ℕ → BackgroundJob → Type 0
EndedBefore cutoff s = (is_ended s.status ≡ true) × ((t : ℕ) × (s.ended_at ≡ some t) × (t < cutoff))

-- A row of the job, no earlier in its life than `r`, had ended before one of the cutoffs.
abbrev pub CleanedUp : (ℕ → Type 0) → BackgroundJob → Type 0
CleanedUp Cutoff r =
    (cutoff : ℕ) × Cutoff cutoff × ((s : BackgroundJob) × Advances r s × EndedBefore cutoff s)

wants_cleanup-EndedBefore :
    (cutoff : ℕ) (s : BackgroundJob) → wants_cleanup cutoff s ≡ true → EndedBefore cutoff s
wants_cleanup-EndedBefore cutoff s e =
    (ended s.status (and_left _ _ e), before s.ended_at (and_right _ _ e))
  where
    before : (o : Option ℕ) → ended_before cutoff o ≡ true → (t : ℕ) × (o ≡ some t) × (t < cutoff)
    before none h = absurd (cc)
    before (some t) h = (t, refl, ground (arith, h))

    ended : (t : JobStatus) → (is_job_done t || is_job_failed t) ≡ true → is_ended t ≡ true
    ended job_queued h = absurd (cc)
    ended job_running h = absurd (cc)
    ended job_done h = refl
    ended job_failed h = refl

-- Each job has a later row, or was cleaned up.
pub JobReach-Later :
    {Cutoff : ℕ → Type 0} {a b : List BackgroundJob}
    → JobReach Cutoff a b
    → (r : BackgroundJob) → Has r a
    → Later r b ⊎ CleanedUp Cutoff r
JobReach-Later (unchanged rows) r m = inl (r, m, Advances-refl r)
JobReach-Later (written h st) r m = elim (JobReach-Later h r m) [
  | inl (s, k, v) ↦ let (t, l, w) = Later-step st s k in inl (t, l, Advances-trans v w)
  | inr g ↦ inr g
]
JobReach-Later (cleaned {a} {b} cutoff c h) r m = elim (JobReach-Later h r m) [
  | inl (s, k, v) ↦ elim (Bool-cases (wants_cleanup cutoff s)) [
    | inl e ↦ inr (cutoff, c, (s, v, wants_cleanup-EndedBefore cutoff s e))
    | inr e ↦ inl (s, Has-filter_intro (λ r. not (wants_cleanup cutoff r)) s b k (rw e refl), v)
  ]
  | inr g ↦ inr g
]
