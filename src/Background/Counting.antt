-- ===== src/Background/Counting.antt =====
-- background.go: how many jobs of a bot run, under the writes to rows by id.
use ccc_fork.Base.{
  ◌∙◌, ℕ, ◌+◌, ◌≤◌, ◌≡◌, inl, inr, refl, sym, ap, arith, Bool, true, false, List, [], ◌∷◌, ◌++◌,
  length, filter, Has, Has-map, Bool-cases, if◌then◌else◌, update_rows,
}
use ccc_fork.Turns.Writes.{DistinctBy}
use ccc_fork.Background.{BackgroundJob}
use ccc_fork.Background.Rows.{is_job, is_queued_job, runs_for}
use ccc_fork.Background.Supervisor.{started_row}

unfoldable pub running_count : ℕ → List BackgroundJob → ℕ
running_count b rows = length (filter (runs_for b) rows)

abbrev pub job_id : BackgroundJob → ℕ
job_id j = j.id

-- A row counts for one, or for nothing.
tally : ℕ → BackgroundJob → ℕ
tally b r = if runs_for b r then 1 else 0

running_count-cons :
    (b : ℕ) (r : BackgroundJob) (rows : List BackgroundJob)
    → running_count b (r ∷ rows) ≡ tally b r + running_count b rows
unfolding running_count tally
running_count-cons b r rows = elim (Bool-cases (runs_for b r)) [
  | inl e ↦ rw e (omega arith)
  | inr e ↦ rw e (omega arith)
]

pub running_count-insert :
    (b : ℕ) (row : BackgroundJob) (before after : List BackgroundJob)
    → runs_for b row ≡ false
    → running_count b (before ++ row ∷ after) ≡ running_count b (before ++ after)
running_count-insert b row [] after e = omega (arith, running_count-cons b row after, none_for_it)
  where
    none_for_it : tally b row ≡ 0
    none_for_it = unfold tally in rw e refl
running_count-insert b row (r ∷ before) after e = omega (
  arith,
  running_count-cons b r (before ++ row ∷ after),
  running_count-cons b r (before ++ after),
  running_count-insert b row before after e,
)

tally-le :
    (b : ℕ) (r s : BackgroundJob)
    → (runs_for b s ≡ true → runs_for b r ≡ true)
    → tally b s ≤ tally b r
unfolding tally
tally-le b r s h = elim (Bool-cases (runs_for b s)) [
  | inl e ↦ rw (e, h e) (omega arith)
  | inr e ↦ rw e (omega arith)
]

tally-le_one : (b : ℕ) (r : BackgroundJob) → tally b r ≤ 1
unfolding tally
tally-le_one b r = elim (Bool-cases (runs_for b r)) [
  | inl e ↦ rw e (omega arith)
  | inr e ↦ rw e (omega arith)
]

pub running_count-le_length :
    (b : ℕ) (rows : List BackgroundJob) → running_count b rows ≤ length rows
running_count-le_length b [] = unfold running_count in omega arith
running_count-le_length b (r ∷ rows) =
    omega (arith, running_count-cons b r rows, tally-le_one b r, running_count-le_length b rows)

-- The row as the write leaves it.
abbrev pub after :
    (BackgroundJob → Bool) → (BackgroundJob → BackgroundJob) → BackgroundJob → BackgroundJob
after p f r = if p r then f r else r

abbrev pub Quiet :
    ℕ → (BackgroundJob → Bool) → (BackgroundJob → BackgroundJob) → List BackgroundJob → Type 0
Quiet b p f rows =
    (r : BackgroundJob) → Has r rows → p r ≡ true → runs_for b (f r) ≡ true → runs_for b r ≡ true

runs_for-after :
    (b : ℕ) (p : BackgroundJob → Bool) (f : BackgroundJob → BackgroundJob) (r : BackgroundJob)
    → (p r ≡ true → runs_for b (f r) ≡ true → runs_for b r ≡ true)
    → runs_for b (after p f r) ≡ true
    → runs_for b r ≡ true
runs_for-after b p f r q h = elim (Bool-cases (p r)) [ inl e ↦ q e (rw e at h) | inr e ↦ rw e at h ]

pub running_count-Quiet :
    (b : ℕ) (p : BackgroundJob → Bool) (f : BackgroundJob → BackgroundJob)
    (rows : List BackgroundJob)
    → Quiet b p f rows
    → running_count b (update_rows p f rows) ≤ running_count b rows
running_count-Quiet b p f [] q = omega arith
running_count-Quiet b p f (r ∷ rows) q = omega (
  arith,
  running_count-cons b (after p f r) (update_rows p f rows),
  running_count-cons b r rows,
  running_count-Quiet b p f rows (λ s m. q s (inr m)),
  tally-le b r (after p f r) (runs_for-after b p f r (q r (inl refl))),
)

pub running_count-filter :
    (b : ℕ) (p : BackgroundJob → Bool) (rows : List BackgroundJob)
    → running_count b (filter p rows) ≤ running_count b rows
running_count-filter b p [] = omega arith
running_count-filter b p (r ∷ rows) = elim (Bool-cases (p r)) [
  | inl e ↦ rw e (
      omega (
        arith,
        running_count-cons b r (filter p rows),
        running_count-cons b r rows,
        running_count-filter b p rows,
      ))
  | inr e ↦ rw e (omega (arith, running_count-cons b r rows, running_count-filter b p rows))
]

-- A start raises the count by one at most, since the id is of one row.
pub running_count-start :
    (b k now : ℕ) (rows : List BackgroundJob)
    → DistinctBy job_id rows
    → running_count b (update_rows (is_queued_job k) (started_row now) rows)
      ≤ running_count b rows + 1
running_count-start b k now [] d = omega arith
running_count-start b k now (r ∷ rows) d = elim (Bool-cases (is_job k r)) [
  | inl e ↦ omega (
    arith,
    running_count-cons b (after (is_queued_job k) (started_row now) r)
        (update_rows (is_queued_job k) (started_row now) rows),
    running_count-cons b r rows,
    tally-le_one b (after (is_queued_job k) (started_row now) r),
    running_count-Quiet b (is_queued_job k) (started_row now) rows
        (λ s m p h. ground (arith, d.0 s m, p, e)),
  )
  | inr e ↦ omega (
    arith,
    running_count-cons b (after (is_queued_job k) (started_row now) r)
        (update_rows (is_queued_job k) (started_row now) rows),
    running_count-cons b r rows,
    tally-le b r (after (is_queued_job k) (started_row now) r)
        (runs_for-after b (is_queued_job k) (started_row now) r (λ p. ground (arith, p, e))),
    running_count-start b k now rows d.1,
  )
]

-- Writes that keep ids keep them distinct.
pub DistinctBy-update_rows :
    (p : BackgroundJob → Bool) (f : BackgroundJob → BackgroundJob) (rows : List BackgroundJob)
    → ((r : BackgroundJob) → (f r).id ≡ r.id)
    → DistinctBy job_id rows
    → DistinctBy job_id (update_rows p f rows)
DistinctBy-update_rows p f [] h d = tt
DistinctBy-update_rows p f (r ∷ rows) h d = (
  λ s m e.
      let (old, k, q) = Has-map (after p f) s rows m in
      d.0 old k (sym (kept old) ∙ (ap job_id (sym q) ∙ (e ∙ kept r))),
  DistinctBy-update_rows p f rows h d.1,
)
  where
    kept : (s : BackgroundJob) → (after p f s).id ≡ s.id
    kept s = elim (Bool-cases (p s)) [ inl e ↦ rw e (h s) | inr e ↦ rw e refl ]
