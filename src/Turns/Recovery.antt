-- ===== src/Turns/Recovery.antt =====
-- listenv3.go: what a new start does with the turns that the last one left running. The bots and the clock are arguments;
-- of what is written, the columns that Turn has are kept.
use ccc_fork.Base.{
  suc, arith, ℕ, ◌==◌, ◌≡◌, ◌≢◌, inl, inr, refl, sym, ap, ◌∙◌, Bool, true, false, ◌&&◌, Option,
  none, some, List, [], ◌∷◌, ◌++◌, map, length, filter, Has, Has-filter_intro, if◌then◌else◌, codes,
  Bool-cases, Table, Answers, update_rows, write, ==_iff,
}
use ccc_fork.Turns.{Turn, TurnStatus, queued, running, failed}
use ccc_fork.Turns.Writes.{DistinctBy, DistinctBy-filter}
use ccc_fork.Watches.Rows.{Bot, live}

abbrev pub is_status_running : TurnStatus → Bool
is_status_running running = true
is_status_running _ = false

abbrev pub is_running_turn : ℕ → Turn → Bool
is_running_turn id t = t.id == id && is_status_running t.status

abbrev pub interrupted_row : Turn → Turn
interrupted_row t = record t { status = failed; stop_reason = codes "ccc restarted" }

abbrev pub requeued_row : Turn → Turn
requeued_row t = record t { status = queued; stop_reason = [] }

-- failInterruptedTurn
unfoldable pub fail_interrupted_turn : Table Turn → ℕ → List Turn → List Turn
fail_interrupted_turn db id turns = write db (is_running_turn id) interrupted_row turns

-- requeueInterruptedTurn: `none` is its error
unfoldable pub requeue_interrupted_turn : Table Turn → ℕ → List Turn → Option (List Turn)
requeue_interrupted_turn db id turns = elim (db.update (is_running_turn id) requeued_row turns) [
  | none ↦ none
  | some turns' ↦ if length (filter (is_running_turn id) turns) == 0 then none else some turns'
]

-- The turns, and the bots that are told.
abbrev pub Recovered : Type 0
Recovered = List Turn × List ℕ

-- One interrupted turn in the loop of recoverAfterRestart.
unfoldable pub recover_one : Table Turn → (ℕ → Option Bot) → Turn → Recovered → Recovered
unfolding fail_interrupted_turn requeue_interrupted_turn
recover_one db bots t (turns, notices) =
    if live (bots t.bot_id)
    then elim (requeue_interrupted_turn db t.id turns) [
      | none ↦ (fail_interrupted_turn db t.id turns, notices)
      | some turns' ↦ (turns', notices ++ t.bot_id ∷ [])
    ]
    else (fail_interrupted_turn db t.id turns, notices)

unfoldable pub recover_each : Table Turn → (ℕ → Option Bot) → List Turn → Recovered → Recovered
unfolding recover_one
recover_each db bots [] r = r
recover_each db bots (t ∷ ts) r = recover_each db bots ts (recover_one db bots t r)

-- recoverAfterRestart, of the turns
unfoldable pub recover_after_restart : Table Turn → (ℕ → Option Bot) → List Turn → Recovered
unfolding recover_each
recover_after_restart db bots turns =
    elim (db.select (λ (t : Turn). is_status_running t.status) turns) [
      | none ↦ (turns, [])
      | some found ↦ recover_each db bots found (turns, [])
    ]

-- What becomes of a turn that a restart interrupts.
abbrev pub resumed : (ℕ → Option Bot) → Turn → Turn
resumed bots t =
    if live (bots t.bot_id)
    then record t { status = queued; stop_reason = [] }
    else record t { status = failed; stop_reason = codes "ccc restarted" }

-- What becomes of each turn.
abbrev pub recovered : (ℕ → Option Bot) → Turn → Turn
recovered bots t = if is_status_running t.status then resumed bots t else t

abbrev turn_id : Turn → ℕ
turn_id t = t.id

-- One turn of the loop, on one row.
point : (ℕ → Option Bot) → Turn → Turn → Turn
point bots j t =
    if is_running_turn j.id t
    then (if live (bots j.bot_id) then requeued_row t else interrupted_row t)
    else t

points : (ℕ → Option Bot) → List Turn → Turn → Turn
points bots [] t = t
points bots (j ∷ js) t = points bots js (point bots j t)

map-points :
    (bots : ℕ → Option Bot) (j : Turn) (js rows : List Turn)
    → map (points bots js) (map (point bots j) rows) ≡ map (points bots (j ∷ js)) rows
unfolding points
map-points bots j js [] = refl
map-points bots j js (t ∷ rows) =
    ap (λ ts. points bots js (point bots j t) ∷ ts) (map-points bots j js rows)

map-cong :
    (f g : Turn → Turn) (rows : List Turn)
    → ((t : Turn) → Has t rows → f t ≡ g t)
    → map f rows ≡ map g rows
map-cong f g [] h = refl
map-cong f g (t ∷ rows) h = cc (h t (inl refl), map-cong f g rows (λ s m. h s (inr m)))

map-same :
    (f : Turn → Turn) (rows : List Turn) → ((t : Turn) → Has t rows → f t ≡ t) → map f rows ≡ rows
map-same f [] h = refl
map-same f (t ∷ rows) h = cc (h t (inl refl), map-same f rows (λ s m. h s (inr m)))

-- A row that does not run is left alone.
points-idle :
    (bots : ℕ → Option Bot) (js : List Turn) (t : Turn)
    → is_status_running t.status ≡ false
    → points bots js t ≡ t
unfolding points point
points-idle bots [] t e = refl
points-idle bots (j ∷ js) t e = elim (Bool-cases (t.id == j.id)) [
  | inl f ↦ rw (f, e) (points-idle bots js t e)
  | inr f ↦ rw f (points-idle bots js t e)
]

resumed-idle :
    (bots : ℕ → Option Bot) (t : Turn) → is_status_running (resumed bots t).status ≡ false
resumed-idle bots t = elim (Bool-cases (live (bots t.bot_id))) [
  | inl e ↦ rw e refl
  | inr e ↦ rw e refl
]

points-Has :
    (bots : ℕ → Option Bot) (js : List Turn) (t : Turn)
    → DistinctBy turn_id js
    → Has t js
    → is_status_running t.status ≡ true
    → points bots js t ≡ resumed bots t
unfolding points point
points-Has bots [] t d m e = absurd m
points-Has bots (j ∷ js) t d (inl q) e =
    rw (q, (==_iff t.id t.id).1 refl, e)
      (points-idle bots js (resumed bots t) (resumed-idle bots t))
points-Has bots (j ∷ js) t d (inr m) e = elim (Bool-cases (t.id == j.id)) [
  | inl f ↦ absurd (d.0 t m ((==_iff t.id j.id).0 f))
  | inr f ↦ rw f (points-Has bots js t d.1 m e)
]

module _ (db : Table Turn) (answers : Answers db) (bots : ℕ → Option Bot) where
  written :
      (p : Turn → Bool) (f : Turn → Turn) (rows : List Turn)
      → write db p f rows ≡ update_rows p f rows
  unfolding write
  written p f rows = rw (answers.update_answers p f rows, write) refl

  none_running :
      (id : ℕ) (f : Turn → Turn) (rows : List Turn)
      → (length (filter (is_running_turn id) rows) == 0) ≡ true
      → update_rows (is_running_turn id) f rows ≡ rows
  none_running id f [] e = refl
  none_running id f (t ∷ rows) e = elim (Bool-cases (is_running_turn id t)) [
    | inl p ↦ absurd (some_length _ (rw p at e))
    | inr p ↦ rw p (ap (λ ts. t ∷ ts) (none_running id f rows (rw p at e)))
  ]
    where
      some_length : (n : ℕ) → (suc n == 0) ≢ true
      some_length n e = ground (arith, e)

  recover_one-point :
      (j : Turn) (turns : List Turn) (notices : List ℕ)
      → (recover_one db bots j (turns, notices)).0 ≡ map (point bots j) turns
  unfolding recover_one point fail_interrupted_turn requeue_interrupted_turn
  recover_one-point j turns notices = elim (Bool-cases (live (bots j.bot_id))) [
    | inr e ↦
        rw (e, written)
          (map-cong (λ t. if is_running_turn j.id t then interrupted_row t else t) (point bots j)
            turns (λ t m. rw e refl))
    | inl e ↦ elim (Bool-cases (length (filter (is_running_turn j.id) turns) == 0)) [
      | inr z ↦
          rw
            (
              e,
              requeue_interrupted_turn,
              answers.update_answers (is_running_turn j.id) requeued_row turns,
              z,
            )
            (map-cong (λ t. if is_running_turn j.id t then requeued_row t else t) (point bots j)
              turns (λ t m. rw e refl))
      | inl z ↦
          rw
            (
              e,
              requeue_interrupted_turn,
              answers.update_answers (is_running_turn j.id) requeued_row turns,
              z,
              written,
            )
            (none_running j.id interrupted_row turns z
              ∙ (sym (none_running j.id requeued_row turns z)
                  ∙ map-cong (λ t. if is_running_turn j.id t then requeued_row t else t)
                      (point bots j) turns (λ t m. rw e refl)))
    ]
  ]

  recover_each-points :
      (js : List Turn) (turns : List Turn) (notices : List ℕ)
      → (recover_each db bots js (turns, notices)).0 ≡ map (points bots js) turns
  unfolding recover_each points
  recover_each-points [] turns notices = sym (map-same (points bots []) turns (λ t m. refl))
  recover_each-points (j ∷ js) turns notices =
      let r = recover_one db bots j (turns, notices) in
      recover_each-points js r.0 r.1
      ∙ (ap (map (points bots js)) (recover_one-point j turns notices) ∙ map-points bots j js turns)

  -- When the database answers and ids are distinct, a restart puts each turn that was running back into its bot's queue, in its place and as it was but for its status and an empty stop reason, or closes it as failed
  -- with the reason "ccc restarted" if its bot is gone or archived; every other turn stays as it was.
  pub recover_after_restart-recovered :
      (turns : List Turn)
      → DistinctBy turn_id turns
      → (recover_after_restart db bots turns).0 ≡ map (recovered bots) turns
  unfolding recover_after_restart
  recover_after_restart-recovered turns d =
      let is_run : Turn → Bool = λ t. is_status_running t.status in
      rw (answers.select_answers is_run turns, recover_after_restart)
        (recover_each-points (filter is_run turns) turns []
          ∙ map-cong (points bots (filter is_run turns)) (recovered bots) turns (λ t m.
            elim (Bool-cases (is_run t)) [
              | inl e ↦ rw e (
                  points-Has bots (filter is_run turns) t (DistinctBy-filter turn_id is_run turns d)
                    (Has-filter_intro is_run t turns m e) e)
              | inr e ↦ rw e (points-idle bots (filter is_run turns) t e)
            ]))
