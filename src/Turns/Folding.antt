-- ===== src/Turns/Folding.antt =====
-- runner.go: folding all inputs that are queued for a bot into one turn.
use ccc_fork.Base.{
  ℕ, ◌==◌, ==_iff, ◌≡◌, ◌≢◌, inl, inr, refl, sym, ap, ◌∙◌, arith, true, false, Option, some, List,
  [], ◌∷◌, map, filter, Has, Has-filter, Has-filter_intro, Bool-cases, Answers, Text, codes,
}
use ccc_fork.Turns.{
  Turn, Store, Database, Folded, is_queued, merged_into, dropped, stop, fold_extra, fold_extras,
  fold_rows, fold_queue, join,
}
use ccc_fork.Turns.Writes.{
  Has-write_cases, Has-write_intro, DistinctBy, DistinctBy-filter, eq_of_key,
}

abbrev pub turn_id_of : Turn → ℕ
turn_id_of t = t.id

module _ (db : Database) (answers : Answers db.turns) (show : ℕ → Text) (bot head : ℕ) where
  -- A turn that is queued after one further input is merged was there before, and is not that input's.
  queued-fold_extra :
      (extra : Turn) (s : Store) (t : Turn)
      → Has t (fold_extra db show head extra s).turns
      → is_queued bot t ≡ true
      → Has t s.turns × (t.id ≢ extra.id)
  unfolding fold_extra
  queued-fold_extra extra s t h q =
      let (old, m, c) =
        Has-write_cases db.turns answers (λ u. u.id == extra.id) (merged_into show head) s.turns t
          h in
      elim c [
        | inl (e, same) ↦
            (rw same m, λ k. cc ((==_iff old.id extra.id).1 (ap turn_id_of (sym same) ∙ k)))
        | inr (e, same) ↦ absurd (ground (arith, rw same at q))
      ]

  queued-fold_extras :
      (extras : List Turn) (s : Store) (t : Turn)
      → Has t (fold_extras db show head extras s).turns
      → is_queued bot t ≡ true
      → Has t s.turns × ((x : Turn) → Has x extras → t.id ≢ x.id)
  unfolding fold_extras
  queued-fold_extras [] s t h q = (h, λ x m. absurd m)
  queued-fold_extras (extra ∷ extras) s t h q =
      let (k, apart) = queued-fold_extras extras (fold_extra db show head extra s) t h q in
      let (m, n) = queued-fold_extra extra s t k q in
      (m, λ x i. elim i [ inl e ↦ rw (← e) n | inr j ↦ apart x j ])

  -- A turn that is none of the further inputs stays as it is.
  kept-fold_extras :
      (extras : List Turn) (s : Store) (t : Turn)
      → Has t s.turns
      → ((x : Turn) → Has x extras → t.id ≢ x.id)
      → Has t (fold_extras db show head extras s).turns
  unfolding fold_extras fold_extra
  kept-fold_extras [] s t h apart = h
  kept-fold_extras (extra ∷ extras) s t h apart =
      kept-fold_extras extras (fold_extra db show head extra s) t
        (Has-write_intro db.turns answers (λ u. u.id == extra.id) (merged_into show head) s.turns t
          h
          (elim (Bool-cases (t.id == extra.id)) [
            | inl e ↦ absurd (apart extra (inl refl) ((==_iff t.id extra.id).0 e))
            | inr e ↦ e
          ]))
        (λ x m. apart x (inr m))

-- What folding a bot's queue comes to.
pub record FoldsTo (s : Store) (bot : ℕ) (folded : Folded) (s' : Store) : Type 0 where
  -- the carrier was queued for the bot
  pub queued_before : Has folded.carrier s.turns × (is_queued bot folded.carrier ≡ true)
  -- all inputs are in, in the order of their ids
  pub whole_input :
      folded.input
      ≡ join (codes "\n\n") (map (λ (t : Turn). t.input) (filter (is_queued bot) s.turns))
  -- the carrier is the one turn left in the queue
  pub carrier_left : Has folded.carrier s'.turns
  pub only_carrier : (t : Turn) → Has t s'.turns → is_queued bot t ≡ true → t ≡ folded.carrier
  -- what was not queued for the bot is as it was
  pub others_kept : (t : Turn) → Has t s.turns → is_queued bot t ≡ false → Has t s'.turns

folded_eq :
    {f g : Folded} {s t : Store}
    → ◌≡◌ {A = Option Folded × Store} (some f, s) (some g, t)
    → (f ≡ g) × (s ≡ t)
folded_eq e = (cc, cc)

module _ (db : Database) (answers : Answers db.turns) (show : ℕ → Text) (s : Store) (bot : ℕ)
    (distinct : DistinctBy turn_id_of s.turns) where
  module _ (head : Turn) (extras : List Turn)
      (found : filter (is_queued bot) s.turns ≡ head ∷ extras) where
    in_queue : (t : Turn) → Has t (head ∷ extras) → Has t s.turns × (is_queued bot t ≡ true)
    in_queue t h = Has-filter (is_queued bot) t s.turns (rw found h)

    head_apart : (x : Turn) → Has x extras → head.id ≢ x.id
    head_apart x m e =
        (rw found at (DistinctBy-filter turn_id_of (is_queued bot) s.turns distinct)).0 x m (sym e)

    other_apart :
        (t : Turn)
        → Has t s.turns
        → is_queued bot t ≡ false
        → (x : Turn) → Has x extras
        → t.id ≢ x.id
    other_apart t h q x m e =
        let (k, r) = in_queue x (inr m) in
        let same : t ≡ x = eq_of_key turn_id_of s.turns distinct t x h k e in
        absurd (cc (rw (← same) at r))

    FoldsTo-rows :
        {folded : Folded} {s' : Store}
        → fold_rows db show (head ∷ extras) s ≡ (some folded, s')
        → FoldsTo s bot folded s'
    unfolding fold_rows
    FoldsTo-rows h =
        let (p, q) = folded_eq h in
        rw (← p, ← q)
          (record {
            queued_before = in_queue head (inl refl);
            whole_input = rw found refl;
            carrier_left =
                kept-fold_extras db answers show bot head.id extras s head
                  (in_queue head (inl refl)).0 head_apart;
            only_carrier = λ t m e.
                let (k, apart) = queued-fold_extras db answers show bot head.id extras s t m e in
                elim (rw found at (Has-filter_intro (is_queued bot) t s.turns k e)) [
                  | inl same ↦ sym same
                  | inr i ↦ absurd (apart t i refl)
                ];
            others_kept = λ t m e.
                kept-fold_extras db answers show bot head.id extras s t m (other_apart t m e);
          })

  FoldsTo-found :
      (rows : List Turn)
      → filter (is_queued bot) s.turns ≡ rows
      → {folded : Folded} {s' : Store} → fold_rows db show rows s ≡ (some folded, s')
      → FoldsTo s bot folded s'
  unfolding fold_rows
  FoldsTo-found [] e r = absurd (cc (r))
  FoldsTo-found (head ∷ extras) e r = FoldsTo-rows head extras e r

  -- If folding a bot's queue yields a turn, then that turn was queued for the bot and carries the inputs of all turns queued
  -- for it, in order; it is the only turn left in the bot's queue, and all turns that were not queued for the bot are as they were. It
  -- holds if the ids of turns are distinct and the statements on the table of turns succeed.
  pub fold_queue-FoldsTo :
      {folded : Folded} {s' : Store}
      → fold_queue db show s bot ≡ (some folded, s')
      → FoldsTo s bot folded s'
  unfolding fold_queue
  fold_queue-FoldsTo {folded} {s'} h =
      let r : fold_rows db show (filter (is_queued bot) s.turns) s ≡ (some folded, s') =
        rw (answers.select_answers (is_queued bot) s.turns, fold_queue) at h in
      FoldsTo-found (filter (is_queued bot) s.turns) refl r

module _ (db : Database) (answers : Answers db.turns) (s : Store) (bot : ℕ) where
  -- After /stop nothing is queued for the bot, and every turn that was not queued for it is as it was. It holds if the statements on
  -- the table of turns succeed.
  pub stop-cleared :
      ((t : Turn) → Has t (stop db s bot).turns → is_queued bot t ≡ false)
      × ((t : Turn) → Has t s.turns → is_queued bot t ≡ false → Has t (stop db s bot).turns)
  unfolding stop
  stop-cleared = (
    λ t h.
        let (old, m, c) = Has-write_cases db.turns answers (is_queued bot) dropped s.turns t h in
        elim c [ inl (e, same) ↦ rw same e | inr (e, same) ↦ rw same (ground arith) ],
    λ t h e. Has-write_intro db.turns answers (is_queued bot) dropped s.turns t h e,
  )
