-- ===== src/Watches/Renewal.antt =====
-- scheduler.go: a watch that is registered, or renewed with another command, starts from a new baseline.
use ccc_fork.Base.{
  ℕ, ◌≡◌, ◌≢◌, inl, inr, refl, ap, true, ◌||◌, Option, some, List, Text, text_eq, text_eq_iff,
  is_empty, trim_space, Bool-cases, Option-cases, Table, first, first-Has, Has-map, if◌then◌else◌,
}
use ccc_fork.Turns.{Database}
use ccc_fork.Watches.Rows.{
  Watch, Watched, Bot, live, CommandRun, has_watch_id, is_of, at_least, renewed, new_watch, renew,
  register_watch, upsert_watch, is_baseline, run_watch,
}

-- No watch of the bot has the name with the command, so far as the database finds one.
abbrev pub IsNewCommand : Table Watch → List Watch → ℕ → Text → Text → Type 0
IsNewCommand db rows bot_id name command =
    (w : Watch)
    → first db (is_of bot_id (trim_space name)) rows ≡ some w
    → w.command ≢ trim_space command

watch_eq :
    {w w' : Watch} {a b : List Watch}
    → ◌≡◌ {A = Option (Watch × List Watch)} (some (w, a)) (some (w', b))
    → w ≡ w'
watch_eq e = cc

module _ (db : Table Watch) (rows : List Watch) where
  renewed-baseline :
      (old command : Text) (n now : ℕ) (r : Watch)
      → old ≢ command
      → is_baseline (renewed old command n now r) ≡ true
  unfolding renewed
  renewed-baseline old command n now r ne = elim (Bool-cases (text_eq old command)) [
    | inl e ↦ absurd (ne ((text_eq_iff old command).0 e))
    | inr e ↦ rw e refl
  ]

  renew-baseline :
      (w : Watch) (command : Text) (n now : ℕ) {w' : Watch} {rows' : List Watch}
      → w.command ≢ command
      → renew db rows w command n now ≡ some (w', rows')
      → is_baseline w' ≡ true
  unfolding renew
  renew-baseline w command n now {w'} {rows'} ne h =
      let f = renewed w.command command n now in
      elim (Option-cases (db.update (has_watch_id w.id) f rows)) [
        | inl e ↦ absurd (cc (rw (e, renew) at h))
        | inr (mid, e) ↦ elim (Option-cases (first db (has_watch_id w.id) mid)) [
          | inl g ↦ absurd (cc (rw (e, g, renew) at h))
          | inr (x, g) ↦
              let same : x ≡ w' = watch_eq (rw (e, g, renew) at h) in
              let (m, t) = first-Has db (has_watch_id w.id) mid g in
              let (old, k, q) =
                Has-map (λ r. if has_watch_id w.id r then f r else r) x rows
                  (rw (db.update_lem (has_watch_id w.id) f rows mid e) at m) in
              rw (← same) (elim (Bool-cases (has_watch_id w.id old)) [
                | inl b ↦ rw (rw b at q) (renewed-baseline w.command command n now old ne)
                | inr b ↦ absurd (cc (b, t, ap (has_watch_id w.id) (rw b at q)))
              ])
        ]
      ]

  register-baseline :
      (w : Watch) {w' : Watch} {rows' : List Watch}
      → is_baseline w ≡ true
      → register_watch db rows w ≡ some (w', rows')
      → is_baseline w' ≡ true
  unfolding register_watch
  register-baseline w b h = elim (Option-cases (db.create w rows)) [
    | inl e ↦ absurd (cc (rw (e, register_watch) at h))
    | inr (mid, e) ↦ rw (← watch_eq (rw (e, register_watch) at h)) b
  ]

  upsert_watch-baseline :
      (id bot_id : ℕ) (name command : Text) (interval now : ℕ) {w : Watch} {rows' : List Watch}
      → IsNewCommand db rows bot_id name command
      → upsert_watch db rows id bot_id name command interval now ≡ some (w, rows')
      → is_baseline w ≡ true
  unfolding upsert_watch
  upsert_watch-baseline id bot_id name command interval now {w} {rows'} new h =
      elim (Bool-cases (is_empty (trim_space name) || is_empty (trim_space command))) [
        | inl e ↦ absurd (cc (rw e at h))
        | inr e ↦ elim (Option-cases (first db (is_of bot_id (trim_space name)) rows)) [
          | inl f ↦
              register-baseline
                (new_watch id bot_id (trim_space name) (trim_space command) (at_least interval) now)
                refl (rw (e, f, upsert_watch) at h)
          | inr (old, f) ↦
              renew-baseline old (trim_space command) (at_least interval) now (new old f)
                (rw (e, f, upsert_watch) at h)
        ]
      ]

  -- A watch that was registered for a new command wakes nobody when it runs first.
  pub upsert_watch-quiet :
      (queue : Database) (bots : ℕ → Option Bot) (hash quote : Text → Text) (s : Watched)
      (id turn : ℕ) (bot_id : ℕ) (name command : Text) (interval now later : ℕ) (run : CommandRun)
      {w : Watch} {rows' : List Watch}
      → IsNewCommand db rows bot_id name command
      → upsert_watch db rows id bot_id name command interval now ≡ some (w, rows')
      → (run_watch db queue bots hash quote s turn w run later).store ≡ s.store
  unfolding run_watch
  upsert_watch-quiet queue bots hash quote s id turn bot_id name command interval now later run {w}
        {rows'} new h =
      let b = upsert_watch-baseline id bot_id name command interval now new h in
      elim (Bool-cases (live (bots w.bot_id))) [ inl e ↦ rw (e, b) | inr e ↦ rw e ]
