-- ===== src/Watches/Rows.antt =====
-- scheduler.go: the rows of watches, with what renews, runs and expires them. The bots, the output of a watch's command, its
-- hash, the quoting of `%q`, durations in words and the clock are arguments; times are nanoseconds since Go's zero
-- time. A negative interval is raised to the least one, as zero is.
use ccc_fork.Base.{
  length, filter, ℕ, ◌+◌, ◌*◌, ◌==◌, Bool, true, false, not, ◌&&◌, ◌||◌, Option, none, some, List,
  [], ◌∷◌, ◌++◌, ltb, leb, if◌then◌else◌, Text, codes, text_eq, is_empty, trim_space, Table, first,
  write,
}
use ccc_fork.Turns.{Database, Store, Turn, watch, system, enqueue}
use ccc_fork.Watches.{line_diff}

pub record Watch : Type 0 where
  pub id : ℕ
  pub bot_id : ℕ
  pub name : Text
  pub command : Text
  pub interval_s : ℕ
  pub last_hash : Text
  pub last_output : Text
  pub last_run_at : Option ℕ
  pub enabled : Bool
  pub created_at : ℕ

pub record Bot : Type 0 where
  pub topic_id : ℕ
  pub archived : Bool

abbrev pub live : Option Bot → Bool
live none = false
live (some b) = not b.archived

-- isGeneralBot
abbrev pub is_general_bot : Option Bot → Bool
is_general_bot none = false
is_general_bot (some b) = b.topic_id == 0

-- The watches and the queue that they feed.
pub record Watched : Type 0 where
  pub watches : List Watch
  pub store : Store

abbrev pub watch_min_interval : ℕ
watch_min_interval = 60

abbrev pub watch_diff_limit : ℕ
watch_diff_limit = 8 * 1024

abbrev pub has_watch_id : ℕ → Watch → Bool
has_watch_id id w = w.id == id

abbrev pub is_of : ℕ → Text → Watch → Bool
is_of bot_id name w = w.bot_id == bot_id && text_eq w.name name

abbrev pub at_least : ℕ → ℕ
at_least n = if ltb n watch_min_interval then watch_min_interval else n

-- What a renewal writes; another command forgets the baseline.
unfoldable pub renewed : Text → Text → ℕ → ℕ → Watch → Watch
renewed old_command command interval_s now r =
    let kept = text_eq old_command command in
    record r {
      command = command;
      interval_s = interval_s;
      enabled = true;
      created_at = now;
      last_hash = if kept then r.last_hash else [];
      last_output = if kept then r.last_output else [];
      last_run_at = if kept then r.last_run_at else none;
    }

abbrev pub new_watch : ℕ → ℕ → Text → Text → ℕ → ℕ → Watch
new_watch id bot_id name command interval_s now = record {
  id = id;
  bot_id = bot_id;
  name = name;
  command = command;
  interval_s = interval_s;
  last_hash = [];
  last_output = [];
  last_run_at = none;
  enabled = true;
  created_at = now;
}

unfoldable pub renew : Table Watch → List Watch → Watch → Text → ℕ → ℕ → Option (Watch × List Watch)
unfolding renewed
renew db rows w command interval_s now =
    elim (db.update (has_watch_id w.id) (renewed w.command command interval_s now) rows) [
      | none ↦ none
      | some rows' ↦ elim (first db (has_watch_id w.id) rows') [
        | none ↦ none
        | some w' ↦ some (w', rows')
      ]
    ]

unfoldable pub register_watch : Table Watch → List Watch → Watch → Option (Watch × List Watch)
register_watch db rows w = elim (db.create w rows) [ none ↦ none | some rows' ↦ some (w, rows') ]

-- upsertWatch, with the id that the database mints for a new row; `none` is an error
unfoldable pub upsert_watch :
    Table Watch → List Watch → ℕ → ℕ → Text → Text → ℕ → ℕ → Option (Watch × List Watch)
unfolding renew register_watch
upsert_watch db rows id bot_id raw_name raw_command interval_s now =
    let name = trim_space raw_name in
    let command = trim_space raw_command in
    if is_empty name || is_empty command then none else elim (first db (is_of bot_id name) rows) [
      | some w ↦ renew db rows w command (at_least interval_s) now
      | none ↦ register_watch db rows (new_watch id bot_id name command (at_least interval_s) now)
    ]

-- renderWatchChange; the error of the command is `none` if it had none
unfoldable pub render_watch_change : (Text → Text) → Watch → Text → Text → Option Text → Text
render_watch_change quote w before after run_err =
    codes "Watch "
    ++ (quote w.name
        ++ (codes " changed.\nCommand: "
            ++ (w.command
                ++ (codes "\n"
                    ++ ((elim run_err [
                      | none ↦ []
                      | some e ↦ codes "The command exited with an error: " ++ (e ++ codes "\n")
                    ])
                        ++ (codes "\nWhat changed:\n"
                            ++ line_diff before after watch_diff_limit))))))

-- `w.LastHash == "" && w.LastRunAt == nil`
abbrev pub is_baseline : Watch → Bool
is_baseline w = is_empty w.last_hash && (elim w.last_run_at [ none ↦ true | some t ↦ false ])

-- The turns after an attempt to enqueue, whose error is only logged.
abbrev pub or_as_before : Store → Option Store → Store
or_as_before s none = s
or_as_before s (some s') = s'

-- What a watch's command gave.
pub record CommandRun : Type 0 where
  pub output : Text
  pub run_err : Option Text

unfoldable pub run_watch :
    Table Watch
    → Database
    → (ℕ → Option Bot)
    → (Text → Text)
    → (Text → Text)
    → Watched
    → ℕ
    → Watch
    → CommandRun
    → ℕ
    → Watched
unfolding render_watch_change
run_watch db queue bots hash_output quote s id w run now =
    if not (live (bots w.bot_id))
    then record s {
      watches = write db (has_watch_id w.id) (λ r. record r { enabled = false }) s.watches;
    }
    else let hash = hash_output run.output in
      record s {
        watches =
            write db (has_watch_id w.id)
              (λ r. record r { last_run_at = some now; last_hash = hash; last_output = run.output })
              s.watches;
        store =
            if is_baseline w || text_eq hash w.last_hash
            then s.store
            else or_as_before s.store (
                enqueue queue s.store id w.bot_id watch
                  (render_watch_change quote w w.last_output run.output run.run_err) 0);
      }

-- watchExpired
unfoldable pub watch_expired : Watch → ℕ → ℕ → Bool
watch_expired w now ttl =
    if ttl == 0 || not w.enabled
    then false
    else if w.created_at == 0
    then true
    else leb (w.created_at + ttl) now

-- renderWatchExpired
unfoldable pub render_watch_expired : (Text → Text) → Text → Watch → Text
render_watch_expired quote ttl_words w =
    codes "Watch "
    ++ (quote w.name
        ++ (codes " timed out after "
            ++ (ttl_words
                ++ (codes " and was cancelled.\nCommand: "
                    ++ (w.command
                        ++ codes
                            "\nRe-set it with watch if you still need it. For standing jobs use set_routine.")))))

module _ (db : Table Watch) (queue : Database) (mint : List Turn → ℕ) (bots : ℕ → Option Bot)
    (quote : Text → Text) (ttl_words : Text) (now ttl : ℕ) where
  -- What is queued for the bot of a watch that was deleted.
  unfoldable pub notify_expired : Store → Watch → Store
  unfolding render_watch_expired
  notify_expired s w =
      if not (live (bots w.bot_id)) || is_general_bot (bots w.bot_id)
      then s
      else or_as_before s (
          enqueue queue s (mint s.turns) w.bot_id system (render_watch_expired quote ttl_words w) 0)

  unfoldable pub expire_one : Watched → Watch → Watched
  unfolding notify_expired
  expire_one s w = elim (db.delete (has_watch_id w.id) s.watches) [
    | none ↦ s
    | some rows ↦ record { watches = rows; store = notify_expired s.store w }
  ]

  unfoldable pub expire_each : List Watch → Watched → Watched
  unfolding expire_one watch_expired
  expire_each [] s = s
  expire_each (w ∷ rest) s =
      expire_each rest (if watch_expired w now ttl then expire_one s w else s)

  unfoldable pub expire_watches : Watched → Watched
  unfolding expire_each
  expire_watches s = if ttl == 0 then s else elim (db.select (λ w. w.enabled) s.watches) [
    | none ↦ s
    | some found ↦ expire_each found s
  ]

-- deleteWatch: whether a row was removed, and the rows left; `none` is an error
unfoldable pub delete_watch : Table Watch → List Watch → ℕ → Text → Option (Bool × List Watch)
delete_watch db rows bot_id name = elim (db.delete (is_of bot_id (trim_space name)) rows) [
  | none ↦ none
  | some rows' ↦ some (ltb 0 (length (filter (is_of bot_id (trim_space name)) rows)), rows')
]

-- Whether a watch's interval has elapsed.
unfoldable pub is_due : ℕ → Watch → Bool
is_due now w = elim w.last_run_at [
  | none ↦ true
  | some t ↦ not (ltb now (t + w.interval_s * 1000000000))
]

module _ (db : Table Watch) (queue : Database) (mint : List Turn → ℕ) (bots : ℕ → Option Bot)
    (hash_output quote : Text → Text) (runs : Watch → CommandRun) (now : ℕ) where
  unfoldable pub run_each : List Watch → Watched → Watched
  unfolding run_watch is_due
  run_each [] s = s
  run_each (w ∷ rest) s = run_each rest (
      if is_due now w
      then run_watch db queue bots hash_output quote s (mint s.store.turns) w (runs w) now
      else s)

  -- runDueWatches, with what each command gives when it runs
  unfoldable pub run_due_watches : Watched → Watched
  unfolding run_each
  run_due_watches s = elim (db.select (λ w. w.enabled) s.watches) [
    | none ↦ s
    | some found ↦ run_each found s
  ]
