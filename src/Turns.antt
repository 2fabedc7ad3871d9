-- ===== src/Turns.antt =====
-- runner.go: the queue of inputs of each bot, and the inbox through which bots write to each other.
-- The rows of the two tables are the state. The database, the ids that it mints, the clock and the bots' names are arguments.
-- Of a turn's columns, those that the queue reads or writes are kept.
pub mod Writes
pub mod Folding
pub mod Delivery
pub mod Recovery
mod Tests
use ccc_fork.Base.{
  ℕ, zero, suc, ◌==◌, Bool, true, false, not, ◌&&◌, ◌||◌, Option, none, some, List, [], ◌∷◌, ◌++◌,
  map, filter, ltb, if◌then◌else◌, Text, codes, is_empty, trim_space, Table, write,
}

pub data TurnStatus : Type 0 where
  queued running done failed : TurnStatus

abbrev pub is_status_queued : TurnStatus → Bool
is_status_queued queued = true
is_status_queued _ = false

pub data Source : Type 0 where
  user bot schedule watch routine system background : Source

pub record Turn : Type 0 where
  pub id : ℕ
  pub bot_id : ℕ
  pub source : Source
  pub input : Text
  pub status : TurnStatus
  pub stop_reason : Text
  -- the Telegram message that it came from, 0 for none
  pub trigger_message_id : ℕ

pub record InboxMessage : Type 0 where
  pub id : ℕ
  pub to_bot_id : ℕ
  pub from_bot_id : Option ℕ
  pub text : Text
  pub wake : Bool
  pub delivered_at : Option ℕ
  pub turn_id : Option ℕ

pub record Store : Type 0 where
  pub turns : List Turn
  pub inbox : List InboxMessage

pub record Database : Type 0 where
  pub turns : Table Turn
  pub inbox : Table InboxMessage

-- The condition `bot_id = ? AND status = queued`.
abbrev pub is_queued : ℕ → Turn → Bool
is_queued bot_id t = t.bot_id == bot_id && is_status_queued t.status

-- Enqueue, with the id that the database mints; `none` is its error.
unfoldable pub enqueue : Database → Store → ℕ → ℕ → Source → Text → ℕ → Option Store
enqueue db s id bot_id source text trigger_message_id =
    elim (db.turns.create
      (record {
        id = id;
        bot_id = bot_id;
        source = source;
        input = text;
        status = queued;
        stop_reason = [];
        trigger_message_id = trigger_message_id;
      })
      s.turns) [ none ↦ none | some turns ↦ some (record s { turns = turns }) ]

abbrev pub dropped : Turn → Turn
dropped t = record t { status = failed; stop_reason = codes "dropped by /stop" }

-- Stop, but for the signal to the running child process.
unfoldable pub stop : Database → Store → ℕ → Store
stop db s bot_id = record s { turns = write db.turns (is_queued bot_id) dropped s.turns }

-- `fmt.Sprint` of an id is an argument, so the reason that names the carrier is.
abbrev pub merged_into : (ℕ → Text) → ℕ → Turn → Turn
merged_into show head t = record t {
  status = done;
  stop_reason = codes "merged into turn " ++ show head;
}

abbrev pub has_turn : ℕ → InboxMessage → Bool
has_turn turn_id m = elim m.turn_id [ none ↦ false | some t ↦ t == turn_id ]

-- What folding writes for one further input.
unfoldable pub fold_extra : Database → (ℕ → Text) → ℕ → Turn → Store → Store
fold_extra db show head extra s = record {
  turns = write db.turns (λ t. t.id == extra.id) (merged_into show head) s.turns;
  inbox = write db.inbox (has_turn extra.id) (λ m. record m { turn_id = some head }) s.inbox;
}

unfoldable pub fold_extras : Database → (ℕ → Text) → ℕ → List Turn → Store → Store
unfolding fold_extra
fold_extras db show head [] s = s
fold_extras db show head (extra ∷ rest) s =
    fold_extras db show head rest (fold_extra db show head extra s)

-- strings.Join
unfoldable pub join : Text → List Text → Text
join sep [] = []
join sep (t ∷ []) = t
join sep (t ∷ u ∷ rest) = t ++ (sep ++ join sep (u ∷ rest))

unfoldable pub triggers_of : List Turn → List ℕ
triggers_of [] = []
triggers_of (t ∷ rest) =
    let more = triggers_of rest in
    if t.trigger_message_id == 0 then more else t.trigger_message_id ∷ more

pub record Folded : Type 0 where
  pub carrier : Turn
  pub input : Text
  pub triggers : List ℕ

unfoldable pub fold_rows : Database → (ℕ → Text) → List Turn → Store → Option Folded × Store
unfolding fold_extras join triggers_of
fold_rows db show [] s = (none, s)
fold_rows db show (head ∷ extras) s = (
  some (record {
    carrier = head;
    input = join (codes "\n\n") (map (λ (t : Turn). t.input) (head ∷ extras));
    triggers = triggers_of (head ∷ extras);
  }),
  fold_extras db show head.id extras s,
)

unfoldable pub fold_queue : Database → (ℕ → Text) → Store → ℕ → Option Folded × Store
unfolding fold_rows
fold_queue db show s bot_id = elim (db.turns.select (is_queued bot_id) s.turns) [
  | none ↦ (none, s)
  | some found ↦ fold_rows db show found s
]

-- Who a message is from: `none` for a bot that is not found.
unfoldable pub inbox_input : (ℕ → Option Text) → InboxMessage → Text
inbox_input names m =
    codes "Message from "
    ++ (elim m.from_bot_id [
      | none ↦ codes "the owner"
      | some from ↦ elim (names from) [ none ↦ codes "another bot" | some name ↦ name ]
    ]
        ++ (codes ":\n" ++ m.text))

abbrev pub is_from : ℕ → Option ℕ → Bool
is_from bot_id none = false
is_from bot_id (some from) = from == bot_id

abbrev pub is_unset : Option ℕ → Bool
is_unset none = true
is_unset (some t) = false

-- The messages to deliver; a sender of 0 means all.
abbrev pub is_pending : ℕ → InboxMessage → Bool
is_pending from_bot_id m =
    is_unset m.delivered_at
    && m.wake
    && (if ltb 0 from_bot_id then is_from from_bot_id m.from_bot_id else true)

abbrev pub delivered : ℕ → ℕ → InboxMessage → InboxMessage
delivered now turn_id m = record m { delivered_at = some now; turn_id = some turn_id }

-- One message, with the id that the database mints for its turn.
unfoldable pub deliver_one :
    Database → (List Turn → ℕ) → (ℕ → Option Text) → ℕ → InboxMessage → Store → Store
unfolding inbox_input enqueue
deliver_one db mint names now m s =
    let id = mint s.turns in
    elim (enqueue db s id m.to_bot_id bot (inbox_input names m) 0) [
      | none ↦ s
      | some s' ↦ record s' {
        inbox = write db.inbox (λ n. n.id == m.id) (delivered now id) s'.inbox;
      }
    ]

unfoldable pub deliver_each :
    Database → (List Turn → ℕ) → (ℕ → Option Text) → ℕ → List InboxMessage → Store → Store
unfolding deliver_one
deliver_each db mint names now [] s = s
deliver_each db mint names now (m ∷ rest) s =
    deliver_each db mint names now rest (deliver_one db mint names now m s)

-- deliverInbox
unfoldable pub deliver_inbox :
    Database → (List Turn → ℕ) → (ℕ → Option Text) → Store → ℕ → ℕ → Store
unfolding deliver_each
deliver_inbox db mint names s from_bot_id now =
    elim (db.inbox.select (is_pending from_bot_id) s.inbox) [
      | none ↦ s
      | some pending ↦ deliver_each db mint names now pending s
    ]
