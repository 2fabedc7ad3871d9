-- ===== src/Turns/Tests.antt =====
-- runner.go: runs of the queue, over tables in memory.
use ccc_fork.Base.{
  map, ap, false, ◌≢◌, ℕ, ◌≡◌, inl, inr, refl, arith, true, false, Option, none, some, [], ◌∷◌, Has,
  Text, codes, list_table, list_table-Answers, write,
}
use ccc_fork.Turns.{
  Turn, InboxMessage, Store, Database, Folded, queued, running, done, user, is_queued, is_pending,
  stop, fold_queue, inbox_input, deliver_inbox,
}
use ccc_fork.Turns.Writes.{DistinctBy}
use ccc_fork.Turns.Recovery.{recover_after_restart, recovered, recover_after_restart-recovered}
use ccc_fork.Watches.Rows.{Bot}
use ccc_fork.Turns.Folding.{turn_id_of, FoldsTo, fold_queue-FoldsTo, stop-cleared}
use ccc_fork.Turns.Delivery.{IsQueuedFor, Creates, deliver_inbox-all}

abbrev db : Database
db = record { turns = list_table Turn; inbox = list_table InboxMessage }

abbrev first_input : Turn
first_input = record {
  id = 1;
  bot_id = 5;
  source = user;
  input = codes "one";
  status = queued;
  stop_reason = [];
  trigger_message_id = 70;
}

abbrev other_bot : Turn
other_bot = record first_input { id = 2; bot_id = 6; status = running }

abbrev second_input : Turn
second_input = record first_input { id = 3; input = codes "two"; trigger_message_id = 0 }

abbrev letter : InboxMessage
letter = record {
  id = 9;
  to_bot_id = 6;
  from_bot_id = some 5;
  text = codes "hi";
  wake = true;
  delivered_at = none;
  turn_id = none;
}

abbrev busy : Store
busy = record { turns = first_input ∷ other_bot ∷ second_input ∷ []; inbox = letter ∷ [] }

abbrev show_id : ℕ → Text
show_id n = codes "1"

abbrev both : Folded
both = record { carrier = first_input; input = codes "one\n\ntwo"; triggers = 70 ∷ [] }

abbrev merged : Store
merged = record busy {
  turns =
      first_input
      ∷ other_bot
      ∷ record second_input { status = done; stop_reason = codes "merged into turn 1" }
      ∷ [];
}

fold_queue_runs : fold_queue db show_id busy 5 ≡ (some both, merged)
unfolding fold_queue write
fold_queue_runs = refl

busy-DistinctBy : DistinctBy turn_id_of busy.turns
busy-DistinctBy = (
  λ s m. elim m [
    | inl q ↦ ground (arith, q)
    | inr (inl q) ↦ ground (arith, q)
    | inr (inr n) ↦ absurd n
  ],
  (λ s m. elim m [ inl q ↦ ground (arith, q) | inr n ↦ absurd n ], (λ s m. absurd m, tt)),
)

fold_queue-FoldsTo_example : FoldsTo busy 5 both merged
fold_queue-FoldsTo_example =
    fold_queue-FoldsTo db (list_table-Answers Turn) show_id busy 5 busy-DistinctBy {folded = both}
      {s' = merged} fold_queue_runs

stop-cleared_example :
    ((t : Turn) → Has t (stop db busy 5).turns → is_queued 5 t ≡ false)
    × ((t : Turn) → Has t busy.turns → is_queued 5 t ≡ false → Has t (stop db busy 5).turns)
stop-cleared_example = stop-cleared db (list_table-Answers Turn) busy 5

list_table-Creates : Creates db
list_table-Creates t turns e = cc

abbrev names : ℕ → Option Text
names id = some (codes "Eve")

deliver_inbox-all_example :
    ((n : InboxMessage)
      → Has n (deliver_inbox db (λ turns. 4) names busy 5 100).inbox
      → is_pending 5 n ≡ false)
    × ((m : InboxMessage)
        → Has m busy.inbox
        → is_pending 5 m ≡ true
        → IsQueuedFor m.to_bot_id
            (inbox_input names m)
            (deliver_inbox db (λ turns. 4) names busy 5 100).turns)
    × ((t : Turn) → Has t busy.turns → Has t (deliver_inbox db (λ turns. 4) names busy 5 100).turns)
deliver_inbox-all_example =
    deliver_inbox-all db list_table-Creates (list_table-Answers InboxMessage) (λ turns. 4) names 100
      5 busy

abbrev live_bot : ℕ → Option Bot
live_bot id = some (record { topic_id = 3; archived = false })

recover_after_restart-recovered_example :
    (recover_after_restart db.turns live_bot busy.turns).0 ≡ map (recovered live_bot) busy.turns
recover_after_restart-recovered_example =
    recover_after_restart-recovered db.turns (list_table-Answers Turn) live_bot busy.turns
      (λ s m e. ids_apart s m e, (λ s m e. last_apart s m e, (λ s m e. absurd m, tt)))
  where
    ids_apart : (s : Turn) → Has s (other_bot ∷ second_input ∷ []) → s.id ≢ 1
    ids_apart s (inl q) e = ground (arith, ap (λ (t : Turn). t.id) q, e)
    ids_apart s (inr (inl q)) e = ground (arith, ap (λ (t : Turn). t.id) q, e)
    ids_apart s (inr (inr z)) e = absurd z

    last_apart : (s : Turn) → Has s (second_input ∷ []) → s.id ≢ 2
    last_apart s (inl q) e = ground (arith, ap (λ (t : Turn). t.id) q, e)
    last_apart s (inr z) e = absurd z
