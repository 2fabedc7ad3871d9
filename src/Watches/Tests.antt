-- ===== src/Watches/Tests.antt =====
-- scheduler.go: runs of the model.
use ccc_fork.Base.Bytes.{byte_length}
use ccc_fork.Base.{
  ◌↔◌, ℕ, false, ◌+◌, ◌-◌, ◌≤◌, ◌≡◌, refl, arith, List, [], ◌∷◌, Text, codes, text_eq, trim_space,
  true, Option, none, some, Has, list_table, list_table-Answers, Table, first,
}
use ccc_fork.Watches.{count_line, removed_lines, added_lines, line_diff}
use ccc_fork.Turns.{Database, Turn, InboxMessage}
use ccc_fork.Watches.Rows.{Watch, Watched, Bot, upsert_watch, run_watch, expire_watches}
use ccc_fork.Watches.Renewal.{upsert_watch-quiet}
use ccc_fork.Watches.Expiry.{HasLived, expire_watches-left}
use ccc_fork.Watches.Diff.{changed_lines-count}
use ccc_fork.Watches.Limit.{line_diff-limit}

line_diff_runs :
    (line_diff (codes "a\nb\na\n") (codes "b\nc\na\n") 100 ≡ codes "- a\n+ c\n")
    × (line_diff (codes "a\nb") (codes "b\na") 100
        ≡ codes "(the output was reordered; nothing was added or removed)\n")
    × (line_diff (codes "a\nb") (codes "c") 5 ≡ codes "- a\n…(diff truncated)\n")
unfolding line_diff text_eq trim_space
line_diff_runs = (refl, refl, refl)

abbrev old_lines : List Text
old_lines = codes "a" ∷ codes "b" ∷ codes "a" ∷ []

abbrev new_lines : List Text
new_lines = codes "b" ∷ codes "c" ∷ codes "a" ∷ []

changed_lines-count_example :
    (count_line (codes "a") (removed_lines old_lines new_lines)
      ≡ count_line (codes "a") old_lines - count_line (codes "a") new_lines)
    × (count_line (codes "a") (added_lines old_lines new_lines)
        ≡ count_line (codes "a") new_lines - count_line (codes "a") old_lines)
unfolding trim_space
changed_lines-count_example = changed_lines-count old_lines new_lines (codes "a") refl

line_diff-limit_example : byte_length (line_diff (codes "a\nb") (codes "c") 40) ≤ 40 + 20
line_diff-limit_example = line_diff-limit (codes "a\nb") (codes "c") 40 (omega arith)

abbrev db : Table Watch
db = list_table Watch

abbrev queue : Database
queue = record { turns = list_table Turn; inbox = list_table InboxMessage }

abbrev disk : Watch
disk = record {
  id = 1;
  bot_id = 5;
  name = codes "disk";
  command = codes "df";
  interval_s = 60;
  last_hash = codes "aa";
  last_output = codes "90%";
  last_run_at = some 50;
  enabled = true;
  created_at = 10;
}

abbrev disk_again : Watch
disk_again = record disk {
  command = codes "du";
  interval_s = 90;
  last_hash = [];
  last_output = [];
  last_run_at = none;
  created_at = 70;
}

abbrev watched : Watched
watched = record { watches = disk ∷ []; store = record { turns = []; inbox = [] } }

abbrev worker : ℕ → Option Bot
worker id = some (record { topic_id = 3; archived = false })

abbrev same_text : Text → Text
same_text t = t

upsert_watch-quiet_example :
    (run_watch db queue worker same_text same_text watched 1 disk_again
      (record { output = codes "5 GB"; run_err = none })
      80).store
    ≡ watched.store
unfolding upsert_watch first text_eq trim_space
upsert_watch-quiet_example =
    upsert_watch-quiet db (disk ∷ []) queue worker same_text same_text watched 2 1 5 (codes "disk")
      (codes "du") 90 70 80 (record { output = codes "5 GB"; run_err = none }) {w = disk_again}
      {rows' = disk_again ∷ []} (λ w e q. ground (arith, e, q)) refl

expire_watches-left_example :
    Has disk
      (expire_watches db queue (λ turns. 1) worker same_text (codes "1h") 100 60 watched).watches
    ↔ (Has disk watched.watches × (¬ HasLived 60 100 disk))
expire_watches-left_example =
    expire_watches-left db (list_table-Answers Watch) queue (λ turns. 1) worker same_text
      (codes "1h") 100 60 watched (λ s m. absurd m, tt) disk

expire_watches_runs :
    (expire_watches db queue (λ turns. 1) worker same_text (codes "1h") 100 60 watched).watches ≡ []
unfolding expire_watches
expire_watches_runs = refl
