-- ===== src/Maintenance/Tests.antt =====
-- maintenance.go: runs of the model.
use ccc_fork.Base.{
  ◌+◌, ◌≡◌, ◌↔◌, inl, inr, refl, arith, true, false, none, some, [], ◌∷◌, Has, length, codes,
  text_eq, trim_space, list_table,
}
use ccc_fork.Base.Bytes.{byte_length}
use ccc_fork.Maintenance.{
  TurnBody, Trimming, ParsedMemory, trim_turn_bodies, parse_memory_list, is_markdown_line,
}
use ccc_fork.Maintenance.Compaction.{
  Memory, MemoryArchive, MemoryTables, Memories, apply_compaction, restore_compaction,
}
use ccc_fork.Maintenance.Termination.{trim_turn_bodies-ends}
use ccc_fork.Maintenance.Restoring.{Remembers}
use ccc_fork.Maintenance.Undoing.{AreOf, restore-apply_compaction}

parse_memory_list_runs :
    (parse_memory_list (codes "name: Ana\n\n city: Madrid \nname: Eva")
      ≡ some (
          record { key = codes "name"; text = codes "Eva" }
          ∷ record { key = codes "city"; text = codes "Madrid" }
          ∷ []))
    × (parse_memory_list (codes "Here they are\n") ≡ none)
    × (is_markdown_line (codes "12. a: b") ≡ true)
    × (is_markdown_line (codes "name: 1. b") ≡ false)
unfolding parse_memory_list is_markdown_line trim_space text_eq byte_length
parse_memory_list_runs = (refl, refl, refl, refl)

abbrev old_turn : TurnBody
old_turn = record { id = 3; created_at = 10; input = codes "a"; output = codes "b" }

abbrev start : Trimming
start = record { rows = old_turn ∷ []; after = 0; trimmed = 0; problems = 0 }

trim_turn_bodies-ends_example :
    (s : Trimming) × (trim_turn_bodies (list_table TurnBody) 2 100 start ≡ some s)
trim_turn_bodies-ends_example =
    trim_turn_bodies-ends (list_table TurnBody) 100 2 start (omega arith)

abbrev tables : MemoryTables
tables = record {
  memories = list_table Memory;
  archives = list_table MemoryArchive;
  mint_memory = λ rows. length rows + 1;
  mint_archive = λ rows. length rows + 1;
}

abbrev city : Memory
city = record {
  id = 1;
  scope = codes "user";
  scope_key = [];
  key = codes "city";
  text = codes "Madrid";
  created_by_bot_id = none;
  created_at = 5;
  updated_at = 6;
}

abbrev port : Memory
port = record city {
  id = 2;
  scope = codes "bot";
  scope_key = codes "7";
  key = codes "port";
  text = codes "80";
}

abbrev before : Memories
before = record { memories = city ∷ port ∷ []; archives = [] }

abbrev shorter : ParsedMemory
shorter = record { key = codes "city"; text = codes "lives in Madrid" }

abbrev kept_city : MemoryArchive
kept_city = record {
  id = 1;
  compaction_id = 1;
  archived_at = 90;
  scope = codes "user";
  scope_key = [];
  key = codes "city";
  text = codes "Madrid";
  created_by_bot_id = none;
  memory_created_at = 5;
  memory_updated_at = 6;
}

abbrev compacted : Memories
compacted = record {
  memories =
      port
      ∷ record city { id = 2; text = codes "lives in Madrid"; created_at = 90; updated_at = 90 }
      ∷ [];
  archives = kept_city ∷ [];
}

abbrev restored : Memories
restored = record { memories = port ∷ record city { id = 2 } ∷ []; archives = [] }

cities-AreOf : AreOf (codes "user") [] (city ∷ []) before.memories
unfolding text_eq
cities-AreOf m = (
  λ h. elim h [ inl q ↦ (inl q, rw (← q) refl) | inr z ↦ absurd z ],
  λ (h, e). elim h [
    | inl q ↦ inl q
    | inr (inl q) ↦ absurd (cc (rw (← q) at e))
    | inr (inr z) ↦ absurd z
  ],
)

restore-apply_compaction_example :
    ((m : Memory) → Has m before.memories → Remembers restored.memories m)
    × ((m : Memory) → Has m restored.memories → Remembers before.memories m)
    × ((a : MemoryArchive) → Has a restored.archives ↔ Has a before.archives)
unfolding apply_compaction restore_compaction text_eq
restore-apply_compaction_example =
    restore-apply_compaction tables (codes "user") [] (city ∷ []) (shorter ∷ []) 90 1 1 before
      compacted restored cities-AreOf refl refl
