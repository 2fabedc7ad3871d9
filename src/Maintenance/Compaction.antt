-- ===== src/Maintenance/Compaction.antt =====
-- maintenance.go: the swap of a scope's memories for a compacted list, and its undoing. A transaction is a chain of statements: `none` is its
-- error, after which the tables are as they were. The ids that the database mints are arguments.
use ccc_fork.Base.{
  ℕ, ◌+◌, ◌==◌, Bool, true, ◌&&◌, Option, none, some, List, [], ◌∷◌, any, length, ltb,
  if◌then◌else◌, Text, text_eq, Table,
}
use ccc_fork.Maintenance.{ParsedMemory}

pub record Memory : Type 0 where
  pub id : ℕ
  pub scope : Text
  pub scope_key : Text
  pub key : Text
  pub text : Text
  pub created_by_bot_id : Option ℕ
  pub created_at : ℕ
  pub updated_at : ℕ

pub record MemoryArchive : Type 0 where
  pub id : ℕ
  pub compaction_id : ℕ
  pub archived_at : ℕ
  pub scope : Text
  pub scope_key : Text
  pub key : Text
  pub text : Text
  pub created_by_bot_id : Option ℕ
  pub memory_created_at : ℕ
  pub memory_updated_at : ℕ

pub record MemoryTables : Type 0 where
  pub memories : Table Memory
  pub archives : Table MemoryArchive
  pub mint_memory : List Memory → ℕ
  pub mint_archive : List MemoryArchive → ℕ

-- The contents of the two tables.
pub record Memories : Type 0 where
  pub memories : List Memory
  pub archives : List MemoryArchive

-- Rows inserted one after another, each with the id that the table mints for it.
unfoldable pub create_all :
    {A Row : Type 0} → Table Row → (List Row → A → Row) → List A → List Row → Option (List Row)
create_all db make [] rows = some rows
create_all db make (a ∷ entries) rows = elim (db.create (make rows a) rows) [
  | none ↦ none
  | some rows' ↦ create_all db make entries rows'
]

abbrev pub archive_row :
    (List MemoryArchive → ℕ) → ℕ → ℕ → List MemoryArchive → Memory → MemoryArchive
archive_row mint compaction_id now rows m = record {
  id = mint rows;
  compaction_id = compaction_id;
  archived_at = now;
  scope = m.scope;
  scope_key = m.scope_key;
  key = m.key;
  text = m.text;
  created_by_bot_id = m.created_by_bot_id;
  memory_created_at = m.created_at;
  memory_updated_at = m.updated_at;
}

abbrev pub compacted_row : (List Memory → ℕ) → Text → Text → ℕ → List Memory → ParsedMemory → Memory
compacted_row mint scope scope_key now rows p = record {
  id = mint rows;
  scope = scope;
  scope_key = scope_key;
  key = p.key;
  text = p.text;
  created_by_bot_id = none;
  created_at = now;
  updated_at = now;
}

abbrev pub restored_row : (List Memory → ℕ) → List Memory → MemoryArchive → Memory
restored_row mint rows a = record {
  id = mint rows;
  scope = a.scope;
  scope_key = a.scope_key;
  key = a.key;
  text = a.text;
  created_by_bot_id = a.created_by_bot_id;
  created_at = a.memory_created_at;
  updated_at = a.memory_updated_at;
}

abbrev pub in_scope : Text → Text → Memory → Bool
in_scope scope scope_key m = text_eq m.scope scope && text_eq m.scope_key scope_key

abbrev max : ℕ → ℕ → ℕ
max m n = if ltb m n then n else m

-- The greatest id of a compaction, 0 for none; ids start at 1.
unfoldable pub last_compaction : List MemoryArchive → ℕ
last_compaction [] = 0
last_compaction (a ∷ rows) = max a.compaction_id (last_compaction rows)

-- applyCompaction: the id of the compaction, and the tables after it
unfoldable pub apply_compaction :
    MemoryTables
    → Text
    → Text
    → List Memory
    → List ParsedMemory
    → ℕ
    → Memories
    → Option (ℕ × Memories)
unfolding last_compaction create_all
apply_compaction db scope scope_key old next now s =
    elim (db.archives.select (λ a. true) s.archives) [
      | none ↦ none
      | some all ↦
          let id = last_compaction all + 1 in
          elim (create_all db.archives (archive_row db.mint_archive id now) old s.archives) [
            | none ↦ none
            | some archives ↦ elim (db.memories.delete (in_scope scope scope_key) s.memories) [
              | none ↦ none
              | some left ↦
                  elim (create_all db.memories (compacted_row db.mint_memory scope scope_key now)
                    next left) [
                      | none ↦ none
                      | some memories ↦
                          some (id, record { memories = memories; archives = archives })
                    ]
            ]
          ]
    ]

abbrev pub of_compaction : ℕ → MemoryArchive → Bool
of_compaction id a = a.compaction_id == id

-- The set of scopes of archived rows.
unfoldable pub scopes_of : List MemoryArchive → List (Text × Text)
scopes_of [] = []
scopes_of (a ∷ rows) =
    let rest = scopes_of rows in
    if any (λ (s : Text × Text). text_eq s.0 a.scope && text_eq s.1 a.scope_key) rest
    then rest
    else (a.scope, a.scope_key) ∷ rest

unfoldable pub delete_scopes :
    Table Memory → List (Text × Text) → List Memory → Option (List Memory)
delete_scopes db [] rows = some rows
delete_scopes db ((scope, scope_key) ∷ rest) rows =
    elim (db.delete (in_scope scope scope_key) rows) [
      | none ↦ none
      | some left ↦ delete_scopes db rest left
    ]

-- The transaction of restoreCompaction, of rows that it has read.
unfoldable pub restore_rows : MemoryTables → ℕ → List MemoryArchive → Memories → Option Memories
unfolding delete_scopes scopes_of create_all
restore_rows db compaction_id rows s =
    elim (delete_scopes db.memories (scopes_of rows) s.memories) [
      | none ↦ none
      | some left ↦ elim (create_all db.memories (restored_row db.mint_memory) rows left) [
        | none ↦ none
        | some memories ↦ elim (db.archives.delete (of_compaction compaction_id) s.archives) [
          | none ↦ none
          | some archives ↦ some (record { memories = memories; archives = archives })
        ]
      ]
    ]

-- restoreCompaction: how many rows came back, and the tables after it
unfoldable pub restore_compaction : MemoryTables → ℕ → Memories → Option (ℕ × Memories)
unfolding restore_rows
restore_compaction db compaction_id s =
    elim (db.archives.select (of_compaction compaction_id) s.archives) [
      | none ↦ none
      | some [] ↦ none
      | some (a ∷ rows) ↦ elim (restore_rows db compaction_id (a ∷ rows) s) [
        | none ↦ none
        | some s' ↦ some (length (a ∷ rows), s')
      ]
    ]
