-- ===== src/Maintenance/Undoing.antt =====
-- maintenance.go: a compaction followed by its restoring leaves the memories and the archive as they were.
use ccc_fork.Base.{
  ℕ, ◌+◌, ◌≡◌, ◌↔◌, inl, inr, refl, sym, ap, ◌∙◌, arith, Bool, true, false, not, some, some_eq,
  List, [], ◌∷◌, filter, Has, Has-filter, Has-filter_intro, Bool-cases, Option-cases, Text, text_eq,
  text_eq_iff, text_eq_refl, ==_iff,
}
use ccc_fork.Maintenance.{ParsedMemory}
use ccc_fork.Maintenance.Compaction.{
  Memory, MemoryArchive, MemoryTables, Memories, create_all, archive_row, compacted_row,
  restored_row, in_scope, last_compaction, apply_compaction, of_compaction, scopes_of,
  delete_scopes, restore_rows, restore_compaction,
}
use ccc_fork.Maintenance.Inserts.{Has-create_all, Has-create_all_old, Has-create_all_new}
use ccc_fork.Maintenance.Restoring.{
  content, Remembers, last_compaction-le, scopes_of-Has, scopes_of-only, Has-delete_scopes, both,
}

abbrev outside : Text → Text → Memory → Bool
outside scope scope_key m = not (in_scope scope scope_key m)

-- What a compaction that succeeds has done.
record Applied (db : MemoryTables) (scope scope_key : Text) (old : List Memory)
    (next : List ParsedMemory) (now id : ℕ) (s t : Memories) : Type 0 where
  fresh : id ≡ last_compaction s.archives + 1
  archived :
      create_all db.archives (archive_row db.mint_archive id now) old s.archives ≡ some t.archives
  replaced :
      create_all db.memories
        (compacted_row db.mint_memory scope scope_key now)
        next
        (filter (outside scope scope_key) s.memories)
      ≡ some t.memories

pair_parts : {A B : Type 0} {x y : A × B} → some x ≡ some y → (x.0 ≡ y.0) × (x.1 ≡ y.1)
pair_parts e = (ap (λ p. p.0) (some_eq e), ap (λ p. p.1) (some_eq e))

apply-Applied :
    (db : MemoryTables) (scope scope_key : Text) (old : List Memory) (next : List ParsedMemory)
    (now id : ℕ) (s t : Memories)
    → apply_compaction db scope scope_key old next now s ≡ some (id, t)
    → Applied db scope scope_key old next now id s t
unfolding apply_compaction
apply-Applied db scope scope_key old next now id s t e =
    elim (Option-cases (db.archives.select (λ a. true) s.archives)) [
      | inl f ↦ absurd (cc (rw (f, apply_compaction) at e))
      | inr (all, f) ↦
          let k = last_compaction all + 1 in
          elim (Option-cases
            (create_all db.archives (archive_row db.mint_archive k now) old s.archives)) [
              | inl g ↦ absurd (cc (rw (f, apply_compaction, g) at e))
              | inr (archives, g) ↦
                  elim (Option-cases (db.memories.delete (in_scope scope scope_key) s.memories)) [
                    | inl h ↦ absurd (cc (rw (f, apply_compaction, g, h) at e))
                    | inr (left, h) ↦
                        elim (Option-cases (
                          create_all db.memories (compacted_row db.mint_memory scope scope_key now)
                            next left)) [
                              | inl i ↦ absurd (cc (rw (f, apply_compaction, g, h, i) at e))
                              | inr (memories, i) ↦
                                  let (a, b) =
                                    pair_parts (rw (f, apply_compaction, g, h, i) at e) in
                                  let same = ap last_compaction (
                                    db.archives.select_lem (λ a. true) s.archives all f
                                    ∙ all_pass s.archives) in
                                  record {
                                    fresh = sym a ∙ ap (λ (n : ℕ). n + 1) same;
                                    archived = rw (← a, ← b) g;
                                    replaced = rw (← b) (
                                        rw
                                          (db.memories.delete_lem (in_scope scope scope_key)
                                            s.memories left h)
                                          at i);
                                  }
                            ]
                  ]
            ]
    ]
  where
    all_pass : (rows : List MemoryArchive) → filter (λ a. true) rows ≡ rows
    all_pass [] = refl
    all_pass (a ∷ rows) = ap (λ xs. a ∷ xs) (all_pass rows)

-- What a restoring that succeeds has done.
record Restored (db : MemoryTables) (id : ℕ) (t u : Memories) : Type 0 where
  first_row : MemoryArchive
  is_row : Has first_row (filter (of_compaction id) t.archives)
  left : List Memory
  deleted :
      delete_scopes db.memories (scopes_of (filter (of_compaction id) t.archives)) t.memories
      ≡ some left
  brought_back :
      create_all db.memories
        (restored_row db.mint_memory)
        (filter (of_compaction id) t.archives)
        left
      ≡ some u.memories
  consumed : u.archives ≡ filter (λ a. not (of_compaction id a)) t.archives

restore-Restored :
    (db : MemoryTables) (id n : ℕ) (t u : Memories)
    → restore_compaction db id t ≡ some (n, u)
    → Restored db id t u
unfolding restore_compaction restore_rows
restore-Restored db id n t u e =
    elim (Option-cases (db.archives.select (of_compaction id) t.archives)) [
      | inl f ↦ absurd (cc (rw (f, restore_compaction) at e))
      | inr (rows, f) ↦
          rows_found rows (db.archives.select_lem (of_compaction id) t.archives rows f) f
    ]
  where
    rows_found :
        (rows : List MemoryArchive)
        → rows ≡ filter (of_compaction id) t.archives
        → db.archives.select (of_compaction id) t.archives ≡ some rows
        → Restored db id t u
    rows_found [] q f = absurd (cc (rw (f, restore_compaction) at e))
    rows_found (a ∷ rows) q f =
        elim (Option-cases (delete_scopes db.memories (scopes_of (a ∷ rows)) t.memories)) [
          | inl g ↦ absurd (cc (rw (f, restore_compaction, restore_rows, g) at e))
          | inr (left, g) ↦
              elim (Option-cases
                (create_all db.memories (restored_row db.mint_memory) (a ∷ rows) left)) [
                  | inl h ↦ absurd (cc (rw (f, restore_compaction, restore_rows, g, h) at e))
                  | inr (memories, h) ↦
                      elim (Option-cases (db.archives.delete (of_compaction id) t.archives)) [
                        | inl i ↦
                            absurd (cc (rw (f, restore_compaction, restore_rows, g, h, i) at e))
                        | inr (archives, i) ↦
                            let b =
                              (pair_parts
                                (rw (f, restore_compaction, restore_rows, g, h, i) at e)).1 in
                            record {
                              first_row = a;
                              is_row = rw (← q) (inl refl);
                              left = left;
                              deleted = rw (← q) g;
                              brought_back = rw (← q, ← b) h;
                              consumed =
                                  rw (← b) (
                                    db.archives.delete_lem (of_compaction id) t.archives archives
                                      i);
                            }
                      ]
                ]
        ]

-- The rows that a compaction of a scope is given: those of the scope.
abbrev pub AreOf : Text → Text → List Memory → List Memory → Type 0
AreOf scope scope_key old rows =
    (m : Memory) → Has m old ↔ (Has m rows × (in_scope scope scope_key m ≡ true))

module _ (db : MemoryTables) (scope scope_key : Text) (old : List Memory) (next : List ParsedMemory)
    (now id : ℕ) (s t : Memories) (are_of : AreOf scope scope_key old s.memories)
    (done : Applied db scope scope_key old next now id s t) where
  archived_rows : List MemoryArchive
  archived_rows = filter (of_compaction id) t.archives

  older-apart : (a : MemoryArchive) → Has a s.archives → of_compaction id a ≡ false
  older-apart a m = ground (arith, last_compaction-le a s.archives m, done.fresh)

  -- The rows of this compaction are those that it archived.
  archived-only :
      (a : MemoryArchive)
      → Has a archived_rows
      → (m : Memory) × (at : List MemoryArchive) × Has m old
        × (a ≡ archive_row db.mint_archive id now at m)
  unfolding archived_rows
  archived-only a h =
      let (k, e) = Has-filter (of_compaction id) a t.archives h in
      elim (Has-create_all db.archives (archive_row db.mint_archive id now) old s.archives
        t.archives a done.archived k) [ inl m ↦ absurd (cc (older-apart a m, e)) | inr x ↦ x ]

  archived-all :
      (m : Memory)
      → Has m old
      → (at : List MemoryArchive) × Has (archive_row db.mint_archive id now at m) archived_rows
  unfolding archived_rows
  archived-all m h =
      let (at, k) =
        Has-create_all_new db.archives (archive_row db.mint_archive id now) old s.archives
          t.archives m done.archived h in
      (
        at,
        Has-filter_intro (of_compaction id) (archive_row db.mint_archive id now at m) t.archives k
            ((==_iff id id).1 refl),
      )

  of_scope :
      (a : MemoryArchive) → Has a archived_rows → (a.scope ≡ scope) × (a.scope_key ≡ scope_key)
  of_scope a h =
      let (m, at, k, q) = archived-only a h in
      let (f, g) =
        both (text_eq m.scope scope) (text_eq m.scope_key scope_key) ((are_of m).0 k).1 in
      (
        ap (λ (x : MemoryArchive). x.scope) q ∙ (text_eq_iff m.scope scope).0 f,
        ap (λ (x : MemoryArchive). x.scope_key) q ∙ (text_eq_iff m.scope_key scope_key).0 g,
      )

  module _ (u : Memories) (back : Restored db id t u) where
    same_scope : (p : Text × Text) → Has p (scopes_of archived_rows) → p ≡ (scope, scope_key)
    same_scope p h =
        let (a, k, q) = scopes_of-only archived_rows p h in
        let (f, g) = of_scope a k in q ∙ cc (f, g)

    scope-Has : Has (scope, scope_key) (scopes_of archived_rows)
    unfolding archived_rows
    scope-Has =
        let (f, g) = of_scope back.first_row back.is_row in
        rw (f, g) at (scopes_of-Has archived_rows back.first_row back.is_row)

    there_again : (m : Memory) → Has m s.memories → Remembers u.memories m
    unfolding archived_rows
    there_again m h = elim (Bool-cases (in_scope scope scope_key m)) [
      | inl e ↦
          let (at, k) = archived-all m ((are_of m).1 (h, e)) in
          let (at', n) =
            Has-create_all_new db.memories (restored_row db.mint_memory) archived_rows back.left
              u.memories (archive_row db.mint_archive id now at m) back.brought_back k in
          (restored_row db.mint_memory at' (archive_row db.mint_archive id now at m), n, refl)
      | inr e ↦
          let kept = Has-filter_intro (outside scope scope_key) m s.memories h (rw e refl) in
          let in_t =
            Has-create_all_old db.memories (compacted_row db.mint_memory scope scope_key now) next
              (filter (outside scope scope_key) s.memories) t.memories m done.replaced kept in
          let apart : (p : Text × Text)
              → Has p (scopes_of archived_rows)
              → in_scope p.0 p.1 m ≡ false =
            λ p k. rw (same_scope p k) e in
          let left =
            (Has-delete_scopes db.memories (scopes_of archived_rows) t.memories back.left m
                back.deleted).1
              (in_t, apart) in
          (
            m,
            Has-create_all_old db.memories (restored_row db.mint_memory) archived_rows back.left
                u.memories m back.brought_back left,
            refl,
          )
    ]

    nothing_new : (m : Memory) → Has m u.memories → Remembers s.memories m
    unfolding archived_rows
    nothing_new m h =
        elim (Has-create_all db.memories (restored_row db.mint_memory) archived_rows back.left
          u.memories m back.brought_back h) [
            | inr (a, at, k, q) ↦
                let (m', at', n, q') = archived-only a k in
                (
                  m',
                  ((are_of m').0 n).0,
                  sym (ap content (q ∙ ap (restored_row db.mint_memory at) q')),
                )
            | inl k ↦
                let (in_t, apart) =
                  (Has-delete_scopes db.memories (scopes_of archived_rows) t.memories back.left m
                      back.deleted).0
                    k in
                elim (Has-create_all db.memories (compacted_row db.mint_memory scope scope_key now)
                  next (filter (outside scope scope_key) s.memories) t.memories m done.replaced
                  in_t) [
                    | inl w ↦ (m, (Has-filter (outside scope scope_key) m s.memories w).0, refl)
                    | inr (p, at, w, q) ↦
                        let gone = apart (scope, scope_key) scope-Has in
                        absurd (cc (rw (q, text_eq_refl scope, text_eq_refl scope_key) at gone))
                  ]
          ]

    same_archive : (a : MemoryArchive) → Has a u.archives ↔ Has a s.archives
    same_archive a = (
      λ h.
          let (k, e) =
            Has-filter (λ x. not (of_compaction id x)) a t.archives (rw back.consumed at h) in
          elim (Has-create_all db.archives (archive_row db.mint_archive id now) old s.archives
            t.archives a done.archived k) [
              | inl m ↦ m
              | inr (m, at, n, q) ↦ absurd (cc (rw (q, (==_iff id id).1 refl) at e))
            ],
      λ h. rw back.consumed (
          Has-filter_intro (λ x. not (of_compaction id x)) a t.archives
            (Has-create_all_old db.archives (archive_row db.mint_archive id now) old s.archives
              t.archives a done.archived h)
            (rw (older-apart a h) refl)),
    )

-- A compaction of the rows of a scope that succeeds, followed by its restoring, if that succeeds too, undoes it: every memory is there again, with its text, author and times, no
-- other is, in this scope and in all others, and the archive is as it was. Only the ids of rows may differ.
pub restore-apply_compaction :
    (db : MemoryTables) (scope scope_key : Text) (old : List Memory) (next : List ParsedMemory)
    (now id n : ℕ) (s t u : Memories)
    → AreOf scope scope_key old s.memories
    → apply_compaction db scope scope_key old next now s ≡ some (id, t)
    → restore_compaction db id t ≡ some (n, u)
    → ((m : Memory) → Has m s.memories → Remembers u.memories m)
      × ((m : Memory) → Has m u.memories → Remembers s.memories m)
      × ((a : MemoryArchive) → Has a u.archives ↔ Has a s.archives)
restore-apply_compaction db scope scope_key old next now id n s t u are_of e f =
    let done = apply-Applied db scope scope_key old next now id s t e in
    let back = restore-Restored db id n t u f in
    (
      there_again db scope scope_key old next now id s t are_of done u back,
      nothing_new db scope scope_key old next now id s t are_of done u back,
      same_archive db scope scope_key old next now id s t are_of done u back,
    )
