-- ===== src/Maintenance/Restoring.antt =====
-- maintenance.go: restoring a compaction undoes it.
use ccc_fork.Base.{
  subst, ◌≤◌, ◌≡◌, ◌↔◌, inl, inr, refl, sym, ap, arith, Bool, true, false, not, ◌&&◌, some, some_eq,
  List, [], ◌∷◌, any, Has, Has-filter, Has-filter_intro, Bool-cases, Option-cases, Text, text_eq,
  text_eq_iff, Table,
}
use ccc_fork.Maintenance.Compaction.{
  Memory, MemoryArchive, in_scope, last_compaction, scopes_of, delete_scopes,
}

-- A memory but for its id.
abbrev pub content : Memory → Memory
content m = record m { id = 0 }

-- A memory of this content is in the table.
abbrev pub Remembers : List Memory → Memory → Type 0
Remembers rows c = (m : Memory) × Has m rows × (content m ≡ content c)

pub last_compaction-le :
    (a : MemoryArchive) (rows : List MemoryArchive)
    → Has a rows
    → a.compaction_id ≤ last_compaction rows
unfolding last_compaction
last_compaction-le a [] m = absurd m
last_compaction-le a (b ∷ rows) (inl q) =
    let e : b.compaction_id ≡ a.compaction_id = ap (λ (x : MemoryArchive). x.compaction_id) q in
    ground (arith, e)
last_compaction-le a (b ∷ rows) (inr m) = ground (arith, last_compaction-le a rows m)

pair_eq : (x : Text × Text) (a b : Text) → x.0 ≡ a → x.1 ≡ b → x ≡ (a, b)
pair_eq (x, y) a b e f = cc (e, f)

any-Has :
    (p : Text × Text → Bool) (xs : List (Text × Text))
    → any p xs ≡ true
    → (x : Text × Text) × Has x xs × (p x ≡ true)
any-Has p [] e = absurd (cc)
any-Has p (x ∷ xs) e = elim (Bool-cases (p x)) [
  | inl t ↦ (x, inl refl, t)
  | inr t ↦ let (y, m, q) = any-Has p xs (rw t at e) in (y, inr m, q)
]

pub both : (a b : Bool) → (a && b) ≡ true → (a ≡ true) × (b ≡ true)
both true b e = (refl, e)
both false b e = absurd (cc)

pub scopes_of-Has :
    (rows : List MemoryArchive) (a : MemoryArchive)
    → Has a rows
    → Has (a.scope, a.scope_key) (scopes_of rows)
unfolding scopes_of
scopes_of-Has [] a m = absurd m
scopes_of-Has (b ∷ rows) a m =
    let p : Text × Text → Bool = λ s. text_eq s.0 b.scope && text_eq s.1 b.scope_key in
    elim (Bool-cases (any p (scopes_of rows))) [
      | inl e ↦ rw e (elim m [
        | inl q ↦
            let (x, k, t) = any-Has p (scopes_of rows) e in
            let (f, g) = both (text_eq x.0 b.scope) (text_eq x.1 b.scope_key) t in
            rw (← q) (
              subst (λ y. Has y (scopes_of rows))
                (pair_eq x b.scope b.scope_key ((text_eq_iff x.0 b.scope).0 f)
                  ((text_eq_iff x.1 b.scope_key).0 g))
                k)
        | inr k ↦ scopes_of-Has rows a k
      ])
      | inr e ↦ rw e (elim m [
        | inl q ↦ inl (ap (λ (x : MemoryArchive). (x.scope, x.scope_key)) q)
        | inr k ↦ inr (scopes_of-Has rows a k)
      ])
    ]

pub scopes_of-only :
    (rows : List MemoryArchive) (s : Text × Text)
    → Has s (scopes_of rows)
    → (a : MemoryArchive) × Has a rows × (s ≡ (a.scope, a.scope_key))
unfolding scopes_of
scopes_of-only [] s m = absurd m
scopes_of-only (b ∷ rows) s m =
    elim (Bool-cases (
      any (λ (s : Text × Text). text_eq s.0 b.scope && text_eq s.1 b.scope_key) (scopes_of rows))) [
        | inl e ↦ let (a, k, q) = scopes_of-only rows s (rw e at m) in (a, inr k, q)
        | inr e ↦ elim (rw e at m) [
          | inl q ↦ (b, inl refl, sym q)
          | inr k ↦ let (a, n, q) = scopes_of-only rows s k in (a, inr n, q)
        ]
      ]

false_of_not : (b : Bool) → not b ≡ true → b ≡ false
false_of_not true e = absurd (cc)
false_of_not false e = refl

-- What is left when the scopes are deleted.
pub Has-delete_scopes :
    (db : Table Memory) (scopes : List (Text × Text)) (rows left : List Memory) (m : Memory)
    → delete_scopes db scopes rows ≡ some left
    → Has m left ↔ (Has m rows × ((s : Text × Text) → Has s scopes → in_scope s.0 s.1 m ≡ false))
unfolding delete_scopes
Has-delete_scopes db [] rows left m e =
    (λ h. (rw (some_eq e) h, λ s z. absurd z), λ (h, k). rw (sym (some_eq e)) h)
Has-delete_scopes db ((scope, scope_key) ∷ scopes) rows left m e =
    elim (Option-cases (db.delete (in_scope scope scope_key) rows)) [
      | inl f ↦ absurd (cc (rw (f, delete_scopes) at e))
      | inr (mid, f) ↦
          let (to, back) = Has-delete_scopes db scopes mid left m (rw (f, delete_scopes) at e) in
          let out = db.delete_lem (in_scope scope scope_key) rows mid f in
          let kept : Memory → Bool = λ r. not (in_scope scope scope_key r) in
          (
            λ h.
                let (k, apart) = to h in
                let (n, t) = Has-filter kept m rows (rw out at k) in
                (
                  n,
                  λ s z. elim z [
                    | inl q ↦ rw (← q) (false_of_not (in_scope scope scope_key m) t)
                    | inr w ↦ apart s w
                  ],
                ),
            λ (h, apart). back (
              rw out
                  (Has-filter_intro kept m rows h (rw (apart (scope, scope_key) (inl refl)) refl)),
              λ s w. apart s (inr w),
            ),
          )
    ]
