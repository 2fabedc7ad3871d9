-- ===== src/Secrets/Overlay.antt =====
-- secrets.go: what environment a command gets.
use ccc_fork.Base.{
  ◌==◌, ◌≡◌, ◌≢◌, ◌⊎◌, ◌∙◌, inl, inr, refl, sym, ap, Bool, true, not, none, some, some_eq, List, [],
  ◌∷◌, ◌++◌, map, filter, Has, Has-append, Has-append_left, Has-append_right, Has-filter,
  Has-filter_intro, Has-map, Has-map_intro, Bool-cases, any, Text, codes, text_eq, text_eq_iff,
  text_ltb,
}
use ccc_fork.Secrets.{
  Entries, get, is_set, env_name, insert_entry, sort_entries, assignment, overlay_env,
}

-- A Go map: one entry for a key.
abbrev pub IsMap : Entries → Type 0
IsMap [] = Unit {0}
IsMap ((k, v) ∷ m) = ((k' v' : Text) → Has (k', v') m → k' ≢ k) × IsMap m

get-IsMap : (m : Entries) → IsMap m → (k v : Text) → Has (k, v) m → get k m ≡ some v
unfolding get
get-IsMap [] h k v z = absurd z
get-IsMap ((n, w) ∷ m) h k v (inl q) =
    let same : n ≡ k = ap (λ (e : Text × Text). e.0) q in
    rw ((text_eq_iff n k).1 same) (ap (λ (e : Text × Text). some e.1) q)
get-IsMap ((n, w) ∷ m) h k v (inr r) = elim (Bool-cases (text_eq n k)) [
  | inl e ↦ absurd (h.0 k v r (sym ((text_eq_iff n k).0 e)))
  | inr e ↦ rw e (get-IsMap m h.1 k v r)
]

-- `=` stands nowhere in the text.
abbrev pub no_equals : Text → Bool
no_equals s = not (any (λ c. c == b'=') s)

Has-insert : (e x : Text × Text) (m : Entries) → Has x (insert_entry e m) → (x ≡ e) ⊎ Has x m
unfolding insert_entry
Has-insert e x [] (inl q) = inl (sym q)
Has-insert e x [] (inr z) = absurd z
Has-insert e x (f ∷ m) h = elim (Bool-cases (text_ltb f.0 e.0)) [
  | inl t ↦ elim (rw t at h) [
    | inl q ↦ inr (inl q)
    | inr r ↦ elim (Has-insert e x m r) [ inl q ↦ inl q | inr s ↦ inr (inr s) ]
  ]
  | inr t ↦ elim (rw t at h) [ inl q ↦ inl (sym q) | inr r ↦ inr r ]
]

Has-insert_intro : (e x : Text × Text) (m : Entries) → Has x (e ∷ m) → Has x (insert_entry e m)
unfolding insert_entry
Has-insert_intro e x [] h = h
Has-insert_intro e x (f ∷ m) h = elim (Bool-cases (text_ltb f.0 e.0)) [
  | inr t ↦ rw t h
  | inl t ↦ rw t (elim h [
    | inl q ↦ inr (Has-insert_intro e x m (inl q))
    | inr (inl q) ↦ inl q
    | inr (inr r) ↦ inr (Has-insert_intro e x m (inr r))
  ])
]

Has-sort : (x : Text × Text) (m : Entries) → Has x (sort_entries m) → Has x m
unfolding sort_entries
Has-sort x [] h = h
Has-sort x (e ∷ m) h = elim (Has-insert e x (sort_entries m) h) [
  | inl q ↦ inl (sym q)
  | inr r ↦ inr (Has-sort x m r)
]

Has-sort_intro : (x : Text × Text) (m : Entries) → Has x m → Has x (sort_entries m)
unfolding sort_entries
Has-sort_intro x [] h = h
Has-sort_intro x (e ∷ m) (inl q) = Has-insert_intro e x (sort_entries m) (inl q)
Has-sort_intro x (e ∷ m) (inr r) =
    Has-insert_intro e x (sort_entries m) (inr (Has-sort_intro x m r))

pub Has-get : (k v : Text) (m : Entries) → get k m ≡ some v → Has (k, v) m
unfolding get
Has-get k v [] h = absurd (cc)
Has-get k v ((n, w) ∷ m) h = elim (Bool-cases (text_eq n k)) [
  | inl e ↦ let q : some w ≡ some v = rw e at h in inl (cc ((text_eq_iff n k).0 e, some_eq q))
  | inr e ↦ inr (Has-get k v m (rw e at h))
]

name-assignment : (k v : Text) → no_equals k ≡ true → env_name (k ++ (codes "=" ++ v)) ≡ k
unfolding env_name
name-assignment [] v h = refl
name-assignment (c ∷ k) v h = elim (Bool-cases (c == b'=')) [
  | inl e ↦ absurd (cc (rw e at h))
  | inr e ↦ rw e (ap (λ s. c ∷ s) (name-assignment k v (rw e at h)))
]

module _ (base : List Text) (extra : Entries) (is_map : IsMap extra)
    (plain : (k v : Text) → Has (k, v) extra → no_equals k ≡ true) where
  -- A name that is injected has its injected value in the child's environment, and no other assignment, whatever the environment of the program has; every other
  -- assignment of the program's environment is kept, and nothing else is there.
  pub overlay_env-assignments :
      (k : Text)
      → ((v : Text)
          → get k extra ≡ some v
          → Has (assignment (k, v)) (overlay_env base extra)
            × ((kv : Text)
                → Has kv (overlay_env base extra)
                → env_name kv ≡ k
                → kv ≡ assignment (k, v)))
        × (get k extra ≡ none
            → (kv : Text) → env_name kv ≡ k
            → (Has kv base → Has kv (overlay_env base extra))
              × (Has kv (overlay_env base extra) → Has kv base))
  unfolding overlay_env
  overlay_env-assignments k = (
    λ v g. (
      Has-append_right _ (kept_rows) added (
          Has-map_intro assignment (k, v) (sort_entries extra)
            (Has-sort_intro (k, v) extra (Has-get k v extra g))),
      λ kv m e. elim (Has-append kv kept_rows added m) [
        | inl a ↦ absurd (cc (rw (e, g) at (Has-filter unset kv base a).1))
        | inr a ↦
            let ((k', v'), n, q) = Has-map assignment kv (sort_entries extra) a in
            let h = Has-sort (k', v') extra n in
            let same : k' ≡ k =
              sym (name-assignment k' v' (plain k' v' h)) ∙ (ap env_name (sym q) ∙ e) in
            q ∙ cc (same, get-IsMap extra is_map k' v' h, g)
      ],
    ),
    λ g kv e. (
      λ a. Has-append_left kv kept_rows added (Has-filter_intro unset kv base a (rw (e, g) refl)),
      λ m. elim (Has-append kv kept_rows added m) [
        | inl a ↦ (Has-filter unset kv base a).0
        | inr a ↦
            let ((k', v'), n, q) = Has-map assignment kv (sort_entries extra) a in
            let h = Has-sort (k', v') extra n in
            let same : k' ≡ k =
              sym (name-assignment k' v' (plain k' v' h)) ∙ (ap env_name (sym q) ∙ e) in
            absurd (cc (same, get-IsMap extra is_map k' v' h, g))
      ],
    ),
  )
    where
      unset : Text → Bool
      unset kv = not (is_set (get (env_name kv) extra))

      kept_rows : List Text
      kept_rows = filter unset base

      added : List Text
      added = map assignment (sort_entries extra)
