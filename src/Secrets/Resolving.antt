-- ===== src/Secrets/Resolving.antt =====
-- secrets.go: which variables resolveSecretEnv gives a command.
use ccc_fork.Base.{
  trim_space-trim_space, ◌↔◌, ℕ, ◌==◌, ◌≡◌, ◌≢◌, ◌⊎◌, ◌∙◌, inl, inr, refl, sym, ap, arith, Bool,
  true, false, not, ◌&&◌, ◌||◌, none, List, [], ◌∷◌, ◌++◌, Has, Has-append_left, Has-append_right,
  Bool-cases, Option-cases, ==_iff, Text, codes, text_eq, text_eq_iff, is_empty, has_prefix,
  trim_space,
}
use ccc_fork.Secrets.{
  Entries, get, put, Vault, Result, error, ok, Result-cases, env_name, overlay_env,
  validate_env_var_name, resolve_secret_env, resolve_entries, resolve_entry, wanted_secret,
  all_chars,
}
use ccc_fork.Secrets.Overlay.{IsMap, no_equals, Has-get, overlay_env-assignments}

Has-put : (k v : Text) (m : Entries) (x : Text × Text) → Has x (put k v m) → (x ≡ (k, v)) ⊎ Has x m
unfolding put
Has-put k v [] x (inl q) = inl (sym q)
Has-put k v [] x (inr z) = absurd z
Has-put k v ((n, w) ∷ m) x h = elim (Bool-cases (text_eq n k)) [
  | inl e ↦ elim (rw e at h) [ inl q ↦ inl (sym q) | inr r ↦ inr (inr r) ]
  | inr e ↦ elim (rw e at h) [
    | inl q ↦ inr (inl q)
    | inr r ↦ elim (Has-put k v m x r) [ inl q ↦ inl q | inr s ↦ inr (inr s) ]
  ]
]

put-IsMap : (k v : Text) (m : Entries) → IsMap m → IsMap (put k v m)
unfolding put
put-IsMap k v [] h = (λ k' v' z. absurd z, tt)
put-IsMap k v ((n, w) ∷ m) h = elim (Bool-cases (text_eq n k)) [
  | inl e ↦ rw e (rw ((text_eq_iff n k).0 e) at h.0, h.1)
  | inr e ↦ rw e (
    λ k' v' r. elim (Has-put k v m (k', v') r) [
      | inl q ↦ λ f.
          let same : n ≡ k = sym f ∙ ap (λ (x : Text × Text). x.0) q in
          absurd (cc (e, (text_eq_iff n k).1 same))
      | inr s ↦ h.0 k' v' s
    ],
    put-IsMap k v m h.1,
  )
]

-- A name that belongs to the accounts.
abbrev pub is_reserved : Text → Bool
is_reserved k = has_prefix k (codes "CLAUDE") || has_prefix k (codes "ANTHROPIC")

-- What resolving has gathered: a map of names that are not reserved and hold no `=`, with each value to be redacted.
pub record IsGathered (extra : Entries) (redact : List Text) : Type 0 where
  pub is_map : IsMap extra
  pub free : (k v : Text) → Has (k, v) extra → is_reserved k ≡ false
  pub plain : (k v : Text) → Has (k, v) extra → no_equals k ≡ true
  pub redacted : (k v : Text) → Has (k, v) extra → Has v redact

module _ (quote : Text → Text) (unicode_letter unicode_digit : ℕ → Bool)
    (equals_no_letter : unicode_letter b'=' ≡ false)
    (equals_no_digit : unicode_digit b'=' ≡ false) where
  is_name_char : Bool → ℕ → Bool
  is_name_char is_first c = c == b'_' || unicode_letter c || not is_first && unicode_digit c

  equals-no_name_char :
      (is_first : Bool) (c : ℕ) → is_name_char is_first c ≡ true → (c == b'=') ≡ false
  unfolding is_name_char
  equals-no_name_char is_first c h = elim (Bool-cases (c == b'=')) [
    | inr e ↦ e
    | inl e ↦
        let h' = rw ((==_iff c b'=').0 e) at h in
        absurd (none_of (not is_first) (rw (equals_no_letter, equals_no_digit) at h'))
  ]
    where
      none_of : (b : Bool) → (b && false) ≢ true
      none_of true e = cc
      none_of false e = cc

  all-no_equals :
      (is_first : Bool) (s : Text) → all_chars is_name_char is_first s ≡ true → no_equals s ≡ true
  unfolding all_chars
  all-no_equals is_first [] h = refl
  all-no_equals is_first (c ∷ s) h =
      let (p, q) : (is_name_char is_first c ≡ true) × (all_chars is_name_char false s ≡ true) =
        ground (arith, h) in
      rw (equals-no_name_char is_first c p) (all-no_equals false s q)

  -- A name that is accepted.
  accepted :
      (raw : Text)
      → validate_env_var_name quote unicode_letter unicode_digit raw ≡ none
      → (is_reserved (trim_space raw) ≡ false) × (no_equals (trim_space raw) ≡ true)
  unfolding validate_env_var_name is_name_char
  accepted raw h = elim (Bool-cases (is_empty (trim_space raw))) [
    | inl e ↦ absurd (cc (rw e at h))
    | inr e ↦ elim (Bool-cases (is_reserved (trim_space raw))) [
      | inl f ↦ absurd (cc (rw (e, f) at h))
      | inr f ↦ elim (Bool-cases (all_chars is_name_char true (trim_space raw))) [
        | inl g ↦ (f, all-no_equals true (trim_space raw) g)
        | inr g ↦ absurd (cc (rw (e, f, g) at h))
      ]
    ]
  ]

  IsGathered-put :
      (k v : Text) (extra : Entries) (redact : List Text)
      → is_reserved k ≡ false
      → no_equals k ≡ true
      → IsGathered extra redact
      → IsGathered (put k v extra) (redact ++ v ∷ [])
  IsGathered-put k v extra redact f n g = record {
    is_map = put-IsMap k v extra g.is_map;
    free = λ k' v' h. elim (Has-put k v extra (k', v') h) [
      | inl q ↦ rw (ap (λ (x : Text × Text). x.0) q) f
      | inr r ↦ g.free k' v' r
    ];
    plain = λ k' v' h. elim (Has-put k v extra (k', v') h) [
      | inl q ↦ rw (ap (λ (x : Text × Text). x.0) q) n
      | inr r ↦ g.plain k' v' r
    ];
    redacted = λ k' v' h. elim (Has-put k v extra (k', v') h) [
      | inl q ↦ Has-append_right v' redact (v ∷ []) (inl (sym (ap (λ (x : Text × Text). x.1) q)))
      | inr r ↦ Has-append_left v' redact (v ∷ []) (g.redacted k' v' r)
    ];
  }

  Gathered : Result (Entries × List Text) → Type 0
  Gathered (error e) = Unit {0}
  Gathered (ok r) = IsGathered r.0 r.1

  Gathered-entry :
      (vault : Vault) (raw secret_name : Text) (r : Entries × List Text)
      → IsGathered r.0 r.1
      → Gathered
          (resolve_entry quote unicode_letter unicode_digit vault (trim_space raw) secret_name r)
  unfolding resolve_entry Gathered
  Gathered-entry vault raw secret_name (extra, redact) g =
      elim (Option-cases
        (validate_env_var_name quote unicode_letter unicode_digit (trim_space raw))) [
          | inr (e, h) ↦ rw (h, resolve_entry) tt
          | inl h ↦
              let (f, n) = rw trim_space-trim_space at (accepted (trim_space raw) h) in
              elim (Result-cases (wanted_secret quote vault secret_name)) [
                | inl (e, w) ↦ rw (h, resolve_entry, w) tt
                | inr (v, w) ↦
                    rw (h, resolve_entry, w) (IsGathered-put (trim_space raw) v extra redact f n g)
              ]
        ]

  Gathered-entries :
      (vault : Vault) (env_map : Entries) (r : Entries × List Text)
      → IsGathered r.0 r.1
      → Gathered (resolve_entries quote unicode_letter unicode_digit vault env_map r)
  unfolding resolve_entries
  Gathered-entries vault [] r g = unfold Gathered in g
  Gathered-entries vault ((raw, secret_name) ∷ rest) r g =
      let entry = Gathered-entry vault raw (trim_space secret_name) r g in
      elim (Result-cases (
        resolve_entry quote unicode_letter unicode_digit vault (trim_space raw)
          (trim_space secret_name) r)) [
            | inl (e, h) ↦ rw (h, resolve_entries) (unfold Gathered in tt)
            | inr (r', h) ↦
                rw (h, resolve_entries) (Gathered-entries vault rest r' (gathered r' h entry))
          ]
    where
      gathered :
          (r' : Entries × List Text) {x : Result (Entries × List Text)}
          → x ≡ ok r'
          → Gathered x
          → IsGathered r'.0 r'.1
      gathered r' e h = unfold Gathered in rw e at h

  -- What is resolved is a map of names that are not the accounts' and hold no `=`, and each of its values is among those to redact.
  pub resolve_secret_env-IsGathered :
      (vault : Vault) (env_map : Entries) {extra : Entries} {redact : List Text}
      → resolve_secret_env quote unicode_letter unicode_digit vault env_map ≡ ok (extra, redact)
      → IsGathered extra redact
  unfolding resolve_secret_env Gathered
  resolve_secret_env-IsGathered vault env_map e = rw e at (
      Gathered-entries vault env_map ([], [])
        (record {
          is_map = tt;
          free = λ k v z. absurd z;
          plain = λ k v z. absurd z;
          redacted = λ k v z. absurd z;
        }))

  -- Secrets that resolve cannot touch account isolation: provided that `=` is no letter and no digit, the variables whose names begin with CLAUDE or ANTHROPIC are in a command's
  -- environment exactly as in the base environment.
  pub overlay_env-isolated :
      (vault : Vault) (env_map : Entries) (base : List Text) {extra : Entries} {redact : List Text}
      (kv : Text)
      → resolve_secret_env quote unicode_letter unicode_digit vault env_map ≡ ok (extra, redact)
      → is_reserved (env_name kv) ≡ true
      → Has kv (overlay_env base extra) ↔ Has kv base
  overlay_env-isolated vault env_map base {extra} {redact} kv e r =
      let g = resolve_secret_env-IsGathered vault env_map e in
      let absent : get (env_name kv) extra ≡ none = elim (Option-cases (get (env_name kv) extra)) [
        | inl n ↦ n
        | inr (v, h) ↦ absurd (cc (r, g.free (env_name kv) v (Has-get (env_name kv) v extra h)))
      ] in
      let (to, back) =
        (overlay_env-assignments base extra g.is_map g.plain (env_name kv)).1 absent kv refl in
      (back, to)
