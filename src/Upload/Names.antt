-- ===== src/Upload/Names.antt =====
-- sanitizeFileName of listenv3.go, which names the file that an upload becomes.
use ccc_fork.Base.{
  ℕ, zero, suc, ◌/◌, ◌≤◌, ◌≡◌, ◌≢◌, ◌||◌, inl, inr, ap, arith, false, [], ◌∷◌, ◌++◌, any, ◌==◌, ltb,
  Has, Has-append, Bool-cases, Text, codes, text_eq, text_eq_iff, is_empty, trim_space,
}
use ccc_fork.Upload.{last_element, strip_slashes, base, decimal, sanitize_file_name}
use ccc_fork.Upload.Chunks.{any-not_Has}

-- A name of a file in its own directory.
pub record IsPlain (name : Text) : Type 0 where
  pub no_slash : ¬ Has b'/' name
  pub not_empty : name ≢ []
  pub not_here : name ≢ codes "."
  pub not_up : name ≢ codes ".."

last_element-no_slash : (s : Text) → ¬ Has b'/' (last_element s)
unfolding last_element
last_element-no_slash [] h = h
last_element-no_slash (c ∷ s) h = elim (Bool-cases (any (λ d. d == b'/') (c ∷ s))) [
  | inl e ↦ last_element-no_slash s (rw e at h)
  | inr e ↦ any-not_Has b'/' (c ∷ s) e (rw e at h)
]

-- The last element of a path has no slash, unless it is the root.
base-no_slash : (s : Text) → Has b'/' (base s) → base s ≡ codes "/"
unfolding base
base-no_slash s h = elim (Bool-cases (is_empty s)) [
  | inl e ↦ absurd (ground (arith, rw e at h))
  | inr e ↦ elim (Bool-cases (is_empty (last_element (strip_slashes s)))) [
    | inl f ↦ rw (e, f)
    | inr f ↦ absurd (last_element-no_slash (strip_slashes s) (rw (e, f) at h))
  ]
]

decimal-digits : (fuel n d : ℕ) → Has d (decimal fuel n) → b'0' ≤ d
unfolding decimal
decimal-digits zero n d h = absurd h
decimal-digits (suc fuel) n d h = elim (Bool-cases (ltb n 10)) [
  | inl e ↦ ground (arith, rw e at h)
  | inr e ↦ elim (Has-append d (decimal fuel (n / 10)) _ (rw e at h)) [
    | inl front ↦ decimal-digits fuel (n / 10) d front
    | inr (inl last) ↦ omega arith
    | inr (inr none) ↦ absurd none
  ]
]

IsPlain-stamped : (nanos : ℕ) → IsPlain (codes "file_" ++ decimal 20 nanos)
IsPlain-stamped nanos = record {
  no_slash = λ h. elim (Has-append b'/' (codes "file_") (decimal 20 nanos) h) [
    | inl front ↦ absurd (ground (arith, front))
    | inr back ↦ absurd (let l : b'0' ≤ b'/' = decimal-digits 20 nanos b'/' back in omega arith)
  ];
  not_empty = λ e. cc;
  not_here = λ e. ground (arith, e);
  not_up = λ e. ground (arith, e);
}

text_eq-apart : (s t : Text) → text_eq s t ≡ false → s ≢ t
text_eq-apart s t e q = cc ((text_eq_iff s t).1 q)

-- Whatever name a phone sends, the name that an upload is kept under has no slash and is not empty, `.` or `..`:
-- joined to a directory it names a file of that directory.
pub sanitize_file_name-IsPlain : (raw : Text) (nanos : ℕ) → IsPlain (sanitize_file_name raw nanos)
unfolding sanitize_file_name
sanitize_file_name-IsPlain raw nanos =
    let name = base (trim_space raw) in
    elim (Bool-cases (
      is_empty name
      || text_eq name (codes ".")
      || text_eq name (codes "..")
      || text_eq name (codes "/"))) [
        | inl e ↦ rw e (IsPlain-stamped nanos)
        | inr e ↦ rw e (record {
          no_slash =
              λ h. text_eq-apart name (codes "/") (ground arith) (base-no_slash (trim_space raw) h);
          not_empty = λ q. absurd (ground (arith, ap is_empty q));
          not_here = text_eq-apart name (codes ".") (ground arith);
          not_up = text_eq-apart name (codes "..") (ground arith);
        })
      ]
