-- ===== src/Upload/Assembly.antt =====
-- hub_file.go: an upload put together from its chunks is the file that the phone cut up.
use ccc_fork.Base.{
  ℕ, ◌+◌, ◌-◌, ◌*◌, ◌/◌, ◌≤◌, ◌<◌, ◌≡◌, ◌≢◌, ◌⊎◌, inl, inr, refl, ap, ◌∙◌, arith, List, length,
  get_elem?, drop, Has, ◌==◌, ==_iff, Bool-cases,
}
use ccc_fork.Upload.{
  hub_chunk_bytes, chunk_count, chunk_size, HubUpload, read_chunk, write_at, mark,
}
use ccc_fork.Upload.Chunks.{
  length-take_le, length-take_ge, length-drop, get_elem?-take, get_elem?-drop, get_elem?-ext,
  length-write_at, get_elem?-write_at_in, get_elem?-write_at_out, Distinct, Below, Has_of_full,
  Distinct-mark, Has-mark,
}

-- The number of chunks covers the size, and no chunk is empty unless the file is.
pub chunk_count_bounds :
    (size : ℕ)
    → 0 < size
    → (size ≤ chunk_count size * hub_chunk_bytes)
      × (chunk_count size * hub_chunk_bytes < size + hub_chunk_bytes)
unfolding chunk_count
chunk_count_bounds size h = ground arith

chunk_count_pos : (size : ℕ) → 0 < chunk_count size
unfolding chunk_count
chunk_count_pos size = ground arith

-- Chunk `i` of a file that is not empty, as rpcGetChunk reads it, has the length that rpcPutChunk wants of chunk `i`, for each
-- `i` below the number of chunks.
pub length-read_chunk :
    (file : List ℕ) (i : ℕ)
    → 0 < length file
    → i < chunk_count (length file)
    → length (read_chunk file i) ≡ chunk_size (length file) i
unfolding read_chunk chunk_size
length-read_chunk file i h l = elim (Bool-cases (i + 1 == chunk_count (length file))) [
  | inl e ↦ rw e (
      length-take_ge hub_chunk_bytes (drop (i * hub_chunk_bytes) file) (
        omega (
          arith,
          length-drop (i * hub_chunk_bytes) file,
          chunk_count_bounds (length file) h,
          (==_iff (i + 1) (chunk_count (length file))).0 e,
        ))
      ∙ length-drop (i * hub_chunk_bytes) file)
  | inr e ↦ rw e (
      length-take_le hub_chunk_bytes (drop (i * hub_chunk_bytes) file) (
        let n : i + 1 ≢ chunk_count (length file) =
          λ q. cc ((==_iff (i + 1) (chunk_count (length file))).1 q) in
        omega (arith, length-drop (i * hub_chunk_bytes) file, chunk_count_bounds (length file) h)))
]

-- A chunk ends inside the file: a chunk's length on, or at the end.
pub chunk_size_end :
    (size i : ℕ)
    → 0 < size
    → i < chunk_count size
    → (i * hub_chunk_bytes + chunk_size size i ≤ size)
      × ((chunk_size size i ≡ hub_chunk_bytes) ⊎ (i * hub_chunk_bytes + chunk_size size i ≡ size))
      × (chunk_size size i ≤ hub_chunk_bytes)
unfolding chunk_size
chunk_size_end size i h l = elim (Bool-cases (i + 1 == chunk_count size)) [
  | inl e ↦ rw e (
      let q : i + 1 ≡ chunk_count size = (==_iff (i + 1) (chunk_count size)).0 e in
      (
        omega (arith, chunk_count_bounds size h),
        inr (omega (arith, chunk_count_bounds size h)),
        omega (arith, chunk_count_bounds size h),
      ))
  | inr e ↦ rw e (
      let q : i + 1 ≢ chunk_count size = λ q. cc ((==_iff (i + 1) (chunk_count size)).1 q) in
      (omega (arith, chunk_count_bounds size h), inl refl, omega arith))
]

-- An upload on its way: which chunks of the file have come, and that the bytes written are the file's there.
pub record IsPartial (file : List ℕ) (u : HubUpload) (bytes : List ℕ) : Type 0 where
  pub size_same : u.size ≡ length file
  pub whole : length bytes ≡ length file
  pub distinct : Distinct u.got
  pub below : Below (chunk_count (length file)) u.got
  pub agrees :
      (p : ℕ)
      → p < length file
      → Has (p / hub_chunk_bytes) u.got
      → get_elem? bytes p ≡ get_elem? file p

module _ (file : List ℕ) (some_bytes : 0 < length file) (u : HubUpload) (bytes : List ℕ)
    (partial : IsPartial file u bytes) where
  fits :
      (i : ℕ)
      → i < chunk_count (length file)
      → i * hub_chunk_bytes + length (read_chunk file i) ≤ length bytes
  fits i l = omega (
    arith,
    length-read_chunk file i some_bytes l,
    chunk_size_end (length file) i some_bytes l,
    partial.whole,
  )

  agrees_in :
      (i : ℕ)
      → i < chunk_count (length file)
      → (p : ℕ) → p < length file
      → p / hub_chunk_bytes ≡ i
      → get_elem? (write_at bytes (i * hub_chunk_bytes) (read_chunk file i)) p ≡ get_elem? file p
  unfolding read_chunk
  agrees_in i l p lt e =
      get_elem?-write_at_in bytes (i * hub_chunk_bytes) (read_chunk file i) (fits i l) p
        (omega arith)
        (omega (
          arith,
          length-read_chunk file i some_bytes l,
          chunk_size_end (length file) i some_bytes l,
        ))
      ∙ (get_elem?-take hub_chunk_bytes (drop (i * hub_chunk_bytes) file) (p - i * hub_chunk_bytes)
            (omega arith)
          ∙ (get_elem?-drop (i * hub_chunk_bytes) file (p - i * hub_chunk_bytes)
              ∙ ap (get_elem? file) (omega arith)))

  agrees_out :
      (i : ℕ)
      → i < chunk_count (length file)
      → (p : ℕ) → p < length file
      → p / hub_chunk_bytes ≢ i
      → Has (p / hub_chunk_bytes) u.got
      → get_elem? (write_at bytes (i * hub_chunk_bytes) (read_chunk file i)) p ≡ get_elem? file p
  agrees_out i l p lt e m =
      get_elem?-write_at_out bytes (i * hub_chunk_bytes) (read_chunk file i) (fits i l) p (
        omega (
          arith,
          length-read_chunk file i some_bytes l,
          chunk_size_end (length file) i some_bytes l,
        ))
      ∙ partial.agrees p lt m

  -- The file's own chunk `i`, written in its place.
  pub IsPartial-write :
      (i now : ℕ)
      → i < chunk_count (length file)
      → IsPartial file
          (record u { got = mark i u.got; at = now })
          (write_at bytes (i * hub_chunk_bytes) (read_chunk file i))
  IsPartial-write i now l = record {
    size_same = partial.size_same;
    whole =
        length-write_at bytes (i * hub_chunk_bytes) (read_chunk file i) (fits i l) ∙ partial.whole;
    distinct = Distinct-mark i u.got partial.distinct;
    below = λ x m. elim (Has-mark i u.got x m) [ inl q ↦ rw q l | inr r ↦ partial.below x r ];
    agrees = λ p lt m. elim (Bool-cases (p / hub_chunk_bytes == i)) [
      | inl e ↦ agrees_in i l p lt ((==_iff (p / hub_chunk_bytes) i).0 e)
      | inr e ↦
          agrees_out i l p lt (λ q. cc ((==_iff (p / hub_chunk_bytes) i).1 q))
            (elim (Has-mark i u.got (p / hub_chunk_bytes) m) [
              | inl q ↦ absurd (cc ((==_iff (p / hub_chunk_bytes) i).1 q))
              | inr r ↦ r
            ])
    ];
  }

  -- With every chunk in, the bytes are the file.
  pub full-eq : length u.got ≡ chunk_count u.size → bytes ≡ file
  full-eq e = get_elem?-ext bytes file partial.whole λ p l. partial.agrees p l (
      Has_of_full (chunk_count (length file)) u.got partial.distinct partial.below
        (e ∙ ap chunk_count partial.size_same) (p / hub_chunk_bytes)
        (omega (arith, chunk_count_bounds (length file) some_bytes)))
