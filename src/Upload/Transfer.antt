-- ===== src/Upload/Transfer.antt =====
-- hub_file.go: whole transfers. A phone sends the chunks of a file in an order of its choice, and commits.
use ccc_fork.Base.{
  ℕ, ◌+◌, ◌*◌, ◌<◌, ◌≡◌, inl, inr, refl, sym, ap, ◌∙◌, arith, Bool, true, false, Option, some, List,
  [], ◌∷◌, length, Has, ◌==◌, ==_iff, pos, ℤ, Text, text_eq_refl,
}
use ccc_fork.Upload.{
  hub_chunk_bytes, chunk_count, chunk_size, chunk_index, HubUpload, Uploads, put, Reply, stored,
  read_chunk, write_at, mark, store_chunk, put_chunk_in, rpc_put_chunk,
}
use ccc_fork.Upload.Chunks.{Distinct, Below, Has-mark, length-mark}
use ccc_fork.Upload.Assembly.{
  chunk_count_bounds, IsPartial, IsPartial-write, length-read_chunk, chunk_size_end,
}

-- The client holds an upload of the file under the id, with these chunks in.
pub record Uploading (h : Uploads) (id : Text) (file : List ℕ) : Type 0 where
  pub upload : HubUpload
  pub bytes : List ℕ
  pub registered : h.uploads id ≡ some upload
  pub stored_at : h.files upload.path ≡ some bytes
  pub partial : IsPartial file upload bytes

-- Chunk `i` of the file, sent at a time at which the disk works.
abbrev pub send_chunk : Uploads → Text → List ℕ → ℕ → ℕ → Uploads × Reply
send_chunk h id file now i = rpc_put_chunk h id (pos i) (some (read_chunk file i)) false now

abbrev pub send_chunks : Uploads → Text → List ℕ → ℕ → List ℕ → Uploads
send_chunks h id file now [] = h
send_chunks h id file now (i ∷ order) = send_chunks (send_chunk h id file now i).0 id file now order

-- The state after one of the file's chunks.
after_chunk : Uploads → Text → List ℕ → ℕ → ℕ → HubUpload → List ℕ → Uploads
after_chunk h id file now i u bytes = record {
  uploads = put id (some (record u { got = mark i u.got; at = now })) h.uploads;
  files = put u.path (some (write_at bytes (i * hub_chunk_bytes) (read_chunk file i))) h.files;
}

rpc_put_chunk_known :
    (h : Uploads) (id : Text) (u : HubUpload) (index : ℤ) (raw : Option (List ℕ)) (fails : Bool)
    (now : ℕ)
    → h.uploads id ≡ some u
    → rpc_put_chunk h id index raw fails now ≡ put_chunk_in h id u index raw fails now
unfolding rpc_put_chunk
rpc_put_chunk_known h id u index raw fails now e = rw (e, rpc_put_chunk)

chunk_index-pos : (i n : ℕ) → i < n → chunk_index (pos i) n ≡ some i
unfolding chunk_index
chunk_index-pos i n l = ground arith

put_chunk_in-stores :
    (h : Uploads) (id : Text) (u : HubUpload) (i : ℕ) (raw bytes : List ℕ) (now : ℕ)
    → chunk_index (pos i) (chunk_count u.size) ≡ some i
    → (length raw == 0) ≡ false
    → (length raw == chunk_size u.size i) ≡ true
    → h.files u.path ≡ some bytes
    → put_chunk_in h id u (pos i) (some raw) false now ≡ (
      record {
        uploads = put id (some (record u { got = mark i u.got; at = now })) h.uploads;
        files = put u.path (some (write_at bytes (i * hub_chunk_bytes) raw)) h.files;
      },
      stored i (length (mark i u.got)) (chunk_count u.size),
    )
put_chunk_in-stores h id u i raw bytes now a b c d =
    unfold put_chunk_in store_chunk in rw (a, put_chunk_in) (rw (b, c, d, store_chunk))

module _ (id : Text) (file : List ℕ) (some_bytes : 0 < length file) (now : ℕ) where
  send_chunk_lem :
      (h : Uploads) (up : Uploading h id file) (i : ℕ)
      → i < chunk_count (length file)
      → send_chunk h id file now i ≡ (
        after_chunk h id file now i up.upload up.bytes,
        stored i (length (mark i up.upload.got)) (chunk_count up.upload.size),
      )
  unfolding after_chunk
  send_chunk_lem h up i l =
      rw
        (rpc_put_chunk_known h id up.upload (pos i) (some (read_chunk file i)) false now
          up.registered)
        (put_chunk_in-stores h id up.upload i (read_chunk file i) up.bytes now
          (chunk_index-pos i (chunk_count up.upload.size) (rw up.partial.size_same l)) not_blank
          same_size up.stored_at)
    where
      not_blank : (length (read_chunk file i) == 0) ≡ false
      not_blank = ground (
        arith,
        length-read_chunk file i some_bytes l,
        chunk_size_end (length file) i some_bytes l,
        chunk_count_bounds (length file) some_bytes,
      )

      same_size : (length (read_chunk file i) == chunk_size up.upload.size i) ≡ true
      same_size = (==_iff (length (read_chunk file i)) (chunk_size up.upload.size i)).1 (
          length-read_chunk file i some_bytes l
          ∙ ap (λ (n : ℕ). chunk_size n i) (sym up.partial.size_same))

  Uploading-after_chunk :
      (h : Uploads) (up : Uploading h id file) (i : ℕ)
      → i < chunk_count (length file)
      → Uploading (after_chunk h id file now i up.upload up.bytes) id file
  unfolding after_chunk
  Uploading-after_chunk h up i l = record {
    upload = record up.upload { got = mark i up.upload.got; at = now };
    bytes = write_at up.bytes (i * hub_chunk_bytes) (read_chunk file i);
    registered = rw (text_eq_refl id);
    stored_at = rw (text_eq_refl up.upload.path);
    partial = IsPartial-write file some_bytes up.upload up.bytes up.partial i now l;
  }

  Uploading-send_chunk :
      (h : Uploads) (up : Uploading h id file) (i : ℕ)
      → i < chunk_count (length file)
      → (up' : Uploading (send_chunk h id file now i).0 id file) × (up'.upload.got
          ≡ mark i up.upload.got)
        × (up'.upload.bot_id ≡ up.upload.bot_id)
        × (up'.upload.name ≡ up.upload.name)
        × (up'.upload.caption ≡ up.upload.caption)
  unfolding after_chunk mark Uploading-after_chunk
  Uploading-send_chunk h up i l =
      rw (send_chunk_lem h up i l) (Uploading-after_chunk h up i l, refl, refl, refl, refl)

  -- Any number of chunks, in any order.
  pub Uploading-send_chunks :
      (order : List ℕ) (h : Uploads) (up : Uploading h id file)
      → Below (chunk_count (length file)) order
      → Distinct order
      → ((i : ℕ) → Has i order → ¬ Has i up.upload.got)
      → (up' : Uploading (send_chunks h id file now order) id file) × (length up'.upload.got
          ≡ length up.upload.got + length order)
        × (up'.upload.bot_id ≡ up.upload.bot_id)
        × (up'.upload.name ≡ up.upload.name)
        × (up'.upload.caption ≡ up.upload.caption)
  Uploading-send_chunks [] h up b d fresh = (up, omega arith, refl, refl, refl)
  Uploading-send_chunks (i ∷ order) h up b d fresh =
      let (up', g, e₁, e₂, e₃) = Uploading-send_chunk h up i (b i (inl refl)) in
      let (up'', n, f₁, f₂, f₃) =
        Uploading-send_chunks order (send_chunk h id file now i).0 up' (λ x m. b x (inr m)) d.1
          (λ x m k. elim (Has-mark i up.upload.got x (rw g at k)) [
            | inl q ↦ d.0 (rw q at m)
            | inr r ↦ fresh x (inr m) r
          ]) in
      (
        up'',
        omega (arith, n, ap length g, length-mark i up.upload.got (fresh i (inl refl))),
        f₁ ∙ e₁,
        f₂ ∙ e₂,
        f₃ ∙ e₃,
      )
