-- ===== src/Upload/Commit.antt =====
-- hub_file.go: what a commit hands to the bot, and a whole transfer from rpcPutBegin to rpcPutCommit.
use ccc_fork.Base.{
  ℤ, ℕ, ◌<◌, ◌≡◌, ◌||◌, inl, inr, refl, sym, ap, ◌∙◌, arith, Bool, true, false, Option, none, some,
  some_eq, List, [], length, replicate, length-replicate, ◌==◌, ==_iff, ltb, Bool-cases, pos, Text,
  text_eq_refl, trim_space, is_empty, if◌then◌else◌,
}
use ccc_fork.Upload.{
  chunk_count, HubUpload, Uploads, put, Bot, gone, Reply, queued, begun, BeginFaults, PutBegin,
  valid_size, is_there, begin_upload, rpc_put_begin, sanitize_file_name, mime_for_name,
  commit_bytes, rpc_put_commit, without, hub_file_max_bytes,
}
use ccc_fork.Upload.Chunks.{Distinct, Below}
use ccc_fork.Upload.Assembly.{IsPartial, full-eq}
use ccc_fork.Upload.Transfer.{Uploading, send_chunks, Uploading-send_chunks}

-- A commit, once the upload is found.
commit_known :
    (h : Uploads) (bots : ℤ → Option Bot) (id text : Text) (fails : Bool) (u : HubUpload)
    → h.uploads id ≡ some u
    → (length u.got == chunk_count u.size) ≡ true
    → gone (bots u.bot_id) ≡ false
    → rpc_put_commit h bots id text fails
      ≡ commit_bytes (without h id u) u text fails (h.files u.path)
commit_known h bots id text fails u a b c =
    unfold rpc_put_commit in rw (a, rpc_put_commit) (rw (b, c))

abbrev pub caption_of : Text → HubUpload → Text
caption_of text u = if is_empty (trim_space text) then u.caption else trim_space text

-- The file that is handed over has the size that was announced.
commit_bytes_full :
    (h : Uploads) (u : HubUpload) (text : Text) (bytes : List ℕ)
    → (length bytes == u.size) ≡ true
    → commit_bytes h u text false (some bytes)
      ≡ (h, queued u.bot_id bytes u.name (caption_of text u))
unfolding commit_bytes
commit_bytes_full h u text bytes e = rw e

queued_eq :
    {b b' : ℤ} {xs ys n m : Text} {l k : List ℕ}
    → queued b l xs n ≡ queued b' k ys m
    → (k ≡ l) × (b' ≡ b)
queued_eq e = (cc, cc)

-- A commit that hands bytes over found the file, every chunk, and the bot.
commit_bytes-queued :
    (h : Uploads) (u : HubUpload) (text : Text) (fails : Bool) (found : Option (List ℕ)) {bot : ℤ}
    {bytes : List ℕ} {name caption : Text}
    → (commit_bytes h u text fails found).1 ≡ queued bot bytes name caption
    → (found ≡ some bytes) × (bot ≡ u.bot_id)
unfolding commit_bytes
commit_bytes-queued h u text fails none e = absurd (cc)
commit_bytes-queued h u text fails (some l) e = elim (Bool-cases (length l == u.size)) [
  | inl a ↦ elim (Bool-cases fails) [
    | inl b ↦ absurd (cc (rw (a, b) at e))
    | inr b ↦ let (p, q) = queued_eq (rw (a, b) at e) in (ap some (sym p), q)
  ]
  | inr a ↦ absurd (cc (rw a at e))
]

rpc_put_commit-queued :
    (h : Uploads) (bots : ℤ → Option Bot) (id text : Text) (fails : Bool) (u : HubUpload) {bot : ℤ}
    {bytes : List ℕ} {name caption : Text}
    → h.uploads id ≡ some u
    → (rpc_put_commit h bots id text fails).1 ≡ queued bot bytes name caption
    → (length u.got ≡ chunk_count u.size) × (h.files u.path ≡ some bytes) × (bot ≡ u.bot_id)
unfolding rpc_put_commit
rpc_put_commit-queued h bots id text fails u r e =
    elim (Bool-cases (length u.got == chunk_count u.size)) [
      | inl a ↦ elim (Bool-cases (gone (bots u.bot_id))) [
        | inl b ↦ absurd (cc (rw (r, rpc_put_commit) at e))
        | inr b ↦
            let (p, q) = commit_bytes-queued (without h id u) u text fails (h.files u.path) (
              ap (λ (o : Uploads × Reply). o.1) (sym (commit_known h bots id text fails u r a b))
              ∙ e) in
            ((==_iff (length u.got) (chunk_count u.size)).0 a, p, q)
      ]
      | inr a ↦ absurd (cc (rw (r, a, rpc_put_commit) at e))
    ]

module _ (file : List ℕ) (some_bytes : 0 < length file) (bots : ℤ → Option Bot)
    (id text : Text) where
  pub commit_full :
      (h : Uploads) (up : Uploading h id file)
      → length up.upload.got ≡ chunk_count (length file)
      → gone (bots up.upload.bot_id) ≡ false
      → (rpc_put_commit h bots id text false).1
        ≡ queued up.upload.bot_id file up.upload.name (caption_of text up.upload)
  commit_full h up full there =
      rw
        (commit_known h bots id text false up.upload up.registered
          ((==_iff (length up.upload.got) (chunk_count up.upload.size)).1 counted) there)
        (rw (up.stored_at, full-eq file some_bytes up.upload up.bytes up.partial counted)
          (rw (
            commit_bytes_full (without h id up.upload) up.upload text file
              ((==_iff (length file) up.upload.size).1 (sym up.partial.size_same)))))
    where
      counted : length up.upload.got ≡ chunk_count up.upload.size
      counted = full ∙ ap chunk_count (sym up.partial.size_same)

  -- Whichever chunks of a file have come, a commit that hands bytes to the bot hands over the file, and hands it to the bot
  -- that the upload was begun for.
  pub commit_faithful :
      (h : Uploads) (up : Uploading h id file) (fails : Bool) {bot : ℤ} {bytes : List ℕ}
      {name caption : Text}
      → (rpc_put_commit h bots id text fails).1 ≡ queued bot bytes name caption
      → (bytes ≡ file) × (bot ≡ up.upload.bot_id)
  commit_faithful h up fails e =
      let (full, found, q) = rpc_put_commit-queued h bots id text fails up.upload up.registered e in
      (
        some_eq (sym found ∙ up.stored_at)
            ∙ full-eq file some_bytes up.upload up.bytes up.partial full,
        q,
      )

abbrev fresh_upload : (Text → Text) → PutBegin → ℕ → Text → ℕ → ℕ → HubUpload
fresh_upload types p size path nanos now = record {
  bot_id = p.bot_id;
  name = sanitize_file_name p.name nanos;
  mime =
      if is_empty (trim_space p.mime)
      then mime_for_name types (sanitize_file_name p.name nanos)
      else trim_space p.mime;
  size = size;
  path = path;
  got = [];
  at = now;
  caption = trim_space p.text;
}

abbrev begun_state : Uploads → (Text → Text) → PutBegin → ℕ → Text → Text → ℕ → ℕ → Uploads
begun_state h types p size id path nanos now = record {
  uploads = put id (some (fresh_upload types p size path nanos now)) h.uploads;
  files = put path (some (replicate size 0)) h.files;
}

begun_eq :
    {h h' : Uploads} {i j : Text} {n m : ℕ}
    → ◌≡◌ {A = Uploads × Reply} (h, begun i n) (h', begun j m)
    → (h ≡ h') × (n ≡ m)
begun_eq e = (cc, cc)

begin_upload-begun :
    (h : Uploads) (types : Text → Text) (faults : BeginFaults) (p : PutBegin) (size : ℕ)
    (id path : Text) (nanos now : ℕ) {h' : Uploads} {i : Text} {n : ℕ}
    → begin_upload h types faults p size id path nanos now ≡ (h', begun i n)
    → (begun_state h types p size id path nanos now ≡ h') × (chunk_count size ≡ n)
unfolding begin_upload
begin_upload-begun h types faults p size id path nanos now e =
    elim (Bool-cases (faults.mkdir_fails || faults.open_fails || is_there (h.files path))) [
      | inl a ↦ absurd (cc (rw a at e))
      | inr a ↦ elim (Bool-cases faults.truncate_fails) [
        | inl b ↦ absurd (cc (rw (a, b) at e))
        | inr b ↦ begun_eq (rw (a, b) at e)
      ]
    ]

rpc_put_begin-begun :
    (h : Uploads) (bots : ℤ → Option Bot) (types : Text → Text) (faults : BeginFaults)
    (p : PutBegin) (size : ℕ) (id path : Text) (nanos now : ℕ) {h' : Uploads} {i : Text} {n : ℕ}
    → p.size ≡ pos size
    → rpc_put_begin h bots types faults p id path nanos now ≡ (h', begun i n)
    → (gone (bots p.bot_id) ≡ false)
      × (begun_state h types p size id path nanos now ≡ h')
      × (chunk_count size ≡ n)
unfolding rpc_put_begin valid_size
rpc_put_begin-begun h bots types faults p size id path nanos now z e =
    elim (Bool-cases (gone (bots p.bot_id))) [
      | inl a ↦ absurd (cc (rw a at e))
      | inr a ↦ elim (Bool-cases (size == 0 || ltb hub_file_max_bytes size)) [
        | inl b ↦ absurd (cc (rw (a, z, b, rpc_put_begin) at e))
        | inr b ↦
            let (same, count) =
              begin_upload-begun h types faults p size id path nanos now
                (rw (a, z, b, rpc_put_begin) at e) in
            (a, same, count)
      ]
    ]

IsPartial-fresh :
    (file : List ℕ) (types : Text → Text) (p : PutBegin) (path : Text) (nanos now : ℕ)
    → IsPartial file (fresh_upload types p (length file) path nanos now) (replicate (length file) 0)
IsPartial-fresh file types p path nanos now = record {
  size_same = refl;
  whole = length-replicate (length file) 0;
  distinct = tt;
  below = λ x m. absurd m;
  agrees = λ x l m. absurd m;
}

Uploading-begun :
    (h : Uploads) (file : List ℕ) (types : Text → Text) (p : PutBegin) (id path : Text)
    (nanos now : ℕ)
    → Uploading (begun_state h types p (length file) id path nanos now) id file
Uploading-begun h file types p id path nanos now = record {
  upload = fresh_upload types p (length file) path nanos now;
  bytes = replicate (length file) 0;
  registered = rw (text_eq_refl id);
  stored_at = rw (text_eq_refl path);
  partial = IsPartial-fresh file types p path nanos now;
}

-- A transfer from end to end: if rpcPutBegin accepts a file by its size and announces `n` chunks, then sending the
-- `n` chunks of the file once each, in any order, and committing hands the bot exactly the file, under the name made safe, with
-- the caption of the commit or else of the begin; provided the disk takes the chunks and the ingestion does not fail.
pub put_file :
    (h : Uploads) (bots : ℤ → Option Bot) (types : Text → Text) (faults : BeginFaults)
    (p : PutBegin) (id path text : Text) (nanos now later : ℕ) (file : List ℕ) (order : List ℕ)
    (h' : Uploads) (n : ℕ)
    → 0 < length file
    → p.size ≡ pos (length file)
    → rpc_put_begin h bots types faults p id path nanos now ≡ (h', begun id n)
    → Distinct order
    → Below n order
    → length order ≡ n
    → (rpc_put_commit (send_chunks h' id file later order) bots id text false).1
      ≡ queued p.bot_id file
          (sanitize_file_name p.name nanos)
          (if is_empty (trim_space text) then trim_space p.text else trim_space text)
unfolding Uploading-begun
put_file h bots types faults p id path text nanos now later file order h' n some_bytes z e d b l =
    let (there, same, count) =
      rpc_put_begin-begun h bots types faults p (length file) id path nanos now z e in
    let start = Uploading-begun h file types p id path nanos now in
    let (up, got, bot, name, caption) =
      Uploading-send_chunks id file some_bytes later order
        (begun_state h types p (length file) id path nanos now) start (rw (← count) at b) d
        (λ i m k. k) in
    rw (← same) (
      commit_full file some_bytes bots id text
        (send_chunks (begun_state h types p (length file) id path nanos now) id file later order) up
        (omega (arith, got)) (rw (← bot) at there)
      ∙ cc (bot, name, caption))
