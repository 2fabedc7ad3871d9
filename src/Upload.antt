-- ===== src/Upload.antt =====
-- hub_file.go: files that a paired phone puts in chunks and gets in chunks, with sanitizeFileName of listenv3.go.
-- The upload's file is a list of bytes under its path. What the operating system, the database lookup of the bot, the
-- JSON and base64 decoders and ingestOwnerBytes of listenv3.go answer are arguments.
pub mod Chunks
pub mod Assembly
pub mod Transfer
pub mod Commit
pub mod Names
mod Tests
use ccc_fork.Base.{
  ℕ, zero, suc, ◌+◌, ◌-◌, ◌*◌, ◌/◌, ◌%◌, ◌==◌, Bool, true, false, not, ◌&&◌, ◌||◌, Option, none,
  some, List, [], ◌∷◌, ◌++◌, ltb, leb, length, any, replicate, take, drop, if◌then◌else◌, ℤ, pos,
  negsuc, Text, codes, text_eq, is_empty, trim_space, to_lower,
}

abbrev pub hub_chunk_bytes : ℕ
hub_chunk_bytes = 96 * 1024

abbrev pub hub_file_max_bytes : ℕ
hub_file_max_bytes = 50 * 1024 * 1024

-- A size that is not positive is one chunk, so a negative size counts as zero.
unfoldable pub chunk_count : ℕ → ℕ
chunk_count size =
    if size == 0
    then 1
    else let n = (size + hub_chunk_bytes - 1) / hub_chunk_bytes in if ltb n 1 then 1 else n

-- filepath.Ext: from the last dot of the last path element
unfoldable pub ext : Text → Text
ext [] = []
ext (c ∷ s) =
    let rest = ext s in
    if not (is_empty rest)
    then rest
    else if c == b'.' && not (any (λ d. d == b'/') s)
    then c ∷ s
    else []

-- mimeForName; the system's table of types is an argument
unfoldable pub mime_for_name : (Text → Text) → Text → Text
unfolding ext
mime_for_name type_by_extension name =
    let e = to_lower (ext name) in
    if text_eq e (codes ".apk")
    then codes "application/vnd.android.package-archive"
    else if text_eq e (codes ".ipa")
    then codes "application/octet-stream"
    else if not (is_empty (type_by_extension e))
    then type_by_extension e
    else codes "application/octet-stream"

-- What follows the last slash.
unfoldable pub last_element : Text → Text
last_element [] = []
last_element (c ∷ s) = if any (λ d. d == b'/') (c ∷ s) then last_element s else c ∷ s

unfoldable pub strip_slashes : Text → Text
strip_slashes [] = []
strip_slashes (c ∷ s) =
    let rest = strip_slashes s in if c == b'/' && is_empty rest then [] else c ∷ rest

-- filepath.Base
unfoldable pub base : Text → Text
unfolding last_element strip_slashes
base s =
    if is_empty s
    then codes "."
    else let e = last_element (strip_slashes s) in if is_empty e then codes "/" else e

-- `%d` of a number below 10 ^ fuel.
unfoldable pub decimal : ℕ → ℕ → Text
decimal zero n = []
decimal (suc fuel) n =
    let front = decimal fuel (n / 10) in
    if ltb n 10 then (n + b'0') ∷ [] else front ++ (n % 10 + b'0') ∷ []

-- Twenty digits hold every number of 64 bits.
unfoldable pub sanitize_file_name : Text → ℕ → Text
unfolding base decimal
sanitize_file_name raw nanos =
    let name = base (trim_space raw) in
    if is_empty name
      || text_eq name (codes ".")
      || text_eq name (codes "..")
      || text_eq name (codes "/")
    then codes "file_" ++ decimal 20 nanos
    else name

pub record HubUpload : Type 0 where
  pub bot_id : ℤ
  pub name : Text
  pub mime : Text
  pub size : ℕ
  pub path : Text
  -- the set of the chunks received, each once
  pub got : List ℕ
  pub at : ℕ
  pub caption : Text

-- The uploads of the client, and the files that they name.
pub record Uploads : Type 0 where
  pub uploads : Text → Option HubUpload
  pub files : Text → Option (List ℕ)

abbrev pub put {ℓ} : {V : Type ℓ} → Text → Option V → (Text → Option V) → Text → Option V
put k v m j = if text_eq k j then v else m j

pub record Bot : Type 0 where
  pub name : Text
  pub archived : Bool

abbrev pub gone : Option Bot → Bool
gone none = true
gone (some b) = b.archived

pub data PutError : Type 0 where
  unknown_bot bad_size unknown_upload bad_chunk bad_chunk_size incomplete_upload size_mismatch
        os_error ingest_error :
      PutError

pub data Reply : Type 0 where
  refused : PutError → Reply
  begun : Text → ℕ → Reply
  stored : ℕ → ℕ → ℕ → Reply
  -- queued: what was handed to the bot
  queued : ℤ → List ℕ → Text → Text → Reply

-- What the operating system answers to each call of `rpcPutBegin`.
pub record BeginFaults : Type 0 where
  pub mkdir_fails : Bool
  pub open_fails : Bool
  pub truncate_fails : Bool

pub record PutBegin : Type 0 where
  pub bot_id : ℤ
  pub name : Text
  pub mime : Text
  pub size : ℤ
  pub text : Text

-- `p.Size <= 0 || p.Size > hubFileMaxBytes`, and the size otherwise
unfoldable pub valid_size : ℤ → Option ℕ
valid_size (negsuc n) = none
valid_size (pos n) = if n == 0 || ltb hub_file_max_bytes n then none else some n

-- O_EXCL: a file that is there is not opened.
abbrev pub is_there : Option (List ℕ) → Bool
is_there none = false
is_there (some bytes) = true

-- `nanos` is the Unix time of the file's name, `now` the time on the program's own scale.
unfoldable pub begin_upload :
    Uploads → (Text → Text) → BeginFaults → PutBegin → ℕ → Text → Text → ℕ → ℕ → Uploads × Reply
unfolding sanitize_file_name mime_for_name chunk_count
begin_upload h types faults p size id path nanos now =
    let name = sanitize_file_name p.name nanos in
    let mime = trim_space p.mime in
    let upload : HubUpload = record {
      bot_id = p.bot_id;
      name = name;
      mime = if is_empty mime then mime_for_name types name else mime;
      size = size;
      path = path;
      got = [];
      at = now;
      caption = trim_space p.text;
    } in
    if faults.mkdir_fails || faults.open_fails || is_there (h.files path)
    then (h, refused os_error)
    else if faults.truncate_fails
    then (record h { files = put path none h.files }, refused os_error)
    else (
      record {
        uploads = put id (some upload) h.uploads;
        files = put path (some (replicate size 0)) h.files;
      },
      begun id (chunk_count size),
    )

-- rpcPutBegin, with the id that newUploadID mints and the path that it makes of it
unfoldable pub rpc_put_begin :
    Uploads
    → (ℤ → Option Bot)
    → (Text → Text)
    → BeginFaults
    → PutBegin
    → Text
    → Text
    → ℕ
    → ℕ
    → Uploads × Reply
unfolding begin_upload valid_size
rpc_put_begin h bots types faults p id path nanos now =
    if gone (bots p.bot_id) then (h, refused unknown_bot) else elim (valid_size p.size) [
      | none ↦ (h, refused bad_size)
      | some size ↦ begin_upload h types faults p size id path nanos now
    ]

-- fd.WriteAt inside the file
unfoldable pub write_at : List ℕ → ℕ → List ℕ → List ℕ
write_at bytes offset raw = take offset bytes ++ (raw ++ drop (offset + length raw) bytes)

-- u.got[i] = struct{}{}
unfoldable pub mark : ℕ → List ℕ → List ℕ
mark i got = if any (λ j. j == i) got then got else i ∷ got

-- `p.I < 0 || p.I >= n`, and the index otherwise
unfoldable pub chunk_index : ℤ → ℕ → Option ℕ
chunk_index (negsuc i) n = none
chunk_index (pos i) n = if leb n i then none else some i

-- How many bytes chunk `i` has.
unfoldable pub chunk_size : ℕ → ℕ → ℕ
unfolding chunk_count
chunk_size size i =
    if i + 1 == chunk_count size then size - i * hub_chunk_bytes else hub_chunk_bytes

abbrev pub is_blank : Option (List ℕ) → Bool
is_blank none = true
is_blank (some raw) = length raw == 0

unfoldable pub store_chunk :
    Uploads → Text → HubUpload → ℕ → List ℕ → Bool → Option (List ℕ) → ℕ → Uploads × Reply
unfolding mark write_at chunk_count
store_chunk h id u i raw write_fails none now = (h, refused os_error)
store_chunk h id u i raw write_fails (some bytes) now =
    if write_fails then (h, refused os_error) else (
      record {
        uploads = put id (some (record u { got = mark i u.got; at = now })) h.uploads;
        files = put u.path (some (write_at bytes (i * hub_chunk_bytes) raw)) h.files;
      },
      stored i (length (mark i u.got)) (chunk_count u.size),
    )

-- rpcPutChunk; `data` is decodeHubBytes of the request's text
unfoldable pub put_chunk_in :
    Uploads → Text → HubUpload → ℤ → Option (List ℕ) → Bool → ℕ → Uploads × Reply
unfolding store_chunk chunk_index chunk_count chunk_size
put_chunk_in h id u index none write_fails now = (h, refused bad_chunk)
put_chunk_in h id u index (some raw) write_fails now =
    elim (chunk_index index (chunk_count u.size)) [
      | none ↦ (h, refused bad_chunk)
      | some i ↦
          if length raw == 0
          then (h, refused bad_chunk)
          else if not (length raw == chunk_size u.size i)
          then (h, refused bad_chunk_size)
          else store_chunk h id u i raw write_fails (h.files u.path) now
    ]

unfoldable pub rpc_put_chunk : Uploads → Text → ℤ → Option (List ℕ) → Bool → ℕ → Uploads × Reply
unfolding put_chunk_in
rpc_put_chunk h id index raw write_fails now = elim (h.uploads id) [
  | none ↦ (h, refused unknown_upload)
  | some u ↦ put_chunk_in h id u index raw write_fails now
]

abbrev pub without : Uploads → Text → HubUpload → Uploads
without h id u = record { uploads = put id none h.uploads; files = put u.path none h.files }

-- After the file was read and removed.
unfoldable pub commit_bytes : Uploads → HubUpload → Text → Bool → Option (List ℕ) → Uploads × Reply
commit_bytes h u text ingest_fails none = (h, refused os_error)
commit_bytes h u text ingest_fails (some bytes) =
    let caption = trim_space text in
    if not (length bytes == u.size)
    then (h, refused size_mismatch)
    else if ingest_fails
    then (h, refused ingest_error)
    else (h, queued u.bot_id bytes u.name (if is_empty caption then u.caption else caption))

-- rpcPutCommit
unfoldable pub rpc_put_commit : Uploads → (ℤ → Option Bot) → Text → Text → Bool → Uploads × Reply
unfolding commit_bytes chunk_count
rpc_put_commit h bots id text ingest_fails = elim (h.uploads id) [
  | none ↦ (h, refused unknown_upload)
  | some u ↦
      if not (length u.got == chunk_count u.size)
      then (without h id u, refused incomplete_upload)
      else if gone (bots u.bot_id)
      then (without h id u, refused unknown_bot)
      else commit_bytes (without h id u) u text ingest_fails (h.files u.path)
]

-- What rpcGetChunk reads of an open file: `io.ReadFull` of one chunk from the seek position.
unfoldable pub read_chunk : List ℕ → ℕ → List ℕ
read_chunk bytes i = take hub_chunk_bytes (drop (i * hub_chunk_bytes) bytes)

pub data GetReply : Type 0 where
  no_file file_gone get_bad_chunk : GetReply
  chunk : ℕ → ℕ → List ℕ → GetReply

-- rpcGetChunk: the row's size, `none` if there is no row, and the file, `none` if it cannot be opened
unfoldable pub rpc_get_chunk : Option ℕ → Option (List ℕ) → ℤ → GetReply
unfolding read_chunk chunk_index chunk_count
rpc_get_chunk none file index = no_file
rpc_get_chunk (some size) file index = elim (chunk_index index (chunk_count size)) [
  | none ↦ get_bad_chunk
  | some i ↦ elim file [
    | none ↦ file_gone
    | some bytes ↦ chunk i (chunk_count size) (read_chunk bytes i)
  ]
]
