-- ===== src/Upload/Tests.antt =====
-- hub_file.go: runs of the model.
use ccc_fork.Base.{
  ℤ, ℕ, ◌≡◌, inl, inr, refl, arith, false, Option, none, some, List, [], ◌∷◌, Text, codes, pos,
  text_eq, trim_space, length,
}
use ccc_fork.Upload.{
  Uploads, Bot, BeginFaults, PutBegin, rpc_put_begin, rpc_put_commit, queued, sanitize_file_name,
  read_chunk, HubUpload, chunk_size, chunk_count,
}
use ccc_fork.Upload.Assembly.{length-read_chunk}
use ccc_fork.Upload.Transfer.{send_chunks, Uploading}
use ccc_fork.Upload.Commit.{put_file, commit_faithful}
use ccc_fork.Upload.Names.{IsPlain, sanitize_file_name-IsPlain}

abbrev no_uploads : Uploads
no_uploads = record { uploads = λ _. none; files = λ _. none }

abbrev one_bot : ℤ → Option Bot
one_bot _ = some (record { name = codes "general"; archived = false })

abbrev no_faults : BeginFaults
no_faults = record { mkdir_fails = false; open_fails = false; truncate_fails = false }

abbrev note : List ℕ
note = 7 ∷ 8 ∷ 9 ∷ []

abbrev begin_note : PutBegin
begin_note = record {
  bot_id = pos 4;
  name = codes "../note.txt";
  mime = [];
  size = pos 3;
  text = codes "hello";
}

abbrev types : Text → Text
types _ = codes "text/plain"

abbrev started : Uploads
started =
    (rpc_put_begin no_uploads one_bot types no_faults begin_note (codes "a1") (codes "a1.part") 3
      5).0

put_file_example :
    (rpc_put_commit
      (send_chunks started (codes "a1") note 6 (0 ∷ []))
      one_bot
      (codes "a1")
      []
      false).1
    ≡ queued (pos 4) note (codes "note.txt") (codes "hello")
unfolding rpc_put_begin sanitize_file_name trim_space text_eq
put_file_example =
    put_file no_uploads one_bot types no_faults begin_note (codes "a1") (codes "a1.part") [] 3 5 6
      note (0 ∷ []) started 1 (omega arith) refl refl (λ m. m, tt)
      (λ x m. elim m [ inl q ↦ omega (arith, q) | inr n ↦ absurd n ]) refl

abbrev note_upload : HubUpload
note_upload = record {
  bot_id = pos 4;
  name = codes "note.txt";
  mime = codes "text/plain";
  size = 3;
  path = codes "a1.part";
  got = 0 ∷ [];
  at = 6;
  caption = codes "hello";
}

abbrev note_sent : Uploads
note_sent = record { uploads = λ _. some note_upload; files = λ _. some note }

abbrev note_uploading : Uploading note_sent (codes "a1") note
unfolding chunk_count
note_uploading = record {
  upload = note_upload;
  bytes = note;
  registered = refl;
  stored_at = refl;
  partial = record {
    size_same = refl;
    whole = refl;
    distinct = (λ m. m, tt);
    below = λ x m. elim m [ inl q ↦ omega (arith, q) | inr n ↦ absurd n ];
    agrees = λ p l m. refl;
  };
}

commit_faithful_example : (note ≡ note) × (note_upload.bot_id ≡ note_upload.bot_id)
unfolding rpc_put_commit note_uploading trim_space
commit_faithful_example =
    commit_faithful note (omega arith) one_bot (codes "a1") [] note_sent note_uploading false
      {bot = pos 4} {bytes = note} {name = codes "note.txt"} {caption = codes "hello"} refl

length-read_chunk_example : length (read_chunk note 0) ≡ chunk_size 3 0
length-read_chunk_example =
    length-read_chunk note 0 (omega arith) (unfold chunk_count in omega arith)

sanitize_file_name-IsPlain_example : IsPlain (sanitize_file_name (codes "../../etc/passwd") 7)
sanitize_file_name-IsPlain_example = sanitize_file_name-IsPlain (codes "../../etc/passwd") 7

sanitize_file_name_runs :
    (sanitize_file_name (codes "../../etc/passwd") 7 ≡ codes "passwd")
    × (sanitize_file_name (codes " .. ") 120 ≡ codes "file_120")
    × (sanitize_file_name (codes "///") 7 ≡ codes "file_7")
unfolding sanitize_file_name trim_space text_eq
sanitize_file_name_runs = (refl, refl, refl)
