-- ===== src/Examples/Uploads.antt =====
-- Instances of the theorems on attachments.
use incident_desk.Prelude.{
  ◌≡◌, ◌≤◌, refl, String, concat, size, leb, true, false, none, some, [], ◌∷◌,
}
use incident_desk.Errors.{attachment_too_large, data_error}
use incident_desk.Models.{Attachment}
use incident_desk.Session.{ok, err, reply, write_file}
use incident_desk.Attachments.{Upload, save_attachment, get_attachment, write_chunks, is_too_long}
use incident_desk.Attachments.Chunks.{joined}
use incident_desk.Attachments.Uploads.{
  save_attachment_found, save_attachment_refused, save_attachment_orphan, row_of,
}
use incident_desk.Samples.{acme, ann, outage, sample, sample_env}

abbrev notes : Upload
notes = record { filename = some "notes"; content_type = none; chunks = "ab" ∷ "c" ∷ [] }

abbrev notes_row : Attachment
notes_row = record {
  id = 501;
  incident_id = 41;
  uploader_id = 7;
  filename = "notes";
  content_type = "application/octet-stream";
  size_bytes = 3;
  storage_key = "uuid/hex";
  checksum = "abc";
  created_at = 1_000;
}

notes_saved : reply (save_attachment sample_env 3 acme 41 ann notes) sample ≡ ok notes_row
unfolding save_attachment concat write_chunks
notes_saved = refl

save_attachment_found_example :
    (3 ≡ size (joined ("ab" ∷ "c" ∷ [])))
    × (3 ≤ 3)
    × ("abc" ≡ joined ("ab" ∷ "c" ∷ []))
    × (reply (get_attachment acme 41 501) (save_attachment sample_env 3 acme 41 ann notes sample).1
        ≡ ok notes_row)
save_attachment_found_example =
    save_attachment_found sample_env 3 acme 41 ann notes sample notes_row notes_saved refl

notes_large : leb (size (joined notes.chunks)) 2 ≡ false
unfolding concat
notes_large = refl

notes_refused :
    save_attachment sample_env 2 acme 41 ann notes sample
    ≡ (err attachment_too_large, record sample { draws = 1 })
notes_refused =
    save_attachment_refused sample_env 2 acme 41 ann notes sample outage refl notes_large

-- a file name of 256 characters
abbrev long_name : String
long_name = "nnnnnnnnnnnnnnnnnnnnnnnnnnnnnnnnnnnnnnnnnnnnnnnnnnnnnnnnnnnnnnnn"

abbrev long_upload : Upload
long_upload = record {
  filename = some (concat long_name (concat long_name (concat long_name long_name)));
  content_type = none;
  chunks = "a" ∷ [];
}

long_bytes : leb (size (joined long_upload.chunks)) 9 ≡ true
unfolding concat
long_bytes = refl

long_is_too_long :
    is_too_long (
      row_of sample_env 9 acme 41 ann long_upload sample outage
        (joined long_upload.chunks, size (joined long_upload.chunks)))
    ≡ true
unfolding concat
long_is_too_long = refl

save_attachment_orphan_example : save_attachment sample_env 9 acme 41 ann long_upload sample ≡ (
  err data_error,
  record sample {
    draws = 2;
    outbox = write_file (concat "uuid" (concat "/" "hex")) (joined ("a" ∷ [])) ∷ [];
  },
)
save_attachment_orphan_example =
    save_attachment_orphan sample_env 9 acme 41 ann long_upload sample outage refl long_bytes
      long_is_too_long
