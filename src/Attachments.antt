-- ===== src/Attachments.antt =====
-- Incident attachments: backend/src/incident_desk/services/attachments.py. An upload is the chunks
-- that reading it gives, none of them empty; a byte is a character.
pub mod Chunks
pub mod Uploads
use incident_desk.Prelude.{
  ℕ, ◌+◌, ◌==◌, ltb, leb, String, concat, size, is_empty, Bool, ◌&&◌, ◌||◌, Option, none, some,
  List, [], ◌∷◌, ◌++◌, find, select_where, exists_where, if◌then◌else◌,
}
use incident_desk.Errors.{not_found, attachment_too_large, data_error}
use incident_desk.Models.{Organization, User, Attachment, text, number, uid, dict}
use incident_desk.Session.{
  Database, Env, ok, write_file, Action, pure, gets, or_raise, raise_if, modify, send, new_uuid,
  database_now, ◌>>=◌, ◌>>◌,
}
use incident_desk.Timeline.{record_event}
use incident_desk.Incidents.{is_incident, get_incident}

-- `UploadFile`
pub record Upload : Type 0 where
  pub filename : Option String
  pub content_type : Option String
  pub chunks : List String

-- `value or default`
abbrev pub text_or : Option String → String → String
text_or none default = default
text_or (some t) default = if is_empty t then default else t

-- `Path(upload.filename or "attachment").name or "attachment"`
abbrev pub upload_name : Env → Upload → String
upload_name env upload =
    text_or (some (env.path_name (text_or upload.filename "attachment"))) "attachment"

-- The loop: what is written and its size; none where the limit is passed.
unfoldable pub write_chunks : ℕ → List String → ℕ → String → Option (String × ℕ)
write_chunks limit [] total written = some (written, total)
write_chunks limit (chunk ∷ rest) total written =
    let later = write_chunks limit rest (total + size chunk) (concat written chunk) in
    if ltb limit (total + size chunk) then none else later

-- `String(255)` and `String(100)`
abbrev pub is_too_long : Attachment → Bool
is_too_long a = ltb 255 (size a.filename) || ltb 100 (size a.content_type)

module _ (env : Env) where
  -- `f"{incident.id}/{uuid.uuid4().hex}"`
  unfoldable pub new_storage_key : ℕ → Action String
  new_storage_key incident_id s = (
    ok (concat (env.uuid_text incident_id) (concat "/" (env.uuid_hex s.draws))),
    record s { draws = s.draws + 1 },
  )

  unfoldable pub save_attachment : ℕ → Organization → ℕ → User → Upload → Action Attachment
  unfolding get_incident new_storage_key write_chunks record_event ◌>>=◌
  save_attachment limit org incident_id uploader upload = do
    incident ← get_incident org incident_id
    storage_key ← new_storage_key incident.id
    stored ← or_raise (write_chunks limit upload.chunks 0 "") attachment_too_large
    send (write_file storage_key stored.0)
    id ← new_uuid env
    at ← database_now
    let attachment : Attachment = record {
      id = id;
      incident_id = incident.id;
      uploader_id = uploader.id;
      filename = upload_name env upload;
      content_type = text_or upload.content_type "application/octet-stream";
      size_bytes = stored.1;
      storage_key = storage_key;
      checksum = env.sha256 stored.0;
      created_at = at;
    }
    raise_if (is_too_long attachment) data_error
    modify (λ d. record d { attachments = d.attachments ++ attachment ∷ [] })
    record_event env incident.id (some uploader.id) "attachment.added" (
        dict (
          ("attachment_id", uid id)
          ∷ ("filename", text attachment.filename)
          ∷ ("bytes", number stored.1)
          ∷ []))
    pure attachment

-- `ORDER BY created_at, id`
abbrev is_earlier : Attachment → Attachment → Bool
is_earlier a b = ltb a.created_at b.created_at || (a.created_at == b.created_at && leb a.id b.id)

insert_attachment : Attachment → List Attachment → List Attachment
insert_attachment x [] = x ∷ []
insert_attachment x (y ∷ ys) =
    let rest = insert_attachment x ys in if is_earlier x y then x ∷ y ∷ ys else y ∷ rest

order_attachments : List Attachment → List Attachment
unfolding insert_attachment
order_attachments [] = []
order_attachments (x ∷ xs) = insert_attachment x (order_attachments xs)

unfoldable pub list_attachments : Organization → ℕ → Action (List Attachment)
unfolding get_incident order_attachments ◌>>=◌
list_attachments org incident_id = do
  incident ← get_incident org incident_id
  gets (λ d. order_attachments (select_where (λ a. a.incident_id == incident.id) d.attachments))

-- the join with the incident of the organisation
abbrev pub is_attachment : ℕ → ℕ → ℕ → Database → Attachment → Bool
is_attachment org_id incident_id id d a =
    a.incident_id == incident_id
    && a.id == id
    && exists_where (is_incident org_id a.incident_id) d.incidents

unfoldable pub get_attachment : Organization → ℕ → ℕ → Action Attachment
unfolding ◌>>=◌
get_attachment org incident_id attachment_id = do
  found ← gets (λ d. find (is_attachment org.id incident_id attachment_id d) d.attachments)
  or_raise found not_found
