-- ===== src/Attachments/Uploads.antt =====
-- What an upload stores, and what it refuses.
use incident_desk.Prelude.{
  ℕ, ◌+◌, ◌≤◌, ◌==◌, leb, ◌≡◌, ap, ◌∙◌, String, concat, size, Bool, true, false, ◌&&◌, none, some,
  List, [], ◌∷◌, ◌++◌, find, find-holds, find-head, find-append, exists_where, arith, if◌then◌else◌,
  Option-cases, Bool-cases, inl, inr,
}
use Prim.Native.String.{[], ◌∷◌}
use incident_desk.Errors.{attachment_too_large, data_error}
use incident_desk.Models.{Organization, User, Incident, Attachment}
use incident_desk.Session.{Database, Session, Env, ok, err, reply, written, write_file}
use incident_desk.Incidents.{is_incident}
use incident_desk.Attachments.{
  Upload, write_chunks, save_attachment, get_attachment, is_attachment, upload_name, text_or,
  is_too_long,
}
use incident_desk.Attachments.Chunks.{joined, write_chunks-joined}

module _ (env : Env) (limit : ℕ) (org : Organization) (incident_id : ℕ) (user : User)
    (upload : Upload) (s : Session) where
  -- the row of an upload, for its bytes
  abbrev pub row_of : Incident → String × ℕ → Attachment
  row_of i stored = record {
    id = env.uuid (s.draws + 1);
    incident_id = i.id;
    uploader_id = user.id;
    filename = upload_name env upload;
    content_type = text_or upload.content_type "application/octet-stream";
    size_bytes = stored.1;
    storage_key = concat (env.uuid_text i.id) (concat "/" (env.uuid_hex s.draws));
    checksum = env.sha256 stored.0;
    created_at = s.transaction_time;
  }

  save_attachment-large :
      (i : Incident)
      → find (is_incident org.id incident_id) s.db.incidents ≡ some i
      → write_chunks limit upload.chunks 0 "" ≡ none
      → save_attachment env limit org incident_id user upload s
        ≡ (err attachment_too_large, record s { draws = s.draws + 1 })
  unfolding save_attachment
  save_attachment-large i e w = ground (arith, e, w)

  save_attachment-ok :
      (a : Attachment)
      → reply (save_attachment env limit org incident_id user upload) s ≡ ok a
      → (i : Incident) × (find (is_incident org.id incident_id) s.db.incidents ≡ some i)
        × ((stored : String × ℕ) × (write_chunks limit upload.chunks 0 "" ≡ some stored)
            × (a ≡ row_of i stored)
            × ((written (save_attachment env limit org incident_id user upload) s).attachments
                ≡ s.db.attachments ++ a ∷ [])
            × ((written (save_attachment env limit org incident_id user upload) s).incidents
                ≡ s.db.incidents))
  unfolding save_attachment
  save_attachment-ok a h =
      elim (Option-cases (find (is_incident org.id incident_id) s.db.incidents)) [
        | inl e ↦ absurd (ground (arith, h, e))
        | inr (i, e) ↦ elim (Option-cases (write_chunks limit upload.chunks 0 "")) [
          | inl w ↦ absurd (ground (arith, h, e, w))
          | inr (stored, w) ↦ elim (Bool-cases (is_too_long (row_of i stored))) [
            | inl t ↦ absurd (ground (arith, h, e, w, t))
            | inr t ↦ (
              i,
              e,
              (
                stored,
                w,
                ground (arith, h, e, w, t),
                ground (arith, h, e, w, t),
                ground (arith, h, e, w, t),
              ),
            )
          ]
        ]
      ]

find-exists :
    {A : Type 0} (p : A → Bool) (xs : List A) (a : A)
    → find p xs ≡ some a
    → exists_where p xs ≡ true
find-exists p [] a h = cc
find-exists p (x ∷ xs) a h = ground (arith, h, find-exists p xs a)

-- the predicate of `is_attachment`, over the incidents alone
abbrev matches : ℕ → ℕ → ℕ → List Incident → Attachment → Bool
matches org_id incident_id id is a =
    a.incident_id == incident_id && a.id == id && exists_where (is_incident org_id a.incident_id) is

found-added :
    (o n : ℕ) (old new : Database) (a : Attachment)
    → new.incidents ≡ old.incidents
    → new.attachments ≡ old.attachments ++ a ∷ []
    → find (is_attachment o n a.id old) old.attachments ≡ none
    → is_attachment o n a.id old a ≡ true
    → find (is_attachment o n a.id new) new.attachments ≡ some a
found-added o n old new a k t fresh holds =
    ap (λ is. find (matches o n a.id is) new.attachments) k
    ∙ ap (find (matches o n a.id old.incidents)) t
    ∙ find-append (matches o n a.id old.incidents) old.attachments (a ∷ []) fresh
    ∙ find-head (matches o n a.id old.incidents) a [] holds

get_attachment-found :
    (org : Organization) (incident_id id : ℕ) (s : Session) (a : Attachment)
    → find (is_attachment org.id incident_id id s.db) s.db.attachments ≡ some a
    → reply (get_attachment org incident_id id) s ≡ ok a
unfolding get_attachment
get_attachment-found org incident_id id s a e = ground (arith, e)

module _ (env : Env) (limit : ℕ) (org : Organization) (incident_id : ℕ) (user : User)
    (upload : Upload) (s : Session) where
  zero_add : 0 + size (joined upload.chunks) ≡ size (joined upload.chunks)
  zero_add = omega arith

  all_bytes : write_chunks limit upload.chunks 0 "" ≡ (
      if leb (size (joined upload.chunks)) limit
      then some (joined upload.chunks, size (joined upload.chunks))
      else none)
  unfolding concat
  all_bytes =
      write_chunks-joined limit upload.chunks 0 "" (omega arith)
      ∙ ap (λ n. if leb n limit then some (joined upload.chunks, n) else none) zero_add

  -- An upload of more bytes than the limit, to an incident of the organisation, is refused: nothing
  -- is written, neither to the database nor to the storage.
  pub save_attachment_refused :
      (i : Incident)
      → find (is_incident org.id incident_id) s.db.incidents ≡ some i
      → leb (size (joined upload.chunks)) limit ≡ false
      → save_attachment env limit org incident_id user upload s
        ≡ (err attachment_too_large, record s { draws = s.draws + 1 })
  save_attachment_refused i e l =
      save_attachment-large env limit org incident_id user upload s i e
        (all_bytes ∙ ground (arith, l))

  stored_bytes :
      (stored : String × ℕ)
      → write_chunks limit upload.chunks 0 "" ≡ some stored
      → (stored ≡ (joined upload.chunks, size (joined upload.chunks)))
        × (size (joined upload.chunks) ≤ limit)
  stored_bytes stored w = elim (Bool-cases (leb (size (joined upload.chunks)) limit)) [
    | inl l ↦ (ground (arith, w, all_bytes, l), ground (arith, l))
    | inr l ↦ absurd (ground (arith, w, all_bytes, l))
  ]

  found_id :
      (i : Incident)
      → find (is_incident org.id incident_id) s.db.incidents ≡ some i
      → i.id ≡ incident_id
  found_id i e = ground (arith, find-holds (is_incident org.id incident_id) s.db.incidents i e)

  in_incident :
      (i : Incident) (stored : String × ℕ)
      → find (is_incident org.id incident_id) s.db.incidents ≡ some i
      → is_attachment org.id incident_id
          (env.uuid (s.draws + 1))
          s.db
          (row_of env limit org incident_id user upload s i stored)
        ≡ true
  in_incident i stored e = ground (
    arith,
    find-holds (is_incident org.id incident_id) s.db.incidents i e,
    found_id i e,
    ap (λ n. exists_where (is_incident org.id n) s.db.incidents) (found_id i e),
    find-exists (is_incident org.id incident_id) s.db.incidents i e,
  )

  -- What an upload that is accepted comes to: the size is the number of its bytes and within the
  -- limit, the checksum is the one of these bytes, whatever the chunks; and if no attachment of the
  -- incident has the new id yet, the attachment is found by this id in the incident.
  pub save_attachment_found :
      (a : Attachment)
      → reply (save_attachment env limit org incident_id user upload) s ≡ ok a
      → find (is_attachment org.id incident_id (env.uuid (s.draws + 1)) s.db) s.db.attachments
        ≡ none
      → (a.size_bytes ≡ size (joined upload.chunks))
        × (a.size_bytes ≤ limit)
        × (a.checksum ≡ env.sha256 (joined upload.chunks))
        × (reply
              (get_attachment org incident_id a.id)
              (save_attachment env limit org incident_id user upload s).1
            ≡ ok a)
  save_attachment_found a h fresh =
      let (i, e, (stored, w, r, t, k)) =
        save_attachment-ok env limit org incident_id user upload s a h in
      let (q, l) = stored_bytes stored w in
      let bytes : a.size_bytes ≡ size (joined upload.chunks) =
        ap (λ (x : Attachment). x.size_bytes) r ∙ ap (λ (p : String × ℕ). p.1) q in
      let same : a.id ≡ env.uuid (s.draws + 1) = ap (λ (x : Attachment). x.id) r in
      let here : is_attachment org.id incident_id a.id s.db a ≡ true =
        ap (λ n. is_attachment org.id incident_id n s.db a) same
        ∙ ap (is_attachment org.id incident_id (env.uuid (s.draws + 1)) s.db) r
        ∙ in_incident i stored e in
      let before : find (is_attachment org.id incident_id a.id s.db) s.db.attachments ≡ none =
        ap (λ n. find (is_attachment org.id incident_id n s.db) s.db.attachments) same ∙ fresh in
      let after = (save_attachment env limit org incident_id user upload s).1 in
      (
        bytes,
        omega (arith, bytes, l),
        ap (λ (x : Attachment). x.checksum) r ∙ ap (λ (p : String × ℕ). env.sha256 p.0) q,
        get_attachment-found org incident_id a.id after a
            (found-added org.id incident_id s.db after.db a k t before here),
      )

  -- An upload within the limit, to an incident of the organisation, whose file name or content type is
  -- too long for its column: the error is one that the code does not catch, nothing is written to the
  -- database, and the file stays in the storage with no row that names it.
  pub save_attachment_orphan :
      (i : Incident)
      → find (is_incident org.id incident_id) s.db.incidents ≡ some i
      → leb (size (joined upload.chunks)) limit ≡ true
      → is_too_long (
          row_of env limit org incident_id user upload s i
            (joined upload.chunks, size (joined upload.chunks)))
        ≡ true
      → save_attachment env limit org incident_id user upload s ≡ (
        err data_error,
        record s {
          draws = s.draws + 1 + 1;
          outbox =
              s.outbox
              ++ write_file
                  (concat (env.uuid_text i.id) (concat "/" (env.uuid_hex s.draws)))
                  (joined upload.chunks)
                ∷ [];
        },
      )
  unfolding save_attachment
  save_attachment_orphan i e l t = ground (arith, e, all_bytes, l, t)
