-- ===== src/Api/Attachments.antt =====
-- The handlers of backend/src/incident_desk/api/v1/incidents.py for attachments. The limit is the
-- setting `attachment_max_bytes`.
use incident_desk.Prelude.{ℕ, String, List, [], ◌∷◌, some}
use incident_desk.Models.{Attachment, null, text, number, dict}
use incident_desk.Session.{Env, scan_attachment, Action, pure, send, commit, ◌>>=◌, ◌>>◌}
use incident_desk.Authz.{
  incident_view, attachment_upload, Principal, actor_id, require_user, require,
}
use incident_desk.Audit.{AuditInfo, record_audit}
use incident_desk.Attachments.{Upload, save_attachment, list_attachments, get_attachment}

unfoldable pub list_attachments_request : String → Principal → ℕ → Action (List Attachment)
unfolding list_attachments require ◌>>=◌
list_attachments_request org_slug principal incident_id = do
  ctx ← require (incident_view ∷ []) org_slug principal
  list_attachments ctx.org incident_id

-- The answer is the file under the storage key.
unfoldable pub download_request : String → Principal → ℕ → ℕ → Action Attachment
unfolding get_attachment require ◌>>=◌
download_request org_slug principal incident_id attachment_id = do
  ctx ← require (incident_view ∷ []) org_slug principal
  get_attachment ctx.org incident_id attachment_id

module _ (env : Env) (info : AuditInfo) where
  unfoldable pub upload_request : String → Principal → ℕ → ℕ → Upload → Action Attachment
  unfolding save_attachment record_audit require require_user ◌>>=◌
  upload_request org_slug principal limit incident_id upload = do
    ctx ← require (attachment_upload ∷ []) org_slug principal
    user ← require_user ctx
    attachment ← save_attachment env limit ctx.org incident_id user upload
    record_audit env ctx.org.id (actor_id ctx) "attachment.uploaded" "attachment"
        (some attachment.id) null
        (dict
          (("filename", text attachment.filename) ∷ ("bytes", number attachment.size_bytes) ∷ []))
        info
    commit env
    send (scan_attachment attachment.id incident_id)
    pure attachment
