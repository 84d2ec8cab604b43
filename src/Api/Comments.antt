-- ===== src/Api/Comments.antt =====
-- The handlers of backend/src/incident_desk/api/v1/incidents.py for comments.
use incident_desk.Prelude.{ℕ, String, Option, some, List, [], ◌∷◌}
use incident_desk.Models.{Comment, null, text, uid, dict}
use incident_desk.Session.{Env, published, Action, ⊤, pure, send, commit, ◌>>=◌, ◌>>◌}
use incident_desk.Authz.{
  incident_view, comment_create, comment_moderate, role_has, Principal, context_role, actor_id,
  require_user, require,
}
use incident_desk.Audit.{AuditInfo, record_audit}
use incident_desk.Comments.{add_comment, edit_comment, delete_comment, list_comments}
use incident_desk.Api.Incidents.{incident_channel}

unfoldable pub list_comments_request :
    String → Principal → ℕ → ℕ → Option ℕ → Action (List Comment × Option ℕ)
unfolding list_comments require ◌>>=◌
list_comments_request org_slug principal incident_id limit cursor = do
  ctx ← require (incident_view ∷ []) org_slug principal
  list_comments ctx.org incident_id limit cursor

module _ (env : Env) (info : AuditInfo) where
  unfoldable pub add_comment_request : String → Principal → ℕ → String → Action Comment
  unfolding add_comment record_audit require require_user ◌>>=◌
  add_comment_request org_slug principal incident_id body = do
    ctx ← require (comment_create ∷ []) org_slug principal
    author ← require_user ctx
    comment ← add_comment env ctx.org incident_id author body
    record_audit env ctx.org.id (actor_id ctx) "comment.added" "comment" (some comment.id) null null
        info
    commit env
    send (
        published (incident_channel env info incident_id) (
          dict (
            ("type", text "comment.added")
            ∷ ("incident_id", uid incident_id)
            ∷ ("comment_id", uid comment.id)
            ∷ ("author_id", uid comment.author_id)
            ∷ [])))
    pure comment

  unfoldable pub edit_comment_request : String → Principal → ℕ → ℕ → String → Action Comment
  unfolding edit_comment require require_user ◌>>=◌
  edit_comment_request org_slug principal incident_id comment_id body = do
    ctx ← require (comment_create ∷ []) org_slug principal
    actor ← require_user ctx
    comment ← edit_comment env ctx.org incident_id comment_id actor body
    commit env
    pure comment

  unfoldable pub delete_comment_request : String → Principal → ℕ → ℕ → Action ⊤
  unfolding delete_comment record_audit require require_user role_has ◌>>=◌
  delete_comment_request org_slug principal incident_id comment_id = do
    ctx ← require (comment_create ∷ []) org_slug principal
    actor ← require_user ctx
    delete_comment env ctx.org incident_id comment_id actor
        (role_has (context_role ctx) comment_moderate)
    record_audit env ctx.org.id (actor_id ctx) "comment.deleted" "comment" (some comment_id) null
        null info
    commit env
