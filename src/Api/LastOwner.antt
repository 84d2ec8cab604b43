-- ===== src/Api/LastOwner.antt =====
-- The last-owner rule over the requests of api/v1/members.py, in any number and order.
use incident_desk.Prelude.{ℕ, Option, String, List, [], ◌∷◌}
use incident_desk.Enums.{Role}
use incident_desk.Models.{User, Json}
use incident_desk.Session.{Session, Env, Action, ⊤, pure, serve, ◌>>=◌, ◌>>◌}
use incident_desk.Session.Keeping.{Keeps, Always, AllKeep, keeping, serve-Always}
use incident_desk.Authz.{
  Permission, Principal, user_session, api_key, AuthContext, require, require_user,
}
use incident_desk.Audit.{AuditInfo, record_audit}
use incident_desk.Members.Owners.{
  HasOwner, change_role-HasOwner, remove_member-HasOwner, accept_invitation-HasOwner,
  create_invitation-HasOwner, revoke_invitation-HasOwner,
}
use incident_desk.Api.Members.{
  change_role_request, remove_member_request, invite_request, revoke_invitation_request,
  accept_invitation_request,
}

-- a request of a caller
pub data MemberRequest : Type 0 where
  change : String → Principal → ℕ → Role → MemberRequest
  remove : String → Principal → ℕ → MemberRequest
  invite : String → Principal → String → Role → MemberRequest
  revoke : String → Principal → ℕ → MemberRequest
  accept : User → String → MemberRequest

module _ (env : Env) (info : AuditInfo) where
  -- the handler that the request is routed to, its answer left aside
  unfoldable pub perform : MemberRequest → Action ⊤
  unfolding ◌>>=◌
  perform (change slug p user_id role) = change_role_request env info slug p user_id role >> pure tt
  perform (remove slug p user_id) = remove_member_request env info slug p user_id
  perform (invite slug p address role) = invite_request env info slug p address role >> pure tt
  perform (revoke slug p id) = revoke_invitation_request env info slug p id
  perform (accept user token) = accept_invitation_request env info user token >> pure tt

  unfoldable pub perform_all : List MemberRequest → List (Action ⊤)
  perform_all [] = []
  perform_all (r ∷ rs) = perform r ∷ perform_all rs

module _ (x : ℕ) where
  require-HasOwner :
      (ps : List Permission) (slug : String) (p : Principal)
      → Keeps (HasOwner x) (require ps slug p)
  unfolding require
  require-HasOwner ps slug (user_session u) = search keeping depth 9
  require-HasOwner ps slug (api_key k) = search keeping depth 9

  require_user-HasOwner : (ctx : AuthContext) → Keeps (HasOwner x) (require_user ctx)
  unfolding require_user
  require_user-HasOwner ctx = search keeping

  record_audit-HasOwner :
      (env : Env) (org_id : ℕ) (a : Option ℕ) (action kind : String) (r : Option ℕ) (b c : Json)
      (info : AuditInfo)
      → Keeps (HasOwner x) (record_audit env org_id a action kind r b c info)
  unfolding record_audit
  record_audit-HasOwner env org_id a action kind r b c info = search keeping depth 9

ruleset requests = (
  keeping, require-HasOwner, require_user-HasOwner, record_audit-HasOwner, change_role-HasOwner,
  remove_member-HasOwner, accept_invitation-HasOwner, create_invitation-HasOwner,
  revoke_invitation-HasOwner,
)

module _ (env : Env) (info : AuditInfo) (x : ℕ) where
  perform-HasOwner : (r : MemberRequest) → Keeps (HasOwner x) (perform env info r)
  unfolding perform change_role_request remove_member_request invite_request
      revoke_invitation_request accept_invitation_request
  perform-HasOwner (change slug p user_id role) = search requests depth 12
  perform-HasOwner (remove slug p user_id) = search requests depth 12
  perform-HasOwner (invite slug p address role) = search requests depth 14
  perform-HasOwner (revoke slug p id) = search requests depth 12
  perform-HasOwner (accept user token) = search requests depth 12

  perform_all-HasOwner : (rs : List MemberRequest) → AllKeep (HasOwner x) (perform_all env info rs)
  unfolding perform_all
  perform_all-HasOwner [] = tt
  perform_all-HasOwner (r ∷ rs) = (perform-HasOwner r, perform_all-HasOwner rs)

-- If an organisation has an owner in what is written and in what is committed, and memberships have
-- distinct keys there, the same holds after any sequence of requests on members, by any callers,
-- each request refused or served to its end.
pub member_requests-HasOwner :
    (env : Env) (info : AuditInfo) (x : ℕ) (rs : List MemberRequest) (s : Session)
    → Always (HasOwner x) s
    → Always (HasOwner x) (serve (perform_all env info rs) s)
member_requests-HasOwner env info x rs s h =
    serve-Always (HasOwner x) (perform_all env info rs) (perform_all-HasOwner env info x rs) s h
