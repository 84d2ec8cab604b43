-- ===== src/Api/Members.antt =====
-- The handlers of backend/src/incident_desk/api/v1/members.py that change the database, behind the
-- authorisation of api/authz.py.
use incident_desk.Prelude.{ℕ, String, Option, none, some, [], ◌∷◌, find}
use incident_desk.Enums.{Role}
use incident_desk.Models.{Organization, Membership, OrgInvitation, User, Json, null, text, dict}
use incident_desk.Session.{Env, email, Action, ⊤, pure, gets, send, commit, ◌>>=◌, ◌>>◌}
use incident_desk.Authz.{member_manage, Principal, context_role, actor_id, require_user, require}
use incident_desk.Audit.{AuditInfo, record_audit}
use incident_desk.Members.{
  is_membership, change_role, remove_member, create_invitation, revoke_invitation,
  accept_invitation,
}
use incident_desk.Enums.{owner, admin, responder, viewer}

abbrev role_value : Role → String
role_value owner = "owner"
role_value admin = "admin"
role_value responder = "responder"
role_value viewer = "viewer"

abbrev role_of : Option Membership → Json
role_of none = null
role_of (some m) = text (role_value m.role)

module _ (env : Env) (info : AuditInfo) where
  unfoldable pub change_role_request : String → Principal → ℕ → Role → Action Membership
  unfolding ◌>>=◌
  change_role_request org_slug principal user_id new_role = do
    ctx ← require (member_manage ∷ []) org_slug principal
    target ← gets (λ d. find (is_membership user_id ctx.org.id) d.memberships)
    membership ← change_role ctx.org (context_role ctx) user_id new_role
    record_audit env ctx.org.id (actor_id ctx) "member.role_changed" "membership" (some user_id)
        (dict (("role", role_of target) ∷ []))
        (dict (("role", text (role_value membership.role)) ∷ [])) info
    commit env
    pure membership

  unfoldable pub remove_member_request : String → Principal → ℕ → Action ⊤
  unfolding ◌>>=◌
  remove_member_request org_slug principal user_id = do
    ctx ← require (member_manage ∷ []) org_slug principal
    remove_member ctx.org (context_role ctx) user_id
    record_audit env ctx.org.id (actor_id ctx) "member.removed" "membership" (some user_id) null
        null info
    commit env

  unfoldable pub invite_request : String → Principal → String → Role → Action OrgInvitation
  unfolding ◌>>=◌
  invite_request org_slug principal address role = do
    ctx ← require (member_manage ∷ []) org_slug principal
    inviter ← require_user ctx
    made ← create_invitation env ctx.org address role inviter (context_role ctx)
    record_audit env ctx.org.id (actor_id ctx) "invitation.created" "invitation" (some made.0.id)
        null (dict (("email", text made.0.email) ∷ ("role", text (role_value made.0.role)) ∷ []))
        info
    commit env
    send (email made.0.email made.1)
    pure made.0

  unfoldable pub revoke_invitation_request : String → Principal → ℕ → Action ⊤
  unfolding ◌>>=◌
  revoke_invitation_request org_slug principal invitation_id = do
    ctx ← require (member_manage ∷ []) org_slug principal
    revoke_invitation ctx.org invitation_id
    commit env

  unfoldable pub accept_invitation_request : User → String → Action (Organization × Membership)
  unfolding ◌>>=◌
  accept_invitation_request user token = do
    joined ← accept_invitation env user token
    record_audit env joined.0.id (some user.id) "invitation.accepted" "membership" (some user.id)
        null (dict (("role", text (role_value joined.1.role)) ∷ [])) info
    commit env
    pure joined
