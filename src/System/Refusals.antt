-- ===== src/System/Refusals.antt =====
-- Calls that are refused: what they leave committed.
use incident_desk.Prelude.{ℕ, ◌≡◌, String, Option, none, some, Bool, true, false}
use incident_desk.Session.{Env, Session}
use incident_desk.Session.Pending.{pending}
use incident_desk.Session.Whole.{Whole, IsWhole, whole}
use incident_desk.Authz.{Principal, AuthContext}
use incident_desk.Audit.{AuditInfo}
use incident_desk.Incidents.Uncommitted.{
  update_incident-Pending, transition_status-Pending, get_incident-Pending,
}
use incident_desk.Api.Members.{
  change_role_request, remove_member_request, invite_request, revoke_invitation_request,
}
use incident_desk.Api.Incidents.{
  Edit, change_status_request, after_edit, edit_in, edit_at, update_request,
}
use incident_desk.Api.Attachments.{upload_request}
use incident_desk.Api.Comments.{add_comment_request, edit_comment_request, delete_comment_request}
use incident_desk.Api.Orgs.{
  update_org_request, create_service_request, update_service_request, delete_service_request,
}
use incident_desk.Api.OnCall.{create_schedule_request, add_shift_request, delete_shift_request}
use incident_desk.Api.ApiKeys.{create_api_key_request, revoke_api_key_request}
use incident_desk.System.Uncommitted.{
  require-Pending, require_user-Pending, from_result-Pending, record_audit-Pending,
  change_role-Pending, remove_member-Pending, revoke_invitation-Pending, update_service-Pending,
  delete_service-Pending, delete_shift-Pending, create_invitation-Pending, create_service-Pending,
  create_schedule-Pending, add_shift-Pending, create_api_key-Pending, revoke_api_key-Pending,
  add_comment-Pending, edit_comment-Pending, delete_comment-Pending, save_attachment-Pending,
}
use incident_desk.System.Calls.{
  OrgCall, changes_role, removes_member, revokes_invitation, revokes_key, deletes_service, invites,
  updates_org, creates_service, updates_service, creates_schedule, adds_shift, deletes_shift,
  deletes_comment, uploads, creates_key, creates_incident, changes_status, updates_incident,
  comments, edits_comment, perform_in,
}

ruleset refusals = (
  whole, pending, require-Pending, require_user-Pending, from_result-Pending, record_audit-Pending,
)

-- the call creates an incident
abbrev pub is_creation : OrgCall → Bool
is_creation (creates_incident c k) = true
is_creation _ = false

module _ (env : Env) (i : AuditInfo) where
  edit_at-Whole :
      (ctx : AuthContext) (id : ℕ) (edit : Edit) (header : Option String)
      → Whole (edit_at env i ctx id edit header)
  unfolding edit_at edit_in after_edit
  edit_at-Whole ctx id edit none = search whole
  edit_at-Whole ctx id edit (some header) = search (refusals, update_incident-Pending) depth 14

  module _ (o : String) (p : Principal) where
    perform_in-Whole : (c : OrgCall) → is_creation c ≡ false → Whole (perform_in env i o p c)
    unfolding perform_in change_role_request remove_member_request invite_request
        revoke_invitation_request update_org_request create_service_request update_service_request
        delete_service_request create_schedule_request add_shift_request delete_shift_request
        create_api_key_request revoke_api_key_request change_status_request update_request
        add_comment_request edit_comment_request delete_comment_request upload_request
    perform_in-Whole (changes_role u r) h = search (refusals, change_role-Pending) depth 14
    perform_in-Whole (removes_member u) h = search (refusals, remove_member-Pending) depth 14
    perform_in-Whole (invites a r) h = search (refusals, create_invitation-Pending) depth 14
    perform_in-Whole (revokes_invitation n) h =
        search (refusals, revoke_invitation-Pending) depth 14
    perform_in-Whole (updates_org c) h = search refusals depth 14
    perform_in-Whole (creates_service n d t tier) h =
        search (refusals, create_service-Pending) depth 14
    perform_in-Whole (updates_service v c) h = search (refusals, update_service-Pending) depth 14
    perform_in-Whole (deletes_service v) h = search (refusals, delete_service-Pending) depth 14
    perform_in-Whole (creates_schedule v n r) h =
        search (refusals, create_schedule-Pending) depth 14
    perform_in-Whole (adds_shift c u a b) h = search (refusals, add_shift-Pending) depth 14
    perform_in-Whole (deletes_shift c n) h = search (refusals, delete_shift-Pending) depth 14
    perform_in-Whole (creates_key n ps e) h = search (refusals, create_api_key-Pending) depth 14
    perform_in-Whole (revokes_key k) h = search (refusals, revoke_api_key-Pending) depth 14
    perform_in-Whole (creates_incident c k) h = absurd (cc)
    perform_in-Whole (changes_status n c t) h =
        search (refusals, get_incident-Pending, transition_status-Pending) depth 18
    perform_in-Whole (updates_incident n c m) h = search (refusals, edit_at-Whole) depth 14
    perform_in-Whole (comments n b) h = search (refusals, add_comment-Pending) depth 14
    perform_in-Whole (edits_comment n c b) h = search (refusals, edit_comment-Pending) depth 14
    perform_in-Whole (uploads m n u) h = search (refusals, save_attachment-Pending) depth 14
    perform_in-Whole (deletes_comment n c) h = search (refusals, delete_comment-Pending) depth 14

-- A call in an organisation, other than the creation of an incident, by any caller and at any
-- session: if it fails, what was committed before is what is committed after it; if it succeeds,
-- everything that it has written is committed.
pub org_call-IsWhole :
    (env : Env) (info : AuditInfo) (slug : String) (p : Principal) (c : OrgCall) (s : Session)
    → is_creation c ≡ false
    → IsWhole (perform_in env info slug p c s) s
org_call-IsWhole env info slug p c s h = (perform_in-Whole env info slug p c h).at s
