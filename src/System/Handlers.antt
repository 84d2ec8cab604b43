-- ===== src/System/Handlers.antt =====
-- What the handlers of api/v1 keep of the invariant of the program.
use incident_desk.Prelude.{ℕ, String, List, Option, none, some}
use incident_desk.Models.{IncidentEvent, User, Organization, Incident, IdempotencyKey}
use incident_desk.Session.{Env}
use incident_desk.Session.Keeping.{Keeps, keeping}
use incident_desk.Authz.{Principal, AuthContext}
use incident_desk.Audit.{AuditInfo}
use incident_desk.Sessions.{Settings}
use incident_desk.Idempotency.{store, stored_response}
use incident_desk.Incidents.{NewIncident}
use incident_desk.Api.Auth.{
  register, verify, finish_login, login, mfa_challenge, logout, mail_reset, forgot_password, reset,
  mail_verification, resend_verification, mfa_enroll, mfa_verify,
}
use incident_desk.Api.Members.{
  change_role_request, remove_member_request, invite_request, revoke_invitation_request,
  accept_invitation_request,
}
use incident_desk.Api.Incidents.{
  Edit, announce, after_store, settle, after_incident, create_fresh, replay_or_create, create_in,
  create_request, change_status_request, after_edit, edit_in, edit_at, update_request,
}
use incident_desk.Api.Comments.{add_comment_request, edit_comment_request, delete_comment_request}
use incident_desk.Api.Attachments.{upload_request}
use incident_desk.Api.Orgs.{
  create_org_request, update_org_request, create_service_request, update_service_request,
  delete_service_request,
}
use incident_desk.Api.OnCall.{create_schedule_request, add_shift_request, delete_shift_request}
use incident_desk.Api.ApiKeys.{create_api_key_request, revoke_api_key_request}
use incident_desk.System.Sound.{Trail, IsSound, sound}
use incident_desk.System.Tenancy.{
  change_role-IsSound, remove_member-IsSound, create_invitation-IsSound, revoke_invitation-IsSound,
  accept_invitation-IsSound, create_service-IsSound, update_service-IsSound, delete_service-IsSound,
  create_schedule-IsSound, add_shift-IsSound, delete_shift-IsSound, create_api_key-IsSound,
  revoke_api_key-IsSound, create_organization-IsSound,
}
use incident_desk.System.Logins.{
  authenticate-IsSound, issue_session-IsSound, revoke_session-IsSound,
  issue_verification_token-IsSound, issue_password_reset_token-IsSound, register_user-IsSound,
  verify_email-IsSound, reset_password-IsSound, start_enrollment-IsSound,
  confirm_enrollment-IsSound, complete_challenge-IsSound,
}
use incident_desk.System.Tracking.{
  update_incident-IsSound, transition_status-IsSound, create_incident-IsSound, get_incident-IsSound,
  add_comment-IsSound, save_attachment-IsSound, edit_comment-IsSound, delete_comment-IsSound,
}
use incident_desk.System.Rotation.{refresh-IsSound}
use incident_desk.System.Background.{from_result-IsSound}
use incident_desk.System.Calls.{
  PublicCall, registers, verifies, logs_out, forgets, asks_again, refreshes, logs_in, challenges,
  resets, UserCall, enrolls, confirms, accepts, opens_org, OrgCall, changes_role, removes_member,
  revokes_invitation, revokes_key, deletes_service, invites, updates_org, creates_service,
  updates_service, creates_schedule, adds_shift, deletes_shift, deletes_comment, uploads,
  creates_key, creates_incident, changes_status, updates_incident, comments, edits_comment,
  perform_public, perform_by, perform_in,
}

module _ (x : ℕ) (es : Trail) (vs : List IncidentEvent) (env : Env) (settings : Settings) where
  finish_login-IsSound : (u : User) → Keeps (IsSound x es vs) (finish_login env settings u)
  unfolding finish_login
  finish_login-IsSound u = search (keeping, issue_session-IsSound) depth 9

  mail_reset-IsSound : (o : Option User) → Keeps (IsSound x es vs) (mail_reset env o)
  unfolding mail_reset
  mail_reset-IsSound none = search keeping
  mail_reset-IsSound (some u) = search (keeping, issue_password_reset_token-IsSound) depth 9

  mail_verification-IsSound : (o : Option User) → Keeps (IsSound x es vs) (mail_verification env o)
  unfolding mail_verification
  mail_verification-IsSound none = search keeping
  mail_verification-IsSound (some u) = search (keeping, issue_verification_token-IsSound) depth 9

  pub perform_public-IsSound :
      (c : PublicCall) → Keeps (IsSound x es vs) (perform_public env settings c)
  unfolding perform_public register verify login mfa_challenge logout forgot_password reset
      resend_verification
  perform_public-IsSound (registers a p n) = search (keeping, register_user-IsSound) depth 9
  perform_public-IsSound (verifies t) = search (keeping, verify_email-IsSound) depth 9
  perform_public-IsSound (logs_in a p) =
      search (keeping, authenticate-IsSound, finish_login-IsSound) depth 9
  perform_public-IsSound (challenges t c) = search (keeping, complete_challenge-IsSound) depth 9
  perform_public-IsSound (refreshes t) = search (keeping, refresh-IsSound)
  perform_public-IsSound (logs_out t) = search (keeping, revoke_session-IsSound) depth 9
  perform_public-IsSound (forgets a) = search (keeping, mail_reset-IsSound) depth 9
  perform_public-IsSound (resets t p) = search (keeping, reset_password-IsSound) depth 9
  perform_public-IsSound (asks_again a) = search (keeping, mail_verification-IsSound) depth 9

module _ (x : ℕ) (es : Trail) (vs : List IncidentEvent) (env : Env) (info : AuditInfo) where
  pub perform_by-IsSound :
      (u : User) (c : UserCall) → Keeps (IsSound x es vs) (perform_by env info u c)
  unfolding perform_by mfa_enroll mfa_verify accept_invitation_request create_org_request
  perform_by-IsSound u enrolls = search (keeping, start_enrollment-IsSound) depth 9
  perform_by-IsSound u (confirms c) = search (keeping, confirm_enrollment-IsSound) depth 9
  perform_by-IsSound u (accepts t) = search (sound, accept_invitation-IsSound) depth 9
  perform_by-IsSound u (opens_org n slug) = search (keeping, create_organization-IsSound) depth 9

  announce-IsSound :
      (o : Organization) (i : Incident) (body : String)
      → Keeps (IsSound x es vs) (announce env info o i body)
  unfolding announce
  announce-IsSound o i body = search (keeping, from_result-IsSound) depth 9

  after_store-IsSound :
      (o : Organization) (i : Incident) (row : Option IdempotencyKey)
      → Keeps (IsSound x es vs) (after_store env info o i row)
  unfolding after_store
  after_store-IsSound o i none = search announce-IsSound
  after_store-IsSound o i (some row) = search keeping

  store-IsSound :
      (org_id : ℕ) (key : String) (code : ℕ) (body : String)
      → Keeps (IsSound x es vs) (store env org_id key code body)
  unfolding store stored_response
  store-IsSound org_id key code body = search keeping depth 12

  settle-IsSound :
      (o : Organization) (i : Incident) (key : Option String)
      → Keeps (IsSound x es vs) (settle env info o i key)
  unfolding settle
  settle-IsSound o i none = search announce-IsSound
  settle-IsSound o i (some key) = search (keeping, store-IsSound, after_store-IsSound)

  create_fresh-IsSound :
      (ctx : AuthContext) (args : NewIncident) (key : Option String)
      → Keeps (IsSound x es vs) (create_fresh env info ctx args key)
  unfolding create_fresh after_incident
  create_fresh-IsSound ctx args key =
      search (sound, create_incident-IsSound, settle-IsSound) depth 9

  replay_or_create-IsSound :
      (ctx : AuthContext) (args : NewIncident) (key : String) (row : Option IdempotencyKey)
      → Keeps (IsSound x es vs) (replay_or_create env info ctx args key row)
  unfolding replay_or_create
  replay_or_create-IsSound ctx args key none = search create_fresh-IsSound
  replay_or_create-IsSound ctx args key (some row) = search keeping

  create_in-IsSound :
      (ctx : AuthContext) (args : NewIncident) (key : Option String)
      → Keeps (IsSound x es vs) (create_in env info ctx args key)
  unfolding create_in stored_response
  create_in-IsSound ctx args none = search create_fresh-IsSound
  create_in-IsSound ctx args (some key) = search (keeping, replay_or_create-IsSound)

  edit_at-IsSound :
      (ctx : AuthContext) (id : ℕ) (edit : Edit) (header : Option String)
      → Keeps (IsSound x es vs) (edit_at env info ctx id edit header)
  unfolding edit_at edit_in after_edit
  edit_at-IsSound ctx id edit none = search keeping
  edit_at-IsSound ctx id edit (some header) =
      search (sound, from_result-IsSound, update_incident-IsSound) depth 14

module _ (x : ℕ) (es : Trail) (vs : List IncidentEvent) (env : Env) (i : AuditInfo) (o : String)
    (p : Principal) where
  pub perform_in-IsSound : (c : OrgCall) → Keeps (IsSound x es vs) (perform_in env i o p c)
  unfolding perform_in change_role_request remove_member_request invite_request
      revoke_invitation_request update_org_request create_service_request update_service_request
      delete_service_request create_schedule_request add_shift_request delete_shift_request
      create_api_key_request revoke_api_key_request create_request change_status_request
      update_request add_comment_request edit_comment_request delete_comment_request upload_request
  perform_in-IsSound (changes_role u r) = search (sound, change_role-IsSound) depth 14
  perform_in-IsSound (removes_member u) = search (sound, remove_member-IsSound) depth 14
  perform_in-IsSound (invites a r) = search (sound, create_invitation-IsSound) depth 14
  perform_in-IsSound (revokes_invitation n) = search (sound, revoke_invitation-IsSound) depth 14
  perform_in-IsSound (updates_org c) = search sound depth 14
  perform_in-IsSound (creates_service n d t tier) = search (sound, create_service-IsSound) depth 14
  perform_in-IsSound (updates_service v c) = search (sound, update_service-IsSound) depth 14
  perform_in-IsSound (deletes_service v) = search (sound, delete_service-IsSound) depth 14
  perform_in-IsSound (creates_schedule v n r) = search (sound, create_schedule-IsSound) depth 14
  perform_in-IsSound (adds_shift c u a b) = search (sound, add_shift-IsSound) depth 14
  perform_in-IsSound (deletes_shift c n) = search (sound, delete_shift-IsSound) depth 14
  perform_in-IsSound (creates_key n ps e) = search (sound, create_api_key-IsSound) depth 14
  perform_in-IsSound (revokes_key k) = search (sound, revoke_api_key-IsSound) depth 14
  perform_in-IsSound (creates_incident c k) = search (sound, create_in-IsSound) depth 14
  perform_in-IsSound (changes_status n c t) =
      search (sound, get_incident-IsSound, transition_status-IsSound) depth 18
  perform_in-IsSound (updates_incident n c m) = search (sound, edit_at-IsSound) depth 14
  perform_in-IsSound (comments n b) = search (sound, add_comment-IsSound) depth 14
  perform_in-IsSound (edits_comment n c b) = search (sound, edit_comment-IsSound) depth 14
  perform_in-IsSound (uploads m n u) = search (sound, save_attachment-IsSound) depth 14
  perform_in-IsSound (deletes_comment n c) = search (sound, delete_comment-IsSound) depth 14
