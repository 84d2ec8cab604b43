-- ===== src/System/Calls.antt =====
-- The calls that change the database: the handlers of api/v1 under backend/src/incident_desk behind
-- the credentials that api/deps.py resolves, and the jobs of jobs/tasks.py.
use incident_desk.Prelude.{ℕ, String, Option, List, [], ◌∷◌}
use incident_desk.Enums.{Role, IncidentStatus, ServiceTier}
use incident_desk.Models.{Json}
use incident_desk.Session.{Env, Action, ⊤, pure, ◌>>=◌, ◌>>◌}
use incident_desk.Authz.{Permission, Principal}
use incident_desk.Audit.{AuditInfo}
use incident_desk.Sessions.{Settings}
use incident_desk.Incidents.{NewIncident}
use incident_desk.Principals.{get_current_user, get_principal}
use incident_desk.Models.{User}
use incident_desk.Jobs.Metrics.{compute_daily_metrics_for}
use incident_desk.Jobs.{
  RetentionSettings, check_escalation_job, scan_attachment, prune_retention_now,
}
use incident_desk.Api.Auth.{
  register, verify, login, mfa_challenge, refresh, logout, forgot_password, reset,
  resend_verification, mfa_enroll, mfa_verify,
}
use incident_desk.Api.Members.{
  change_role_request, remove_member_request, invite_request, revoke_invitation_request,
  accept_invitation_request,
}
use incident_desk.Api.Incidents.{Edit, create_request, change_status_request, update_request}
use incident_desk.Attachments.{Upload}
use incident_desk.Api.Attachments.{upload_request}
use incident_desk.Api.Comments.{add_comment_request, edit_comment_request, delete_comment_request}
use incident_desk.Api.Orgs.{
  OrgUpdate, ServiceUpdate, create_org_request, update_org_request, create_service_request,
  update_service_request, delete_service_request,
}
use incident_desk.Api.OnCall.{create_schedule_request, add_shift_request, delete_shift_request}
use incident_desk.Api.ApiKeys.{create_api_key_request, revoke_api_key_request}

-- without credentials
pub data PublicCall : Type 0 where
  registers : String → String → String → PublicCall
  verifies logs_out forgets asks_again refreshes : String → PublicCall
  logs_in challenges resets : String → String → PublicCall

-- with the access token of a user
pub data UserCall : Type 0 where
  enrolls : UserCall
  confirms accepts : String → UserCall
  opens_org : String → String → UserCall

-- with an access token or an API key, in an organisation
pub data OrgCall : Type 0 where
  changes_role : ℕ → Role → OrgCall
  removes_member revokes_invitation revokes_key deletes_service : ℕ → OrgCall
  invites : String → Role → OrgCall
  updates_org : OrgUpdate → OrgCall
  creates_service : String → String → String → ServiceTier → OrgCall
  updates_service : ℕ → ServiceUpdate → OrgCall
  creates_schedule : ℕ → String → Json → OrgCall
  adds_shift : ℕ → ℕ → ℕ → ℕ → OrgCall
  deletes_shift deletes_comment : ℕ → ℕ → OrgCall
  uploads : ℕ → ℕ → Upload → OrgCall
  creates_key : String → List Permission → Option ℕ → OrgCall
  creates_incident : NewIncident → Option String → OrgCall
  changes_status : ℕ → IncidentStatus → Option String → OrgCall
  updates_incident : ℕ → Edit → Option String → OrgCall
  comments : ℕ → String → OrgCall
  edits_comment : ℕ → ℕ → String → OrgCall

-- the bearer credentials of a request, the slug in its path, and what the audit log notes of it
pub data Call : Type 0 where
  anonymous : PublicCall → Call
  by_user : Option String → AuditInfo → UserCall → Call
  in_org : Option String → AuditInfo → String → OrgCall → Call
  escalates scans : ℕ → ℕ → Call
  rolls_up : Option ℕ → Call
  prunes : Call

module _ (env : Env) (settings : Settings) where
  unfoldable pub perform_public : PublicCall → Action ⊤
  unfolding ◌>>=◌
  perform_public (registers a p n) = register env a p n >> pure tt
  perform_public (verifies t) = verify env t >> pure tt
  perform_public (logs_in a p) = login env settings a p >> pure tt
  perform_public (challenges t c) = mfa_challenge env settings t c >> pure tt
  perform_public (refreshes t) = refresh env settings t >> pure tt
  perform_public (logs_out t) = logout env t
  perform_public (forgets a) = forgot_password env a
  perform_public (resets t p) = reset env t p >> pure tt
  perform_public (asks_again a) = resend_verification env a

module _ (env : Env) where
  unfoldable pub perform_by : AuditInfo → User → UserCall → Action ⊤
  unfolding ◌>>=◌
  perform_by info u enrolls = mfa_enroll env u >> pure tt
  perform_by info u (confirms c) = mfa_verify env u c >> pure tt
  perform_by info u (accepts t) = accept_invitation_request env info u t >> pure tt
  perform_by info u (opens_org n slug) = create_org_request env n slug u >> pure tt

  unfoldable pub perform_in : AuditInfo → String → Principal → OrgCall → Action ⊤
  unfolding ◌>>=◌
  perform_in i o p (changes_role u r) = change_role_request env i o p u r >> pure tt
  perform_in i o p (removes_member u) = remove_member_request env i o p u
  perform_in i o p (invites a r) = invite_request env i o p a r >> pure tt
  perform_in i o p (revokes_invitation n) = revoke_invitation_request env i o p n
  perform_in i o p (updates_org c) = update_org_request env i o p c >> pure tt
  perform_in i o p (creates_service n d t tier) =
      create_service_request env i o p n d t tier >> pure tt
  perform_in i o p (updates_service v c) = update_service_request env i o p v c >> pure tt
  perform_in i o p (deletes_service v) = delete_service_request env i o p v
  perform_in i o p (creates_schedule v n r) = create_schedule_request env o p v n r >> pure tt
  perform_in i o p (adds_shift c u a b) = add_shift_request env o p c u a b >> pure tt
  perform_in i o p (deletes_shift c n) = delete_shift_request env o p c n
  perform_in i o p (creates_key n ps e) = create_api_key_request env i o p n ps e >> pure tt
  perform_in i o p (revokes_key k) = revoke_api_key_request env i o p k
  perform_in i o p (creates_incident c k) = create_request env i o p c k >> pure tt
  perform_in i o p (changes_status n c t) = change_status_request env i o p n c t >> pure tt
  perform_in i o p (updates_incident n c m) = update_request env i o p n c m >> pure tt
  perform_in i o p (comments n b) = add_comment_request env i o p n b >> pure tt
  perform_in i o p (edits_comment n c b) = edit_comment_request env i o p n c b >> pure tt
  perform_in i o p (uploads m n u) = upload_request env i o p m n u >> pure tt
  perform_in i o p (deletes_comment n c) = delete_comment_request env i o p n c

module _ (env : Env) (settings : Settings) (retention : RetentionSettings) where
  unfoldable pub perform : Call → Action ⊤
  unfolding perform_public perform_by perform_in ◌>>=◌
  perform (anonymous c) = perform_public env settings c
  perform (by_user bearer info c) = do
    user ← get_current_user env bearer
    perform_by env info user c
  perform (in_org bearer info slug c) = do
    principal ← get_principal env bearer
    perform_in env info slug principal c
  perform (escalates id level) = check_escalation_job env id level
  perform (rolls_up day) = compute_daily_metrics_for env day >> pure tt
  perform prunes = prune_retention_now env retention >> pure tt
  perform (scans id incident_id) = scan_attachment env id incident_id

  unfoldable pub perform_all : List Call → List (Action ⊤)
  unfolding perform
  perform_all [] = []
  perform_all (c ∷ cs) = perform c ∷ perform_all cs
