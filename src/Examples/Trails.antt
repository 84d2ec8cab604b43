-- ===== src/Examples/Trails.antt =====
-- Instances of the theorems on the audit log, on concurrent edits and on password resets.
use incident_desk.Prelude.{◌≡◌, refl, false, none, some, [], ◌∷◌}
use incident_desk.Enums.{viewer}
use incident_desk.Errors.{version_conflict, invalid_token}
use incident_desk.Models.{AuditLog, Incident, User, null}
use incident_desk.Session.{Session, ok, err, reply, written, serve}
use incident_desk.Session.Keeping.{Always}
use incident_desk.Authz.{user_session}
use incident_desk.Accounts.{reset_password}
use incident_desk.Accounts.Reset.{IsLoggedOut, reset_password-IsLoggedOut, reset_password_once}
use incident_desk.Api.LastOwner.{change, remove, perform_all}
use incident_desk.Api.AuditTrail.{IsExtension, member_requests-IsExtension}
use incident_desk.Incidents.{conflict_snapshot}
use incident_desk.Incidents.Edits.{Changes, update_incident}
use incident_desk.Incidents.LostUpdate.{second_edit_refused}
use incident_desk.Samples.{
  acme, ann, bob, outage, sample, sample_db, sample_env, sample_info, session_on,
}

abbrev entry : AuditLog
entry = record {
  id = 101;
  org_id = 1;
  actor_id = some 7;
  action = "member.removed";
  resource_type = "membership";
  resource_id = some 6;
  before = null;
  after = null;
  ip_address = none;
  user_agent = none;
  created_at = 5;
}

abbrev audited : Session
audited = session_on (record sample_db { audit_log = entry ∷ [] })

audited-IsExtension : Always (IsExtension (entry ∷ [])) audited
audited-IsExtension = (([], refl), ([], refl))

entry_after_requests : Always (IsExtension (entry ∷ [])) (
    serve
      (perform_all sample_env sample_info
        (change "acme" (user_session ann) 8 viewer ∷ remove "acme" (user_session ann) 8 ∷ []))
      audited)
entry_after_requests =
    member_requests-IsExtension sample_env sample_info (entry ∷ [])
      (change "acme" (user_session ann) 8 viewer ∷ remove "acme" (user_session ann) 8 ∷ []) audited
      audited-IsExtension

abbrev redescribed : Changes
redescribed = record {
  title = none;
  description = some "timeouts";
  severity = none;
  tags = none;
  assigned_to = none;
  assignee_provided = false;
  expected_version = some 1;
}

abbrev outage_2 : Incident
outage_2 = record outage { description = "timeouts"; version = 2 }

first_edit : reply (update_incident sample_env (some ann) acme 41 redescribed) sample ≡ ok outage_2
unfolding update_incident
first_edit = refl

second_edit_refused_example :
    update_incident sample_env
      (some bob)
      acme
      41
      redescribed
      (update_incident sample_env (some ann) acme 41 redescribed sample).1
    ≡ (
      err (version_conflict (conflict_snapshot outage_2)),
      (update_incident sample_env (some ann) acme 41 redescribed sample).1,
    )
second_edit_refused_example =
    second_edit_refused sample_env (some ann) acme 41 redescribed sample (some bob) redescribed 1
      outage_2 refl refl first_edit

abbrev forgetful : Session
forgetful = session_on (record sample_db {
  reset_tokens =
      record { id = 95; user_id = 7; token_hash = "link"; expires_at = 9_000; consumed_at = none }
      ∷ [];
})

abbrev ann_reset : User
ann_reset = record ann { password_hash = "new"; token_version = 1 }

ann_resets : reply (reset_password sample_env "link" "new") forgetful ≡ ok ann_reset
unfolding reset_password
ann_resets = refl

reset_password-IsLoggedOut_example :
    IsLoggedOut 7 (written (reset_password sample_env "link" "new") forgetful).refresh_tokens
reset_password-IsLoggedOut_example =
    reset_password-IsLoggedOut sample_env "link" "new" forgetful ann_reset ann_resets

reset_password_once_example :
    reset_password sample_env "link" "other" (reset_password sample_env "link" "new" forgetful).1
    ≡ (err invalid_token, (reset_password sample_env "link" "new" forgetful).1)
reset_password_once_example =
    reset_password_once sample_env "link" "new" forgetful ann_reset ann_resets "other"
