-- ===== src/Examples/Runs.antt =====
-- Instances of the theorem on all calls of the program.
use incident_desk.Prelude.{refl, none, some, [], ◌∷◌, arith, List, all-Thinned}
use incident_desk.Enums.{sev1, viewer, acknowledged}
use incident_desk.Models.{AuditLog, IncidentEvent, null}
use incident_desk.Session.{Session, Env, serve}
use incident_desk.Session.Keeping.{Always}
use incident_desk.Incidents.{NewIncident}
use incident_desk.Timeline.{event_row}
use incident_desk.Jobs.{RetentionSettings}
use incident_desk.System.Sound.{IsSound, Trail, trail_of}
use incident_desk.System.Calls.{
  Call, anonymous, by_user, in_org, escalates, prunes, logs_in, opens_org, creates_incident,
  changes_role, changes_status, perform_all,
}
use incident_desk.System.Invariant.{cleanups, calls-IsSound}
use incident_desk.Session.Whole.{IsWhole}
use incident_desk.System.Refusals.{org_call-IsWhole}
use incident_desk.System.Calls.{perform_in}
use incident_desk.Authz.{user_session}
use incident_desk.Samples.{ann, sample_db, sample_env, sample_info, sample_settings, session_on}

-- every access token is the one of user 7
abbrev open_env : Env
open_env = record sample_env {
  decode_access = λ at t. some (record { user_id = 7; token_version = 0 });
}

abbrev entry : AuditLog
entry = record {
  id = 101;
  org_id = 1;
  actor_id = some 7;
  action = "org.updated";
  resource_type = "organization";
  resource_id = some 1;
  before = null;
  after = null;
  ip_address = none;
  user_agent = none;
  created_at = 5;
}

abbrev event : IncidentEvent
event = event_row 102 0 41 (some 7) "incident.created" null

abbrev running : Session
running = session_on (record sample_db { audit_log = entry ∷ []; events = event ∷ [] })

abbrev windows : RetentionSettings
windows = record { idempotency_retention = 100; audit_retention = 2; expired_token_grace = 50 }

abbrev slow : NewIncident
slow = record {
  service_id = 21;
  title = "slow";
  description = "";
  severity = sev1;
  assigned_to = some 8;
  started_at = none;
  tags = [];
}

abbrev calls : List Call
calls =
    anonymous (logs_in "ann" "pw")
    ∷ by_user (some "t") sample_info (opens_org "Beta" "beta")
    ∷ in_org (some "t") sample_info "acme" (creates_incident slow none)
    ∷ in_org (some "t") sample_info "acme" (changes_status 41 acknowledged none)
    ∷ in_org (some "t") sample_info "acme" (changes_role 7 viewer)
    ∷ escalates 41 0
    ∷ prunes
    ∷ []

abbrev trail : Trail
trail = trail_of windows (cleanups open_env sample_settings windows calls running) (entry ∷ [])

running-IsSound : Always (IsSound 1 trail (event ∷ [])) running
running-IsSound =
    let h : IsSound 1 trail (event ∷ []) running.db = (
      ((refl, (refl, tt)), omega arith),
      (((refl, tt), refl), (tt, ((entry ∷ [], 0, all-Thinned _ _, ([], refl)), ([], refl)))),
    ) in
    (h, h)

calls-IsSound_example :
    Always
      (IsSound 1 trail (event ∷ []))
      (serve (perform_all open_env sample_settings windows calls) running)
calls-IsSound_example =
    calls-IsSound open_env sample_settings windows 1 (entry ∷ []) (event ∷ []) calls running
      running-IsSound

org_call-IsWhole_example :
    IsWhole
      (perform_in open_env sample_info "acme" (user_session ann) (changes_role 7 viewer) running)
      running
org_call-IsWhole_example =
    org_call-IsWhole open_env sample_info "acme" (user_session ann) (changes_role 7 viewer) running
      refl
