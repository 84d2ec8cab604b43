-- ===== src/Api/Incidents.antt =====
-- The handlers of backend/src/incident_desk/api/v1/incidents.py for incidents themselves.
use incident_desk.Prelude.{
  ℕ, String, concat, Bool, true, false, Option, none, some, List, [], ◌∷◌, if◌then◌else◌,
}
use incident_desk.Enums.{sev1, severity_eq, severity_value, IncidentStatus, status_value}
use incident_desk.Errors.{precondition_required}
use incident_desk.Models.{
  Organization, Incident, IncidentEvent, IdempotencyKey, Json, null, text, number, uid, texts, dict,
}
use incident_desk.Session.{
  Env, published, check_escalation, Result, Action, pure, raise, send, commit, rollback, ◌>>=◌,
  ◌>>◌,
}
use incident_desk.Authz.{
  incident_view, incident_create, incident_update, Principal, AuthContext, actor_id, require_user,
  require,
}
use incident_desk.Audit.{AuditInfo, record_audit}
use incident_desk.Escalation.Config.{parse_config}
use incident_desk.Idempotency.{stored_response, store}
use incident_desk.Incidents.{NewIncident, create_incident, get_incident, transition_status}
use incident_desk.Incidents.Edits.{Changes, update_incident}
use incident_desk.Incidents.Listing.{SortField, Filters, list_incidents}
use incident_desk.Timeline.{list_events}
use incident_desk.Api.Etag.{parse_if_match, etag}

-- the answer to a creation: `replayed` is the header `Idempotency-Replayed`
pub record Answer : Type 0 where
  pub status : ℕ
  pub body : String
  pub replayed : Bool

abbrev pub replay : IdempotencyKey → Answer
replay row = record { status = row.status_code; body = row.response_body; replayed = true }

abbrev pub created : String → Answer
created body = record { status = 201; body = body; replayed = false }

-- a call that raises or returns, without the session
unfoldable pub from_result : {A : Type 0} → Result A → Action A
from_result r s = (r, s)

abbrev pub org_channel : Organization → String
org_channel org = concat "org:" (concat org.slug ":incidents")

-- the payload of a `PATCH`: its changes, `sorted(model_fields_set)` and its dump
pub record Edit : Type 0 where
  pub changes : Changes
  pub fields_set : List String
  pub dumped : Json

module _ (env : Env) (info : AuditInfo) where
  abbrev pub incident_channel : ℕ → String
  incident_channel id = concat "incident:" (env.uuid_text id)

  -- the end of `create_incident`, from the commit on
  unfoldable pub announce : Organization → Incident → String → Action Answer
  unfolding from_result ◌>>=◌
  announce org incident body = do
    commit env
    send (
        published (org_channel org) (
          dict (
            ("type", text "incident.created")
            ∷ ("incident_id", uid incident.id)
            ∷ ("number", number incident.sequence_number)
            ∷ ("title", text incident.title)
            ∷ ("severity", text (severity_value incident.severity))
            ∷ [])))
    if severity_eq incident.severity sev1
        then (do
          config ← from_result (parse_config env org.settings)
          send (check_escalation incident.id 0 config.ack_timeout)
          pure (created body))
        else pure (created body)

  -- `winner is not None`
  unfoldable pub after_store : Organization → Incident → Option IdempotencyKey → Action Answer
  unfolding announce ◌>>=◌
  after_store org incident none = announce org incident (env.incident_json incident)
  after_store org incident (some row) = do rollback env; pure (replay row)

  -- `if idempotency_key is not None: ...` after the incident is made
  unfoldable pub settle : Organization → Incident → Option String → Action Answer
  unfolding announce after_store store ◌>>=◌
  settle org incident none = announce org incident (env.incident_json incident)
  settle org incident (some key) = do
    winner ← store env org.id key 201 (env.incident_json incident)
    after_store org incident winner

  -- what follows the user, and what follows the incident
  unfoldable pub after_incident : AuthContext → Option String → Incident → Action Answer
  unfolding record_audit settle ◌>>=◌
  after_incident ctx key incident = do
    record_audit env ctx.org.id (actor_id ctx) "incident.created" "incident" (some incident.id) null
        (dict (
          ("number", number incident.sequence_number)
          ∷ ("title", text incident.title)
          ∷ ("severity", text (severity_value incident.severity))
          ∷ []))
        info
    settle ctx.org incident key

  unfoldable pub create_fresh : AuthContext → NewIncident → Option String → Action Answer
  unfolding create_incident after_incident require_user ◌>>=◌
  create_fresh ctx args key = do
    user ← require_user ctx
    incident ← create_incident env ctx.org args user
    after_incident ctx key incident

  -- `existing is not None`
  unfoldable pub replay_or_create :
      AuthContext → NewIncident → String → Option IdempotencyKey → Action Answer
  unfolding create_fresh ◌>>=◌
  replay_or_create ctx args key none = create_fresh ctx args (some key)
  replay_or_create ctx args key (some row) = pure (replay row)

  unfoldable pub create_in : AuthContext → NewIncident → Option String → Action Answer
  unfolding create_fresh replay_or_create stored_response ◌>>=◌
  create_in ctx args none = create_fresh ctx args none
  create_in ctx args (some key) = do
    existing ← stored_response ctx.org.id key
    replay_or_create ctx args key existing

  unfoldable pub create_request : String → Principal → NewIncident → Option String → Action Answer
  unfolding create_in require ◌>>=◌
  create_request org_slug principal args key = do
    ctx ← require (incident_create ∷ []) org_slug principal
    create_in ctx args key

  unfoldable pub change_status_request :
      String → Principal → ℕ → IncidentStatus → Option String → Action Incident
  unfolding get_incident record_audit ◌>>=◌
  change_status_request org_slug principal id new_status summary = do
    ctx ← require (incident_update ∷ []) org_slug principal
    before ← get_incident ctx.org id
    incident ← transition_status env ctx.org id new_status ctx.user summary
    record_audit env ctx.org.id (actor_id ctx) "incident.status_changed" "incident"
        (some incident.id) (dict (("status", text (status_value before.status)) ∷ []))
        (dict (("status", text (status_value incident.status)) ∷ [])) info
    commit env
    let event = dict (
        ("type", text "incident.status_changed")
        ∷ ("incident_id", uid incident.id)
        ∷ ("from", text (status_value before.status))
        ∷ ("to", text (status_value incident.status))
        ∷ [])
    send (published (org_channel ctx.org) event)
    send (published (incident_channel incident.id) event)
    pure incident

  -- what follows the edit: the incident, and the header `ETag`
  unfoldable pub after_edit : AuthContext → Edit → Incident → Action (Incident × String)
  unfolding record_audit etag ◌>>=◌
  after_edit ctx edit incident = do
    record_audit env ctx.org.id (actor_id ctx) "incident.updated" "incident" (some incident.id) null
        edit.dumped info
    commit env
    let event = dict (
        ("type", text "incident.updated")
        ∷ ("incident_id", uid incident.id)
        ∷ ("fields", texts edit.fields_set)
        ∷ [])
    send (published (org_channel ctx.org) event)
    send (published (incident_channel incident.id) event)
    pure (incident, etag incident.version)

  unfoldable pub edit_in : AuthContext → ℕ → Edit → ℕ → Action (Incident × String)
  unfolding update_incident after_edit ◌>>=◌
  edit_in ctx id edit version = do
    incident ←
        update_incident env ctx.user ctx.org id
          (record edit.changes { expected_version = some version })
    after_edit ctx edit incident

  -- The header is read before the incident is looked for.
  unfoldable pub edit_at : AuthContext → ℕ → Edit → Option String → Action (Incident × String)
  unfolding edit_in from_result ◌>>=◌
  edit_at ctx id edit none = raise precondition_required
  edit_at ctx id edit (some header) = do
    version ← from_result (parse_if_match header)
    edit_in ctx id edit version

  unfoldable pub update_request :
      String → Principal → ℕ → Edit → Option String → Action (Incident × String)
  unfolding edit_at require ◌>>=◌
  update_request org_slug principal id edit if_match = do
    ctx ← require (incident_update ∷ []) org_slug principal
    edit_at ctx id edit if_match

  unfoldable pub get_request : String → Principal → ℕ → Action (Incident × String)
  unfolding get_incident etag ◌>>=◌
  get_request org_slug principal id = do
    ctx ← require (incident_view ∷ []) org_slug principal
    incident ← get_incident ctx.org id
    pure (incident, etag incident.version)

  unfoldable pub list_request :
      String
      → Principal
      → Filters
      → SortField
      → ℕ
      → Option (ℕ × ℕ)
      → Action (List Incident × Option (ℕ × ℕ))
  unfolding list_incidents ◌>>=◌
  list_request org_slug principal f sort limit cursor = do
    ctx ← require (incident_view ∷ []) org_slug principal
    list_incidents env ctx.org f sort limit cursor

  unfoldable pub events_request :
      String → Principal → ℕ → ℕ → Option ℕ → Action (List IncidentEvent × Option ℕ)
  unfolding get_incident list_events ◌>>=◌
  events_request org_slug principal id limit cursor = do
    ctx ← require (incident_view ∷ []) org_slug principal
    incident ← get_incident ctx.org id
    list_events incident.id limit cursor
