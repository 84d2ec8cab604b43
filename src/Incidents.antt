-- ===== src/Incidents.antt =====
-- The incident lifecycle: backend/src/incident_desk/services/incidents.py, except for the listing.
pub mod LostUpdate
pub mod Rewritten
pub mod Gapless
pub mod Uncommitted
pub mod Edits
pub mod Listing
pub mod Pages
pub mod Numbers
pub mod Transitions
pub mod Concurrency
use incident_desk.Prelude.{
  ℕ, suc, ◌+◌, ◌==◌, opt_eq, String, str_eq, strip, is_empty, Bool, true, false, not, ◌&&◌, ◌||◌,
  Option, none, some, List, [], ◌∷◌, ◌++◌, is_some, find, update_where, if◌then◌else◌,
}
use incident_desk.Enums.{
  Severity, IncidentStatus, opened, acknowledged, resolved, severity_eq, status_eq, severity_value,
  status_value,
}
use incident_desk.Errors.{
  Snapshot, not_found, assignee_not_a_member, illegal_transition, resolution_required,
  version_conflict, integrity_error,
}
use incident_desk.Models.{
  Organization, Membership, Service, OrganizationCounter, User, Incident, Json, text, texts, number,
  uid, dict, opt_uid,
}
use incident_desk.Session.{
  Database, Session, Env, Action, ⊤, pure, gets, or_raise, raise_if, modify, when, now, new_uuid,
  database_now, ◌>>=◌, ◌>>◌,
}
use incident_desk.StateMachine.{allowed_targets, is_legal}
use incident_desk.Members.{is_membership}
use incident_desk.Timeline.{record_event}

-- `_conflict_snapshot`
abbrev pub conflict_snapshot : Incident → Snapshot
conflict_snapshot i = record {
  current_version = i.version;
  title = i.title;
  description = i.description;
  severity = i.severity;
  status = i.status;
  assigned_to = i.assigned_to;
  tags = i.tags;
}

abbrev pub has_counter : ℕ → OrganizationCounter → Bool
has_counter org_id c = c.org_id == org_id

-- `counter.incident_seq += 1`
abbrev pub bump : OrganizationCounter → OrganizationCounter
bump c = record c { incident_seq = c.incident_seq + 1 }

-- The row is locked until the transaction ends, so no other one reads it in between.
unfoldable pub allocate_sequence_number : ℕ → Action ℕ
unfolding ◌>>=◌
allocate_sequence_number org_id = do
  found ← gets (λ d. find (has_counter org_id) d.counters)
  counter ← or_raise found not_found
  modify (λ d. record d { counters = update_where (has_counter org_id) bump d.counters })
  pure (counter.incident_seq + 1)

-- the primary key
abbrev pub has_incident_id : ℕ → Incident → Bool
has_incident_id id i = i.id == id

abbrev pub is_incident : ℕ → ℕ → Incident → Bool
is_incident org_id id i = i.org_id == org_id && i.id == id

unfoldable pub get_incident : Organization → ℕ → Action Incident
unfolding ◌>>=◌
get_incident org id = do
  found ← gets (λ d. find (is_incident org.id id) d.incidents)
  or_raise found not_found

-- `actor.id if actor else None`
abbrev pub user_id_of : Option User → Option ℕ
user_id_of none = none
user_id_of (some u) = some u.id

-- The changes of a mapped incident, written to its row.
unfoldable pub save : Incident → Action ⊤
unfolding ◌>>=◌
save incident = modify (λ d. record d {
  incidents = update_where (has_incident_id incident.id) (λ _. incident) d.incidents;
})

unfoldable pub require_member : ℕ → ℕ → Action ⊤
unfolding ◌>>=◌
require_member org_id user_id = do
  found ← gets (λ d. find (is_membership user_id org_id) d.memberships)
  raise_if (not (is_some found)) assignee_not_a_member

-- `if assigned_to is not None: await _require_member(...)`
unfoldable pub require_assignee : ℕ → Option ℕ → Action ⊤
unfolding require_member ◌>>=◌
require_assignee org_id none = pure tt
require_assignee org_id (some u) = require_member org_id u

abbrev pub is_service : ℕ → ℕ → Service → Bool
is_service org_id id v = v.org_id == org_id && v.id == id

-- the keyword arguments of `create_incident`
pub record NewIncident : Type 0 where
  pub service_id : ℕ
  pub title : String
  pub description : String
  pub severity : Severity
  pub assigned_to : Option ℕ
  pub started_at : Option ℕ
  pub tags : List String

abbrev pub or_default : Option ℕ → ℕ → ℕ
or_default none d = d
or_default (some t) d = t

-- `(resolution_summary or "").strip()`
abbrev pub summary_text : Option String → String
summary_text none = strip ""
summary_text (some s) = strip s

abbrev pub created_payload : NewIncident → ℕ → Json
created_payload args n = dict (
    ("severity", text (severity_value args.severity))
    ∷ ("service_id", uid args.service_id)
    ∷ ("number", number n)
    ∷ [])

abbrev pub new_incident : ℕ → NewIncident → ℕ → ℕ → ℕ → ℕ → Incident
new_incident org_id args reported_by sequence_number id at = record {
  id = id;
  org_id = org_id;
  service_id = args.service_id;
  sequence_number = sequence_number;
  title = args.title;
  description = args.description;
  severity = args.severity;
  status = opened;
  reported_by = reported_by;
  assigned_to = args.assigned_to;
  started_at = or_default args.started_at at;
  acknowledged_at = none;
  resolved_at = none;
  resolution_summary = none;
  tags = args.tags;
  version = 1;
  created_at = at;
}

module _ (env : Env) where
  -- `create_incident` from the allocation of the number on
  unfoldable pub insert_incident : Organization → NewIncident → User → Action Incident
  unfolding allocate_sequence_number record_event ◌>>=◌
  insert_incident org args reported_by = do
    sequence_number ← allocate_sequence_number org.id
    id ← new_uuid env
    at ← database_now
    let incident : Incident = new_incident org.id args reported_by.id sequence_number id at
    taken ← gets (λ d. is_some (find (has_incident_id id) d.incidents))
    raise_if taken integrity_error
    modify (λ d. record d { incidents = d.incidents ++ incident ∷ [] })
    record_event env id (some reported_by.id) "incident.created"
        (created_payload args sequence_number)
    pure incident

  unfoldable pub create_incident : Organization → NewIncident → User → Action Incident
  unfolding require_assignee insert_incident ◌>>=◌
  create_incident org args reported_by = do
    service ← gets (λ d. find (is_service org.id args.service_id) d.services)
    raise_if (not (is_some service)) not_found
    require_assignee org.id args.assigned_to
    insert_incident org args reported_by

  -- the two conditional stamps
  unfoldable pub stamp_acknowledged : IncidentStatus → Incident → Action Incident
  unfolding ◌>>=◌
  stamp_acknowledged acknowledged incident =
      if is_some incident.acknowledged_at
      then pure incident
      else do at ← now env; pure (record incident { acknowledged_at = some at })
  stamp_acknowledged _ incident = pure incident

  unfoldable pub stamp_resolved : IncidentStatus → Option String → Incident → Action Incident
  unfolding ◌>>=◌
  stamp_resolved resolved summary incident = do
    at ← now env
    pure (record incident {
      resolved_at = some at;
      resolution_summary = some (summary_text summary);
    })
  stamp_resolved _ summary incident = pure incident

  unfoldable pub transition_status :
      Organization → ℕ → IncidentStatus → Option User → Option String → Action Incident
  unfolding get_incident stamp_acknowledged stamp_resolved save record_event is_legal ◌>>=◌
  transition_status org incident_id new_status actor resolution_summary = do
    incident ← get_incident org incident_id
    raise_if (not (is_legal incident.status new_status))
        (illegal_transition incident.status new_status (allowed_targets incident.status))
    raise_if (status_eq new_status resolved && is_empty (summary_text resolution_summary))
        resolution_required
    moved ←
        stamp_acknowledged new_status
          (record incident { status = new_status; version = incident.version + 1 })
    stamped ← stamp_resolved new_status resolution_summary moved
    save stamped
    record_event env incident.id (user_id_of actor) "status.changed" (
        dict (
          ("from", text (status_value incident.status))
          ∷ ("to", text (status_value new_status))
          ∷ []))
    pure stamped
