-- ===== src/Incidents/Uncommitted.antt =====
-- The operations of services/incidents.py commit nothing themselves.
use incident_desk.Prelude.{ℕ, Option, none, some, String}
use incident_desk.Enums.{
  Severity, IncidentStatus, opened, acknowledged, mitigated, resolved, postmortem,
}
use incident_desk.Models.{Organization, User, Incident, Json}
use incident_desk.Session.{Env}
use incident_desk.Session.Pending.{Pending, pending}
use incident_desk.Timeline.{record_event}
use incident_desk.Incidents.{
  save, stamp_acknowledged, stamp_resolved, get_incident, require_assignee, require_member,
  transition_status, create_incident, insert_incident, NewIncident, allocate_sequence_number,
}
use incident_desk.Incidents.Edits.{
  Changes, update_incident, apply_severity, apply_assignment, apply_fields,
}

module _ (env : Env) where
  pub record_event-Pending :
      (id : ℕ) (a : Option ℕ) (t : String) (p : Json) → Pending (record_event env id a t p)
  unfolding record_event
  record_event-Pending id a t p = search pending depth 7

  require_assignee-Pending : (org_id : ℕ) (o : Option ℕ) → Pending (require_assignee org_id o)
  unfolding require_assignee require_member
  require_assignee-Pending org_id none = search pending
  require_assignee-Pending org_id (some u) = search pending

  pub get_incident-Pending : (org : Organization) (id : ℕ) → Pending (get_incident org id)
  unfolding get_incident
  get_incident-Pending org id = search pending

  save-Pending : (i : Incident) → Pending (save i)
  unfolding save
  save-Pending i = search pending

  severity-Pending :
      (actor : Option User) (o : Option Severity) (i : Incident)
      → Pending (apply_severity env actor o i)
  unfolding apply_severity
  severity-Pending actor none i = search pending
  severity-Pending actor (some v) i = search (pending, record_event-Pending) depth 12

  assignment-Pending :
      (actor : Option User) (org_id : ℕ) (c : Changes) (i : Incident)
      → Pending (apply_assignment env actor org_id c i)
  unfolding apply_assignment
  assignment-Pending actor org_id c i =
      search (pending, require_assignee-Pending, record_event-Pending) depth 12

  fields-Pending :
      (actor : Option User) (c : Changes) (i : Incident) → Pending (apply_fields env actor c i)
  unfolding apply_fields
  fields-Pending actor c i = search (pending, record_event-Pending) depth 9

  pub update_incident-Pending :
      (actor : Option User) (org : Organization) (id : ℕ) (c : Changes)
      → Pending (update_incident env actor org id c)
  unfolding update_incident
  update_incident-Pending actor org id c =
      search (pending, get_incident-Pending, severity-Pending, assignment-Pending, fields-Pending)
        depth 12

  acknowledged-Pending :
      (new : IncidentStatus) (i : Incident) → Pending (stamp_acknowledged env new i)
  unfolding stamp_acknowledged
  acknowledged-Pending opened i = search pending
  acknowledged-Pending acknowledged i = search pending depth 7
  acknowledged-Pending mitigated i = search pending
  acknowledged-Pending resolved i = search pending
  acknowledged-Pending postmortem i = search pending

  resolved-Pending :
      (new : IncidentStatus) (summary : Option String) (i : Incident)
      → Pending (stamp_resolved env new summary i)
  unfolding stamp_resolved
  resolved-Pending opened summary i = search pending
  resolved-Pending acknowledged summary i = search pending
  resolved-Pending mitigated summary i = search pending
  resolved-Pending resolved summary i = search pending depth 7
  resolved-Pending postmortem summary i = search pending

  pub transition_status-Pending :
      (org : Organization) (id : ℕ) (new : IncidentStatus) (actor : Option User)
      (summary : Option String)
      → Pending (transition_status env org id new actor summary)
  unfolding transition_status
  transition_status-Pending org id new actor summary =
      search
        (
          pending, get_incident-Pending, acknowledged-Pending, resolved-Pending,
          record_event-Pending,
        )
        depth 14

  insert_incident-Pending :
      (org : Organization) (args : NewIncident) (by : User)
      → Pending (insert_incident env org args by)
  unfolding insert_incident allocate_sequence_number
  insert_incident-Pending org args by = search (pending, record_event-Pending) depth 14

  pub create_incident-Pending :
      (org : Organization) (args : NewIncident) (by : User)
      → Pending (create_incident env org args by)
  unfolding create_incident
  create_incident-Pending org args by =
      search (pending, require_assignee-Pending, insert_incident-Pending) depth 9
