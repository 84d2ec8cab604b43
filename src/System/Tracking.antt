-- ===== src/System/Tracking.antt =====
-- What services/incidents.py, services/comments.py and jobs/tasks.py keep of the invariant of the
-- program.
use incident_desk.Prelude.{ℕ, String, List, [], ◌∷◌, ◌++◌, Option, none, some}
use incident_desk.Models.{IncidentEvent, User, Organization, Incident, Comment, Json}
use incident_desk.Enums.{
  Severity, IncidentStatus, opened, acknowledged, mitigated, resolved, postmortem,
}
use incident_desk.Session.{Database, Env, modify}
use incident_desk.Session.Keeping.{Keeps, keeping, Keeps-modify, Keeps-and}
use incident_desk.Timeline.{append_event, record_event}
use incident_desk.Members.Owners.{HasOwner}
use incident_desk.OnCall.Disjoint.{HasDisjointShifts}
use incident_desk.Incidents.{
  save, stamp_acknowledged, stamp_resolved, get_incident, require_assignee, require_member,
  transition_status, create_incident, insert_incident, NewIncident, allocate_sequence_number,
}
use incident_desk.Incidents.Edits.{
  Changes, update_incident, apply_severity, apply_assignment, apply_fields,
}
use incident_desk.Incidents.Numbers.{create_incident-Keeps}
use incident_desk.Incidents.Gapless.{update_incident-IsGapless, transition_status-IsGapless}
use incident_desk.Comments.{get_comment, save_comment, add_comment, edit_comment, delete_comment}
use incident_desk.Attachments.{Upload, new_storage_key, save_attachment}
use incident_desk.System.Sound.{Trail, IsSound, HasLogs, sound, event-IsContinued}

-- What the incident lifecycle writes, kept by a property that does not look at incidents.
record Ignores (P : Database → Type 0) : Type 0 where
  event : (e : IncidentEvent) → Keeps P (modify (append_event e))
  row : (i : Incident) → Keeps P (save i)
  counter : (org_id : ℕ) → Keeps P (allocate_sequence_number org_id)
  added : (i : Incident) → Keeps P (modify (λ d. record d { incidents = d.incidents ++ i ∷ [] }))

module _ {P : Database → Type 0} (g : Ignores P) (env : Env) where
  event-Keeps :
      (id : ℕ) (a : Option ℕ) (t : String) (p : Json) → Keeps P (record_event env id a t p)
  unfolding record_event
  event-Keeps id a t p = search (keeping, g.event) depth 7

  assignee-Keeps : (org_id : ℕ) (o : Option ℕ) → Keeps P (require_assignee org_id o)
  unfolding require_assignee require_member
  assignee-Keeps org_id none = search keeping
  assignee-Keeps org_id (some u) = search keeping

  severity-Keeps :
      (actor : Option User) (o : Option Severity) (i : Incident)
      → Keeps P (apply_severity env actor o i)
  unfolding apply_severity
  severity-Keeps actor none i = search keeping
  severity-Keeps actor (some v) i = search (keeping, event-Keeps, g.row) depth 12

  assignment-Keeps :
      (actor : Option User) (org_id : ℕ) (c : Changes) (i : Incident)
      → Keeps P (apply_assignment env actor org_id c i)
  unfolding apply_assignment
  assignment-Keeps actor org_id c i = search (keeping, assignee-Keeps, event-Keeps, g.row) depth 12

  fields-Keeps :
      (actor : Option User) (c : Changes) (i : Incident) → Keeps P (apply_fields env actor c i)
  unfolding apply_fields
  fields-Keeps actor c i = search (keeping, event-Keeps, g.row) depth 9

  update_incident-Keeps :
      (actor : Option User) (org : Organization) (id : ℕ) (c : Changes)
      → Keeps P (update_incident env actor org id c)
  unfolding update_incident get_incident
  update_incident-Keeps actor org id c =
      search (keeping, severity-Keeps, assignment-Keeps, fields-Keeps, g.row) depth 14

  acknowledged-Keeps :
      (new : IncidentStatus) (i : Incident) → Keeps P (stamp_acknowledged env new i)
  unfolding stamp_acknowledged
  acknowledged-Keeps opened i = search keeping
  acknowledged-Keeps acknowledged i = search keeping depth 7
  acknowledged-Keeps mitigated i = search keeping
  acknowledged-Keeps resolved i = search keeping
  acknowledged-Keeps postmortem i = search keeping

  resolved-Keeps :
      (new : IncidentStatus) (summary : Option String) (i : Incident)
      → Keeps P (stamp_resolved env new summary i)
  unfolding stamp_resolved
  resolved-Keeps opened summary i = search keeping
  resolved-Keeps acknowledged summary i = search keeping
  resolved-Keeps mitigated summary i = search keeping
  resolved-Keeps resolved summary i = search keeping depth 7
  resolved-Keeps postmortem summary i = search keeping

  transition_status-Keeps :
      (org : Organization) (id : ℕ) (new : IncidentStatus) (actor : Option User)
      (summary : Option String)
      → Keeps P (transition_status env org id new actor summary)
  unfolding transition_status get_incident
  transition_status-Keeps org id new actor summary =
      search (keeping, acknowledged-Keeps, resolved-Keeps, event-Keeps, g.row) depth 14

  new_incident-Keeps :
      (org : Organization) (args : NewIncident) (by : User)
      → Keeps P (create_incident env org args by)
  unfolding create_incident insert_incident
  new_incident-Keeps org args by =
      search (keeping, assignee-Keeps, event-Keeps, g.counter, g.added) depth 16

owner-Ignores : (x : ℕ) → Ignores (HasOwner x)
unfolding save allocate_sequence_number
owner-Ignores x = record {
  event = λ e. Keeps-modify _ (λ d h. h);
  row = λ i. search keeping;
  counter = λ org_id. search keeping depth 9;
  added = λ i. Keeps-modify _ (λ d h. h);
}

module _ (es : Trail) (vs : List IncidentEvent) where
  -- the part of the invariant on shifts and on the two logs
  abbrev KeptRows : Database → Type 0
  KeptRows d = HasDisjointShifts d × HasLogs es vs d

  rows-Ignores : Ignores KeptRows
  unfolding save allocate_sequence_number
  rows-Ignores = record {
    event = λ e. Keeps-modify _ (λ d (s, (l, t)). (s, (l, event-IsContinued vs d e t)));
    row = λ i. search keeping;
    counter = λ org_id. search keeping depth 9;
    added = λ i. Keeps-modify _ (λ d h. h);
  }

module _ (x : ℕ) (es : Trail) (vs : List IncidentEvent) (env : Env) where
  pub update_incident-IsSound :
      (actor : Option User) (org : Organization) (id : ℕ) (c : Changes)
      → Keeps (IsSound x es vs) (update_incident env actor org id c)
  update_incident-IsSound actor org id c =
      Keeps-and _ (update_incident-Keeps (owner-Ignores x) env actor org id c) (
        Keeps-and _ (update_incident-IsGapless env actor org c x id)
          (update_incident-Keeps (rows-Ignores es vs) env actor org id c))

  pub transition_status-IsSound :
      (org : Organization) (id : ℕ) (new : IncidentStatus) (actor : Option User)
      (summary : Option String)
      → Keeps (IsSound x es vs) (transition_status env org id new actor summary)
  transition_status-IsSound org id new actor summary =
      Keeps-and _ (transition_status-Keeps (owner-Ignores x) env org id new actor summary) (
        Keeps-and _ (transition_status-IsGapless env x org id new actor summary)
          (transition_status-Keeps (rows-Ignores es vs) env org id new actor summary))

  pub create_incident-IsSound :
      (org : Organization) (args : NewIncident) (by : User)
      → Keeps (IsSound x es vs) (create_incident env org args by)
  create_incident-IsSound org args by =
      Keeps-and _ (new_incident-Keeps (owner-Ignores x) env org args by) (
        Keeps-and _ (create_incident-Keeps env x org args by)
          (new_incident-Keeps (rows-Ignores es vs) env org args by))

  pub get_incident-IsSound :
      (org : Organization) (id : ℕ) → Keeps (IsSound x es vs) (get_incident org id)
  unfolding get_incident
  get_incident-IsSound org id = search keeping

  save_comment-IsSound : (c : Comment) → Keeps (IsSound x es vs) (save_comment c)
  unfolding save_comment
  save_comment-IsSound c = search keeping

  pub add_comment-IsSound :
      (org : Organization) (id : ℕ) (author : User) (body : String)
      → Keeps (IsSound x es vs) (add_comment env org id author body)
  unfolding add_comment get_incident
  add_comment-IsSound org id author body = search sound depth 12

  pub edit_comment-IsSound :
      (org : Organization) (id comment_id : ℕ) (actor : User) (body : String)
      → Keeps (IsSound x es vs) (edit_comment env org id comment_id actor body)
  unfolding edit_comment get_comment
  edit_comment-IsSound org id comment_id actor body = search (sound, save_comment-IsSound) depth 12

  pub delete_comment-IsSound :
      (org : Organization) (id comment_id : ℕ) (actor : User) (can : _)
      → Keeps (IsSound x es vs) (delete_comment env org id comment_id actor can)
  unfolding delete_comment get_comment
  delete_comment-IsSound org id comment_id actor can = search (sound, save_comment-IsSound) depth 12

  new_storage_key-IsSound : (id : ℕ) → Keeps (IsSound x es vs) (new_storage_key env id)
  unfolding new_storage_key
  new_storage_key-IsSound id = record { at = λ s h. h }

  pub save_attachment-IsSound :
      (limit : ℕ) (org : Organization) (id : ℕ) (user : User) (upload : Upload)
      → Keeps (IsSound x es vs) (save_attachment env limit org id user upload)
  unfolding save_attachment
  save_attachment-IsSound limit org id user upload =
      search (sound, get_incident-IsSound, new_storage_key-IsSound) depth 14
