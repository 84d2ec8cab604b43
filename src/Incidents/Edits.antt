-- ===== src/Incidents/Edits.antt =====
-- `update_incident` of backend/src/incident_desk/services/incidents.py.
use incident_desk.Prelude.{
  ℕ, ◌+◌, ◌==◌, opt_eq, String, str_eq, Bool, true, false, not, ◌&&◌, Option, none, some, List, [],
  ◌∷◌, ◌++◌, if◌then◌else◌,
}
use incident_desk.Enums.{Severity, severity_eq, severity_value}
use incident_desk.Errors.{version_conflict}
use incident_desk.Models.{Organization, User, Incident, text, texts, dict, opt_uid}
use incident_desk.Session.{Env, Action, pure, raise_if, when, ◌>>=◌, ◌>>◌}
use incident_desk.Timeline.{record_event}
use incident_desk.Incidents.{conflict_snapshot, user_id_of, get_incident, require_assignee, save}

-- the keyword arguments of `update_incident`; `assigned_to` counts only if `assignee_provided`
pub record Changes : Type 0 where
  pub title : Option String
  pub description : Option String
  pub severity : Option Severity
  pub tags : Option (List String)
  pub assigned_to : Option ℕ
  pub assignee_provided : Bool
  pub expected_version : Option ℕ

-- `expected_version is not None and incident.version != expected_version`
abbrev pub is_stale : Option ℕ → Incident → Bool
is_stale none i = false
is_stale (some v) i = not (i.version == v)

abbrev texts_eq : List String → List String → Bool
texts_eq [] [] = true
texts_eq (a ∷ as') (b ∷ bs) = str_eq a b && texts_eq as' bs
texts_eq _ _ = false

-- `value is not None and value != getattr(incident, name)`
abbrev differs_text : Option String → String → Bool
differs_text none old = false
differs_text (some new) old = not (str_eq new old)

abbrev differs_tags : Option (List String) → List String → Bool
differs_tags none old = false
differs_tags (some new) old = not (texts_eq new old)

abbrev pub or_else {ℓ} : {A : Type ℓ} → Option A → A → A
or_else none d = d
or_else (some a) d = a

-- the loop over `("title", "description", "tags")`
abbrev pub with_fields : Changes → Incident → Incident
with_fields c i = record i {
  title = or_else c.title i.title;
  description = or_else c.description i.description;
  tags = or_else c.tags i.tags;
}

abbrev named : Bool → String → List String
named b n = if b then n ∷ [] else []

abbrev pub edited_fields : Changes → Incident → List String
edited_fields c i =
    named (differs_text c.title i.title) "title"
    ++ (named (differs_text c.description i.description) "description"
        ++ named (differs_tags c.tags i.tags) "tags")

abbrev is_nil {ℓ} : {A : Type ℓ} → List A → Bool
is_nil [] = true
is_nil (x ∷ xs) = false

module _ (env : Env) (actor : Option User) where
  unfoldable pub apply_severity : Option Severity → Incident → Action Incident
  unfolding record_event save ◌>>=◌
  apply_severity none incident = pure incident
  apply_severity (some new) incident =
      if severity_eq new incident.severity then pure incident else do
        record_event env incident.id (user_id_of actor) "severity.changed" (
            dict (
              ("from", text (severity_value incident.severity))
              ∷ ("to", text (severity_value new))
              ∷ []))
        let changed : Incident = record incident { severity = new }
        save changed
        pure changed

  unfoldable pub apply_assignment : ℕ → Changes → Incident → Action Incident
  unfolding record_event save require_assignee ◌>>=◌
  apply_assignment org_id c incident =
      if c.assignee_provided && not (opt_eq c.assigned_to incident.assigned_to)
      then (do
        require_assignee org_id c.assigned_to
        record_event env incident.id (user_id_of actor) "assignment.changed"
            (dict (("from", opt_uid incident.assigned_to) ∷ ("to", opt_uid c.assigned_to) ∷ []))
        let changed : Incident = record incident { assigned_to = c.assigned_to }
        save changed
        pure changed)
      else pure incident

  unfoldable pub apply_fields : Changes → Incident → Action Incident
  unfolding record_event save ◌>>=◌
  apply_fields c incident = do
    let changed : Incident = with_fields c incident
    save changed
    when (not (is_nil (edited_fields c incident))) (
        record_event env incident.id (user_id_of actor) "incident.updated"
          (dict (("fields", texts (edited_fields c incident)) ∷ [])))
    pure changed

  unfoldable pub update_incident : Organization → ℕ → Changes → Action Incident
  unfolding get_incident apply_severity apply_assignment apply_fields ◌>>=◌
  update_incident org incident_id c = do
    incident ← get_incident org incident_id
    raise_if (is_stale c.expected_version incident) (version_conflict (conflict_snapshot incident))
    graded ← apply_severity c.severity incident
    assigned ← apply_assignment org.id c graded
    edited ← apply_fields c assigned
    let bumped : Incident = record edited { version = edited.version + 1 }
    save bumped
    pure bumped
