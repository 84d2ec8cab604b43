-- ===== src/Incidents/Listing.antt =====
-- `list_incidents` of backend/src/incident_desk/services/incidents.py: the query, its order and its
-- pages. The cursor is the pair that `pagination.decode_uuid_cursor` returns.
use incident_desk.Prelude.{
  ℕ, ◌==◌, String, is_empty, Bool, true, false, ◌&&◌, ◌||◌, Option, none, some, List, [], ◌∷◌,
}
use incident_desk.Enums.{Severity, IncidentStatus, severity_eq}
use incident_desk.Models.{Organization, Incident}
use incident_desk.Paging.{page_of}
use incident_desk.Paging.Keys.{newest_first}
use incident_desk.Session.{Env, Action, gets, ◌>>=◌}
use incident_desk.StateMachine.{contains_status}
use incident_desk.Authz.{contains_text}

-- `SORT_FIELDS`
pub data SortField : Type 0 where
  created_at started_at : SortField

abbrev pub sort_value : SortField → Incident → ℕ
sort_value created_at i = i.created_at
sort_value started_at i = i.started_at

-- the primary key, as a sort key
abbrev pub row_id : Incident → ℕ
row_id i = i.id

pub record Filters : Type 0 where
  pub statuses : List IncidentStatus
  pub severities : List Severity
  pub service_id : Option ℕ
  pub assigned_to : Option ℕ
  pub tag : Option String
  pub q : Option String

abbrev contains_severity : Severity → List Severity → Bool
contains_severity s [] = false
contains_severity s (t ∷ rest) = severity_eq s t || contains_severity s rest

-- `if statuses: ... in_(statuses)`
abbrev allows_status : List IncidentStatus → IncidentStatus → Bool
allows_status [] s = true
allows_status (t ∷ rest) s = contains_status s (t ∷ rest)

abbrev allows_severity : List Severity → Severity → Bool
allows_severity [] s = true
allows_severity (t ∷ rest) s = contains_severity s (t ∷ rest)

abbrev allows_id : Option ℕ → ℕ → Bool
allows_id none x = true
allows_id (some y) x = x == y

-- `assigned_to = ...` on a nullable column
abbrev allows_assignee : Option ℕ → Option ℕ → Bool
allows_assignee none x = true
allows_assignee (some y) none = false
allows_assignee (some y) (some x) = x == y

abbrev allows_tag : Option String → List String → Bool
allows_tag none tags = true
allows_tag (some t) tags = contains_text t tags

module _ (env : Env) where
  abbrev allows_text : Option String → Incident → Bool
  allows_text none i = true
  allows_text (some q) i = is_empty q || env.text_search q i.title i.description

  -- the conjunction of the `WHERE` clauses, without the cursor's
  abbrev pub matches : Organization → Filters → Incident → Bool
  matches org f i =
      i.org_id == org.id
      && allows_status f.statuses i.status
      && allows_severity f.severities i.severity
      && allows_id f.service_id i.service_id
      && allows_assignee f.assigned_to i.assigned_to
      && allows_tag f.tag i.tags
      && allows_text f.q i

module _ (env : Env) (org : Organization) (f : Filters) (field : SortField) (limit : ℕ) where
  unfoldable pub list_incidents : Option (ℕ × ℕ) → Action (List Incident × Option (ℕ × ℕ))
  unfolding ◌>>=◌
  list_incidents cursor = gets (λ d.
      page_of (newest_first (sort_value field) row_id) (matches env org f) limit cursor d.incidents)
