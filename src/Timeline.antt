-- ===== src/Timeline.antt =====
-- The append-only incident timeline: backend/src/incident_desk/services/timeline.py.
pub mod Pages
use incident_desk.Prelude.{ℕ, ◌==◌, Bool, String, Option, List, [], ◌∷◌, ◌++◌}
use incident_desk.Models.{Json, IncidentEvent}
use incident_desk.Paging.{page_of}
use incident_desk.Paging.Keys.{by_seq}
use incident_desk.Session.{Database, Env, Action, ⊤, gets, modify, new_uuid, next_event_seq, ◌>>=◌}

abbrev pub event_row : ℕ → ℕ → ℕ → Option ℕ → String → Json → IncidentEvent
event_row id seq incident_id actor_id event_type payload = record {
  id = id;
  seq = seq;
  incident_id = incident_id;
  actor_id = actor_id;
  event_type = event_type;
  payload = payload;
}

abbrev pub append_event : IncidentEvent → Database → Database
append_event e d = record d { events = d.events ++ e ∷ [] }

module _ (env : Env) where
  unfoldable pub record_event : ℕ → Option ℕ → String → Json → Action ⊤
  unfolding ◌>>=◌
  record_event incident_id actor_id event_type payload = do
    id ← new_uuid env
    seq ← next_event_seq
    modify (append_event (event_row id seq incident_id actor_id event_type payload))

-- `WHERE incident_id = ...`
abbrev pub is_event_of : ℕ → IncidentEvent → Bool
is_event_of incident_id e = e.incident_id == incident_id

abbrev pub event_seq_of : IncidentEvent → ℕ
event_seq_of e = e.seq

unfoldable pub list_events : ℕ → ℕ → Option ℕ → Action (List IncidentEvent × Option ℕ)
unfolding ◌>>=◌
list_events incident_id limit cursor =
    gets (λ d. page_of (by_seq event_seq_of) (is_event_of incident_id) limit cursor d.events)
