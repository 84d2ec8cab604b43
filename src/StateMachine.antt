-- ===== src/StateMachine.antt =====
-- The incident status state machine: backend/src/incident_desk/state_machine.py.
pub mod Diagram
use incident_desk.Prelude.{Bool, true, false, ◌||◌, List, [], ◌∷◌}
use incident_desk.Enums.{
  IncidentStatus, opened, acknowledged, mitigated, resolved, postmortem, status_eq,
}

-- `LEGAL_TRANSITIONS[status]`. A set is the list of its members in the order of `sorted`.
unfoldable pub allowed_targets : IncidentStatus → List IncidentStatus
allowed_targets opened = acknowledged ∷ []
allowed_targets acknowledged = mitigated ∷ resolved ∷ []
allowed_targets mitigated = resolved ∷ []
allowed_targets resolved = postmortem ∷ []
allowed_targets postmortem = []

-- `target in targets`
abbrev pub contains_status : IncidentStatus → List IncidentStatus → Bool
contains_status t [] = false
contains_status t (s ∷ rest) = status_eq t s || contains_status t rest

unfoldable pub is_legal : IncidentStatus → IncidentStatus → Bool
unfolding allowed_targets
is_legal current target = contains_status target (allowed_targets current)
