-- ===== src/Enums.antt =====
-- The domain enumerations: backend/src/incident_desk/enums.py. Each `StrEnum` is a data type, with
-- its `.value` and its `==`.
use incident_desk.Prelude.{String, Bool, true, false}

pub data Role : Type 0 where
  owner admin responder viewer : Role

pub data ServiceTier : Type 0 where
  tier1 tier2 tier3 : ServiceTier

pub data Severity : Type 0 where
  sev1 sev2 sev3 sev4 : Severity

-- `opened` is OPEN, since `open` is a keyword here.
pub data IncidentStatus : Type 0 where
  opened acknowledged mitigated resolved postmortem : IncidentStatus

abbrev pub role_eq : Role → Role → Bool
role_eq owner owner = true
role_eq admin admin = true
role_eq responder responder = true
role_eq viewer viewer = true
role_eq _ _ = false

abbrev pub severity_eq : Severity → Severity → Bool
severity_eq sev1 sev1 = true
severity_eq sev2 sev2 = true
severity_eq sev3 sev3 = true
severity_eq sev4 sev4 = true
severity_eq _ _ = false

abbrev pub status_eq : IncidentStatus → IncidentStatus → Bool
status_eq opened opened = true
status_eq acknowledged acknowledged = true
status_eq mitigated mitigated = true
status_eq resolved resolved = true
status_eq postmortem postmortem = true
status_eq _ _ = false

abbrev pub severity_value : Severity → String
severity_value sev1 = "sev1"
severity_value sev2 = "sev2"
severity_value sev3 = "sev3"
severity_value sev4 = "sev4"

abbrev pub status_value : IncidentStatus → String
status_value opened = "open"
status_value acknowledged = "acknowledged"
status_value mitigated = "mitigated"
status_value resolved = "resolved"
status_value postmortem = "postmortem"
