-- ===== src/Models/Tracking.antt =====
-- Incidents, their timeline and comments, and the audit log (db/models.py).
use incident_desk.Prelude.{ℕ, String, Option, List}
use incident_desk.Enums.{Severity, IncidentStatus}
use incident_desk.Models.Values.{Json}

pub record Incident : Type 0 where
  pub id : ℕ
  pub org_id : ℕ
  pub service_id : ℕ
  pub sequence_number : ℕ
  pub title : String
  pub description : String
  pub severity : Severity
  pub status : IncidentStatus
  pub reported_by : ℕ
  pub assigned_to : Option ℕ
  pub started_at : ℕ
  pub acknowledged_at : Option ℕ
  pub resolved_at : Option ℕ
  pub resolution_summary : Option String
  pub tags : List String
  pub version : ℕ
  pub created_at : ℕ

pub record IncidentEvent : Type 0 where
  pub id : ℕ
  pub seq : ℕ
  pub incident_id : ℕ
  pub actor_id : Option ℕ
  pub event_type : String
  pub payload : Json

pub record Comment : Type 0 where
  pub id : ℕ
  pub seq : ℕ
  pub incident_id : ℕ
  pub author_id : ℕ
  pub body : String
  pub edited_at : Option ℕ
  pub deleted_at : Option ℕ

pub record Attachment : Type 0 where
  pub id : ℕ
  pub incident_id : ℕ
  pub uploader_id : ℕ
  pub filename : String
  pub content_type : String
  pub size_bytes : ℕ
  pub storage_key : String
  pub checksum : String
  pub created_at : ℕ

-- An average of time spans, kept exact: of `rows` spans, which add up to `ends - starts`.
pub record Mean : Type 0 where
  pub ends : ℕ
  pub starts : ℕ
  pub rows : ℕ

pub record OrgMetricsDaily : Type 0 where
  pub org_id : ℕ
  pub day : ℕ
  pub incidents_created : ℕ
  pub incidents_resolved : ℕ
  pub mtta_seconds : Option Mean
  pub mttr_seconds : Option Mean

pub record AuditLog : Type 0 where
  pub id : ℕ
  pub org_id : ℕ
  pub actor_id : Option ℕ
  pub action : String
  pub resource_type : String
  pub resource_id : Option ℕ
  pub before : Json
  pub after : Json
  pub ip_address : Option String
  pub user_agent : Option String
  pub created_at : ℕ
