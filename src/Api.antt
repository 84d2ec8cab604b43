-- ===== src/Api.antt =====
-- The request handlers of backend/src/incident_desk/api/v1.
pub mod AuditTrail
pub mod AuditLog
pub mod Auth
pub mod Etag
pub mod Incidents
pub mod Keys
pub mod Retries
pub mod Tags
pub mod Comments
pub mod Attachments
pub mod Orgs
pub mod OnCall
pub mod ApiKeys
pub mod Members
pub mod Refresh
pub mod LastOwner
