-- ===== src/Session/Schema.antt =====
-- The tables, each the list of its rows in the order in which they were inserted.
use incident_desk.Prelude.{List}
use incident_desk.Models.{
  Organization, Membership, Service, OrgInvitation, ApiKey, OrganizationCounter, IdempotencyKey,
  User, RefreshToken, MfaRecoveryCode, MailToken, Incident, IncidentEvent, Comment, Attachment,
  OrgMetricsDaily, AuditLog, OnCallSchedule, OnCallShift,
}

pub record Database : Type 0 where
  pub organizations : List Organization
  pub memberships : List Membership
  pub services : List Service
  pub invitations : List OrgInvitation
  pub api_keys : List ApiKey
  pub counters : List OrganizationCounter
  pub idempotency_keys : List IdempotencyKey
  pub users : List User
  pub refresh_tokens : List RefreshToken
  pub recovery_codes : List MfaRecoveryCode
  pub verification_tokens : List MailToken
  pub reset_tokens : List MailToken
  pub incidents : List Incident
  pub events : List IncidentEvent
  pub comments : List Comment
  pub attachments : List Attachment
  pub audit_log : List AuditLog
  pub daily_metrics : List OrgMetricsDaily
  pub schedules : List OnCallSchedule
  pub shifts : List OnCallShift
