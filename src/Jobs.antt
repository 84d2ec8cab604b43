-- ===== src/Jobs.antt =====
-- The background jobs of backend/src/incident_desk/jobs/tasks.py. An email is its recipient and its
-- subject; the body of services/emails.py is left out.
pub mod Retention
pub mod Quiet
pub mod Metrics
pub mod Rollup
use incident_desk.Prelude.{
  ℕ, ◌-◌, ◌*◌, ◌==◌, ltb, String, concat, show, Bool, Option, none, some, List, [], ◌∷◌, find,
  length, select_where, delete_where, if◌then◌else◌,
}
use incident_desk.Models.{
  Organization, Incident, User, OnCallSchedule, Json, null, text, number, uid, dict, IdempotencyKey,
  AuditLog, RefreshToken, MailToken,
}
use incident_desk.Session.{
  Database, Env, email, check_escalation, Action, ⊤, pure, gets, modify, send, now, commit, ◌>>=◌,
  ◌>>◌,
}
use incident_desk.Timeline.{record_event}
use incident_desk.Sessions.{is_user}
use incident_desk.Incidents.{has_incident_id}
use incident_desk.OnCall.{who_is_on_call}
use incident_desk.Escalation.{EscalationConfig, EscalationDecision, Watched, plan}
use incident_desk.Escalation.Config.{parse_config}
use incident_desk.Api.Incidents.{from_result}

-- `f"INC-{incident.sequence_number}"`, in the subject of `escalation_email`
abbrev escalation_subject : Organization → Incident → String
escalation_subject org i = concat "[" (
    concat org.name
      (concat "] INC-" (concat (show i.sequence_number) " is sev1 and unacknowledged")))

-- the loop over the entries: the first user who is on call
abbrev pub first_on_call : List (OnCallSchedule × Option User) → Option ℕ
first_on_call [] = none
first_on_call (entry ∷ rest) =
    let later = first_on_call rest in elim entry.1 [ some u ↦ some u.id | none ↦ later ]

abbrev pub watched : Incident → Watched
watched i = record {
  severity = i.severity;
  status = i.status;
  acknowledged_at = i.acknowledged_at;
  started_at = i.started_at;
}

module _ (env : Env) where
  unfoldable pub notify_user : Organization → Incident → ℕ → ℕ → Option User → Action ⊤
  unfolding record_event ◌>>=◌
  notify_user org i level user_id none = pure tt
  notify_user org i level user_id (some user) = do
    send (email user.email (escalation_subject org i))
    record_event env i.id none "escalation.notified"
        (dict (("level", number level) ∷ ("user_id", uid user_id) ∷ []))

  -- the loop over `decision.notify_user_ids`
  unfoldable pub notify_users : Organization → Incident → ℕ → List ℕ → Action ⊤
  unfolding notify_user ◌>>=◌
  notify_users org i level [] = pure tt
  notify_users org i level (user_id ∷ rest) = do
    user ← gets (λ d. find (is_user user_id) d.users)
    notify_user org i level user_id user
    notify_users org i level rest

  -- `decision.next_level is not None and decision.next_check_in is not None`
  unfoldable pub reschedule : ℕ → Option ℕ → Option ℕ → Action ⊤
  unfolding ◌>>=◌
  reschedule incident_id (some level) (some delay) = send (check_escalation incident_id level delay)
  reschedule incident_id _ _ = pure tt

  unfoldable pub carry_out : Organization → Incident → ℕ → EscalationDecision → Action ⊤
  unfolding notify_users reschedule ◌>>=◌
  carry_out org i level decision = do
    notify_users org i level decision.notify_user_ids
    commit env
    reschedule i.id decision.next_level decision.next_check_in

  unfoldable pub escalate : ℕ → Incident → ℕ → Option Organization → Action ⊤
  unfolding carry_out plan who_is_on_call from_result ◌>>=◌
  escalate at i level none = pure tt
  escalate at i level (some org) = do
    config ← from_result (parse_config env org.settings)
    entries ← who_is_on_call env org i.service_id (some at)
    carry_out org i level (plan (watched i) config (first_on_call entries) level at)

  unfoldable pub escalate_found : ℕ → ℕ → Option Incident → Action ⊤
  unfolding escalate ◌>>=◌
  escalate_found at level none = pure tt
  escalate_found at level (some i) = do
    org ← gets (λ d. find (λ o. o.id == i.org_id) d.organizations)
    escalate at i level org

  -- `check_escalation`
  unfoldable pub check_escalation_job : ℕ → ℕ → Action ⊤
  unfolding escalate_found ◌>>=◌
  check_escalation_job incident_id level = do
    at ← now env
    incident ← gets (λ d. find (has_incident_id incident_id) d.incidents)
    escalate_found at level incident

  unfoldable pub scan_attachment : ℕ → ℕ → Action ⊤
  unfolding record_event ◌>>=◌
  scan_attachment attachment_id incident_id = do
    record_event env incident_id none "attachment.scan_skipped" (
        dict (
          ("attachment_id", uid attachment_id)
          ∷ ("reason", text "no scanner configured; hook point only")
          ∷ []))
    commit env

-- the settings that the cleanup reads, as durations
pub record RetentionSettings : Type 0 where
  pub idempotency_retention : ℕ
  pub audit_retention : ℕ
  pub expired_token_grace : ℕ

-- `counts`
pub record Counts : Type 0 where
  pub idempotency_keys : ℕ
  pub audit_log : ℕ
  pub refresh_tokens : ℕ
  pub reset_tokens : ℕ
  pub verification_tokens : ℕ

-- each `WHERE`
abbrev pub is_old_key : RetentionSettings → ℕ → IdempotencyKey → Bool
is_old_key settings at k = ltb k.created_at (at - settings.idempotency_retention)

abbrev pub is_old_entry : RetentionSettings → ℕ → AuditLog → Bool
is_old_entry settings at e = ltb e.created_at (at - settings.audit_retention)

abbrev pub is_dead_refresh : RetentionSettings → ℕ → RefreshToken → Bool
is_dead_refresh settings at t = ltb t.expires_at (at - settings.expired_token_grace)

abbrev pub is_dead_mail : RetentionSettings → ℕ → MailToken → Bool
is_dead_mail settings at t = ltb t.expires_at (at - settings.expired_token_grace)

abbrev pub pruned : RetentionSettings → ℕ → Database → Database
pruned settings at d = record d {
  idempotency_keys = delete_where (is_old_key settings at) d.idempotency_keys;
  audit_log = delete_where (is_old_entry settings at) d.audit_log;
  refresh_tokens = delete_where (is_dead_refresh settings at) d.refresh_tokens;
  reset_tokens = delete_where (is_dead_mail settings at) d.reset_tokens;
  verification_tokens = delete_where (is_dead_mail settings at) d.verification_tokens;
}

-- the row counts of the statements
abbrev pub counted : RetentionSettings → ℕ → Database → Counts
counted settings at d = record {
  idempotency_keys = length (select_where (is_old_key settings at) d.idempotency_keys);
  audit_log = length (select_where (is_old_entry settings at) d.audit_log);
  refresh_tokens = length (select_where (is_dead_refresh settings at) d.refresh_tokens);
  reset_tokens = length (select_where (is_dead_mail settings at) d.reset_tokens);
  verification_tokens = length (select_where (is_dead_mail settings at) d.verification_tokens);
}

unfoldable pub prune_retention_now : Env → RetentionSettings → Action Counts
unfolding ◌>>=◌
prune_retention_now env settings = do
  at ← now env
  counts ← gets (counted settings at)
  modify (pruned settings at)
  commit env
  pure counts
