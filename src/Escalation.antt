-- ===== src/Escalation.antt =====
-- The escalation policy: backend/src/incident_desk/jobs/escalation.py.
pub mod Policy
pub mod Config
mod Examples
use incident_desk.Prelude.{
  ℕ, zero, suc, ◌+◌, ◌-◌, ◌*◌, ◌==◌, ltb, Bool, true, false, not, ◌||◌, Option, none, some, List,
  [], ◌∷◌, is_some, take, drop, length, if◌then◌else◌,
}
use incident_desk.Enums.{Severity, sev1, IncidentStatus, opened, severity_eq, status_eq}

pub record EscalationConfig : Type 0 where
  pub ack_timeout : ℕ
  pub chain : List ℕ

pub data Reason : Type 0 where
  not_sev1 acknowledged not_due no_target notify : Reason

pub record EscalationDecision : Type 0 where
  pub notify_user_ids : List ℕ
  pub next_level : Option ℕ
  pub next_check_in : Option ℕ
  pub reason : Reason

-- the arguments of `plan` that describe the incident
pub record Watched : Type 0 where
  pub severity : Severity
  pub status : IncidentStatus
  pub acknowledged_at : Option ℕ
  pub started_at : ℕ

abbrev decision : List ℕ → Option ℕ → Option ℕ → Reason → EscalationDecision
decision targets next_level next_check_in reason = record {
  notify_user_ids = targets;
  next_level = next_level;
  next_check_in = next_check_in;
  reason = reason;
}

abbrev pub due_at : Watched → EscalationConfig → ℕ → ℕ
due_at w config level = w.started_at + config.ack_timeout * (level + 1)

-- `[on_call] if on_call is not None else config.chain[:1]`, and `config.chain[level - 1 : level]`
unfoldable pub targets : EscalationConfig → Option ℕ → ℕ → List ℕ
targets config none zero = take 1 config.chain
targets config (some u) zero = u ∷ []
targets config on_call (suc l) = take 1 (drop l config.chain)

abbrev pub next_level_of : EscalationConfig → ℕ → Option ℕ
next_level_of config level = if ltb level (length config.chain) then some (level + 1) else none

-- `config.ack_timeout if next_level is not None else None`
abbrev pub next_check_of : EscalationConfig → ℕ → Option ℕ
next_check_of config level =
    if ltb level (length config.chain) then some config.ack_timeout else none

abbrev is_nil : List ℕ → Bool
is_nil [] = true
is_nil (x ∷ xs) = false

unfoldable pub plan : Watched → EscalationConfig → Option ℕ → ℕ → ℕ → EscalationDecision
unfolding targets
plan w config on_call level at =
    if not (severity_eq w.severity sev1)
    then decision [] none none not_sev1
    else if is_some w.acknowledged_at || not (status_eq w.status opened)
    then decision [] none none acknowledged
    else if ltb at (due_at w config level)
    then decision [] (some level) (some (due_at w config level - at)) not_due
    else if is_nil (targets config on_call level)
    then decision [] (next_level_of config level) (next_check_of config level) no_target
    else decision (targets config on_call level) (next_level_of config level)
        (next_check_of config level) notify
