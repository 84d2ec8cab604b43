-- ===== src/Escalation/Examples.antt =====
-- Tests and instances for the escalation policy.
use incident_desk.Prelude.{◌≡◌, refl, arith, none, some, [], ◌∷◌, ◌++◌, ◌≤◌}
use incident_desk.Enums.{sev1, opened}
use incident_desk.Escalation.{EscalationConfig, Watched, plan, due_at}
use incident_desk.Escalation.Policy.{plan_notifies, unanswered, unanswered_notifies}

abbrev silent_incident : Watched
silent_incident = record {
  severity = sev1;
  status = opened;
  acknowledged_at = none;
  started_at = 100;
}

abbrev two_steps : EscalationConfig
two_steps = record { ack_timeout = 15; chain = 7 ∷ 8 ∷ [] }

notified_in_order : unanswered silent_incident two_steps (some 5) 3 0 115 ≡ some (5 ∷ 7 ∷ 8 ∷ [])
unfolding unanswered plan
notified_in_order = refl

first_check : (plan silent_incident two_steps (some 5) 0 115).notify_user_ids ≡ 5 ∷ []
unfolding plan
first_check = refl

someone_is_notified :
    (silent_incident.severity ≡ sev1)
    × (silent_incident.status ≡ opened)
    × (silent_incident.acknowledged_at ≡ none)
    × (due_at silent_incident two_steps 0 ≤ 115)
someone_is_notified = plan_notifies silent_incident two_steps (some 5) 0 115 5 [] first_check

unanswered_notifies_example :
    unanswered silent_incident two_steps (some 5) 9 0 120 ≡ some ((5 ∷ []) ++ (7 ∷ 8 ∷ []))
unanswered_notifies_example =
    unanswered_notifies silent_incident two_steps (some 5) refl refl refl 9 120 (omega arith)
      (omega arith)
