-- ===== src/Jobs/Quiet.antt =====
-- When `check_escalation` of backend/src/incident_desk/jobs/tasks.py does nothing.
use incident_desk.Prelude.{
  ℕ, ◌+◌, ◌==◌, ◌≡◌, refl, ap, ◌∙◌, true, not, ◌||◌, Option, none, some, List, [], arith, find,
  is_some,
}
use incident_desk.Enums.{opened, status_eq}
use incident_desk.Models.{Organization, Incident, OnCallSchedule, User}
use incident_desk.Session.{Session, Env, Result, ok, ⊤, reply, written}
use incident_desk.Incidents.{has_incident_id}
use incident_desk.OnCall.{who_is_on_call, on_call_entries, schedules_of}
use incident_desk.Escalation.{EscalationConfig, EscalationDecision, Watched, plan}
use incident_desk.Escalation.Config.{parse_config}
use incident_desk.Api.Incidents.{from_result}
use incident_desk.Jobs.{watched, first_on_call, carry_out, notify_users, check_escalation_job}

plan_answered :
    (w : Watched) (c : EscalationConfig) (on_call : Option ℕ) (level at : ℕ)
    → (is_some w.acknowledged_at || not (status_eq w.status opened)) ≡ true
    → ((plan w c on_call level at).notify_user_ids ≡ [])
      × ((plan w c on_call level at).next_level ≡ none)
unfolding plan
plan_answered w c on_call level at h = (ground arith, ground arith)

module _ (env : Env) (o : Organization) (i : Incident) (level : ℕ) (s : Session) where
  carry_out_nothing :
      (d : EscalationDecision)
      → d.notify_user_ids ≡ []
      → d.next_level ≡ none
      → (reply (carry_out env o i level d) s ≡ ok tt)
        × ((carry_out env o i level d s).1.db ≡ s.db)
        × ((carry_out env o i level d s).1.outbox ≡ s.outbox)
  unfolding carry_out notify_users
  carry_out_nothing d n l = rw (n, l) (refl, refl, refl)

module _ (env : Env) (o : Organization) (i : Incident) (level : ℕ) (s : Session) where
  check-run :
      (config : EscalationConfig)
      → find (has_incident_id i.id) s.db.incidents ≡ some i
      → find (λ (x : Organization). x.id == i.org_id) s.db.organizations ≡ some o
      → parse_config env o.settings ≡ ok config
      → (entries : List (OnCallSchedule × Option User)) × (check_escalation_job env i.id level s
          ≡ carry_out env o i level
              (plan (watched i) config (first_on_call entries) level (env.clock s.draws))
              (record s { draws = s.draws + 1 }))
  unfolding check_escalation_job who_is_on_call from_result
  check-run config f g c = (
    on_call_entries (env.clock s.draws) s.db (schedules_of env o.id (some i.service_id) s.db),
    rw (f, g, c) refl,
  )

  -- A check of an incident that was acknowledged or is no longer open, in an organisation with
  -- settings that can be read: it writes nothing, tells nobody and plans no further check.
  pub check_escalation_job_answered :
      (config : EscalationConfig)
      → find (has_incident_id i.id) s.db.incidents ≡ some i
      → find (λ (x : Organization). x.id == i.org_id) s.db.organizations ≡ some o
      → parse_config env o.settings ≡ ok config
      → (is_some i.acknowledged_at || not (status_eq i.status opened)) ≡ true
      → (reply (check_escalation_job env i.id level) s ≡ ok tt)
        × (written (check_escalation_job env i.id level) s ≡ s.db)
        × ((check_escalation_job env i.id level s).1.outbox ≡ s.outbox)
  check_escalation_job_answered config f g c h =
      let (entries, w) = check-run config f g c in
      let at = env.clock s.draws in
      let d = plan (watched i) config (first_on_call entries) level at in
      let (n, l) = plan_answered (watched i) config (first_on_call entries) level at h in
      let (p, q, r) = carry_out_nothing env o i level (record s { draws = s.draws + 1 }) d n l in
      (
        ap (λ (x : Result ⊤ × Session). x.0) w ∙ p,
        ap (λ (x : Result ⊤ × Session). x.1.db) w ∙ q,
        ap (λ (x : Result ⊤ × Session). x.1.outbox) w ∙ r,
      )
