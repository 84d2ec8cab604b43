-- ===== src/System/Background.antt =====
-- What api/deps.py and jobs/tasks.py keep of the invariant of the program.
use incident_desk.Prelude.{
  ◌≡◌, ap, ◌∙◌, true, Bool, delete_where, delete_where-append, Thinned-delete_where, ℕ, String,
  List, [], ◌∷◌, Option, none, some,
}
use incident_desk.Models.{AuditLog, IncidentEvent, User, Organization, Incident}
use incident_desk.Session.{Database, Env, Result, ok, err}
use incident_desk.Session.Keeping.{Keeps, keeping, Keeps-bind, Keeps-gets}
use incident_desk.OnCall.{who_is_on_call}
use incident_desk.Principals.{
  resolve_user, resolve_session, resolve_parts, resolve_api_key, get_current_user, get_principal,
}
use incident_desk.Escalation.{EscalationDecision}
use incident_desk.Api.Incidents.{from_result}
use incident_desk.Jobs.Metrics.{compute_daily_metrics_for}
use incident_desk.Jobs.{
  notify_user, notify_users, reschedule, carry_out, escalate, escalate_found, check_escalation_job,
  scan_attachment, is_old_entry, pruned,
}
use incident_desk.System.Sound.{IsSound, Trail, HasTrail, IsSpent, sound}

module _ (x : ℕ) (es : Trail) (vs : List IncidentEvent) where
  pub from_result-IsSound : {A : Type 0} (r : Result A) → Keeps (IsSound x es vs) (from_result r)
  unfolding from_result
  from_result-IsSound (ok a) = record { at = λ s h. h }
  from_result-IsSound (err e) = record { at = λ s h. h.1 }

module _ (x : ℕ) (es : Trail) (vs : List IncidentEvent) (env : Env) where
  resolve_user-IsSound : (token : String) → Keeps (IsSound x es vs) (resolve_user env token)
  unfolding resolve_user
  resolve_user-IsSound token = search keeping depth 12

  resolve_parts-IsSound :
      (parts : String × String) → Keeps (IsSound x es vs) (resolve_parts env parts)
  unfolding resolve_parts
  resolve_parts-IsSound parts = search keeping depth 14

  pub get_current_user-IsSound :
      (bearer : Option String) → Keeps (IsSound x es vs) (get_current_user env bearer)
  unfolding get_current_user
  get_current_user-IsSound none = search keeping
  get_current_user-IsSound (some token) = search (keeping, resolve_user-IsSound)

  pub get_principal-IsSound :
      (bearer : Option String) → Keeps (IsSound x es vs) (get_principal env bearer)
  unfolding get_principal resolve_api_key resolve_session
  get_principal-IsSound none = search keeping
  get_principal-IsSound (some token) =
      search (keeping, resolve_user-IsSound, resolve_parts-IsSound) depth 9

  notify_user-IsSound :
      (o : Organization) (i : Incident) (level id : ℕ) (u : Option User)
      → Keeps (IsSound x es vs) (notify_user env o i level id u)
  unfolding notify_user
  notify_user-IsSound o i level id none = search keeping
  notify_user-IsSound o i level id (some u) = search sound

  notify_users-IsSound :
      (o : Organization) (i : Incident) (level : ℕ) (ids : List ℕ)
      → Keeps (IsSound x es vs) (notify_users env o i level ids)
  unfolding notify_users
  notify_users-IsSound o i level [] = search keeping
  notify_users-IsSound o i level (id ∷ ids) = Keeps-bind _ _ (Keeps-gets _) (λ u.
      Keeps-bind _ _ (notify_user-IsSound o i level id u) (λ t. notify_users-IsSound o i level ids))

  reschedule-IsSound :
      (id : ℕ) (level delay : Option ℕ) → Keeps (IsSound x es vs) (reschedule env id level delay)
  unfolding reschedule
  reschedule-IsSound id none delay = search keeping
  reschedule-IsSound id (some l) none = search keeping
  reschedule-IsSound id (some l) (some d) = search keeping

  carry_out-IsSound :
      (o : Organization) (i : Incident) (level : ℕ) (d : EscalationDecision)
      → Keeps (IsSound x es vs) (carry_out env o i level d)
  unfolding carry_out
  carry_out-IsSound o i level d = search (keeping, notify_users-IsSound, reschedule-IsSound)

  escalate-IsSound :
      (at : ℕ) (i : Incident) (level : ℕ) (o : Option Organization)
      → Keeps (IsSound x es vs) (escalate env at i level o)
  unfolding escalate who_is_on_call
  escalate-IsSound at i level none = search keeping
  escalate-IsSound at i level (some o) =
      search (keeping, from_result-IsSound, carry_out-IsSound) depth 9

  escalate_found-IsSound :
      (at level : ℕ) (i : Option Incident) → Keeps (IsSound x es vs) (escalate_found env at level i)
  unfolding escalate_found
  escalate_found-IsSound at level none = search keeping
  escalate_found-IsSound at level (some i) = search (keeping, escalate-IsSound)

  pub check_escalation_job-IsSound :
      (id level : ℕ) → Keeps (IsSound x es vs) (check_escalation_job env id level)
  unfolding check_escalation_job
  check_escalation_job-IsSound id level = search (keeping, escalate_found-IsSound)

  pub compute_daily_metrics_for-IsSound :
      (day : Option ℕ) → Keeps (IsSound x es vs) (compute_daily_metrics_for env day)
  unfolding compute_daily_metrics_for
  compute_daily_metrics_for-IsSound day = search keeping depth 9

  pub scan_attachment-IsSound :
      (id incident_id : ℕ) → Keeps (IsSound x es vs) (scan_attachment env id incident_id)
  unfolding scan_attachment
  scan_attachment-IsSound id incident_id = search sound

module _ (es : Trail) (at : ℕ)
    (past : (e : AuditLog) → is_old_entry es.retention at e ≡ true → IsSpent es e) where
  pruned-HasTrail : (d : Database) → HasTrail es d → HasTrail es (pruned es.retention at d)
  pruned-HasTrail d (left, n, w, (tail, e)) =
      let p : AuditLog → Bool = is_old_entry es.retention at in
      let (m, w') = Thinned-delete_where (IsSpent es) p past w in
      (
        delete_where p left,
        m,
        w',
        (delete_where p tail, ap (delete_where p) e ∙ delete_where-append p left tail),
      )

  -- a cleanup at that time deletes what is spent
  pub pruned-IsSound :
      (x : ℕ) (vs : List IncidentEvent) (d : Database)
      → IsSound x es vs d
      → IsSound x es vs (pruned es.retention at d)
  pruned-IsSound x vs d (o, (g, (h, (l, t)))) = (o, (g, (h, (pruned-HasTrail d l, t))))
