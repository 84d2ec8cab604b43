-- ===== src/System/Invariant.antt =====
-- What the calls of the program keep, in any number and order, by any callers.
use incident_desk.Prelude.{
  ◌+◌, ◌≡◌, ◌++◌, true, Bool, exists_where, arith, ltb, exists_where-left, exists_where-right, ℕ,
  List, [], ◌∷◌,
}
use incident_desk.Models.{AuditLog, IncidentEvent}
use incident_desk.Session.{Env, Session, serve, close, ◌>>=◌}
use incident_desk.Session.Keeping.{Keeps, Always, Kept, committed-Kept, keeping}
use incident_desk.Sessions.{Settings}
use incident_desk.Jobs.{RetentionSettings, pruned, prune_retention_now}
use incident_desk.System.Sound.{Trail, IsSound, trail_of}
use incident_desk.System.Background.{
  get_current_user-IsSound, get_principal-IsSound, check_escalation_job-IsSound,
  compute_daily_metrics_for-IsSound, scan_attachment-IsSound, pruned-IsSound,
}
use incident_desk.System.Calls.{
  Call, anonymous, by_user, in_org, escalates, scans, rolls_up, prunes, perform, perform_all,
}
use incident_desk.System.Handlers.{perform_public-IsSound, perform_by-IsSound, perform_in-IsSound}

-- the time of a call, if it is a cleanup
abbrev cleanup_of : Call → ℕ → List ℕ
cleanup_of prunes at = at ∷ []
cleanup_of _ at = []

module _ (env : Env) (settings : Settings) (retention : RetentionSettings) where
  -- The times of the cleanups among some calls: each the reading of the clock that its call takes.
  unfoldable pub cleanups : List Call → Session → List ℕ
  cleanups [] s = []
  cleanups (c ∷ cs) s =
      cleanup_of c (env.clock s.draws) ++ cleanups cs (close (perform env settings retention c s).1)

module _ (x : ℕ) (es : Trail) (vs : List IncidentEvent) (env : Env) (settings : Settings) where
  abbrev KeptBy : Call → Type 0
  KeptBy c = Keeps (IsSound x es vs) (perform env settings es.retention c)

  perform-Kept :
      (c : Call) (s : Session)
      → ((p : ℕ → Bool)
          → exists_where p (cleanup_of c (env.clock s.draws)) ≡ true
          → exists_where p es.cleanups ≡ true)
      → Always (IsSound x es vs) s
      → Kept (IsSound x es vs) (perform env settings es.retention c s)
  unfolding perform prune_retention_now ◌>>=◌
  perform-Kept (anonymous c) s k = (perform_public-IsSound x es vs env settings c).at s
  perform-Kept (by_user bearer info c) s k =
      let r : KeptBy (by_user bearer info c) =
        search (keeping, get_current_user-IsSound, perform_by-IsSound) in
      r.at s
  perform-Kept (in_org bearer info slug c) s k =
      let r : KeptBy (in_org bearer info slug c) =
        search (keeping, get_principal-IsSound, perform_in-IsSound) in
      r.at s
  perform-Kept (escalates id level) s k =
      let r : KeptBy (escalates id level) = search check_escalation_job-IsSound in r.at s
  perform-Kept (rolls_up day) s k =
      let r : KeptBy (rolls_up day) = search (keeping, compute_daily_metrics_for-IsSound) in r.at s
  perform-Kept prunes s k = λ h.
      let at = env.clock s.draws in
      let v : IsSound x es vs (pruned es.retention at s.db) =
        pruned-IsSound es at
          (λ e q. k (λ t. ltb (e.created_at + es.retention.audit_retention) t) (ground (arith, q)))
          x vs s.db h.0 in
      (v, v)
  perform-Kept (scans id incident_id) s k =
      let r : KeptBy (scans id incident_id) = search scan_attachment-IsSound in r.at s

  calls-Always :
      (calls : List Call) (s : Session)
      → ((p : ℕ → Bool)
          → exists_where p (cleanups env settings es.retention calls s) ≡ true
          → exists_where p es.cleanups ≡ true)
      → Always (IsSound x es vs) s
      → Always (IsSound x es vs) (serve (perform_all env settings es.retention calls) s)
  unfolding perform_all cleanups
  calls-Always [] s k h = h
  calls-Always (c ∷ cs) s k h =
      let m = perform env settings es.retention c s in
      let g : IsSound x es vs m.1.committed =
        committed-Kept (IsSound x es vs) m.0 m.1
          (perform-Kept c s (λ p e. k p (exists_where-left p _ _ e)) h) in
      calls-Always cs (close m.1) (λ p e. k p (exists_where-right p _ _ e)) (g, g)

-- If the invariant of the program holds, for an organisation and for the entries and events that the
-- two logs hold now, in what is written and in what is committed, it holds after any sequence of
-- calls, nightly cleanups among them, each refused or served to its end: the organisation has an
-- owner, and its incidents carry the numbers 1 to n without a gap; no two shifts of a schedule
-- overlap; no event of a timeline is changed or taken away; and no entry of the audit log is changed,
-- or taken away unless it was past its retention at the time of one of these cleanups.
pub calls-IsSound :
    (env : Env) (settings : Settings) (retention : RetentionSettings) (x : ℕ) (es : List AuditLog)
    (vs : List IncidentEvent) (calls : List Call) (s : Session)
    → Always (IsSound x (trail_of retention (cleanups env settings retention calls s) es) vs) s
    → Always
        (IsSound x (trail_of retention (cleanups env settings retention calls s) es) vs)
        (serve (perform_all env settings retention calls) s)
calls-IsSound env settings retention x es vs calls s =
    calls-Always x (trail_of retention (cleanups env settings retention calls s) es) vs env settings
      calls s (λ p e. e)
