-- ===== src/System/Sound.antt =====
-- The invariant of the whole program, and the operations of services/ that keep it.
use incident_desk.Prelude.{
  ℕ, ◌+◌, ltb, true, exists_where, Thinned, ◌≡◌, ◌∙◌, ap, Option, String, List, [], ◌∷◌, ◌++◌,
}
use mathlib.Core.List.{append_assoc}
use incident_desk.Models.{AuditLog, IncidentEvent, Json}
use incident_desk.Session.{Database, Env, modify}
use incident_desk.Session.Keeping.{Keeps, keeping, Keeps-modify}
use incident_desk.Audit.{AuditInfo, record_audit}
use incident_desk.Authz.{
  AuthContext, Permission, Principal, user_session, api_key, require, require_user,
}
use incident_desk.Timeline.{append_event, record_event}
use incident_desk.Members.Owners.{HasOwner}
use incident_desk.Incidents.Numbers.{IsGapless}
use incident_desk.OnCall.Disjoint.{HasDisjointShifts}
use incident_desk.Jobs.{RetentionSettings}

-- the timeline begins with these events
abbrev pub IsContinued : List IncidentEvent → Database → Type 0
IsContinued vs d = (tail : List IncidentEvent) × (d.events ≡ vs ++ tail)

-- the entries that the audit log began with, the times of the nightly cleanups, and their settings
pub record Trail : Type 0 where
  pub entries : List AuditLog
  pub cleanups : List ℕ
  pub retention : RetentionSettings

-- the trail of some cleanups
abbrev pub trail_of : RetentionSettings → List ℕ → List AuditLog → Trail
trail_of retention cleanups es = record { entries = es; cleanups = cleanups; retention = retention }

-- at the time of a cleanup, the entry was past its retention
abbrev pub IsSpent : Trail → AuditLog → Type 0
IsSpent es e =
    exists_where (λ at. ltb (e.created_at + es.retention.audit_retention) at) es.cleanups ≡ true

-- The log begins with the entries, unchanged and in their order; those that are missing are spent.
abbrev pub HasTrail : Trail → Database → Type 0
HasTrail es d =
    (left : List AuditLog) × (count : ℕ) × Thinned (λ _. Unit) (IsSpent es) es.entries left count
    × ((tail : List AuditLog) × (d.audit_log ≡ left ++ tail))

-- both logs
abbrev pub HasLogs : Trail → List IncidentEvent → Database → Type 0
HasLogs es vs d = HasTrail es d × IsContinued vs d

-- For an organisation `x`: an owner, gapless incident numbers, disjoint shifts everywhere, and the
-- entries and events that the two logs began with.
abbrev pub IsSound : ℕ → Trail → List IncidentEvent → Database → Type 0
IsSound x es vs d = HasOwner x d × (IsGapless x d × (HasDisjointShifts d × HasLogs es vs d))

module _ {ℓ} {A : Type ℓ} where
  -- what a row more leaves of a list that begins with some rows
  begins-append :
      (xs ys : List A) (y : A)
      → ((tail : List A) × (ys ≡ xs ++ tail))
      → (tail : List A) × (ys ++ y ∷ [] ≡ xs ++ tail)
  begins-append xs ys y (tail, e) =
      (tail ++ y ∷ [], ap (λ l. l ++ y ∷ []) e ∙ append_assoc xs tail (y ∷ []))

pub event-IsContinued :
    (vs : List IncidentEvent) (d : Database) (e : IncidentEvent)
    → IsContinued vs d
    → IsContinued vs (append_event e d)
event-IsContinued vs d e = begins-append vs d.events e

module _ (x : ℕ) (es : Trail) (vs : List IncidentEvent) where
  audit-IsSound :
      (e : AuditLog)
      → Keeps (IsSound x es vs) (modify (λ d. record d { audit_log = d.audit_log ++ e ∷ [] }))
  audit-IsSound e = Keeps-modify _ (λ d (o, (g, (s, ((left, n, w, l), t)))).
      (o, (g, (s, ((left, n, w, begins-append left d.audit_log e l), t)))))

  event-IsSound : (e : IncidentEvent) → Keeps (IsSound x es vs) (modify (append_event e))
  event-IsSound e =
      Keeps-modify _ (λ d (o, (g, (s, (l, t)))). (o, (g, (s, (l, event-IsContinued vs d e t)))))

  pub record_audit-IsSound :
      (env : Env) (org_id : ℕ) (a : Option ℕ) (action kind : String) (r : Option ℕ) (b c : Json)
      (info : AuditInfo)
      → Keeps (IsSound x es vs) (record_audit env org_id a action kind r b c info)
  unfolding record_audit
  record_audit-IsSound env org_id a action kind r b c info = search (keeping, audit-IsSound) depth 9

  pub record_event-IsSound :
      (env : Env) (id : ℕ) (a : Option ℕ) (t : String) (p : Json)
      → Keeps (IsSound x es vs) (record_event env id a t p)
  unfolding record_event
  record_event-IsSound env id a t p = search (keeping, event-IsSound) depth 9

  pub require-IsSound :
      (ps : List Permission) (slug : String) (p : Principal)
      → Keeps (IsSound x es vs) (require ps slug p)
  unfolding require
  require-IsSound ps slug (user_session u) = search keeping depth 9
  require-IsSound ps slug (api_key k) = search keeping depth 9

  pub require_user-IsSound : (ctx : AuthContext) → Keeps (IsSound x es vs) (require_user ctx)
  unfolding require_user
  require_user-IsSound ctx = search keeping

pub ruleset sound =
    (keeping, record_audit-IsSound, record_event-IsSound, require-IsSound, require_user-IsSound)
