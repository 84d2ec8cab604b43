-- ===== src/System/Rotation.antt =====
-- The handler `refresh` of api/v1/auth.py keeps the invariant of the program. It commits what a
-- raised reuse has written, so more is wanted of the rotation than of other operations: that it
-- leaves the tables of the invariant alone also where it raises.
use incident_desk.Prelude.{ℕ, ◌≡◌, sym, String, List}
use mathlib.Core.Path.{subst}
use incident_desk.Errors.{refresh_reused}
use incident_desk.Models.{
  AuditLog, IncidentEvent, User, Membership, Incident, OrganizationCounter, OnCallShift,
  RefreshToken,
}
use incident_desk.Session.{Database, Session, Env, Result, ok, err, attempt}
use incident_desk.Session.Keeping.{Keeps, Kept, Always}
use incident_desk.Session.Frames.{Frames, framing}
use incident_desk.Session.Pending.{Pending, pending}
use incident_desk.Sessions.{
  Settings, SessionTokens, mint, revoke_family, refuse_reuse, consume_and_mint, reissue,
  rotate_refresh,
}
use incident_desk.Api.Auth.{after_rotation, refresh}
use incident_desk.System.Sound.{Trail, IsSound}

abbrev Tables : Type 0
Tables =
    List Membership
    × (List Incident
        × (List OrganizationCounter × (List OnCallShift × (List AuditLog × List IncidentEvent))))

-- the tables that the invariant reads
abbrev tables : Database → Tables
tables d = (d.memberships, (d.incidents, (d.counters, (d.shifts, (d.audit_log, d.events)))))

abbrev with_tables : Database → Tables → Database
with_tables d (m, (i, (c, (x, (a, e))))) = record d {
  memberships = m;
  incidents = i;
  counters = c;
  shifts = x;
  audit_log = a;
  events = e;
}

module _ (env : Env) where
  mint-Frames :
      (settings : Settings) (user : User) (family : ℕ)
      → Frames tables (mint env settings user family)
  unfolding mint
  mint-Frames settings user family = search framing depth 9

  mint-Pending :
      (settings : Settings) (user : User) (family : ℕ) → Pending (mint env settings user family)
  unfolding mint
  mint-Pending settings user family = search pending depth 9

  refuse_reuse-Frames : (t : RefreshToken) → Frames tables (refuse_reuse env t)
  unfolding refuse_reuse revoke_family
  refuse_reuse-Frames t = search framing depth 9

  refuse_reuse-Pending : (t : RefreshToken) → Pending (refuse_reuse env t)
  unfolding refuse_reuse revoke_family
  refuse_reuse-Pending t = search pending depth 9

  reissue-Frames : (settings : Settings) (t : RefreshToken) → Frames tables (reissue env settings t)
  unfolding reissue consume_and_mint
  reissue-Frames settings t = search (framing, mint-Frames) depth 12

  reissue-Pending : (settings : Settings) (t : RefreshToken) → Pending (reissue env settings t)
  unfolding reissue consume_and_mint
  reissue-Pending settings t = search (pending, mint-Pending) depth 12

  rotate_refresh-Frames :
      (settings : Settings) (raw : String) → Frames tables (rotate_refresh env settings raw)
  unfolding rotate_refresh
  rotate_refresh-Frames settings raw = search (framing, refuse_reuse-Frames, reissue-Frames) depth 9

  rotate_refresh-Pending :
      (settings : Settings) (raw : String) → Pending (rotate_refresh env settings raw)
  unfolding rotate_refresh
  rotate_refresh-Pending settings raw =
      search (pending, refuse_reuse-Pending, reissue-Pending) depth 9

module _ (x : ℕ) (es : Trail) (vs : List IncidentEvent) (env : Env) (settings : Settings) where
  same_tables : (d e : Database) → tables e ≡ tables d → IsSound x es vs d → IsSound x es vs e
  same_tables d e p h = subst (λ t. IsSound x es vs (with_tables d t)) (sym p) h

  rotated :
      (raw : String) (s : Session)
      → Always (IsSound x es vs) s
      → Always (IsSound x es vs) (rotate_refresh env settings raw s).1
  rotated raw s h = (
    same_tables s.db (rotate_refresh env settings raw s).1.db
        ((rotate_refresh-Frames env settings raw).at s) h.0,
    subst (IsSound x es vs) (sym ((rotate_refresh-Pending env settings raw).at s)) h.1,
  )

  answered :
      (r : Result SessionTokens) (s : Session)
      → Always (IsSound x es vs) s
      → Kept (IsSound x es vs) (after_rotation env r s)
  unfolding after_rotation
  answered (ok t) s h = (h.0, h.0)
  answered (err refresh_reused) s h = h.0
  answered (err _) s h = h.1

  pub refresh-IsSound : (raw : String) → Keeps (IsSound x es vs) (refresh env settings raw)
  unfolding refresh attempt
  refresh-IsSound raw = record {
    at = λ s h.
        answered (rotate_refresh env settings raw s).0 (rotate_refresh env settings raw s).1
          (rotated raw s h);
  }
