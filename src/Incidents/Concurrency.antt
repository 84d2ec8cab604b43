-- ===== src/Incidents/Concurrency.antt =====
-- Optimistic concurrency of `update_incident`: a stale version changes nothing, a current one is
-- answered with the next version, so of two edits from one version at most one is made.
use incident_desk.Prelude.{ℕ, ◌+◌, ◌≡◌, ◌≢◌, ◌∙◌, false, Option, none, some, arith, find}
use incident_desk.Enums.{Severity}
use incident_desk.Errors.{not_found, version_conflict}
use incident_desk.Models.{Organization, User, Incident}
use incident_desk.Session.{Session, Env, ok, err, Action, pure, raise_if, reply, ◌>>=◌, ◌>>◌}
use incident_desk.Session.Inversion.{bind-ok, or_raise-ok, raise_if-ok}
use incident_desk.Incidents.{save, get_incident, is_incident, conflict_snapshot}
use incident_desk.Incidents.Edits.{
  Changes, is_stale, update_incident, apply_severity, apply_assignment, apply_fields,
}

module _ (env : Env) (actor : Option User) (org : Organization) (id : ℕ) (c : Changes)
    (s : Session) where
  -- A client that saw another version gets the current state and changes nothing.
  pub update_incident_stale :
      (i : Incident) (v : ℕ)
      → find (is_incident org.id id) s.db.incidents ≡ some i
      → c.expected_version ≡ some v
      → v ≢ i.version
      → update_incident env actor org id c s ≡ (err (version_conflict (conflict_snapshot i)), s)
  unfolding update_incident
  update_incident_stale i v e x n = ground arith

-- the fields that no step of an edit touches before the version goes up
abbrev Same : Incident → Incident → Type 0
Same i j =
    (j.version ≡ i.version)
    × (j.id ≡ i.id)
    × (j.org_id ≡ i.org_id)
    × (j.sequence_number ≡ i.sequence_number)
    × (j.status ≡ i.status)

module _ (env : Env) (actor : Option User) (s : Session) (i j : Incident) where
  severity-Same : (o : Option Severity) → reply (apply_severity env actor o i) s ≡ ok j → Same i j
  unfolding apply_severity
  severity-Same none h = ground arith
  severity-Same (some v) h = ground arith

  assignment-Same :
      (org_id : ℕ) (c : Changes) → reply (apply_assignment env actor org_id c i) s ≡ ok j → Same i j
  unfolding apply_assignment
  assignment-Same org_id c h = ground arith

  fields-Same : (c : Changes) → reply (apply_fields env actor c i) s ≡ ok j → Same i j
  unfolding apply_fields
  fields-Same c h = ground arith

module _ (env : Env) (actor : Option User) (org : Organization) (c : Changes) where
  -- the rest of an edit after each of its steps
  abbrev pub bumped : Incident → Action Incident
  bumped edited = do
    let next : Incident = record edited { version = edited.version + 1 }
    save next
    pure next

  abbrev pub edited : Incident → Action Incident
  edited assigned = apply_fields env actor c assigned >>= bumped

  abbrev pub assigned : Incident → Action Incident
  assigned graded = apply_assignment env actor org.id c graded >>= edited

  abbrev pub graded : Incident → Action Incident
  graded i = apply_severity env actor c.severity i >>= assigned

  abbrev pub checked : Incident → Action Incident
  checked i = do
    raise_if (is_stale c.expected_version i) (version_conflict (conflict_snapshot i))
    graded i

  bumped-ok :
      (s : Session) (i j : Incident)
      → reply (bumped i) s ≡ ok j
      → (j.version ≡ i.version + 1)
        × (j.id ≡ i.id)
        × (j.sequence_number ≡ i.sequence_number)
        × (j.status ≡ i.status)
  unfolding save
  bumped-ok s i j h = ground arith

  graded-ok :
      (s : Session) (i j : Incident)
      → reply (graded i) s ≡ ok j
      → (j.version ≡ i.version + 1)
        × (j.id ≡ i.id)
        × (j.sequence_number ≡ i.sequence_number)
        × (j.status ≡ i.status)
  graded-ok s i j h =
      let (g, p, h1) = bind-ok (apply_severity env actor c.severity i) assigned s j h in
      let s1 = (apply_severity env actor c.severity i s).1 in
      let (a, q, h2) = bind-ok (apply_assignment env actor org.id c g) edited s1 j h1 in
      let s2 = (apply_assignment env actor org.id c g s1).1 in
      let (f, r, h3) = bind-ok (apply_fields env actor c a) bumped s2 j h2 in
      let v1 = severity-Same env actor s i g c.severity p in
      let v2 = assignment-Same env actor s1 g a org.id c q in
      let v3 = fields-Same env actor s2 a f c r in
      let v4 = bumped-ok (apply_fields env actor c a s2).1 f j h3 in
      (
        omega (arith, v1.0, v2.0, v3.0, v4.0),
        v4.1 ∙ v3.1 ∙ v2.1 ∙ v1.1,
        v4.2 ∙ v3.3 ∙ v2.3 ∙ v1.3,
        v4.3 ∙ v3.4 ∙ v2.4 ∙ v1.4,
      )

-- An edit that is made answers with the next version of the incident that it found, and leaves its
-- identity, number and status alone.
pub update_incident-version :
    (env : Env) (actor : Option User) (org : Organization) (id : ℕ) (c : Changes) (s : Session)
    (i' : Incident)
    → reply (update_incident env actor org id c) s ≡ ok i'
    → (i : Incident) × (find (is_incident org.id id) s.db.incidents ≡ some i)
      × (is_stale c.expected_version i ≡ false)
      × ((i'.version ≡ i.version + 1)
          × (i'.id ≡ i.id)
          × (i'.sequence_number ≡ i.sequence_number)
          × (i'.status ≡ i.status))
unfolding update_incident get_incident
update_incident-version env actor org id c s i' r =
    let (i, p, r1) = bind-ok (get_incident org id) (checked env actor org c) s i' r in
    let (u, stale, r2) =
      bind-ok (raise_if (is_stale c.expected_version i) (version_conflict (conflict_snapshot i)))
        (λ _. graded env actor org c i) (get_incident org id s).1 i' r1 in
    (
      i,
      or_raise-ok (find (is_incident org.id id) s.db.incidents) not_found s i p,
      raise_if-ok (is_stale c.expected_version i) (version_conflict (conflict_snapshot i))
          (get_incident org id s).1 u stale,
      graded-ok env actor org c
          (raise_if (is_stale c.expected_version i) (version_conflict (conflict_snapshot i))
            (get_incident org id s).1).1
          i i' r2,
    )
