-- ===== src/Incidents/LostUpdate.antt =====
-- No lost update: of two edits of an incident that expect one version, the second is refused.
use incident_desk.Prelude.{
  ℕ, ◌+◌, ◌≡◌, ◌∙◌, sym, ap, Bool, true, false, Option, none, some, List, [], ◌∷◌, arith, is_some,
  find, find-holds, find-overwritten, find-overwritten_some,
}
use incident_desk.Enums.{Severity}
use incident_desk.Errors.{Error, version_conflict}
use incident_desk.Models.{Organization, User, Incident}
use incident_desk.Session.{Session, Env, Result, ⊤, ok, err, raise_if, reply, ◌>>=◌}
use incident_desk.Session.Inversion.{bind-ok, bind-run}
use incident_desk.Incidents.{save, get_incident, is_incident, has_incident_id, conflict_snapshot}
use incident_desk.Incidents.Edits.{
  Changes, with_fields, is_stale, update_incident, apply_severity, apply_assignment, apply_fields,
}
use incident_desk.Incidents.Concurrency.{
  update_incident_stale, update_incident-version, bumped, edited, assigned, graded, checked,
}

-- the table has a row with the id
abbrev Has : ℕ → Session → Type 0
Has id s = is_some (find (has_incident_id id) s.db.incidents) ≡ true

-- what a step of an edit leaves: the id, the organisation, and a row with the id
abbrev Leaves : Incident → Incident → Session → Type 0
Leaves i j s = (j.id ≡ i.id) × (j.org_id ≡ i.org_id) × Has i.id s

module _ (env : Env) (actor : Option User) (s : Session) (i j : Incident) (r : Has i.id s) where
  severity-Leaves :
      (o : Option Severity)
      → reply (apply_severity env actor o i) s ≡ ok j
      → Leaves i j (apply_severity env actor o i s).1
  unfolding apply_severity
  severity-Leaves none h = ground arith
  severity-Leaves (some v) h = (
    ground arith,
    ground arith,
    ground (
      arith,
      find-overwritten_some (has_incident_id i.id) (record i { severity = v }) (ground arith)
          s.db.incidents r,
    ),
  )

  assignment-Leaves :
      (org_id : ℕ) (c : Changes)
      → reply (apply_assignment env actor org_id c i) s ≡ ok j
      → Leaves i j (apply_assignment env actor org_id c i s).1
  unfolding apply_assignment
  assignment-Leaves org_id c h = (
    ground arith,
    ground arith,
    ground (
      arith,
      find-overwritten_some (has_incident_id i.id) (record i { assigned_to = c.assigned_to })
          (ground arith) s.db.incidents r,
    ),
  )

  fields-Leaves :
      (c : Changes)
      → reply (apply_fields env actor c i) s ≡ ok j
      → Leaves i j (apply_fields env actor c i s).1
  unfolding apply_fields
  fields-Leaves c h = (
    ground arith,
    ground arith,
    ground (
      arith,
      find-overwritten_some (has_incident_id i.id) (with_fields c i) (ground arith) s.db.incidents
          r,
    ),
  )

-- A row that is found has its id in the table.
pub find-Has :
    (org_id id : ℕ) (is : List Incident) (i : Incident)
    → find (is_incident org_id id) is ≡ some i
    → is_some (find (has_incident_id i.id) is) ≡ true
find-Has org_id id [] i e = cc
find-Has org_id id (x ∷ is) i e =
    ground (arith, find-Has org_id id is i, find-holds (is_incident org_id id) (x ∷ is) i e)

module _ (env : Env) (actor : Option User) (org : Organization) (c : Changes) where
  bumped-found :
      (f j : Incident) (s : Session) (o d : ℕ)
      → o ≡ f.org_id
      → d ≡ f.id
      → Has f.id s
      → reply (bumped env actor org c f) s ≡ ok j
      → find (is_incident o d) (bumped env actor org c f s).1.db.incidents ≡ some j
  unfolding save
  bumped-found f j s o d eo ed r h =
      let q : record f { version = f.version + 1 } ≡ j = ground arith in
      find-overwritten (has_incident_id f.id) (record f { version = f.version + 1 }) (ground arith)
        (is_incident o d) (λ x p. ground arith) s.db.incidents (ground arith) r
      ∙ ap some q

  graded-found :
      (i j : Incident) (s : Session) (o d : ℕ)
      → o ≡ i.org_id
      → d ≡ i.id
      → Has i.id s
      → reply (graded env actor org c i) s ≡ ok j
      → find (is_incident o d) (graded env actor org c i s).1.db.incidents ≡ some j
  graded-found i j s o d eo ed r h =
      let (g, p, h1) =
        bind-ok (apply_severity env actor c.severity i) (assigned env actor org c) s j h in
      let s1 = (apply_severity env actor c.severity i s).1 in
      let (a, q, h2) =
        bind-ok (apply_assignment env actor org.id c g) (edited env actor org c) s1 j h1 in
      let s2 = (apply_assignment env actor org.id c g s1).1 in
      let (f, t, h3) = bind-ok (apply_fields env actor c a) (bumped env actor org c) s2 j h2 in
      let s3 = (apply_fields env actor c a s2).1 in
      let v1 = severity-Leaves env actor s i g r c.severity p in
      let v2 = assignment-Leaves env actor s1 g a (rw v1.0 v1.2) org.id c q in
      let v3 = fields-Leaves env actor s2 a f (rw v2.0 v2.2) c t in
      let w : graded env actor org c i s ≡ bumped env actor org c f s3 =
        bind-run (apply_severity env actor c.severity i) (assigned env actor org c) s g p
        ∙ bind-run (apply_assignment env actor org.id c g) (edited env actor org c) s1 a q
        ∙ bind-run (apply_fields env actor c a) (bumped env actor org c) s2 f t in
      let z =
        bumped-found f j s3 o d (eo ∙ sym (v3.1 ∙ v2.1 ∙ v1.1)) (ed ∙ sym (v3.0 ∙ v2.0 ∙ v1.0))
          (rw v3.0 v3.2) h3 in
      rw w z

raise_if-run : (b : Bool) (e : Error) (s : Session) → b ≡ false → raise_if b e s ≡ (ok tt, s)
unfolding ◌>>=◌
raise_if-run b e s h = ground arith

get-run :
    (org : Organization) (id : ℕ) (s : Session) (i : Incident)
    → find (is_incident org.id id) s.db.incidents ≡ some i
    → get_incident org id s ≡ (ok i, s)
unfolding get_incident
get-run org id s i e = ground arith

module _ (env : Env) (actor : Option User) (org : Organization) (id : ℕ) (c : Changes)
    (s : Session) where
  pub update-graded :
      (i : Incident)
      → find (is_incident org.id id) s.db.incidents ≡ some i
      → is_stale c.expected_version i ≡ false
      → update_incident env actor org id c s ≡ graded env actor org c i s
  unfolding update_incident
  update-graded i e n =
      let g = get-run org id s i e in
      let v =
        raise_if-run (is_stale c.expected_version i) (version_conflict (conflict_snapshot i)) s n in
      bind-run (get_incident org id) (checked env actor org c) s i
        (ap (λ (p : Result Incident × Session). p.0) g)
      ∙ ap (λ (p : Result Incident × Session). checked env actor org c i p.1) g
      ∙ bind-run (raise_if (is_stale c.expected_version i) (version_conflict (conflict_snapshot i)))
          (λ _. graded env actor org c i) s tt (ap (λ (p : Result ⊤ × Session). p.0) v)
      ∙ ap (λ (p : Result ⊤ × Session). graded env actor org c i p.1) v

  pub update-found :
      (j : Incident)
      → reply (update_incident env actor org id c) s ≡ ok j
      → find (is_incident org.id id) (update_incident env actor org id c s).1.db.incidents ≡ some j
  update-found j h =
      let (i, e, n, _) = update_incident-version env actor org id c s j h in
      let w = update-graded i e n in
      let k = find-holds (is_incident org.id id) s.db.incidents i e in
      let r : reply (graded env actor org c i) s ≡ ok j =
        sym (ap (λ (p : Result Incident × Session). p.0) w) ∙ h in
      ap (λ (p : Result Incident × Session). find (is_incident org.id id) p.1.db.incidents) w
      ∙ graded-found env actor org c i j s org.id id (ground (arith, k)) (ground (arith, k))
          (find-Has org.id id s.db.incidents i e) r

  -- After an edit that expected the version `v`, another edit of the incident that expects `v` is
  -- refused with the state that the first one left, and changes nothing.
  pub second_edit_refused :
      (other : Option User) (c' : Changes) (v : ℕ) (j : Incident)
      → c.expected_version ≡ some v
      → c'.expected_version ≡ some v
      → reply (update_incident env actor org id c) s ≡ ok j
      → update_incident env other org id c' (update_incident env actor org id c s).1
        ≡ (err (version_conflict (conflict_snapshot j)), (update_incident env actor org id c s).1)
  second_edit_refused other c' v j x x' h =
      let (i, e, n, m) = update_incident-version env actor org id c s j h in
      update_incident_stale env other org id c' (update_incident env actor org id c s).1 j v
        (update-found j h) x' (let q = m.0 in ground (arith, n, x, q))
