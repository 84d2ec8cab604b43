-- ===== src/Api/Tags.antt =====
-- Two edits with one version tag: `update_incident` of
-- backend/src/incident_desk/api/v1/incidents.py.
use incident_desk.Prelude.{ℕ, ◌≡◌, refl, sym, ap, ◌∙◌, String, some, arith, find}
use incident_desk.Errors.{version_conflict}
use incident_desk.Models.{Incident}
use incident_desk.Session.{Session, Env, Result, ok, err, reply, close}
use incident_desk.Session.Inversion.{bind-ok, bind-run, bind-refused, ok-injective}
use incident_desk.Authz.{AuthContext}
use incident_desk.Audit.{AuditInfo, record_audit}
use incident_desk.Incidents.{is_incident, conflict_snapshot}
use incident_desk.Incidents.Edits.{Changes, update_incident}
use incident_desk.Incidents.Concurrency.{update_incident_stale, update_incident-version}
use incident_desk.Incidents.LostUpdate.{update-found}
use incident_desk.Api.Etag.{parse_if_match, etag}
use incident_desk.Api.Incidents.{Edit, after_edit, edit_in, edit_at, from_result}

abbrev expecting : Edit → ℕ → Changes
expecting edit v = record edit.changes { expected_version = some v }

module _ (env : Env) (info : AuditInfo) (ctx : AuthContext) (edit : Edit) where
  after_edit-ok :
      (i : Incident) (s : Session)
      → reply (after_edit env info ctx edit i) s ≡ ok (i, etag i.version)
  unfolding after_edit
  after_edit-ok i s = refl

  after_edit-committed :
      (i : Incident) (s : Session)
      → (after_edit env info ctx edit i s).1.committed.incidents ≡ s.db.incidents
  unfolding after_edit record_audit
  after_edit-committed i s = refl

  edit_at-run :
      (id : ℕ) (header : String) (v : ℕ) (s : Session)
      → parse_if_match header ≡ ok v
      → edit_at env info ctx id edit (some header) s ≡ edit_in env info ctx id edit v s
  unfolding edit_at from_result
  edit_at-run id header v s h = rw h refl

  edit_at-parsed :
      (id : ℕ) (header : String) (s : Session) (x : Incident × String)
      → reply (edit_at env info ctx id edit (some header)) s ≡ ok x
      → (v : ℕ) × (parse_if_match header ≡ ok v)
  unfolding edit_at from_result
  edit_at-parsed id header s x h =
      let (v, p, _) =
        bind-ok (from_result (parse_if_match header)) (edit_in env info ctx id edit) s x h in
      (v, p)

  edit_in-run :
      (id v : ℕ) (s : Session) (j : Incident)
      → reply (update_incident env ctx.user ctx.org id (expecting edit v)) s ≡ ok j
      → edit_in env info ctx id edit v s
        ≡ after_edit env info ctx edit j
            (update_incident env ctx.user ctx.org id (expecting edit v) s).1
  unfolding edit_in
  edit_in-run id v s j h =
      bind-run (update_incident env ctx.user ctx.org id (expecting edit v))
        (after_edit env info ctx edit) s j h

  edit_in-inverted :
      (id v : ℕ) (s : Session) (j : Incident) (tag : String)
      → reply (edit_in env info ctx id edit v) s ≡ ok (j, tag)
      → (reply (update_incident env ctx.user ctx.org id (expecting edit v)) s ≡ ok j)
        × (tag ≡ etag j.version)
  unfolding edit_in
  edit_in-inverted id v s j tag h =
      let (i, p, r) =
        bind-ok (update_incident env ctx.user ctx.org id (expecting edit v))
          (after_edit env info ctx edit) s (j, tag) h in
      let t = (update_incident env ctx.user ctx.org id (expecting edit v) s).1 in
      let z : ok (i, etag i.version) ≡ ok (j, tag) = sym (after_edit-ok i t) ∙ r in
      let y : (i, etag i.version) ≡ (j, tag) = ok-injective (i, etag i.version) (j, tag) z in
      let same : i ≡ j = ap (λ (x : Incident × String). x.0) y in
      (
        p ∙ ap (λ (x : Incident). ok x) same,
        sym (ap (λ (x : Incident × String). x.1) y) ∙ ap (λ (x : Incident). etag x.version) same,
      )

  edit_in-refused :
      (id v : ℕ) (s : Session) (j : Incident)
      → update_incident env ctx.user ctx.org id (expecting edit v) s
        ≡ (err (version_conflict (conflict_snapshot j)), s)
      → edit_in env info ctx id edit v s ≡ (err (version_conflict (conflict_snapshot j)), s)
  unfolding edit_in
  edit_in-refused id v s j h =
      bind-refused (update_incident env ctx.user ctx.org id (expecting edit v))
        (after_edit env info ctx edit) s s (version_conflict (conflict_snapshot j)) h

-- An edit with an `If-Match` header that succeeded: a later edit of the incident with the same header
-- is refused with the incident as the first edit left it, whoever sends it, and changes nothing. The
-- first edit answers the tag of the new version.
pub second_tag_refused :
    (env : Env) (info info' : AuditInfo) (ctx ctx' : AuthContext) (id : ℕ) (edit edit' : Edit)
    (header : String) (s : Session) (j : Incident) (tag : String)
    → ctx'.org ≡ ctx.org
    → reply (edit_at env info ctx id edit (some header)) (close s) ≡ ok (j, tag)
    → let after = close (edit_at env info ctx id edit (some header) (close s)).1 in
      (edit_at env info' ctx' id edit' (some header) after
        ≡ (err (version_conflict (conflict_snapshot j)), after))
      × (tag ≡ etag j.version)
second_tag_refused env info info' ctx ctx' id edit edit' header s j tag o h =
    let (v, p) = edit_at-parsed env info ctx edit id header (close s) (j, tag) h in
    let w1 = edit_at-run env info ctx edit id header v (close s) p in
    let h1 = sym (ap (λ (x : Result (Incident × String) × Session). x.0) w1) ∙ h in
    let (q, tagged) = edit_in-inverted env info ctx edit id v (close s) j tag h1 in
    let c = expecting edit v in
    let t = (update_incident env ctx.user ctx.org id c (close s)).1 in
    let after = close (edit_at env info ctx id edit (some header) (close s)).1 in
    let table : after.db.incidents ≡ t.db.incidents =
      ap (λ (x : Result (Incident × String) × Session). x.1.committed.incidents)
        (w1 ∙ edit_in-run env info ctx edit id v (close s) j q)
      ∙ after_edit-committed env info ctx edit j t in
    let found =
      ap (find (is_incident ctx.org.id id)) table
      ∙ update-found env ctx.user ctx.org id c (close s) j q in
    let (i, e, n, m) = update_incident-version env ctx.user ctx.org id c (close s) j q in
    let stale =
      update_incident_stale env ctx'.user ctx'.org id (expecting edit' v) after j v (rw o found)
        refl (let g = m.0 in ground (arith, n, g)) in
    (
      edit_at-run env info' ctx' edit' id header v after p
          ∙ edit_in-refused env info' ctx' edit' id v after j stale,
      tagged,
    )
