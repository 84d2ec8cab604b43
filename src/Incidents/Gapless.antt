-- ===== src/Incidents/Gapless.antt =====
-- The numbering stays gapless under transitions and edits: they rewrite rows, and each rewritten row
-- keeps its id, its organisation and its number.
use incident_desk.Prelude.{
  ℕ, ◌≡◌, ◌∙◌, sym, ap, refl, Option, none, some, List, String, arith, update_where, inr,
}
use incident_desk.Enums.{
  Severity, IncidentStatus, opened, acknowledged, mitigated, resolved, postmortem,
}
use incident_desk.Models.{Organization, User, Incident, OrganizationCounter, Json}
use incident_desk.Session.{Database, Session, Env, Result, ok, reply, written}
use incident_desk.Session.Keeping.{Keeps}
use incident_desk.Session.Pending.{Pending-Keeps}
use incident_desk.Session.Inversion.{bind-ok, bind-run}
use incident_desk.Timeline.{record_event}
use incident_desk.Incidents.{
  has_incident_id, stamp_acknowledged, stamp_resolved, save, get_incident, transition_status,
}
use incident_desk.Incidents.Edits.{
  Changes, update_incident, apply_severity, apply_assignment, apply_fields,
}
use mathlib.Core.Path.{subst}
use incident_desk.Incidents.LostUpdate.{update-graded}
use incident_desk.Incidents.Concurrency.{update_incident-version, bumped, edited, assigned, graded}
use incident_desk.Incidents.Uncommitted.{update_incident-Pending, transition_status-Pending}
use incident_desk.Incidents.Transitions.{transition_status_sound}
use incident_desk.Session.Frames.{Frames, framing}
use incident_desk.Incidents.Numbers.{IsGapless}
use incident_desk.Incidents.Rewritten.{SameRow, Stands, Rewrites, found-Agrees, Rewrites-Stands}

module _ (env : Env) (actor : Option User) (s : Session) (i j : Incident) where
  severity-Rewrites :
      (o : Option Severity)
      → reply (apply_severity env actor o i) s ≡ ok j
      → SameRow i j × Rewrites j s.db (written (apply_severity env actor o i) s)
  unfolding apply_severity
  severity-Rewrites none h = ground arith
  severity-Rewrites (some v) h = ground arith

  assignment-Rewrites :
      (org_id : ℕ) (c : Changes)
      → reply (apply_assignment env actor org_id c i) s ≡ ok j
      → SameRow i j × Rewrites j s.db (written (apply_assignment env actor org_id c i) s)
  unfolding apply_assignment
  assignment-Rewrites org_id c h = ground arith

  fields-Rewrites :
      (c : Changes)
      → reply (apply_fields env actor c i) s ≡ ok j
      → SameRow i j × Rewrites j s.db (written (apply_fields env actor c i) s)
  unfolding apply_fields
  fields-Rewrites c h = ground arith

module _ (env : Env) (actor : Option User) (org : Organization) (c : Changes) (x : ℕ) where
  bumped-Rewrites :
      (s : Session) (i j : Incident)
      → reply (bumped env actor org c i) s ≡ ok j
      → SameRow i j × Rewrites j s.db (written (bumped env actor org c i) s)
  unfolding save
  bumped-Rewrites s i j h = ground arith

  graded-Stands :
      (s : Session) (i j : Incident)
      → Stands x i s.db
      → reply (graded env actor org c i) s ≡ ok j
      → Stands x j (written (graded env actor org c i) s)
  graded-Stands s i j v h =
      let (g, p, h1) =
        bind-ok (apply_severity env actor c.severity i) (assigned env actor org c) s j h in
      let s1 = (apply_severity env actor c.severity i s).1 in
      let (a, q, h2) =
        bind-ok (apply_assignment env actor org.id c g) (edited env actor org c) s1 j h1 in
      let s2 = (apply_assignment env actor org.id c g s1).1 in
      let (f, t, h3) = bind-ok (apply_fields env actor c a) (bumped env actor org c) s2 j h2 in
      let s3 = (apply_fields env actor c a s2).1 in
      let r1 = severity-Rewrites env actor s i g c.severity p in
      let r2 = assignment-Rewrites env actor s1 g a org.id c q in
      let r3 = fields-Rewrites env actor s2 a f c t in
      let r4 = bumped-Rewrites s3 f j h3 in
      let v1 = Rewrites-Stands x i g s.db s1.db r1.0 r1.1 v in
      let v2 = Rewrites-Stands x g a s1.db s2.db r2.0 r2.1 v1 in
      let v3 = Rewrites-Stands x a f s2.db s3.db r3.0 r3.1 v2 in
      let v4 = Rewrites-Stands x f j s3.db (bumped env actor org c f s3).1.db r4.0 r4.1 v3 in
      let w : graded env actor org c i s ≡ bumped env actor org c f s3 =
        bind-run (apply_severity env actor c.severity i) (assigned env actor org c) s g p
        ∙ bind-run (apply_assignment env actor org.id c g) (edited env actor org c) s1 a q
        ∙ bind-run (apply_fields env actor c a) (bumped env actor org c) s2 f t in
      subst (λ (p : Result Incident × Session). Stands x j p.1.db) (sym w) v4

  update-IsGapless :
      (id : ℕ) (s : Session) (j : Incident)
      → IsGapless x s.db
      → reply (update_incident env actor org id c) s ≡ ok j
      → IsGapless x (written (update_incident env actor org id c) s)
  update-IsGapless id s j v h =
      let (i, e, n, _) = update_incident-version env actor org id c s j h in
      let w = update-graded env actor org id c s i e n in
      let r : reply (graded env actor org c i) s ≡ ok j =
        sym (ap (λ (p : Result Incident × Session). p.0) w) ∙ h in
      let g = graded-Stands s i j (v, found-Agrees org.id id s.db.incidents i v.0 e) r in
      subst (λ (p : Result Incident × Session). IsGapless x p.1.db) (sym w) g.0

  pub update_incident-IsGapless :
      (id : ℕ) → Keeps (IsGapless x) (update_incident env actor org id c)
  update_incident-IsGapless id =
      Pending-Keeps (IsGapless x) (update_incident env actor org id c)
        (update_incident-Pending env actor org id c) (update-IsGapless id)

abbrev counters : Database → List OrganizationCounter
counters d = d.counters

module _ (env : Env) (x : ℕ) where
  record_event-Frames :
      (id : ℕ) (a : Option ℕ) (t : String) (p : Json) → Frames counters (record_event env id a t p)
  unfolding record_event
  record_event-Frames id a t p = search framing depth 7

  acknowledged-Frames :
      (new : IncidentStatus) (i : Incident) → Frames counters (stamp_acknowledged env new i)
  unfolding stamp_acknowledged
  acknowledged-Frames opened i = search framing
  acknowledged-Frames acknowledged i = search framing depth 7
  acknowledged-Frames mitigated i = search framing
  acknowledged-Frames resolved i = search framing
  acknowledged-Frames postmortem i = search framing

  resolved-Frames :
      (new : IncidentStatus) (summary : Option String) (i : Incident)
      → Frames counters (stamp_resolved env new summary i)
  unfolding stamp_resolved
  resolved-Frames opened summary i = search framing
  resolved-Frames acknowledged summary i = search framing
  resolved-Frames mitigated summary i = search framing
  resolved-Frames resolved summary i = search framing depth 7
  resolved-Frames postmortem summary i = search framing

  get_incident-Frames : (org : Organization) (id : ℕ) → Frames counters (get_incident org id)
  unfolding get_incident
  get_incident-Frames org id = search framing

  module _ (org : Organization) (id : ℕ) (new : IncidentStatus) (actor : Option User)
      (summary : Option String) where
    transition_status-Frames : Frames counters (transition_status env org id new actor summary)
    unfolding transition_status
    transition_status-Frames =
        search
          (framing, get_incident-Frames, acknowledged-Frames, resolved-Frames, record_event-Frames)
          depth 14

    transition-IsGapless :
        (s : Session) (j : Incident)
        → IsGapless x s.db
        → reply (transition_status env org id new actor summary) s ≡ ok j
        → IsGapless x (written (transition_status env org id new actor summary) s)
    transition-IsGapless s j v h =
        let (i, e, _, q, w) = transition_status_sound env org id new actor summary s j h in
        let same : SameRow i j = rw q (refl, refl, refl) in
        let n : j.id ≡ i.id = same.0 in
        let table =
          w ∙ ap (λ y. update_where (has_incident_id y) (λ _. j) s.db.incidents) (sym n) in
        let agrees = found-Agrees org.id id s.db.incidents i v.0 e in
        (Rewrites-Stands x i j s.db (written (transition_status env org id new actor summary) s)
          same (inr table, transition_status-Frames.at s) (v, agrees)).0

    pub transition_status-IsGapless :
        Keeps (IsGapless x) (transition_status env org id new actor summary)
    transition_status-IsGapless =
        Pending-Keeps (IsGapless x) (transition_status env org id new actor summary)
          (transition_status-Pending env org id new actor summary) transition-IsGapless
