-- ===== src/Incidents/Transitions.antt =====
-- `transition_status`: which moves it accepts, and what an accepted move writes.
use incident_desk.Prelude.{
  ℕ, ◌+◌, ◌≡◌, ◌≢◌, ◌⊎◌, ◌∙◌, ap, sym, inl, inr, refl, true, false, not, Option, none, some, String,
  arith, is_some, is_empty, find, update_where, Option-cases, Bool-cases, if◌then◌else◌, ◌&&◌,
}
use incident_desk.Enums.{
  IncidentStatus, acknowledged, resolved, opened, mitigated, postmortem, status_eq,
}
use incident_desk.Errors.{Error, not_found, illegal_transition, resolution_required}
use incident_desk.Models.{Organization, User, Incident}
use incident_desk.Session.{Session, Env, ok, err, reply, written}
use incident_desk.StateMachine.{is_legal, allowed_targets}
use incident_desk.StateMachine.Diagram.{◌⟶◌, is_legal_iff}
use incident_desk.Incidents.{is_incident, has_incident_id, summary_text, transition_status}

-- A move to `new` needs an arrow of the diagram, and a summary if it resolves the incident.
abbrev pub Allowed : IncidentStatus → IncidentStatus → Option String → Type 0
Allowed old new summary =
    (old ⟶ new) × ((new ≢ resolved) ⊎ (is_empty (summary_text summary) ≡ false))

module _ (env : Env) (org : Organization) (id : ℕ) (new : IncidentStatus) (actor : Option User)
    (summary : Option String) (s : Session) where
  abbrev found : Option Incident
  found = find (is_incident org.id id) s.db.incidents

  transition-none :
      found ≡ none → transition_status env org id new actor summary s ≡ (err not_found, s)
  unfolding transition_status
  transition-none e = ground arith

  transition-illegal :
      (i : Incident)
      → found ≡ some i
      → is_legal i.status new ≡ false
      → transition_status env org id new actor summary s
        ≡ (err (illegal_transition i.status new (allowed_targets i.status)), s)
  unfolding transition_status
  transition-illegal i e l = ground arith

  transition-blank :
      (i : Incident)
      → found ≡ some i
      → is_legal i.status new ≡ true
      → status_eq new resolved && is_empty (summary_text summary) ≡ true
      → transition_status env org id new actor summary s ≡ (err resolution_required, s)
  unfolding transition_status
  transition-blank i e l b = ground arith

  -- the incident after an accepted move, with the clock read once at most
  abbrev pub moved : Incident → Incident
  moved i = record i {
    status = new;
    version = i.version + 1;
    acknowledged_at =
        if status_eq new acknowledged && not (is_some i.acknowledged_at)
        then some (env.clock s.draws)
        else i.acknowledged_at;
    resolved_at = if status_eq new resolved then some (env.clock s.draws) else i.resolved_at;
    resolution_summary =
        if status_eq new resolved then some (summary_text summary) else i.resolution_summary;
  }

module _ (env : Env) (org : Organization) (id : ℕ) (actor : Option User) (summary : Option String)
    (s : Session) where
  transition-moves :
      (new : IncidentStatus) (i : Incident)
      → found env org id new actor summary s ≡ some i
      → is_legal i.status new ≡ true
      → status_eq new resolved && is_empty (summary_text summary) ≡ false
      → (reply (transition_status env org id new actor summary) s
          ≡ ok (moved env org id new actor summary s i))
        × ((transition_status env org id new actor summary s).1.db.incidents
            ≡ update_where
                (has_incident_id i.id)
                (λ _. moved env org id new actor summary s i)
                s.db.incidents)
  unfolding transition_status
  transition-moves opened i e l b = ground arith
  transition-moves acknowledged i e l b = ground arith
  transition-moves mitigated i e l b = ground arith
  transition-moves resolved i e l b = ground arith
  transition-moves postmortem i e l b = ground arith

blank→Allowed :
    (old new : IncidentStatus) (summary : Option String)
    → is_legal old new ≡ true
    → status_eq new resolved && is_empty (summary_text summary) ≡ false
    → Allowed old new summary
blank→Allowed old opened summary l b = ((is_legal_iff old opened).0 l, inl (λ e. cc e))
blank→Allowed old acknowledged summary l b = ((is_legal_iff old acknowledged).0 l, inl (λ e. cc e))
blank→Allowed old mitigated summary l b = ((is_legal_iff old mitigated).0 l, inl (λ e. cc e))
blank→Allowed old resolved summary l b = ((is_legal_iff old resolved).0 l, inr b)
blank→Allowed old postmortem summary l b = ((is_legal_iff old postmortem).0 l, inl (λ e. cc e))

Allowed→blank :
    (old new : IncidentStatus) (summary : Option String)
    → Allowed old new summary
    → status_eq new resolved && is_empty (summary_text summary) ≡ false
Allowed→blank old opened summary a = refl
Allowed→blank old acknowledged summary a = refl
Allowed→blank old mitigated summary a = refl
Allowed→blank old resolved summary a = elim a.1 [ inl n ↦ absurd (n refl) | inr b ↦ b ]
Allowed→blank old postmortem summary a = refl

module _ (env : Env) (org : Organization) (id : ℕ) (new : IncidentStatus) (actor : Option User)
    (summary : Option String) (s : Session) where
  -- An accepted move found the incident in the organisation and follows an arrow of the diagram, with
  -- a summary if it resolves. It answers with the incident with the new status, the next version, the
  -- first acknowledgement kept or stamped, the resolution and its stripped summary stamped, all else
  -- as it was, and the incident's row is the only one that it changes.
  pub transition_status_sound :
      (i' : Incident)
      → reply (transition_status env org id new actor summary) s ≡ ok i'
      → (i : Incident) × (find (is_incident org.id id) s.db.incidents ≡ some i)
        × Allowed i.status new summary
        × (i' ≡ moved env org id new actor summary s i)
        × ((written (transition_status env org id new actor summary) s).incidents
            ≡ update_where (has_incident_id i.id) (λ _. i') s.db.incidents)
  transition_status_sound i' r = elim (Option-cases (find (is_incident org.id id) s.db.incidents)) [
    | inl e ↦ absurd (cc (transition-none env org id new actor summary s e))
    | inr (i, e) ↦ elim (Bool-cases (is_legal i.status new)) [
      | inr l ↦ absurd (cc (transition-illegal env org id new actor summary s i e l))
      | inl l ↦ elim (Bool-cases (status_eq new resolved && is_empty (summary_text summary))) [
        | inl b ↦ absurd (cc (transition-blank env org id new actor summary s i e l b))
        | inr b ↦
            let m = transition-moves env org id actor summary s new i e l b in
            let q : i' ≡ moved env org id new actor summary s i = cc (r, m.0) in
            (
              i,
              e,
              blank→Allowed i.status new summary l b,
              q,
              m.1
                  ∙ ap
                      (λ (j : Incident).
                        update_where (has_incident_id i.id) (λ _. j) s.db.incidents)
                      (sym q),
            )
      ]
    ]
  ]

  -- Every move that the diagram allows, with a summary where one is needed, is accepted.
  pub transition_status_complete :
      (i : Incident)
      → find (is_incident org.id id) s.db.incidents ≡ some i
      → Allowed i.status new summary
      → (i' : Incident) × (reply (transition_status env org id new actor summary) s ≡ ok i')
  transition_status_complete i e a = (
    moved env org id new actor summary s i,
    (transition-moves env org id actor summary s new i e ((is_legal_iff i.status new).1 a.0)
        (Allowed→blank i.status new summary a)).0,
  )

  -- A refused move writes nothing.
  pub transition_status_refused :
      (x : Error)
      → reply (transition_status env org id new actor summary) s ≡ err x
      → (transition_status env org id new actor summary s).1 ≡ s
  transition_status_refused x r =
      elim (Option-cases (find (is_incident org.id id) s.db.incidents)) [
        | inl e ↦ rw (transition-none env org id new actor summary s e)
        | inr (i, e) ↦ elim (Bool-cases (is_legal i.status new)) [
          | inr l ↦ rw (transition-illegal env org id new actor summary s i e l)
          | inl l ↦ elim (Bool-cases (status_eq new resolved && is_empty (summary_text summary))) [
            | inl b ↦ rw (transition-blank env org id new actor summary s i e l b)
            | inr b ↦ absurd (cc (r, (transition-moves env org id actor summary s new i e l b).0))
          ]
        ]
      ]
