-- ===== src/Incidents/Numbers.antt =====
-- Gapless numbering: the incidents of an organisation carry 1, 2, ..., n in the order in which they
-- were created, and its counter stands at n.
use incident_desk.Prelude.{
  ℕ, zero, suc, ◌+◌, ◌==◌, ==_iff, ◌≡◌, ◌≢◌, inl, inr, refl, ap, Option, none, some, List, [], ◌∷◌,
  ◌++◌, arith, find, update_where, Bool-cases, Option-cases, if◌then◌else◌,
}
use mathlib.Core.List.{append-nil}
use incident_desk.Models.{Organization, OrganizationCounter, User, Incident}
use incident_desk.Session.{Database, Session, Env, ok, err}
use incident_desk.Session.Keeping.{Keeps, Kept, Always, keeping}
use incident_desk.Incidents.{
  has_counter, has_incident_id, bump, NewIncident, insert_incident, create_incident,
  require_assignee, new_incident, created_payload, require_member,
}
use incident_desk.Timeline.{event_row}
use incident_desk.Errors.{not_found, integrity_error}

-- the numbers of an organisation's incidents, in the order of the rows
abbrev pub numbers : ℕ → List Incident → List ℕ
numbers x [] = []
numbers x (i ∷ is) = if i.org_id == x then i.sequence_number ∷ numbers x is else numbers x is

-- 1, 2, ..., n
abbrev pub one_to : ℕ → List ℕ
one_to zero = []
one_to (suc n) = one_to n ++ suc n ∷ []

-- where the counter of an organisation stands
abbrev pub seq_of : Option OrganizationCounter → ℕ
seq_of none = 0
seq_of (some c) = c.incident_seq

abbrev pub issued : ℕ → List OrganizationCounter → ℕ
issued x cs = seq_of (find (has_counter x) cs)

-- The primary key of `incidents` names one row.
abbrev pub IsKeyed : List Incident → Type 0
IsKeyed [] = Unit
IsKeyed (i ∷ is) = (find (has_incident_id i.id) is ≡ none) × IsKeyed is

abbrev pub IsGapless : ℕ → Database → Type 0
IsGapless x d = IsKeyed d.incidents × (numbers x d.incidents ≡ one_to (issued x d.counters))

numbers-append :
    (x : ℕ) (is js : List Incident) → numbers x (is ++ js) ≡ numbers x is ++ numbers x js
numbers-append x [] js = refl
numbers-append x (i ∷ is) js = ground (arith, numbers-append x is js)

issued-bump_ne :
    (x o : ℕ) (cs : List OrganizationCounter)
    → o ≢ x
    → issued x (update_where (has_counter o) bump cs) ≡ issued x cs
issued-bump_ne x o [] h = refl
issued-bump_ne x o (y ∷ cs) h = ground (arith, issued-bump_ne x o cs h)

issued-bump_self :
    (o : ℕ) (cs : List OrganizationCounter) (c : OrganizationCounter)
    → find (has_counter o) cs ≡ some c
    → issued o (update_where (has_counter o) bump cs) ≡ suc (issued o cs)
issued-bump_self o [] c e = cc
issued-bump_self o (y ∷ cs) c e = ground (arith, issued-bump_self o cs c)

find-id-append :
    (id : ℕ) (is : List Incident) (j : Incident)
    → find (has_incident_id id) is ≡ none
    → j.id ≢ id
    → find (has_incident_id id) (is ++ j ∷ []) ≡ none
find-id-append id [] j h n = ground arith
find-id-append id (i ∷ is) j h n = ground (arith, find-id-append id is j)

append-IsKeyed :
    (is : List Incident) (j : Incident)
    → IsKeyed is
    → find (has_incident_id j.id) is ≡ none
    → IsKeyed (is ++ j ∷ [])
append-IsKeyed [] j v h = (refl, tt)
append-IsKeyed (i ∷ is) j v h =
    ground (arith, append-IsKeyed is j v.1, find-id-append i.id is j v.0)

-- One more incident with the next number, and the counter one up, is gapless again.
pub extend-IsGapless :
    (x : ℕ) (d : Database) (j : Incident) (c : OrganizationCounter)
    → IsGapless x d
    → find (has_counter j.org_id) d.counters ≡ some c
    → find (has_incident_id j.id) d.incidents ≡ none
    → j.sequence_number ≡ c.incident_seq + 1
    → IsKeyed (d.incidents ++ j ∷ [])
      × (numbers x (d.incidents ++ j ∷ [])
          ≡ one_to (issued x (update_where (has_counter j.org_id) bump d.counters)))
extend-IsGapless x d j c (keyed, gapless) e fresh n = (
  append-IsKeyed d.incidents j keyed fresh,
  elim (Bool-cases (j.org_id == x)) [
    | inl h ↦ ground (
      arith,
      numbers-append x d.incidents (j ∷ []),
      issued-bump_self j.org_id d.counters c e,
      ap (λ o. issued o (update_where (has_counter j.org_id) bump d.counters))
          ((==_iff j.org_id x).0 h),
      ap (λ o. issued o d.counters) ((==_iff j.org_id x).0 h),
      ap seq_of e,
    )
    | inr h ↦ ground (
      arith,
      numbers-append x d.incidents (j ∷ []),
      append-nil (numbers x d.incidents),
      issued-bump_ne x j.org_id d.counters (λ q. cc (h, (==_iff j.org_id x).1 q)),
    )
  ],
)

module _ (env : Env) (org : Organization) (args : NewIncident) (reported_by : User)
    (s : Session) where
  abbrev created : OrganizationCounter → Incident
  created c =
      new_incident org.id args reported_by.id (c.incident_seq + 1) (env.uuid s.draws)
        s.transaction_time

  insert_incident-none :
      find (has_counter org.id) s.db.counters ≡ none
      → insert_incident env org args reported_by s ≡ (err not_found, s)
  unfolding insert_incident
  insert_incident-none e = cc

  insert_incident-taken :
      (c : OrganizationCounter) (j : Incident)
      → find (has_counter org.id) s.db.counters ≡ some c
      → find (has_incident_id (env.uuid s.draws)) s.db.incidents ≡ some j
      → insert_incident env org args reported_by s ≡ (
        err integrity_error,
        record s {
          db = record s.db { counters = update_where (has_counter org.id) bump s.db.counters };
          draws = s.draws + 1;
        },
      )
  unfolding insert_incident
  insert_incident-taken c j e f = ground arith

  insert_incident-fresh :
      (c : OrganizationCounter)
      → find (has_counter org.id) s.db.counters ≡ some c
      → find (has_incident_id (env.uuid s.draws)) s.db.incidents ≡ none
      → insert_incident env org args reported_by s ≡ (
        ok (created c),
        record s {
          db = record s.db {
            counters = update_where (has_counter org.id) bump s.db.counters;
            incidents = s.db.incidents ++ created c ∷ [];
            events =
                s.db.events
                ++ event_row
                    (env.uuid (s.draws + 1))
                    s.event_seq
                    (env.uuid s.draws)
                    (some reported_by.id)
                    "incident.created"
                    (created_payload args (c.incident_seq + 1))
                  ∷ [];
          };
          draws = s.draws + 1 + 1;
          event_seq = s.event_seq + 1;
        },
      )
  unfolding insert_incident
  insert_incident-fresh c e f = ground arith

module _ (env : Env) (x : ℕ) (org : Organization) (args : NewIncident) (reported_by : User) where
  insert_incident-Kept :
      (s : Session)
      → Always (IsGapless x) s
      → Kept (IsGapless x) (insert_incident env org args reported_by s)
  insert_incident-Kept s h = elim (Option-cases (find (has_counter org.id) s.db.counters)) [
    | inl e ↦ rw (insert_incident-none env org args reported_by s e) h.1
    | inr (c, e) ↦ elim (Option-cases (find (has_incident_id (env.uuid s.draws)) s.db.incidents)) [
      | inr (j, f) ↦ rw (insert_incident-taken env org args reported_by s c j e f) h.1
      | inl f ↦
          rw (insert_incident-fresh env org args reported_by s c e f)
            (extend-IsGapless x s.db (created env org args reported_by s c) c h.0 e f refl, h.1)
    ]
  ]

  insert_incident-Keeps : Keeps (IsGapless x) (insert_incident env org args reported_by)
  insert_incident-Keeps = record { at = insert_incident-Kept }

  require_assignee-Keeps : (o : Option ℕ) → Keeps (IsGapless x) (require_assignee org.id o)
  unfolding require_assignee require_member
  require_assignee-Keeps none = search keeping
  require_assignee-Keeps (some u) = search keeping

  pub create_incident-Keeps : Keeps (IsGapless x) (create_incident env org args reported_by)
  unfolding create_incident
  create_incident-Keeps = search (keeping, require_assignee-Keeps, insert_incident-Keeps) depth 7

-- If the numbering of an organisation is gapless in what is written and in what is committed, it is
-- gapless after an incident is created in any organisation, and after a failure what is committed is.
pub create_incident-IsGapless :
    (env : Env) (x : ℕ) (org : Organization) (args : NewIncident) (reported_by : User) (s : Session)
    → Always (IsGapless x) s
    → Kept (IsGapless x) (create_incident env org args reported_by s)
create_incident-IsGapless env x org args reported_by =
    (create_incident-Keeps env x org args reported_by).at
