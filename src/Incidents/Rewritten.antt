-- ===== src/Incidents/Rewritten.antt =====
-- Rewriting the row of an incident in the tables of services/incidents.py: the keys and the numbers of
-- the rows stay.
use incident_desk.Prelude.{
  ℕ, ◌≡◌, ◌∙◌, sym, ap, refl, none, some, List, [], ◌∷◌, arith, All, find, update_where, Bool-cases,
  ◌⊎◌, inl, inr,
}
use incident_desk.Models.{Incident}
use incident_desk.Session.{Database}
use incident_desk.Incidents.{is_incident, has_incident_id}
use incident_desk.Incidents.LostUpdate.{find-Has}
use incident_desk.Incidents.Numbers.{numbers, IsKeyed, IsGapless}

-- the rows with the id of the incident have its organisation and number
abbrev Agrees : Incident → List Incident → Type 0
Agrees i is =
    All (λ j. j.id ≡ i.id → (j.org_id ≡ i.org_id) × (j.sequence_number ≡ i.sequence_number)) is

-- the same id, organisation and number
abbrev pub SameRow : Incident → Incident → Type 0
SameRow i j = (j.id ≡ i.id) × (j.org_id ≡ i.org_id) × (j.sequence_number ≡ i.sequence_number)

absent-Agrees :
    (i : Incident) (is : List Incident) → find (has_incident_id i.id) is ≡ none → Agrees i is
absent-Agrees i [] h = tt
absent-Agrees i (j ∷ is) h = (λ e. absurd (ground (arith, e)), absent-Agrees i is (ground arith))

pub found-Agrees :
    (org_id id : ℕ) (is : List Incident) (i : Incident)
    → IsKeyed is
    → find (is_incident org_id id) is ≡ some i
    → Agrees i is
found-Agrees org_id id [] i v h = cc
found-Agrees org_id id (j ∷ is) i v h = elim (Bool-cases (is_incident org_id id j)) [
  | inl e ↦
      let q : j ≡ i = ground arith in
      (
        λ _. (ap (λ (k : Incident). k.org_id) q, ap (λ (k : Incident). k.sequence_number) q),
        absent-Agrees i is (rw (sym q) v.0),
      )
  | inr e ↦
      let f : find (is_incident org_id id) is ≡ some i = ground arith in
      (
        λ q. absurd (
            let g = find-Has org_id id is i f in
            let n = v.0 in ground (arith, g, n, ap (λ x. find (has_incident_id x) is) q)),
        found-Agrees org_id id is i v.1 f,
      )
]

module _ (i j : Incident) (same : SameRow i j) where
  find-rewritten :
      (id : ℕ) (is : List Incident)
      → find (has_incident_id id) is ≡ none
      → find (has_incident_id id) (update_where (has_incident_id j.id) (λ _. j) is) ≡ none
  find-rewritten id [] h = refl
  find-rewritten id (k ∷ is) h = ground (arith, find-rewritten id is)

  rewritten-IsKeyed :
      (is : List Incident) → IsKeyed is → IsKeyed (update_where (has_incident_id j.id) (λ _. j) is)
  rewritten-IsKeyed [] v = tt
  rewritten-IsKeyed (k ∷ is) v =
      ground (arith, rewritten-IsKeyed is v.1, find-rewritten k.id is v.0)

  numbers-rewritten :
      (x : ℕ) (is : List Incident)
      → Agrees i is
      → numbers x (update_where (has_incident_id j.id) (λ _. j) is) ≡ numbers x is
  numbers-rewritten x [] h = refl
  numbers-rewritten x (k ∷ is) h = elim (Bool-cases (has_incident_id j.id k)) [
    | inl e ↦
        let q = h.0 (ground (arith, same, e)) in
        ground (arith, e, q, same, numbers-rewritten x is h.1)
    | inr e ↦ ground (arith, e, numbers-rewritten x is h.1)
  ]

  rewritten-Agrees :
      (is : List Incident)
      → Agrees i is
      → Agrees j (update_where (has_incident_id j.id) (λ _. j) is)
  rewritten-Agrees [] h = tt
  rewritten-Agrees (k ∷ is) h = elim (Bool-cases (has_incident_id j.id k)) [
    | inl e ↦ rw e ((λ _. (refl, refl)), rewritten-Agrees is h.1)
    | inr e ↦ rw e ((λ q. absurd (ground (arith, e, q))), rewritten-Agrees is h.1)
  ]

-- gapless, and the rows of the incident agree with it
abbrev pub Stands : ℕ → Incident → Database → Type 0
Stands x i d = IsGapless x d × Agrees i d.incidents

-- what a step leaves in the two tables: as they were, or with the incident's new row
abbrev pub Rewrites : Incident → Database → Database → Type 0
Rewrites j d e =
    ((e.incidents ≡ d.incidents)
      ⊎ (e.incidents ≡ update_where (has_incident_id j.id) (λ _. j) d.incidents))
    × (e.counters ≡ d.counters)

same-Agrees : (i j : Incident) (is : List Incident) → SameRow i j → Agrees i is → Agrees j is
same-Agrees i j [] same h = tt
same-Agrees i j (k ∷ is) same h = (
  λ q. let r = h.0 (q ∙ same.0) in (r.0 ∙ sym same.1, r.1 ∙ sym same.2),
  same-Agrees i j is same h.1,
)

pub Rewrites-Stands :
    (x : ℕ) (i j : Incident) (d e : Database)
    → SameRow i j
    → Rewrites j d e
    → Stands x i d
    → Stands x j e
Rewrites-Stands x i j d e same (inl is, cs) ((keyed, gapless), agrees) =
    rw (is, cs) ((keyed, gapless), same-Agrees i j d.incidents same agrees)
Rewrites-Stands x i j d e same (inr is, cs) ((keyed, gapless), agrees) =
    rw (is, cs)
      (
        (
          rewritten-IsKeyed i j same d.incidents keyed,
          numbers-rewritten i j same x d.incidents agrees ∙ gapless,
        ),
        rewritten-Agrees i j same d.incidents agrees,
      )
