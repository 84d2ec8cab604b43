-- ===== src/StateMachine/Diagram.antt =====
-- The diagram in the module comment of backend/src/incident_desk/state_machine.py, as a relation.
use incident_desk.Prelude.{ℕ, ◌+◌, ◌≤◌, zero, suc, ◌≡◌, ◌≢◌, ◌↔◌, refl, true, ap, arith}
use incident_desk.Enums.{IncidentStatus, opened, acknowledged, mitigated, resolved, postmortem}
use incident_desk.StateMachine.{is_legal}

infix 40 ◌⟶◌
pub data ◌⟶◌ : IncidentStatus → IncidentStatus → Type 0 where
  acknowledge : opened ⟶ acknowledged
  mitigate : acknowledged ⟶ mitigated
  resolve : mitigated ⟶ resolved
  skip_mitigation : acknowledged ⟶ resolved
  review : resolved ⟶ postmortem

legal→arrow : (a b : IncidentStatus) → is_legal a b ≡ true → a ⟶ b
unfolding is_legal
legal→arrow opened acknowledged h = acknowledge
legal→arrow acknowledged mitigated h = mitigate
legal→arrow mitigated resolved h = resolve
legal→arrow acknowledged resolved h = skip_mitigation
legal→arrow resolved postmortem h = review
legal→arrow _ _ h = cc

arrow→legal : (a b : IncidentStatus) → a ⟶ b → is_legal a b ≡ true
unfolding is_legal
arrow→legal a b acknowledge = refl
arrow→legal a b mitigate = refl
arrow→legal a b resolve = refl
arrow→legal a b skip_mitigation = refl
arrow→legal a b review = refl

-- `is_legal` accepts a move exactly when the diagram has its arrow.
pub is_legal_iff : (a b : IncidentStatus) → (is_legal a b ≡ true) ↔ (a ⟶ b)
is_legal_iff a b = (legal→arrow a b, arrow→legal a b)

-- A sequence of legal moves, with the number of moves and the statuses it enters.
pub data Moves (a : IncidentStatus) : ℕ → IncidentStatus → Type 0 where
  still : Moves a zero a
  move : {n : ℕ} {b c : IncidentStatus} → Moves a n b → is_legal b c ≡ true → Moves a (suc n) c

abbrev pub rank : IncidentStatus → ℕ
rank opened = 0
rank acknowledged = 1
rank mitigated = 2
rank resolved = 3
rank postmortem = 4

arrow-rank : {a b : IncidentStatus} → a ⟶ b → rank a + 1 ≤ rank b
arrow-rank acknowledge = omega arith
arrow-rank mitigate = omega arith
arrow-rank resolve = omega arith
arrow-rank skip_mitigation = omega arith
arrow-rank review = omega arith

Moves-rank : {a b : IncidentStatus} {n : ℕ} → Moves a n b → rank a + n ≤ rank b
Moves-rank still = omega arith
Moves-rank (move {b = b} {c = c} m h) = omega (arith, Moves-rank m, arrow-rank (legal→arrow b c h))

rank-le : (a : IncidentStatus) → rank a ≤ 4
rank-le opened = omega arith
rank-le acknowledged = omega arith
rank-le mitigated = omega arith
rank-le resolved = omega arith
rank-le postmortem = omega arith

-- There are never more than four legal moves in sequence.
pub Moves-bounded : {a b : IncidentStatus} (n : ℕ) → Moves a n b → n ≤ 4
Moves-bounded {b = b} n m = omega (arith, Moves-rank m, rank-le b)

-- At least one legal move leads to another status: none comes back.
pub Moves-irreversible : {a b : IncidentStatus} (n : ℕ) → Moves a (suc n) b → a ≢ b
Moves-irreversible {a} {b} n m =
    λ e. absurd (let q : rank a ≡ rank b = ap rank e in omega (arith, Moves-rank m, q))
