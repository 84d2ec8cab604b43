-- ===== src/Escalation/Policy.antt =====
-- What the escalation policy promises: whom it notifies and when, and that it comes to an end.
use incident_desk.Prelude.{
  ℕ, zero, suc, ◌+◌, ◌-◌, ◌≤◌, ◌<◌, ◌≡◌, refl, ap, ◌∙◌, Option, none, some, List, [], ◌∷◌, ◌++◌,
  take, drop, length, arith,
}
use incident_desk.Enums.{sev1, opened}
use incident_desk.Escalation.{
  EscalationConfig, EscalationDecision, Watched, plan, targets, due_at, next_level_of,
  next_check_of,
}

-- Nobody is notified unless the incident is an open sev1 that nobody has acknowledged and the level
-- is due.
pub plan_notifies :
    (w : Watched) (c : EscalationConfig) (on_call : Option ℕ) (level at u : ℕ) (us : List ℕ)
    → (plan w c on_call level at).notify_user_ids ≡ u ∷ us
    → (w.severity ≡ sev1)
      × (w.status ≡ opened)
      × (w.acknowledged_at ≡ none)
      × (due_at w c level ≤ at)
unfolding plan
plan_notifies w c on_call level at u us h = ground arith

-- A check that comes too early changes nothing: it is repeated, at the same level, at the time when
-- the level is due.
pub plan_early :
    (w : Watched) (c : EscalationConfig) (on_call : Option ℕ) (level at : ℕ)
    → w.severity ≡ sev1
    → w.status ≡ opened
    → w.acknowledged_at ≡ none
    → at < due_at w c level
    → ((plan w c on_call level at).notify_user_ids ≡ [])
      × ((plan w c on_call level at).next_level ≡ some level)
      × ((plan w c on_call level at).next_check_in ≡ some (due_at w c level - at))
unfolding plan
plan_early w c on_call level at sev op ack early = (ground arith, ground arith, ground arith)

module _ (w : Watched) (c : EscalationConfig) (on_call : Option ℕ) where
  -- what is notified first, and then by the rest of a run that comes to an end
  abbrev followed_by : List ℕ → Option (List ℕ) → Option (List ℕ)
  followed_by us none = none
  followed_by us (some vs) = some (us ++ vs)

  -- the next check, at the level that the plan names and after the delay that it names
  abbrev follow : (ℕ → ℕ → Option (List ℕ)) → ℕ → EscalationDecision → Option (List ℕ)
  follow rest at d = elim d.next_level [
    | none ↦ some d.notify_user_ids
    | some l ↦ elim d.next_check_in [
      | none ↦ some d.notify_user_ids
      | some delay ↦ followed_by d.notify_user_ids (rest l (at + delay))
    ]
  ]

  -- Whom the checks of an incident notify that nobody answers, from a level and a time on; none if
  -- there are more checks than the fuel.
  unfoldable pub unanswered : ℕ → ℕ → ℕ → Option (List ℕ)
  unanswered zero level at = none
  unanswered (suc fuel) level at = follow (unanswered fuel) at (plan w c on_call level at)

  follow_last :
      (rest : ℕ → ℕ → Option (List ℕ)) (at : ℕ) (d : EscalationDecision)
      → d.next_level ≡ none
      → follow rest at d ≡ some d.notify_user_ids
  follow_last rest at d n = rw n refl

  follow_next :
      (rest : ℕ → ℕ → Option (List ℕ)) (at l delay : ℕ) (us : List ℕ) (d : EscalationDecision)
      → d.next_level ≡ some l
      → d.next_check_in ≡ some delay
      → rest l (at + delay) ≡ some us
      → follow rest at d ≡ some (d.notify_user_ids ++ us)
  follow_next rest at l delay us d n k r = rw n (rw k (rw r refl))

-- who is notified first: the person on call, or else the head of the chain
abbrev pub first_notified : EscalationConfig → Option ℕ → List ℕ
first_notified c none = take 1 c.chain
first_notified c (some u) = u ∷ []

drop-suc : (l : ℕ) (xs : List ℕ) (x : ℕ) (r : List ℕ) → drop l xs ≡ x ∷ r → drop (suc l) xs ≡ r
drop-suc zero [] x r h = cc
drop-suc zero (y ∷ xs) x r h = cc
drop-suc (suc l) [] x r h = cc
drop-suc (suc l) (y ∷ xs) x r h = drop-suc l xs x r h

length-drop :
    (l : ℕ) (xs : List ℕ) (x : ℕ) (r : List ℕ) → drop l xs ≡ x ∷ r → length xs ≡ l + 1 + length r
length-drop zero [] x r h = cc
length-drop zero (y ∷ xs) x r h = omega (arith, ap length h)
length-drop (suc l) [] x r h = cc
length-drop (suc l) (y ∷ xs) x r h = omega (arith, length-drop l xs x r h)

targets-suc :
    (c : EscalationConfig) (on_call : Option ℕ) (l x : ℕ) (r : List ℕ)
    → drop l c.chain ≡ x ∷ r
    → targets c on_call (suc l) ≡ x ∷ []
unfolding targets
targets-suc c none l x r h = rw h refl
targets-suc c (some u) l x r h = rw h refl

due_at-suc :
    (w : Watched) (c : EscalationConfig) (level at : ℕ)
    → due_at w c level ≤ at
    → due_at w c (suc level) ≤ at + c.ack_timeout
due_at-suc w c level at h = ground arith

module _ (w : Watched) (c : EscalationConfig) (on_call : Option ℕ) (sev : w.severity ≡ sev1)
    (op : w.status ≡ opened) (silent : w.acknowledged_at ≡ none) where
  -- from the time when it is due, a level notifies its targets and names the next level
  plan_due :
      (level at : ℕ)
      → due_at w c level ≤ at
      → ((plan w c on_call level at).notify_user_ids ≡ targets c on_call level)
        × ((plan w c on_call level at).next_level ≡ next_level_of c level)
        × ((plan w c on_call level at).next_check_in ≡ next_check_of c level)
  unfolding plan
  plan_due level at h = (ground arith, ground arith, ground arith)

  unanswered-suc :
      (fuel l at x : ℕ) (r : List ℕ)
      → drop l c.chain ≡ x ∷ r
      → length r < fuel
      → due_at w c (suc l) ≤ at
      → unanswered w c on_call fuel (suc l) at ≡ some (x ∷ r)
  unfolding unanswered targets
  unanswered-suc zero l at x r h lt due = absurd (omega arith)
  unanswered-suc (suc fuel) l at x [] h lt due =
      let (n, m, d) = plan_due (suc l) at due in
      follow_last w c on_call (unanswered w c on_call fuel) at (plan w c on_call (suc l) at)
        (m ∙ ground (arith, length-drop l c.chain x [] h))
      ∙ ap some (n ∙ targets-suc c on_call l x _ h)
  unanswered-suc (suc fuel) l at x (y ∷ r) h lt due =
      let (n, m, d) = plan_due (suc l) at due in
      let more = length-drop l c.chain x (y ∷ r) h in
      let rest =
        unanswered-suc fuel (suc l) (at + c.ack_timeout) y r (drop-suc l c.chain x (y ∷ r) h)
          (omega arith) (due_at-suc w c (suc l) at due) in
      follow_next w c on_call (unanswered w c on_call fuel) at (suc (suc l)) c.ack_timeout (y ∷ r)
        (plan w c on_call (suc l) at) (m ∙ ground (arith, more)) (d ∙ ground (arith, more)) rest
      ∙ ap (λ us. some (us ++ y ∷ r)) (n ∙ targets-suc c on_call l x _ h)

  -- If nobody answers, and the first check comes when it is due or later, the first person is
  -- notified, then the whole chain, once each and in order, and then the escalation stops: there are
  -- no more checks than one for the first person and one for each step of the chain.
  pub unanswered_notifies :
      (fuel at : ℕ)
      → length c.chain < fuel
      → due_at w c 0 ≤ at
      → unanswered w c on_call fuel 0 at ≡ some (first_notified c on_call ++ c.chain)
  unfolding unanswered targets
  unanswered_notifies zero at lt due = absurd (omega arith)
  unanswered_notifies (suc fuel) at lt due = go c.chain refl
    where
      go :
          (ch : List ℕ)
          → c.chain ≡ ch
          → unanswered w c on_call (suc fuel) 0 at ≡ some (first_notified c on_call ++ c.chain)
      go [] e =
          let (n, m, d) = plan_due 0 at due in
          follow_last w c on_call (unanswered w c on_call fuel) at (plan w c on_call 0 at)
            (m ∙ ground (arith, e))
          ∙ ap some (n ∙ ground (arith, e))
      go (x ∷ r) e =
          let (n, m, d) = plan_due 0 at due in
          let rest =
            unanswered-suc fuel 0 (at + c.ack_timeout) x r (e) (omega (arith, ap length e))
              (due_at-suc w c 0 at due) in
          follow_next w c on_call (unanswered w c on_call fuel) at 1 c.ack_timeout (x ∷ r)
            (plan w c on_call 0 at) (m ∙ ground (arith, e)) (d ∙ ground (arith, e)) rest
          ∙ ap (λ us. some (us ++ x ∷ r)) n
          ∙ ground (arith, e)
