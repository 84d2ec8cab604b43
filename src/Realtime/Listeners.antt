-- ===== src/Realtime/Listeners.antt =====
-- Who listens to a channel, after the operations of the broker and the rounds of the endpoint.
use incident_desk.Prelude.{
  ℕ, ◌==◌, ==_iff, ◌≡◌, refl, sym, ap, ◌∙◌, String, str_eq, eq_iff, eq_refl, Bool, true, false, not,
  ◌&&◌, ◌||◌, Option, none, some, List, [], ◌∷◌, ◌++◌, arith, exists_where, delete_where,
  Bool-cases, inl, inr,
}
use mathlib.Core.Path.{subst}
use incident_desk.Authz.{contains_text}
use incident_desk.Realtime.{
  Broker, lookup, add_queue, discard, listeners_of, add_subscriber, leave, remove_found,
  remove_subscriber,
}
use incident_desk.Realtime.Subscriptions.{
  lookup-put, lookup-put_other, lookup-drop, lookup-drop_other,
}

abbrev pub has_queue : ℕ → List ℕ → Bool
has_queue q qs = exists_where (λ r. r == q) qs

-- The queue gets what arrives on the channel.
abbrev pub listens : ℕ → String → Broker → Bool
listens q channel b = has_queue q (listeners_of (lookup channel b.local))

has_queue-append : (q r : ℕ) (qs : List ℕ) → has_queue r (qs ++ q ∷ []) ≡ (q == r || has_queue r qs)
has_queue-append q r [] = ground arith
has_queue-append q r (x ∷ qs) = ground (arith, has_queue-append q r qs)

has_queue-same :
    (q r : ℕ) (qs : List ℕ) → has_queue q qs ≡ true → q == r ≡ true → has_queue r qs ≡ true
has_queue-same q r qs h e = subst (λ n. has_queue n qs ≡ true) ((==_iff q r).0 e) h

has_queue-add : (q r : ℕ) (qs : List ℕ) → has_queue r (add_queue q qs) ≡ (q == r || has_queue r qs)
has_queue-add q r qs = elim (Bool-cases (has_queue q qs)) [
  | inl h ↦ elim (Bool-cases (q == r)) [
    | inl e ↦ rw (h, e) (has_queue-same q r qs h e)
    | inr e ↦ rw (h, e) refl
  ]
  | inr h ↦ rw h (has_queue-append q r qs)
]

has_queue-discard :
    (q r : ℕ) (qs : List ℕ) → has_queue r (discard q qs) ≡ (not (q == r) && has_queue r qs)
has_queue-discard q r [] = ground arith
has_queue-discard q r (x ∷ qs) = ground (arith, has_queue-discard q r qs)

module _ (c : String) (q : ℕ) (b : Broker) where
  pub add-listens_same : (r : ℕ) → listens r c (add_subscriber c q b) ≡ (q == r || listens r c b)
  unfolding add_subscriber
  add-listens_same r =
      ap (λ o. has_queue r (listeners_of o))
        (lookup-put c (add_queue q (listeners_of (lookup c b.local))) b.local)
      ∙ has_queue-add q r (listeners_of (lookup c b.local))

  pub add-listens_other :
      (r : ℕ) (d : String) → str_eq c d ≡ false → listens r d (add_subscriber c q b) ≡ listens r d b
  unfolding add_subscriber
  add-listens_other r d n =
      ap (λ o. has_queue r (listeners_of o))
        (lookup-put_other c (add_queue q (listeners_of (lookup c b.local))) d n b.local)

module _ (c : String) (b : Broker) (r : ℕ) where
  leave-listens : (left : List ℕ) → listens r c (leave c left b) ≡ has_queue r left
  unfolding leave
  leave-listens [] = ap (λ o. has_queue r (listeners_of o)) (lookup-drop c [] b.local)
  leave-listens (x ∷ xs) = ap (λ o. has_queue r (listeners_of o)) (lookup-put c (x ∷ xs) b.local)

  leave-listens_other :
      (left : List ℕ) (d : String)
      → str_eq c d ≡ false
      → listens r d (leave c left b) ≡ listens r d b
  unfolding leave
  leave-listens_other [] d n =
      ap (λ o. has_queue r (listeners_of o)) (lookup-drop_other c [] d n b.local)
  leave-listens_other (x ∷ xs) d n =
      ap (λ o. has_queue r (listeners_of o)) (lookup-put_other c (x ∷ xs) d n b.local)

  found-listens :
      (q : ℕ) (o : Option (List ℕ))
      → lookup c b.local ≡ o
      → listens r c (remove_found c q o b) ≡ (not (q == r) && has_queue r (listeners_of o))
  unfolding remove_found
  found-listens q none e = ap (λ o. has_queue r (listeners_of o)) e ∙ ground arith
  found-listens q (some qs) e = leave-listens (discard q qs) ∙ has_queue-discard q r qs

  found-listens_other :
      (q : ℕ) (o : Option (List ℕ)) (d : String)
      → str_eq c d ≡ false
      → listens r d (remove_found c q o b) ≡ listens r d b
  unfolding remove_found
  found-listens_other q none d n = refl
  found-listens_other q (some qs) d n = leave-listens_other (discard q qs) d n

  pub remove-listens_same :
      (q : ℕ) → listens r c (remove_subscriber c q b) ≡ (not (q == r) && listens r c b)
  unfolding remove_subscriber
  remove-listens_same q = found-listens q (lookup c b.local) refl

  pub remove-listens_other :
      (q : ℕ) (d : String)
      → str_eq c d ≡ false
      → listens r d (remove_subscriber c q b) ≡ listens r d b
  unfolding remove_subscriber
  remove-listens_other q d n = found-listens_other q (lookup c b.local) d n

-- one channel at a time: the channel that an operation is about, or another one
pub channel-cases : (c d : String) (P : String → Type 0) → P c → (str_eq c d ≡ false → P d) → P d
channel-cases c d P same other = elim (Bool-cases (str_eq c d)) [
  | inl h ↦ subst P ((eq_iff c d).0 h) same
  | inr h ↦ other h
]

pub flipped : (c d : String) → str_eq c d ≡ false → str_eq d c ≡ false
flipped c d n = elim (Bool-cases (str_eq d c)) [
  | inl h ↦ absurd (cc (n, sym (ap (λ x. str_eq x d) ((eq_iff d c).0 h)), eq_refl d))
  | inr h ↦ h
]

pub contains_text-delete :
    (c d : String) (xs : List String)
    → contains_text d (delete_where (λ x. str_eq c x) xs) ≡ (not (str_eq c d) && contains_text d xs)
contains_text-delete c d [] = ground arith
contains_text-delete c d (x ∷ xs) =
    let rest = contains_text-delete c d xs in
    elim (Bool-cases (str_eq c d)) [
      | inl h ↦ ground (arith, rest, h, ap (λ t. str_eq t x) ((eq_iff c d).0 h))
      | inr h ↦ elim (Bool-cases (str_eq c x)) [
        | inl e ↦ ground (arith, rest, h, e, flipped c d h, ap (str_eq d) ((eq_iff c x).0 e))
        | inr e ↦ ground (arith, rest, h, e)
      ]
    ]
