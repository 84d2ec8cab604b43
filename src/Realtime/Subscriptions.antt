-- ===== src/Realtime/Subscriptions.antt =====
-- The broker is subscribed to the channels that somebody listens to, and to no other.
use incident_desk.Prelude.{
  ℕ, ◌==◌, ◌≡◌, refl, sym, ap, ◌∙◌, String, str_eq, eq_iff, eq_refl, Bool, true, false, Option,
  none, some, List, [], ◌∷◌, ◌++◌, arith, is_some, exists_where, if◌then◌else◌, Bool-cases, inl,
  inr,
}
use mathlib.Core.Path.{subst}
use incident_desk.Realtime.{
  Command, subscribe, unsubscribe, Broker, lookup, put, drop_key, add_queue, discard,
  subscribe_first, listeners_of, add_subscriber, leave, remove_found, remove_subscriber,
}

-- what the commands come to: the newest one of a channel decides
abbrev pub is_subscribed : String → List Command → Bool
is_subscribed channel [] = false
is_subscribed channel (subscribe c ∷ rest) =
    let before = is_subscribed channel rest in if str_eq c channel then true else before
is_subscribed channel (unsubscribe c ∷ rest) =
    let before = is_subscribed channel rest in if str_eq c channel then false else before

abbrev has_listener : Option (List ℕ) → Bool
has_listener none = false
has_listener (some []) = false
has_listener (some (q ∷ qs)) = true

-- subscribed where there is an entry, and no entry is empty
abbrev pub IsInStep : Broker → Type 0
IsInStep b =
    (channel : String)
    → (is_subscribed channel b.sent ≡ is_some (lookup channel b.local))
      × (is_some (lookup channel b.local) ≡ has_listener (lookup channel b.local))

module _ (c : String) (v : List ℕ) where
  pub lookup-put : (es : List (String × List ℕ)) → lookup c (put c v es) ≡ some v
  lookup-put [] = rw (eq_refl c) refl
  lookup-put (e ∷ es) = ground (arith, eq_refl c, lookup-put es)

  pub lookup-put_other :
      (d : String)
      → str_eq c d ≡ false
      → (es : List (String × List ℕ)) → lookup d (put c v es) ≡ lookup d es
  lookup-put_other d n [] = rw n refl
  lookup-put_other d n (e ∷ es) = elim (Bool-cases (str_eq e.0 c)) [
    | inl h ↦
        let q : e.0 ≡ c = (eq_iff e.0 c).0 h in
        let m : str_eq e.0 d ≡ false = ap (λ x. str_eq x d) q ∙ n in rw (h, n, m) refl
    | inr h ↦ ground (arith, lookup-put_other d n es)
  ]

  pub lookup-drop : (es : List (String × List ℕ)) → lookup c (drop_key c es) ≡ none
  lookup-drop [] = refl
  lookup-drop (e ∷ es) = ground (arith, lookup-drop es)

  pub lookup-drop_other :
      (d : String)
      → str_eq c d ≡ false
      → (es : List (String × List ℕ)) → lookup d (drop_key c es) ≡ lookup d es
  lookup-drop_other d n [] = refl
  lookup-drop_other d n (e ∷ es) = elim (Bool-cases (str_eq e.0 c)) [
    | inl h ↦
        let q : e.0 ≡ c = (eq_iff e.0 c).0 h in
        let m : str_eq e.0 d ≡ false = ap (λ x. str_eq x d) q ∙ n in
        rw (h, m) (lookup-drop_other d n es)
    | inr h ↦ ground (arith, lookup-drop_other d n es)
  ]

-- the two equations of `IsInStep` at one channel
abbrev At : String → List Command → Option (List ℕ) → Type 0
At d sent found = (is_subscribed d sent ≡ is_some found) × (is_some found ≡ has_listener found)

append-listener : (queue : ℕ) (qs : List ℕ) → has_listener (some (qs ++ queue ∷ [])) ≡ true
append-listener queue [] = refl
append-listener queue (q ∷ qs) = refl

add-listener : (queue : ℕ) (qs : List ℕ) → has_listener (some (add_queue queue qs)) ≡ true
add-listener queue [] = refl
add-listener queue (q ∷ qs) = elim (Bool-cases (exists_where (λ r. r == queue) (q ∷ qs))) [
  | inl h ↦ rw h refl
  | inr h ↦ rw h refl
]

first-At :
    (c : String) (sent : List Command) (found : Option (List ℕ))
    → At c sent found
    → is_subscribed c (subscribe_first c (listeners_of found) sent) ≡ true
first-At c sent none h = rw (eq_refl c) refl
first-At c sent (some []) h = absurd (cc)
first-At c sent (some (q ∷ qs)) h = h.0

first-other :
    (c d : String) (sent : List Command) (qs : List ℕ)
    → str_eq c d ≡ false
    → is_subscribed d (subscribe_first c qs sent) ≡ is_subscribed d sent
first-other c d sent [] n = rw n refl
first-other c d sent (q ∷ qs) n = refl

add_subscriber-IsInStep :
    (c : String) (queue : ℕ) (b : Broker) → IsInStep b → IsInStep (add_subscriber c queue b)
unfolding add_subscriber
add_subscriber-IsInStep c queue b k d = elim (Bool-cases (str_eq c d)) [
  | inl h ↦
      let q : c ≡ d = (eq_iff c d).0 h in
      let qs = listeners_of (lookup c b.local) in
      let e = lookup-put c (add_queue queue qs) b.local in
      let l = add-listener queue qs in
      subst
        (λ x. At x (subscribe_first c qs b.sent) (lookup x (put c (add_queue queue qs) b.local))) q
        (rw e (first-At c b.sent (lookup c b.local) (k c), sym l))
  | inr h ↦
      let qs = listeners_of (lookup c b.local) in
      rw (lookup-put_other c (add_queue queue qs) d h b.local, first-other c d b.sent qs h) (k d)
]

leave-IsInStep :
    (c : String) (left : List ℕ) (b : Broker)
    → is_some (lookup c b.local) ≡ true
    → IsInStep b
    → IsInStep (leave c left b)
unfolding leave
leave-IsInStep c [] b found k d = elim (Bool-cases (str_eq c d)) [
  | inl h ↦
      let q : c ≡ d = (eq_iff c d).0 h in
      subst (λ x. At x (unsubscribe c ∷ b.sent) (lookup x (drop_key c b.local))) q
        (rw (lookup-drop c [] b.local, eq_refl c) (refl, refl))
  | inr h ↦ rw (lookup-drop_other c [] d h b.local, h) (k d)
]
leave-IsInStep c (r ∷ rs) b found k d = elim (Bool-cases (str_eq c d)) [
  | inl h ↦
      let q : c ≡ d = (eq_iff c d).0 h in
      subst (λ x. At x b.sent (lookup x (put c (r ∷ rs) b.local))) q
        (rw (lookup-put c (r ∷ rs) b.local) ((k c).0 ∙ found, refl))
  | inr h ↦ rw (lookup-put_other c (r ∷ rs) d h b.local) (k d)
]

remove_found-IsInStep :
    (c : String) (queue : ℕ) (found : Option (List ℕ)) (b : Broker)
    → lookup c b.local ≡ found
    → IsInStep b
    → IsInStep (remove_found c queue found b)
unfolding remove_found
remove_found-IsInStep c queue none b e k = k
remove_found-IsInStep c queue (some qs) b e k =
    leave-IsInStep c (discard queue qs) b (ap is_some e) k

remove_subscriber-IsInStep :
    (c : String) (queue : ℕ) (b : Broker) → IsInStep b → IsInStep (remove_subscriber c queue b)
unfolding remove_subscriber
remove_subscriber-IsInStep c queue b k = remove_found-IsInStep c queue (lookup c b.local) b refl k

-- a connection that joins or leaves a channel
pub data Change : Type 0 where
  joins leaves : String → ℕ → Change

abbrev pub change : Broker → Change → Broker
change b (joins channel queue) = add_subscriber channel queue b
change b (leaves channel queue) = remove_subscriber channel queue b

abbrev pub changes : Broker → List Change → Broker
changes b [] = b
changes b (c ∷ cs) = changes (change b c) cs

change-IsInStep : (b : Broker) (c : Change) → IsInStep b → IsInStep (change b c)
change-IsInStep b (joins channel queue) k = add_subscriber-IsInStep channel queue b k
change-IsInStep b (leaves channel queue) k = remove_subscriber-IsInStep channel queue b k

-- Whatever connections join and leave: a broker that is subscribed at Redis to just the channels that
-- somebody on this instance listens to stays so.
pub changes-IsInStep : (cs : List Change) (b : Broker) → IsInStep b → IsInStep (changes b cs)
changes-IsInStep [] b k = k
changes-IsInStep (c ∷ cs) b k = changes-IsInStep cs (change b c) (change-IsInStep b c k)
