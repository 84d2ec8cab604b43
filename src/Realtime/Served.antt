-- ===== src/Realtime/Served.antt =====
-- One queue on the broker of services/realtime.py: what a subscription and its end change for this
-- queue and for the others, and that presence does not touch the broker.
use incident_desk.Prelude.{
  ℕ, ◌==◌, ◌≡◌, refl, ◌∙◌, String, str_eq, eq_refl, false, ◌||◌, List, delete_where, [], ◌∷◌, arith,
  Bool-cases, inl, inr,
}
use incident_desk.Session.{Env}
use incident_desk.Authz.{contains_text}
use incident_desk.Realtime.{Broker, add_subscriber, remove_subscriber}
use incident_desk.Realtime.Redis.{Redis}
use incident_desk.Realtime.Channels.{is_incident_channel}
use incident_desk.Realtime.Socket.{Connection, Hub, touched, touch_all, arrived, departed}
use incident_desk.Realtime.Listeners.{
  listens, add-listens_same, add-listens_other, remove-listens_same, remove-listens_other,
  channel-cases, flipped, contains_text-delete,
}

module _ {R : Type 0} (redis : Redis R) (env : Env) where
  touched-broker :
      (user : ℕ) (c : String) (h : Hub R) → (touched redis env user c h).broker ≡ h.broker
  touched-broker user c h = elim (Bool-cases (is_incident_channel c)) [
    | inl e ↦ rw e refl
    | inr e ↦ rw e refl
  ]

  pub touch_all-broker :
      (user : ℕ) (cs : List String) (h : Hub R) → (touch_all redis env user cs h).broker ≡ h.broker
  unfolding touch_all
  touch_all-broker user [] h = refl
  touch_all-broker user (c ∷ cs) h =
      touch_all-broker user cs (touched redis env user c h) ∙ touched-broker user c h

  pub arrived-broker :
      (user : ℕ) (c : String) (h : Hub R) → (arrived redis env user c h).broker ≡ h.broker
  arrived-broker user c h = elim (Bool-cases (is_incident_channel c)) [
    | inl e ↦ rw e refl
    | inr e ↦ rw e refl
  ]

  pub departed-broker :
      (user : ℕ) (c : String) (h : Hub R) → (departed redis env user c h).broker ≡ h.broker
  departed-broker user c h = elim (Bool-cases (is_incident_channel c)) [
    | inl e ↦ rw e refl
    | inr e ↦ rw e refl
  ]

-- The queue of a connection listens to the channels of its set, and to no other; the queues of others
-- listen where they did before.
abbrev pub IsOwn : Connection → Broker → Type 0
IsOwn c b = (d : String) → listens c.queue d b ≡ contains_text d c.channels

abbrev pub IsSameElsewhere : ℕ → Broker → Broker → Type 0
IsSameElsewhere queue old b =
    (r : ℕ) → queue == r ≡ false → (d : String) → listens r d b ≡ listens r d old

module _ (channel : String) (c : Connection) (b : Broker) where
  pub add-IsOwn :
      IsOwn c b
      → IsOwn (record c { channels = channel ∷ c.channels }) (add_subscriber channel c.queue b)
  add-IsOwn k d =
      channel-cases channel d
        (λ x.
          listens c.queue x (add_subscriber channel c.queue b)
          ≡ (str_eq x channel || contains_text x c.channels))
        (ground (arith, add-listens_same channel c.queue b c.queue, eq_refl channel))
        (λ n.
          ground (arith, add-listens_other channel c.queue b c.queue d n, flipped channel d n, k d))

  pub remove-IsOwn :
      IsOwn c b
      → IsOwn
          (record c { channels = delete_where (λ x. str_eq channel x) c.channels })
          (remove_subscriber channel c.queue b)
  remove-IsOwn k d =
      channel-cases channel d
        (λ x.
          listens c.queue x (remove_subscriber channel c.queue b)
          ≡ contains_text x (delete_where (λ y. str_eq channel y) c.channels))
        (ground (
          arith,
          remove-listens_same channel b c.queue c.queue,
          eq_refl channel,
          contains_text-delete channel channel c.channels,
        ))
        (λ n. ground (
          arith,
          remove-listens_other channel b c.queue c.queue d n,
          n,
          k d,
          contains_text-delete channel d c.channels,
        ))

module _ (channel : String) (queue : ℕ) (old b : Broker) where
  pub add-IsSameElsewhere :
      IsSameElsewhere queue old b → IsSameElsewhere queue old (add_subscriber channel queue b)
  add-IsSameElsewhere k r n d =
      channel-cases channel d (λ x. listens r x (add_subscriber channel queue b) ≡ listens r x old)
        (ground (arith, add-listens_same channel queue b r, n, k r n channel))
        (λ m. add-listens_other channel queue b r d m ∙ k r n d)

  pub remove-IsSameElsewhere :
      IsSameElsewhere queue old b → IsSameElsewhere queue old (remove_subscriber channel queue b)
  remove-IsSameElsewhere k r n d =
      channel-cases channel d
        (λ x. listens r x (remove_subscriber channel queue b) ≡ listens r x old)
        (ground (arith, remove-listens_same channel b r queue, n, k r n channel))
        (λ m. remove-listens_other channel b r queue d m ∙ k r n d)

-- both, for a connection whose queue is `queue`
abbrev pub IsServed : ℕ → Broker → Connection → Broker → Type 0
IsServed queue old c b = (c.queue ≡ queue) × (IsOwn c b × IsSameElsewhere queue old b)
