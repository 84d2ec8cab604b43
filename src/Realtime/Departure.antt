-- ===== src/Realtime/Departure.antt =====
-- What a connection leaves behind on the broker: nothing of its own, and everything of the others.
use incident_desk.Prelude.{
  ℕ, ◌+◌, ◌==◌, ◌≡◌, refl, sym, ap, ◌∙◌, String, str_eq, true, false, Option, none, some, List,
  delete_where, [], ◌∷◌, arith, Bool-cases, inl, inr,
}
use mathlib.Core.Path.{subst}
use incident_desk.Session.{Database, Env}
use incident_desk.Authz.{contains_text}
use incident_desk.Realtime.{Broker, add_subscriber, remove_subscriber}
use incident_desk.Realtime.Redis.{Redis, consume_ticket}
use incident_desk.Realtime.Channels.{channel_allowed}
use incident_desk.Realtime.Socket.{
  ServerFrame, ClientFrame, ping, unknown, subscribe, unsubscribe, Connection, Hub, arrived,
  departed, listen, unlisten, on_frame, on_frames, cleanup, converse, serve_socket,
}
use incident_desk.Realtime.Listeners.{
  listens, remove-listens_same, remove-listens_other, channel-cases, flipped,
}
use incident_desk.Realtime.Served.{
  touch_all-broker, arrived-broker, departed-broker, IsSameElsewhere, add-IsOwn, remove-IsOwn,
  add-IsSameElsewhere, remove-IsSameElsewhere, IsServed,
}

module _ {R : Type 0} (redis : Redis R) (env : Env) (queue : ℕ) (old : Broker) where
  abbrev Serves : (ServerFrame × Connection) × Hub R → Type 0
  Serves p = IsServed queue old p.0.1 p.1.broker

  arrived-IsServed :
      (channel : String) (c : Connection) (h : Hub R)
      → IsServed queue old c h.broker
      → IsServed queue old
          (record c { channels = channel ∷ c.channels })
          (arrived redis env c.user_id channel (listen redis env channel c.queue h)).broker
  arrived-IsServed channel c h (n, (own, other)) =
      subst (IsServed queue old (record c { channels = channel ∷ c.channels }))
        (sym (arrived-broker redis env c.user_id channel (listen redis env channel c.queue h)))
        (
          n,
          (
            add-IsOwn channel c h.broker own,
            subst (λ q. IsSameElsewhere queue old (add_subscriber channel q h.broker)) (sym n)
                (add-IsSameElsewhere channel queue old h.broker other),
          ),
        )

  abbrev without : String → Connection → Connection
  without channel c = record c { channels = delete_where (λ x. str_eq channel x) c.channels }

  departed-IsServed :
      (channel : String) (c : Connection) (h : Hub R)
      → IsServed queue old c h.broker
      → IsServed queue old
          (without channel c)
          (departed redis env c.user_id channel (unlisten redis env channel c.queue h)).broker
  departed-IsServed channel c h (n, (own, other)) =
      subst (IsServed queue old (without channel c))
        (sym (departed-broker redis env c.user_id channel (unlisten redis env channel c.queue h)))
        (
          n,
          (
            remove-IsOwn channel c h.broker own,
            subst (λ q. IsSameElsewhere queue old (remove_subscriber channel q h.broker)) (sym n)
                (remove-IsSameElsewhere channel queue old h.broker other),
          ),
        )

  on_frame-Serves :
      (d : Database) (f : ClientFrame) (c : Connection) (h : Hub R)
      → IsServed queue old c h.broker
      → Serves (on_frame redis env d f c h)
  unfolding on_frame
  on_frame-Serves d ping c h k =
      subst (IsServed queue old c) (sym (touch_all-broker redis env c.user_id c.channels h)) k
  on_frame-Serves d unknown c h k = k
  on_frame-Serves d (subscribe channel) c h k =
      elim (Bool-cases (contains_text channel c.channels)) [
        | inl e ↦ rw e k
        | inr e ↦ elim (Bool-cases (channel_allowed env d channel c.user_id)) [
          | inl a ↦ rw (e, a) (arrived-IsServed channel c h k)
          | inr a ↦ rw (e, a) k
        ]
      ]
  on_frame-Serves d (unsubscribe channel) c h k =
      elim (Bool-cases (contains_text channel c.channels)) [
        | inl e ↦ rw e (departed-IsServed channel c h k)
        | inr e ↦ rw e k
      ]

  pub on_frames-IsServed :
      (fs : List (Database × ClientFrame)) (c : Connection) (h : Hub R)
      → IsServed queue old c h.broker
      → IsServed queue old (on_frames redis env fs c h).0 (on_frames redis env fs c h).1.broker
  unfolding on_frames
  on_frames-IsServed [] c h k = k
  on_frames-IsServed ((d, f) ∷ fs) c h k =
      let next = on_frame redis env d f c h in
      on_frames-IsServed fs next.0.1 next.1 (on_frame-Serves d f c h k)

  -- the loop over the channels of the connection
  cleanup-Departs :
      (user : ℕ) (cs : List String) (h : Hub R)
      → ((d : String) → listens queue d h.broker ≡ true → contains_text d cs ≡ true)
      → IsSameElsewhere queue old h.broker
      → ((d : String) → listens queue d (cleanup redis env user queue cs h).broker ≡ false)
        × IsSameElsewhere queue old (cleanup redis env user queue cs h).broker
  unfolding cleanup
  cleanup-Departs user [] h own other = (
    (λ d. elim (Bool-cases (listens queue d h.broker)) [
      | inl e ↦ absurd (cc (own d e))
      | inr e ↦ e
    ]),
    other,
  )
  cleanup-Departs user (c ∷ cs) h own other =
      let left = unlisten redis env c queue h in
      let e = departed-broker redis env user c left in
      cleanup-Departs user cs (departed redis env user c left)
        (λ d m.
          let m' : listens queue d (remove_subscriber c queue h.broker) ≡ true =
            sym (ap (listens queue d) e) ∙ m in
          channel-cases c d
            (λ x.
              listens queue x (remove_subscriber c queue h.broker) ≡ true
              → contains_text x cs ≡ true)
            (λ l. absurd (ground (arith, remove-listens_same c h.broker queue queue, l)))
            (λ n l.
              ground
                (arith, remove-listens_other c h.broker queue queue d n, l, flipped c d n, own d))
            m')
        (subst (IsSameElsewhere queue old) (sym e)
          (remove-IsSameElsewhere c queue old h.broker other))

module _ {R : Type 0} (redis : Redis R) (env : Env) (queue : ℕ) where
  converse-Departs :
      (user : Option ℕ) (fs : List (Database × ClientFrame)) (h : Hub R)
      → ((d : String) → listens queue d h.broker ≡ false)
      → ((d : String) → listens queue d (converse redis env user queue fs h).1.broker ≡ false)
        × IsSameElsewhere queue h.broker (converse redis env user queue fs h).1.broker
  unfolding converse
  converse-Departs none fs h k = (k, λ r n d. refl)
  converse-Departs (some user) fs h k =
      let start : Connection = record { user_id = user; queue = queue; channels = [] } in
      let (n, (own, other)) =
        on_frames-IsServed redis env queue h.broker fs start h (refl, (k, λ r n d. refl)) in
      let end = on_frames redis env fs start h in
      cleanup-Departs redis env queue h.broker user end.0.channels end.1
        (λ d m. sym (own d) ∙ ap (λ q. listens q d end.1.broker) n ∙ m) other

  -- A websocket connection on a fresh queue, whatever its ticket, its frames and the databases that
  -- they meet: after its end its queue listens to no channel, and every other queue listens to the
  -- channels that it listened to before.
  pub serve_socket-Departs :
      (ticket : String) (frames : List (Database × ClientFrame)) (h : Hub R)
      → ((d : String) → listens queue d h.broker ≡ false)
      → ((d : String)
          → listens queue d (serve_socket redis env ticket queue frames h).1.broker ≡ false)
        × ((r : ℕ)
            → queue == r ≡ false
            → (d : String)
            → listens r d (serve_socket redis env ticket queue frames h).1.broker
              ≡ listens r d h.broker)
  unfolding serve_socket
  serve_socket-Departs ticket frames h k =
      let taken = consume_ticket redis env.uuid_of_text (env.clock h.draws) ticket h.redis in
      converse-Departs taken.0 frames (record h { redis = taken.1; draws = h.draws + 1 }) k
