-- ===== src/Realtime/Admission.antt =====
-- Who hears a channel over a websocket: only a user who was allowed to when they asked for it.
use incident_desk.Prelude.{
  ℕ, ◌≡◌, refl, sym, ap, ◌∙◌, String, str_eq, Bool, true, false, ◌&&◌, ◌||◌, List, [], ◌∷◌, arith,
  Bool-cases, inl, inr,
}
use mathlib.Core.Path.{subst}
use incident_desk.Session.{Database, Env}
use incident_desk.Authz.{contains_text}
use incident_desk.Realtime.Redis.{Redis}
use incident_desk.Realtime.Channels.{channel_allowed}
use incident_desk.Realtime.Socket.{
  ClientFrame, ping, unknown, subscribe, unsubscribe, Connection, Hub, on_frame, on_frames,
}
use incident_desk.Realtime.Listeners.{listens, flipped, contains_text-delete}
use incident_desk.Realtime.Departure.{on_frames-IsServed}

module _ (env : Env) (user : ℕ) (d : String) where
  -- the frame asks for the channel, when the database allows it to the user
  abbrev admits_frame : Database × ClientFrame → Bool
  admits_frame (db, subscribe c) = str_eq c d && channel_allowed env db c user
  admits_frame (db, ping) = false
  admits_frame (db, unknown) = false
  admits_frame (db, unsubscribe c) = false

  abbrev pub admits : List (Database × ClientFrame) → Bool
  admits [] = false
  admits (f ∷ fs) = admits_frame f || admits fs

module _ {R : Type 0} (redis : Redis R) (env : Env) where
  on_frame-user :
      (db : Database) (f : ClientFrame) (c : Connection) (h : Hub R)
      → (on_frame redis env db f c h).0.1.user_id ≡ c.user_id
  unfolding on_frame
  on_frame-user db ping c h = refl
  on_frame-user db unknown c h = refl
  on_frame-user db (subscribe channel) c h = elim (Bool-cases (contains_text channel c.channels)) [
    | inl e ↦ rw e refl
    | inr e ↦ elim (Bool-cases (channel_allowed env db channel c.user_id)) [
      | inl a ↦ rw (e, a) refl
      | inr a ↦ rw (e, a) refl
    ]
  ]
  on_frame-user db (unsubscribe channel) c h =
      elim (Bool-cases (contains_text channel c.channels)) [ inl e ↦ rw e refl | inr e ↦ rw e refl ]

  -- A channel of the set after a round was there before it, or the round admitted it.
  on_frame-channels :
      (db : Database) (f : ClientFrame) (c : Connection) (h : Hub R) (d : String)
      → contains_text d (on_frame redis env db f c h).0.1.channels ≡ true
      → (contains_text d c.channels || admits_frame env c.user_id d (db, f)) ≡ true
  unfolding on_frame
  on_frame-channels db ping c h d m = ground (arith, m)
  on_frame-channels db unknown c h d m = ground (arith, m)
  on_frame-channels db (subscribe channel) c h d m =
      elim (Bool-cases (contains_text channel c.channels)) [
        | inl e ↦ ground (arith, m, e)
        | inr e ↦ elim (Bool-cases (channel_allowed env db channel c.user_id)) [
          | inl a ↦ elim (Bool-cases (str_eq channel d)) [
            | inl n ↦ ground (arith, a, n)
            | inr n ↦ ground (arith, m, e, a, flipped channel d n)
          ]
          | inr a ↦ ground (arith, m, e, a)
        ]
      ]
  on_frame-channels db (unsubscribe channel) c h d m =
      elim (Bool-cases (contains_text channel c.channels)) [
        | inl e ↦ ground (arith, m, e, contains_text-delete channel d c.channels)
        | inr e ↦ ground (arith, m, e)
      ]

  on_frames-channels :
      (fs : List (Database × ClientFrame)) (c : Connection) (h : Hub R) (d : String)
      → contains_text d (on_frames redis env fs c h).0.channels ≡ true
      → (contains_text d c.channels || admits env c.user_id d fs) ≡ true
  unfolding on_frames
  on_frames-channels [] c h d m = ground (arith, m)
  on_frames-channels ((db, f) ∷ fs) c h d m =
      let next = on_frame redis env db f c h in
      let later =
        subst (λ u. (contains_text d next.0.1.channels || admits env u d fs) ≡ true)
          (on_frame-user db f c h) (on_frames-channels fs next.0.1 next.1 d m) in
      ground (arith, later, on_frame-channels db f c h d)

  -- A connection on a fresh queue that hears a channel after some frames has sent a frame that asked
  -- for this channel, at a time when the database allowed it to its user.
  pub on_frames_admitted :
      (user queue : ℕ) (fs : List (Database × ClientFrame)) (h : Hub R) (d : String)
      → ((x : String) → listens queue x h.broker ≡ false)
      → listens queue d
          (on_frames redis env fs
            (record { user_id = user; queue = queue; channels = [] })
            h).1.broker
        ≡ true
      → admits env user d fs ≡ true
  on_frames_admitted user queue fs h d fresh m =
      let start : Connection = record { user_id = user; queue = queue; channels = [] } in
      let end = on_frames redis env fs start h in
      let (n, (own, other)) =
        on_frames-IsServed redis env queue h.broker fs start h (refl, (fresh, λ r k x. refl)) in
      on_frames-channels fs start h d (sym (own d) ∙ ap (λ q. listens q d end.1.broker) n ∙ m)
