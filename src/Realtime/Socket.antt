-- ===== src/Realtime/Socket.antt =====
-- The endpoint of the websocket: backend/src/incident_desk/api/realtime_ws.py. A frame of the client
-- is what the loop makes of its `action` and `channel`; the frames of other connections and the
-- changes of the database come between the steps.
use incident_desk.Prelude.{
  ℕ, ◌+◌, String, str_eq, Bool, true, false, not, Option, none, some, List, [], ◌∷◌, ◌++◌,
  delete_where, if◌then◌else◌,
}
use incident_desk.Models.{Json, text, texts, dict}
use incident_desk.Session.{Database, Env}
use incident_desk.Authz.{contains_text}
use incident_desk.Realtime.{Broker, add_subscriber, remove_subscriber}
use incident_desk.Realtime.Redis.{
  Redis, consume_ticket, presence_touch, presence_leave, presence_viewers,
}
use incident_desk.Realtime.Channels.{is_incident_channel, channel_incident, channel_allowed}

-- a frame of the client, and a frame of the server
pub data ClientFrame : Type 0 where
  ping unknown : ClientFrame
  subscribe unsubscribe : String → ClientFrame

pub data ServerFrame : Type 0 where
  pong unknown_action : ServerFrame
  subscribed unsubscribed forbidden_channel : String → ServerFrame

-- the locals of the endpoint: who it is, their queue and the set of channels
pub record Connection : Type 0 where
  pub user_id : ℕ
  pub queue : ℕ
  pub channels : List String

-- what the connections share, with the readings of the clock so far and what was published
pub record Hub (R : Type 0) : Type 0 where
  pub redis : R
  pub broker : Broker
  pub published : List (String × Json)
  pub draws : ℕ

module _ {R : Type 0} (redis : Redis R) (env : Env) where
  -- one more reading of the clock
  abbrev pub touch : ℕ → String → Hub R → Hub R
  touch user channel h = record h {
    redis =
        presence_touch redis (env.clock h.draws) (channel_incident channel) (env.uuid_text user)
          h.redis;
    draws = h.draws + 1;
  }

  abbrev pub depart : ℕ → String → Hub R → Hub R
  depart user channel h = record h {
    redis =
        presence_leave redis (env.clock h.draws) (channel_incident channel) (env.uuid_text user)
          h.redis;
  }

  -- `presence.changed` to the channel, with the viewers now
  abbrev pub publish_presence : String → Hub R → Hub R
  publish_presence channel h =
      let seen = presence_viewers redis (env.clock h.draws) (channel_incident channel) h.redis in
      record h {
        redis = seen.1;
        published =
            h.published
            ++ (
              channel,
              dict (
                  ("type", text "presence.changed")
                  ∷ ("incident_id", text (channel_incident channel))
                  ∷ ("viewers", texts seen.0)
                  ∷ []),
            )
              ∷ [];
        draws = h.draws + 1;
      }

  -- one round of the loop of `ping`
  abbrev pub touched : ℕ → String → Hub R → Hub R
  touched user c h = if is_incident_channel c then touch user c h else h

  -- the loop of `ping` over the channels
  unfoldable pub touch_all : ℕ → List String → Hub R → Hub R
  touch_all user [] h = h
  touch_all user (c ∷ cs) h = touch_all user cs (touched user c h)

  -- what follows a channel that was added, and one that was taken off
  abbrev pub arrived : ℕ → String → Hub R → Hub R
  arrived user channel h =
      if is_incident_channel channel then publish_presence channel (touch user channel h) else h

  abbrev pub departed : ℕ → String → Hub R → Hub R
  departed user channel h =
      if is_incident_channel channel then publish_presence channel (depart user channel h) else h

  abbrev pub listen : String → ℕ → Hub R → Hub R
  listen channel queue h = record h { broker = add_subscriber channel queue h.broker }

  abbrev pub unlisten : String → ℕ → Hub R → Hub R
  unlisten channel queue h = record h { broker = remove_subscriber channel queue h.broker }

  -- one round of the loop, on the database at that time
  unfoldable pub on_frame :
      Database → ClientFrame → Connection → Hub R → (ServerFrame × Connection) × Hub R
  unfolding touch_all channel_allowed
  on_frame d ping c h = ((pong, c), touch_all c.user_id c.channels h)
  on_frame d unknown c h = ((unknown_action, c), h)
  on_frame d (subscribe channel) c h =
      if contains_text channel c.channels
      then ((subscribed channel, c), h)
      else if not (channel_allowed env d channel c.user_id)
      then ((forbidden_channel channel, c), h)
      else (
        (subscribed channel, record c { channels = channel ∷ c.channels }),
        arrived c.user_id channel (listen channel c.queue h),
      )
  on_frame d (unsubscribe channel) c h =
      if contains_text channel c.channels
      then (
        (
          unsubscribed channel,
          record c { channels = delete_where (λ x. str_eq channel x) c.channels },
        ),
        departed c.user_id channel (unlisten channel c.queue h),
      )
      else ((unsubscribed channel, c), h)

  -- the rounds until the connection ends
  unfoldable pub on_frames : List (Database × ClientFrame) → Connection → Hub R → Connection × Hub R
  unfolding on_frame
  on_frames [] c h = (c, h)
  on_frames ((d, f) ∷ fs) c h = let next = on_frame d f c h in on_frames fs next.0.1 next.1

  -- `_cleanup`, where Redis does not fail: a `RedisError` ends the loop.
  unfoldable pub cleanup : ℕ → ℕ → List String → Hub R → Hub R
  cleanup user queue [] h = h
  cleanup user queue (channel ∷ rest) h =
      cleanup user queue rest (departed user channel (unlisten channel queue h))

  -- what follows the ticket: the conversation, and the cleanup at its end
  unfoldable pub converse : Option ℕ → ℕ → List (Database × ClientFrame) → Hub R → Bool × Hub R
  unfolding on_frames cleanup
  converse none queue frames h = (false, h)
  converse (some user) queue frames h =
      let start : Connection = record { user_id = user; queue = queue; channels = [] } in
      let end = on_frames frames start h in (true, cleanup user queue end.0.channels end.1)

  -- whether the connection was accepted: not for close code 4401
  unfoldable pub serve_socket : String → ℕ → List (Database × ClientFrame) → Hub R → Bool × Hub R
  unfolding converse consume_ticket
  serve_socket ticket queue frames h =
      let taken = consume_ticket redis env.uuid_of_text (env.clock h.draws) ticket h.redis in
      converse taken.0 queue frames (record h { redis = taken.1; draws = h.draws + 1 })
