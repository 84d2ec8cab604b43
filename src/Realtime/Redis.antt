-- ===== src/Realtime/Redis.antt =====
-- Tickets and presence: the functions of backend/src/incident_desk/services/realtime.py beside the
-- broker. Redis is a parameter: its state, and the commands that the code sends, each at a time. The
-- value of a key is a text.
use incident_desk.Prelude.{
  ℕ, ◌-◌, String, concat, is_empty, Option, none, some, List, if◌then◌else◌, ◌*◌,
}

pub record Redis (R : Type 0) : Type 0 where
  -- `SETEX key ttl value`, and `GETDEL key`
  pub setex : ℕ → String → ℕ → String → R → R
  pub getdel : ℕ → String → R → Option String × R
  -- `ZADD key score member`, `EXPIRE key ttl`, `ZREM key member`
  pub zadd : ℕ → String → ℕ → String → R → R
  pub expire : ℕ → String → ℕ → R → R
  pub zrem : ℕ → String → String → R → R
  -- `ZREMRANGEBYSCORE key 0 score`, and `ZRANGE key 0 -1`
  pub zremrangebyscore : ℕ → String → ℕ → R → R
  pub zrange : ℕ → String → R → List String

-- seconds
abbrev pub ticket_ttl_seconds : ℕ
ticket_ttl_seconds = 30

abbrev pub presence_window_seconds : ℕ
presence_window_seconds = 45

abbrev pub ticket_key : String → String
ticket_key ticket = concat "ws:ticket:" ticket

abbrev pub presence_key : String → String
presence_key incident_id = concat "presence:incident:" incident_id

module _ {R : Type 0} (redis : Redis R) where
  -- `uuid.uuid4().hex + uuid.uuid4().hex` is given
  unfoldable pub issue_ticket : ℕ → String → String → R → R
  issue_ticket at ticket user r = redis.setex at (ticket_key ticket) ticket_ttl_seconds user r

  -- `uuid.UUID(text)` is given: none for a `ValueError`
  abbrev user_of : (String → Option ℕ) → Option String → Option ℕ
  user_of parse none = none
  user_of parse (some text) = parse text

  unfoldable pub consume_ticket : (String → Option ℕ) → ℕ → String → R → Option ℕ × R
  consume_ticket parse at ticket r =
      let taken = redis.getdel at (ticket_key ticket) r in
      if is_empty ticket then (none, r) else (user_of parse taken.0, taken.1)

  unfoldable pub presence_touch : ℕ → String → String → R → R
  presence_touch at incident_id user r =
      redis.expire at (presence_key incident_id) (presence_window_seconds * 4)
        (redis.zadd at (presence_key incident_id) at user r)

  unfoldable pub presence_leave : ℕ → String → String → R → R
  presence_leave at incident_id user r = redis.zrem at (presence_key incident_id) user r

  -- the entries that are older than the window fall out first
  unfoldable pub presence_viewers : ℕ → String → R → List String × R
  presence_viewers at incident_id r =
      let left =
        redis.zremrangebyscore at (presence_key incident_id) (at - presence_window_seconds) r in
      (redis.zrange at (presence_key incident_id) left, left)
