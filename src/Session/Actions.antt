-- ===== src/Session/Actions.antt =====
-- The session of a request, and its actions. What was written before a raise stays written in the
-- session, so the state comes back beside the error too.
use incident_desk.Prelude.{
  ℕ, ◌+◌, String, Bool, Option, none, some, List, [], ◌∷◌, ◌++◌, if◌then◌else◌,
}
use incident_desk.Errors.{Error}
use incident_desk.Models.{Json}
use incident_desk.Session.Schema.{Database}
use incident_desk.Session.Outside.{Env}

-- What leaves the process: a publish on a realtime channel, a queued email, a deferred or queued job,
-- and a file, by its storage key and its bytes.
pub data Message : Type 0 where
  published : String → Json → Message
  email : String → String → Message
  check_escalation : ℕ → ℕ → ℕ → Message
  scan_attachment : ℕ → ℕ → Message
  write_file : String → String → Message

-- `db` is what the open transaction sees, `committed` what other transactions see. The two counters
-- are the identity sequences of `incident_events` and `comments`, which no rollback takes back.
pub record Session : Type 0 where
  pub db : Database
  pub committed : Database
  pub draws : ℕ
  pub transaction_time : ℕ
  pub event_seq : ℕ
  pub comment_seq : ℕ
  pub outbox : List Message

pub data Result (A : Type 0) : Type 0 where
  ok : A → Result A
  err : Error → Result A

abbrev pub Action : Type 0 → Type 0
Action A = Session → Result A × Session

abbrev pub ⊤ : Type 0
⊤ = Unit

module _ {A : Type 0} where
  unfoldable pub pure : A → Action A
  pure a s = (ok a, s)

  unfoldable pub raise : Error → Action A
  raise e s = (err e, s)

  -- a query
  unfoldable pub gets : (Database → A) → Action A
  gets f s = (ok (f s.db), s)

  -- `x = ...; if x is None: raise e`
  unfoldable pub or_raise : Option A → Error → Action A
  or_raise none e s = (err e, s)
  or_raise (some a) _ s = (ok a, s)

unfoldable pub raise_if : Bool → Error → Action ⊤
raise_if c e s = (if c then err e else ok tt, s)

-- `session.add(...)`, a change of a mapped object or an `execute`, and the flush after it
unfoldable pub modify : (Database → Database) → Action ⊤
modify f s = (ok tt, record s { db = f s.db })

unfoldable pub when : Bool → Action ⊤ → Action ⊤
when c m s = if c then m s else (ok tt, s)

unfoldable pub send : Message → Action ⊤
send msg s = (ok tt, record s { outbox = s.outbox ++ msg ∷ [] })

-- `now()` of the database: the time at which the transaction began
unfoldable pub database_now : Action ℕ
database_now s = (ok s.transaction_time, s)

unfoldable pub next_event_seq : Action ℕ
next_event_seq s = (ok s.event_seq, record s { event_seq = s.event_seq + 1 })

unfoldable pub next_comment_seq : Action ℕ
next_comment_seq s = (ok s.comment_seq, record s { comment_seq = s.comment_seq + 1 })

module _ (env : Env) where
  -- one more reading of the clock, one more random id, one more random text
  unfoldable pub now : Action ℕ
  now s = (ok (env.clock s.draws), record s { draws = s.draws + 1 })

  unfoldable pub new_uuid : Action ℕ
  new_uuid s = (ok (env.uuid s.draws), record s { draws = s.draws + 1 })

  unfoldable pub new_secret : Action String
  new_secret s = (ok (env.secret s.draws), record s { draws = s.draws + 1 })

  -- the salted hash of a password
  unfoldable pub hash_password : String → Action String
  hash_password password s =
      (ok (env.argon_hash s.draws password), record s { draws = s.draws + 1 })

  unfoldable pub commit : Action ⊤
  commit s = (
    ok tt,
    record s { committed = s.db; transaction_time = env.clock s.draws; draws = s.draws + 1 },
  )

  unfoldable pub rollback : Action ⊤
  rollback s = (
    ok tt,
    record s { db = s.committed; transaction_time = env.clock s.draws; draws = s.draws + 1 },
  )

infixl 5 ◌>>=◌ ◌>>◌
-- opening this opens the actions above
unfoldable pub ◌>>=◌ : {A B : Type 0} → Action A → (A → Action B) → Action B
unfolding pure raise gets or_raise raise_if modify when send database_now next_event_seq
    next_comment_seq now new_uuid new_secret hash_password commit rollback
◌>>=◌ m f s = let (r, s') = m s in elim r [ ok a ↦ f a s' | err e ↦ (err e, s') ]

abbrev pub ◌>>◌ : {A B : Type 0} → Action A → Action B → Action B
m >> k = m >>= λ _. k

-- `try: ... except ...`: the handler has the result, and the session as the action left it.
unfoldable pub attempt : {A B : Type 0} → Action A → (Result A → Action B) → Action B
attempt m f s = let (r, s') = m s in f r s'

-- The end of a request: the session closes, and what it has not committed is gone.
abbrev pub close : Session → Session
close s = record s { db = s.committed }

-- One request after another.
abbrev pub serve : {A : Type 0} → List (Action A) → Session → Session
serve [] s = s
serve (m ∷ ms) s = serve ms (close (m s).1)

-- What a request answers, and the database that its transaction sees at the end.
abbrev pub reply : {A : Type 0} → Action A → Session → Result A
reply m s = (m s).0

abbrev pub written : {A : Type 0} → Action A → Session → Database
written m s = (m s).1.db
