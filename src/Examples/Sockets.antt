-- ===== src/Examples/Sockets.antt =====
-- Instances of the theorems on websockets, with a store of tickets that keeps pairs of texts.
use incident_desk.Prelude.{
  ◌&&◌, ℕ, ◌≡◌, ◌==◌, refl, String, str_eq, true, false, Option, none, some, List, [], ◌∷◌, find,
  delete_where, Bool-cases, inl, inr, concat, truncate, skip,
}
use incident_desk.Session.{Database, Env, reply}
use incident_desk.Authz.{find_standing}
use incident_desk.Realtime.{add_subscriber}
use incident_desk.Realtime.Redis.{Redis, ticket_key}
use incident_desk.Principals.{is_key_token}
use incident_desk.Realtime.Channels.{channel_allowed, answers}
use incident_desk.Realtime.Viewing.{view_incidents, channel_allowed-view_incidents}
use incident_desk.Realtime.Socket.{
  ClientFrame, ping, subscribe, Connection, Hub, on_frames, serve_socket,
}
use incident_desk.Realtime.Listeners.{listens}
use incident_desk.Realtime.Departure.{serve_socket-Departs}
use incident_desk.Realtime.Admission.{admits, on_frames_admitted}
use incident_desk.Samples.{bob, sample, sample_db, sample_env}

-- every access token is the one of user 8
abbrev bob_env : Env
bob_env = record sample_env {
  decode_access = λ at t. some (record { user_id = 8; token_version = 0 });
}

channel_allowed-view_incidents_example :
    answers (reply (view_incidents bob_env (some "token") "acme") sample) ≡ (
      bob.is_active
      && bob.token_version == 0
      && channel_allowed bob_env sample_db "org:acme:incidents" 8)
unfolding concat is_key_token
channel_allowed-view_incidents_example =
    channel_allowed-view_incidents bob_env "acme" "token"
      (record { user_id = 8; token_version = 0 }) bob sample refl refl refl

abbrev Pairs : Type 0
Pairs = List (String × String)

abbrev value_of : Option (String × String) → Option String
value_of none = none
value_of (some p) = some p.1

abbrev pairs : Redis Pairs
pairs = record {
  setex = λ at key ttl value r. (key, value) ∷ r;
  getdel =
      λ at key r. (value_of (find (λ p. str_eq p.0 key) r), delete_where (λ p. str_eq p.0 key) r);
  zadd = λ at key score member r. r;
  expire = λ at key ttl r. r;
  zrem = λ at key member r. r;
  zremrangebyscore = λ at key score r. r;
  zrange = λ at key r. [];
}

abbrev socket_env : Env
socket_env = record sample_env { uuid_of_text = λ t. some 7 }

-- queue 2 listens to the channel of an organisation, and a ticket waits
abbrev hub : Hub Pairs
hub = record {
  redis = (ticket_key "t", "seven") ∷ [];
  broker = record { local = ("org:acme:incidents", 2 ∷ []) ∷ []; sent = [] };
  published = [];
  draws = 0;
}

abbrev frames : List (Database × ClientFrame)
frames =
    (sample_db, subscribe "org:acme:incidents")
    ∷ (sample_db, ping)
    ∷ (sample_db, subscribe "incident:41")
    ∷ []

unheard : (d : String) → listens 1 d hub.broker ≡ false
unheard d = elim (Bool-cases (str_eq "org:acme:incidents" d)) [
  | inl h ↦ rw h refl
  | inr h ↦ rw h refl
]

serve_socket-Departs_example :
    ((d : String) → listens 1 d (serve_socket pairs socket_env "t" 1 frames hub).1.broker ≡ false)
    × ((r : ℕ)
        → 1 == r ≡ false
        → (d : String)
        → listens r d (serve_socket pairs socket_env "t" 1 frames hub).1.broker
          ≡ listens r d hub.broker)
serve_socket-Departs_example = serve_socket-Departs pairs socket_env 1 "t" frames hub unheard

abbrev start : Connection
start = record { user_id = 7; queue = 1; channels = [] }

heard : listens 1 "org:acme:incidents" (on_frames pairs socket_env frames start hub).1.broker ≡ true
unfolding on_frames add_subscriber channel_allowed find_standing truncate skip
heard = refl

on_frames_admitted_example : admits socket_env 7 "org:acme:incidents" frames ≡ true
on_frames_admitted_example =
    on_frames_admitted pairs socket_env 7 1 frames hub "org:acme:incidents" unheard heard
