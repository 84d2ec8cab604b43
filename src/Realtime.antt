-- ===== src/Realtime.antt =====
-- The local side of the realtime fan-out: `RealtimeBroker` of
-- backend/src/incident_desk/services/realtime.py. The lock makes each operation one step.
pub mod Subscriptions
pub mod Redis
pub mod Channels
pub mod Socket
pub mod Listeners
pub mod Served
pub mod Viewing
pub mod Departure
pub mod Admission
use incident_desk.Prelude.{
  ℕ, ◌==◌, String, str_eq, Bool, true, false, not, Option, none, some, List, [], ◌∷◌, ◌++◌,
  delete_where, exists_where, if◌then◌else◌,
}
use incident_desk.Models.{Json}

-- what the broker tells the subscription of Redis
pub data Command : Type 0 where
  subscribe unsubscribe : String → Command

-- `_local`, and the commands sent, the newest first
pub record Broker : Type 0 where
  pub local : List (String × List ℕ)
  pub sent : List Command

-- `_local.get(channel)`
abbrev pub lookup : String → List (String × List ℕ) → Option (List ℕ)
lookup channel [] = none
lookup channel (e ∷ es) =
    let later = lookup channel es in if str_eq e.0 channel then some e.1 else later

-- `_local[channel] = queues`
abbrev pub put : String → List ℕ → List (String × List ℕ) → List (String × List ℕ)
put channel queues [] = (channel, queues) ∷ []
put channel queues (e ∷ es) =
    let rest = put channel queues es in
    if str_eq e.0 channel then (channel, queues) ∷ es else e ∷ rest

-- `del _local[channel]`
abbrev pub drop_key : String → List (String × List ℕ) → List (String × List ℕ)
drop_key channel es = delete_where (λ e. str_eq e.0 channel) es

-- `listeners.add(queue)`
abbrev pub add_queue : ℕ → List ℕ → List ℕ
add_queue queue queues =
    if exists_where (λ q. q == queue) queues then queues else queues ++ queue ∷ []

-- `listeners.discard(queue)`
abbrev pub discard : ℕ → List ℕ → List ℕ
discard queue queues = delete_where (λ q. q == queue) queues

-- `if not listeners`
abbrev pub subscribe_first : String → List ℕ → List Command → List Command
subscribe_first channel [] sent = subscribe channel ∷ sent
subscribe_first channel (q ∷ qs) sent = sent

-- `setdefault(channel, set())`
abbrev pub listeners_of : Option (List ℕ) → List ℕ
listeners_of none = []
listeners_of (some queues) = queues

unfoldable pub add_subscriber : String → ℕ → Broker → Broker
add_subscriber channel queue b =
    let listeners = listeners_of (lookup channel b.local) in
    record {
      local = put channel (add_queue queue listeners) b.local;
      sent = subscribe_first channel listeners b.sent;
    }

-- what `remove_subscriber` does with the listeners that are left
unfoldable pub leave : String → List ℕ → Broker → Broker
leave channel [] b = record {
  local = drop_key channel b.local;
  sent = unsubscribe channel ∷ b.sent;
}
leave channel (q ∷ qs) b = record b { local = put channel (q ∷ qs) b.local }

unfoldable pub remove_found : String → ℕ → Option (List ℕ) → Broker → Broker
unfolding leave
remove_found channel queue none b = b
remove_found channel queue (some listeners) b = leave channel (discard queue listeners) b

unfoldable pub remove_subscriber : String → ℕ → Broker → Broker
unfolding remove_found
remove_subscriber channel queue b = remove_found channel queue (lookup channel b.local) b

-- the loop of `_listen` over the queues of a message's channel: each gets the payload
abbrev pub deliver : String → Json → Broker → List (ℕ × Json)
deliver channel payload b = put_all payload (listeners_of (lookup channel b.local))
  where
    put_all : Json → List ℕ → List (ℕ × Json)
    put_all payload [] = []
    put_all payload (q ∷ qs) = (q, payload) ∷ put_all payload qs
