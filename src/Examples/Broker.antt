-- ===== src/Examples/Broker.antt =====
-- An instance of the theorem on the realtime broker, and a test of it.
use incident_desk.Prelude.{◌≡◌, refl, [], ◌∷◌}
use incident_desk.Realtime.{Broker, subscribe, unsubscribe, add_subscriber, remove_subscriber}
use incident_desk.Realtime.Subscriptions.{IsInStep, joins, leaves, changes, changes-IsInStep}

abbrev idle : Broker
idle = record { local = []; sent = [] }

idle-IsInStep : IsInStep idle
idle-IsInStep channel = (refl, refl)

changes-IsInStep_example :
    IsInStep (changes idle (joins "a" 1 ∷ joins "b" 2 ∷ joins "a" 3 ∷ leaves "b" 2 ∷ []))
changes-IsInStep_example =
    changes-IsInStep (joins "a" 1 ∷ joins "b" 2 ∷ joins "a" 3 ∷ leaves "b" 2 ∷ []) idle
      idle-IsInStep

one_left : changes idle (joins "a" 1 ∷ joins "b" 2 ∷ joins "a" 3 ∷ leaves "b" 2 ∷ []) ≡ record {
  local = ("a", 1 ∷ 3 ∷ []) ∷ [];
  sent = unsubscribe "b" ∷ subscribe "b" ∷ subscribe "a" ∷ [];
}
unfolding add_subscriber remove_subscriber
one_left = refl
