-- ===== src/Timeline/Pages.antt =====
-- The pages of `list_events`.
use incident_desk.Prelude.{ℕ, suc, refl, none}
use incident_desk.Session.{Session}
use incident_desk.Paging.Keys.{by_seq, IsDistinct, seq-IsTotal}
use incident_desk.Paging.Spec.{IsListing, enough}
use incident_desk.Paging.Client.{collect, collect-IsListing}
use incident_desk.Timeline.{is_event_of, event_seq_of, list_events}

-- A client that calls `list_events` with the cursor of the answer before, until there is none, has
-- seen each event of the incident once, oldest first: whatever the page size, where no two events
-- have the same number, and with one call more than there are such events.
pub list_events-IsListing :
    (incident_id m : ℕ) (s : Session)
    → IsDistinct event_seq_of s.db.events
    → IsListing (by_seq event_seq_of) (is_event_of incident_id) s.db.events (
        collect
          (list_events incident_id (suc m))
          s
          (enough (by_seq event_seq_of) (is_event_of incident_id) s.db.events)
          none)
unfolding list_events
list_events-IsListing incident_id m s v =
    collect-IsListing (by_seq event_seq_of) (is_event_of incident_id) s.db.events
      (seq-IsTotal event_seq_of s.db.events v) m (list_events incident_id (suc m)) s (λ c. refl)
