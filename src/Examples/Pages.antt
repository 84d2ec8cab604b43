-- ===== src/Examples/Pages.antt =====
-- Instances of the theorems on pages and on the nightly cleanup.
use incident_desk.Prelude.{ℕ, ◌≡◌, refl, List, none, [], ◌∷◌, arith}
use incident_desk.Models.{Incident, IncidentEvent, null}
use incident_desk.Session.{Session, ok, reply, written}
use incident_desk.Paging.Keys.{newest_first, by_seq, IsDistinct}
use incident_desk.Paging.Spec.{IsListing, enough}
use incident_desk.Paging.Client.{collect}
use incident_desk.Incidents.Numbers.{IsKeyed}
use incident_desk.Incidents.Listing.{
  created_at, sort_value, row_id, Filters, matches, list_incidents,
}
use incident_desk.Incidents.Pages.{list_incidents-IsListing}
use incident_desk.Timeline.{is_event_of, event_seq_of, list_events}
use incident_desk.Timeline.Pages.{list_events-IsListing}
use incident_desk.Jobs.{RetentionSettings, Counts, prune_retention_now}
use incident_desk.Jobs.Retention.{IsPruned, prune_retention_now-IsPruned}
use incident_desk.Samples.{acme, outage, sample_db, sample_env, session_on}

abbrev all_rows : Filters
all_rows = record {
  statuses = [];
  severities = [];
  service_id = none;
  assigned_to = none;
  tag = none;
  q = none;
}

-- two incidents made at one moment, and a later one
abbrev three : List Incident
three =
    outage
    ∷ record outage { id = 42; sequence_number = 2 }
    ∷ record outage { id = 43; sequence_number = 3; created_at = 200 }
    ∷ []

abbrev busy : Session
busy = session_on (record sample_db { incidents = three })

three-IsKeyed : IsKeyed three
three-IsKeyed = (refl, (refl, (refl, tt)))

list_incidents-IsListing_example :
    IsListing
      (newest_first (sort_value created_at) row_id)
      (matches sample_env acme all_rows)
      three
      (collect
        (list_incidents sample_env acme all_rows created_at 2)
        busy
        (enough
          (newest_first (sort_value created_at) row_id)
          (matches sample_env acme all_rows)
          three)
        none)
list_incidents-IsListing_example =
    list_incidents-IsListing sample_env acme all_rows created_at 1 busy three-IsKeyed

abbrev note : ℕ → IncidentEvent
note seq = record {
  id = seq;
  seq = seq;
  incident_id = 41;
  actor_id = none;
  event_type = "note";
  payload = null;
}

abbrev noted : Session
noted = session_on (record sample_db { events = note 5 ∷ note 3 ∷ [] })

notes-IsDistinct : IsDistinct event_seq_of (note 5 ∷ note 3 ∷ [])
notes-IsDistinct = ((λ e. omega (arith, e), tt), (tt, tt))

events_listed : IsListing (by_seq event_seq_of) (is_event_of 41) (note 5 ∷ note 3 ∷ []) (
    collect
      (list_events 41 1)
      noted
      (enough (by_seq event_seq_of) (is_event_of 41) (note 5 ∷ note 3 ∷ []))
      none)
events_listed = list_events-IsListing 41 0 noted notes-IsDistinct

abbrev windows : RetentionSettings
windows = record { idempotency_retention = 100; audit_retention = 500; expired_token_grace = 50 }

abbrev stale : Session
stale = session_on (record sample_db {
  idempotency_keys =
      record { org_id = 1; key = "k"; status_code = 201; response_body = "b"; created_at = 5 } ∷ [];
})

prune_retention_now-IsPruned_example :
    (counts : Counts) × (reply (prune_retention_now sample_env windows) stale ≡ ok counts)
    × IsPruned windows 1_000 stale.db
        (written (prune_retention_now sample_env windows) stale)
        counts
    × ((prune_retention_now sample_env windows stale).1.committed
        ≡ written (prune_retention_now sample_env windows) stale)
prune_retention_now-IsPruned_example = prune_retention_now-IsPruned sample_env windows stale
