-- ===== src/Audit/Pages.antt =====
-- The pages of `list_entries`.
use incident_desk.Prelude.{ℕ, suc, refl, none}
use incident_desk.Models.{Organization}
use incident_desk.Session.{Session}
use incident_desk.Paging.Keys.{newest_first, IsDistinct, id-IsTotal}
use incident_desk.Paging.Spec.{IsListing, enough}
use incident_desk.Paging.Client.{collect, collect-IsListing}
use incident_desk.Audit.{EntryFilters, is_entry, entry_time, entry_id, list_entries}

-- A client that calls `list_entries` with the cursor of the answer before, until there is none, has
-- seen each matching entry of the organisation once, newest first: whatever the page size, where
-- ids are distinct, and with one call more than there are such entries.
pub list_entries-IsListing :
    (org : Organization) (f : EntryFilters) (m : ℕ) (s : Session)
    → IsDistinct entry_id s.db.audit_log
    → IsListing (newest_first entry_time entry_id) (is_entry org f) s.db.audit_log (
        collect
          (list_entries org f (suc m))
          s
          (enough (newest_first entry_time entry_id) (is_entry org f) s.db.audit_log)
          none)
unfolding list_entries
list_entries-IsListing org f m s v =
    collect-IsListing (newest_first entry_time entry_id) (is_entry org f) s.db.audit_log
      (id-IsTotal entry_time entry_id s.db.audit_log v) m (list_entries org f (suc m)) s (λ c. refl)
