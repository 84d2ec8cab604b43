-- ===== src/Incidents/Pages.antt =====
-- The pages of `list_incidents`.
use incident_desk.Prelude.{ℕ, suc, ◌≡◌, ◌≢◌, refl, none, List, [], ◌∷◌, All, arith, find}
use incident_desk.Models.{Organization, Incident}
use incident_desk.Session.{Session, Env}
use incident_desk.Paging.Keys.{newest_first, IsDistinct, id-IsTotal}
use incident_desk.Paging.Spec.{IsListing, enough}
use incident_desk.Paging.Client.{collect, collect-IsListing}
use incident_desk.Incidents.{has_incident_id}
use incident_desk.Incidents.Listing.{
  SortField, sort_value, row_id, Filters, matches, list_incidents,
}
use incident_desk.Incidents.Numbers.{IsKeyed}

All-row_id :
    (i : Incident) (is : List Incident)
    → find (has_incident_id i.id) is ≡ none
    → All (λ j. row_id i ≢ row_id j) is
All-row_id i [] h = tt
All-row_id i (j ∷ is) h = (λ e. absurd (ground (arith, e)), All-row_id i is (ground arith))

IsKeyed-IsDistinct : (is : List Incident) → IsKeyed is → IsDistinct row_id is
IsKeyed-IsDistinct [] v = tt
IsKeyed-IsDistinct (i ∷ is) v = (All-row_id i is v.0, IsKeyed-IsDistinct is v.1)

-- A client that calls `list_incidents` with the cursor of the answer before, until there is none,
-- has seen each matching incident of the organisation once, newest first: whatever the page size,
-- where ids are distinct, and with one call more than there are such incidents.
pub list_incidents-IsListing :
    (env : Env) (org : Organization) (f : Filters) (field : SortField) (m : ℕ) (s : Session)
    → IsKeyed s.db.incidents
    → IsListing (newest_first (sort_value field) row_id) (matches env org f) s.db.incidents (
        collect
          (list_incidents env org f field (suc m))
          s
          (enough (newest_first (sort_value field) row_id) (matches env org f) s.db.incidents)
          none)
unfolding list_incidents
list_incidents-IsListing env org f field m s v =
    collect-IsListing (newest_first (sort_value field) row_id) (matches env org f) s.db.incidents
      (id-IsTotal (sort_value field) row_id s.db.incidents (IsKeyed-IsDistinct s.db.incidents v)) m
      (list_incidents env org f field (suc m)) s (λ c. refl)
