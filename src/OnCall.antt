-- ===== src/OnCall.antt =====
-- On-call schedules and shifts: backend/src/incident_desk/services/oncall.py, with the constraints
-- that db/models.py puts on the table of shifts.
pub mod Disjoint
use incident_desk.Prelude.{
  ℕ, suc, ◌==◌, ltb, leb, String, Bool, true, false, not, ◌&&◌, ◌||◌, Option, none, some, List, [],
  ◌∷◌, ◌++◌, is_some, find, select_where, order_by, delete_where, exists_where, if◌then◌else◌,
}
use incident_desk.Errors.{not_found, shift_overlap, not_a_member}
use incident_desk.Models.{Organization, User, OnCallSchedule, OnCallShift, Json}
use incident_desk.Session.{
  Database, Session, Env, Action, ⊤, pure, gets, or_raise, raise_if, modify, now, new_uuid, ◌>>=◌,
  ◌>>◌,
}
use incident_desk.Members.{is_membership}
use incident_desk.Sessions.{is_user}
use incident_desk.Incidents.{is_service}

abbrev pub is_schedule : ℕ → ℕ → OnCallSchedule → Bool
is_schedule org_id id c = c.org_id == org_id && c.id == id

abbrev allows_service : Option ℕ → OnCallSchedule → Bool
allows_service none c = true
allows_service (some v) c = c.service_id == v

unfoldable pub get_schedule : Organization → ℕ → Action OnCallSchedule
unfolding ◌>>=◌
get_schedule org schedule_id = do
  found ← gets (λ d. find (is_schedule org.id schedule_id) d.schedules)
  or_raise found not_found

-- the schedules of the organisation, and of the service if one is given, by name
abbrev pub schedules_of : Env → ℕ → Option ℕ → Database → List OnCallSchedule
schedules_of env org_id service_id d =
    order_by (λ c c'. env.name_before c.name c'.name)
      (select_where (λ c. c.org_id == org_id && allows_service service_id c) d.schedules)

unfoldable pub create_schedule : Env → Organization → ℕ → String → Json → Action OnCallSchedule
unfolding ◌>>=◌
create_schedule env org service_id name rotation = do
  service ← gets (λ d. find (is_service org.id service_id) d.services)
  raise_if (not (is_some service)) not_found
  id ← new_uuid env
  let schedule : OnCallSchedule = record {
    id = id;
    org_id = org.id;
    service_id = service_id;
    name = name;
    rotation = rotation;
  }
  modify (λ d. record d { schedules = d.schedules ++ schedule ∷ [] })
  pure schedule

-- `ExcludeConstraint`: the same schedule, and ranges `[starts_at, ends_at)` that meet
abbrev pub overlaps : OnCallShift → OnCallShift → Bool
overlaps a b =
    a.schedule_id == b.schedule_id && ltb a.starts_at b.ends_at && ltb b.starts_at a.ends_at

-- `CheckConstraint` and `ExcludeConstraint`: the insert raises `IntegrityError`
abbrev pub violates : OnCallShift → List OnCallShift → Bool
violates shift shifts =
    not (ltb shift.starts_at shift.ends_at) || exists_where (overlaps shift) shifts

unfoldable pub add_shift : Env → Organization → ℕ → ℕ → ℕ → ℕ → Action OnCallShift
unfolding get_schedule ◌>>=◌
add_shift env org schedule_id user_id starts_at ends_at = do
  schedule ← get_schedule org schedule_id
  membership ← gets (λ d. find (is_membership user_id org.id) d.memberships)
  raise_if (not (is_some membership)) not_a_member
  id ← new_uuid env
  let shift : OnCallShift = record {
    id = id;
    schedule_id = schedule.id;
    user_id = user_id;
    starts_at = starts_at;
    ends_at = ends_at;
  }
  refused ← gets (λ d. violates shift d.shifts)
  raise_if refused shift_overlap
  modify (λ d. record d { shifts = d.shifts ++ shift ∷ [] })
  pure shift

abbrev ends_after : Option ℕ → OnCallShift → Bool
ends_after none x = true
ends_after (some t) x = ltb t x.ends_at

abbrev starts_before : Option ℕ → OnCallShift → Bool
starts_before none x = true
starts_before (some t) x = ltb x.starts_at t

-- `ORDER BY starts_at`
abbrev insert_shift : OnCallShift → List OnCallShift → List OnCallShift
insert_shift x [] = x ∷ []
insert_shift x (y ∷ ys) =
    let rest = insert_shift x ys in if leb x.starts_at y.starts_at then x ∷ y ∷ ys else y ∷ rest

abbrev order_shifts : List OnCallShift → List OnCallShift
order_shifts [] = []
order_shifts (x ∷ xs) = insert_shift x (order_shifts xs)

unfoldable pub list_shifts : Organization → ℕ → Option ℕ → Option ℕ → Action (List OnCallShift)
unfolding get_schedule ◌>>=◌
list_shifts org schedule_id window_start window_end = do
  schedule ← get_schedule org schedule_id
  gets (λ d. order_shifts (
      select_where
        (λ x.
          x.schedule_id == schedule.id && ends_after window_start x && starts_before window_end x)
        d.shifts))

abbrev pub is_shift : ℕ → ℕ → OnCallShift → Bool
is_shift schedule_id id x = x.schedule_id == schedule_id && x.id == id

unfoldable pub delete_shift : Organization → ℕ → ℕ → Action ⊤
unfolding get_schedule ◌>>=◌
delete_shift org schedule_id shift_id = do
  schedule ← get_schedule org schedule_id
  found ← gets (λ d. find (is_shift schedule.id shift_id) d.shifts)
  shift ← or_raise found not_found
  modify (λ d. record d { shifts = delete_where (λ x. x.id == shift.id) d.shifts })

-- the shift covers the moment
abbrev pub covers : ℕ → ℕ → OnCallShift → Bool
covers schedule_id moment x =
    x.schedule_id == schedule_id && leb x.starts_at moment && ltb moment x.ends_at

-- the first row of the join of shifts and users
abbrev pub on_shift : ℕ → ℕ → List User → List OnCallShift → Option User
on_shift schedule_id moment users [] = none
on_shift schedule_id moment users (x ∷ xs) =
    let later = on_shift schedule_id moment users xs in
    if covers schedule_id moment x
    then elim (find (is_user x.user_id) users) [ some u ↦ some u | none ↦ later ]
    else later

-- the loop over the schedules
abbrev pub on_call_entries :
    ℕ → Database → List OnCallSchedule → List (OnCallSchedule × Option User)
on_call_entries moment d [] = []
on_call_entries moment d (c ∷ cs) =
    (c, on_shift c.id moment d.users d.shifts) ∷ on_call_entries moment d cs

-- `at or _now()`
moment_of : Env → Option ℕ → Action ℕ
unfolding ◌>>=◌
moment_of env none = now env
moment_of env (some at) = pure at

unfoldable pub who_is_on_call :
    Env → Organization → ℕ → Option ℕ → Action (List (OnCallSchedule × Option User))
unfolding moment_of ◌>>=◌
who_is_on_call env org service_id at = do
  moment ← moment_of env at
  gets (λ d. on_call_entries moment d (schedules_of env org.id (some service_id) d))
