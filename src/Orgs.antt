-- ===== src/Orgs.antt =====
-- Organisations and the service catalogue: backend/src/incident_desk/services/orgs.py and
-- services/catalog.py, with the constraints that db/models.py puts on their tables.
use incident_desk.Prelude.{
  ℕ, ◌==◌, String, str_eq, Bool, not, ◌&&◌, ◌||◌, Option, none, some, List, [], ◌∷◌, ◌++◌, is_some,
  find, update_where, delete_where, exists_where,
}
use incident_desk.Enums.{owner, ServiceTier}
use incident_desk.Errors.{
  not_found, slug_taken, service_name_taken, service_in_use, integrity_error,
}
use incident_desk.Models.{Organization, Service, Incident, OnCallSchedule, OnCallShift, User, dict}
use incident_desk.Session.{
  Env, Action, ⊤, pure, gets, or_raise, raise_if, modify, new_uuid, database_now, ◌>>=◌, ◌>>◌,
}
use incident_desk.Members.{is_membership}
use incident_desk.Incidents.{is_service, has_counter}

abbrev pub has_slug : String → Organization → Bool
has_slug slug o = str_eq o.slug slug

-- Each flush meets the primary keys of its tables; the first one also names the slug as taken.
unfoldable pub create_organization : Env → String → String → User → Action Organization
unfolding ◌>>=◌
create_organization env name slug creator = do
  existing ← gets (λ d. find (has_slug slug) d.organizations)
  raise_if (is_some existing) slug_taken
  id ← new_uuid env
  joined ← database_now
  let org : Organization = record {
    id = id;
    name = name;
    slug = slug;
    plan = "free";
    settings = dict [];
  }
  clash ← gets (λ d. exists_where (λ o. o.id == id) d.organizations)
  raise_if clash slug_taken
  modify (λ d. record d { organizations = d.organizations ++ org ∷ [] })
  taken ← gets (λ d.
      is_some (find (is_membership creator.id id) d.memberships)
      || is_some (find (has_counter id) d.counters))
  raise_if taken integrity_error
  modify (λ d. record d {
    memberships =
        d.memberships
        ++ record { user_id = creator.id; org_id = id; role = owner; joined_at = joined } ∷ [];
    counters = d.counters ++ record { org_id = id; incident_seq = 0 } ∷ [];
  })
  pure org

-- `UniqueConstraint("org_id", "name")`
abbrev pub has_name : ℕ → String → Service → Bool
has_name org_id name v = v.org_id == org_id && str_eq v.name name

unfoldable pub get_service : Organization → ℕ → Action Service
unfolding ◌>>=◌
get_service org service_id = do
  found ← gets (λ d. find (is_service org.id service_id) d.services)
  or_raise found not_found

unfoldable pub create_service :
    Env → Organization → String → String → String → ServiceTier → Action Service
unfolding ◌>>=◌
create_service env org name description owner_team tier = do
  id ← new_uuid env
  let service : Service = record {
    id = id;
    org_id = org.id;
    name = name;
    description = description;
    owner_team = owner_team;
    tier = tier;
  }
  taken ← gets (λ d. exists_where (has_name org.id name) d.services)
  raise_if taken service_name_taken
  modify (λ d. record d { services = d.services ++ service ∷ [] })
  pure service

abbrev or_else {ℓ} : {A : Type ℓ} → Option A → A → A
or_else none d = d
or_else (some a) d = a

unfoldable pub update_service :
    Organization
    → ℕ
    → Option String
    → Option String
    → Option String
    → Option ServiceTier
    → Action Service
unfolding get_service ◌>>=◌
update_service org service_id name description owner_team tier = do
  service ← get_service org service_id
  let changed : Service = record service {
    name = or_else name service.name;
    description = or_else description service.description;
    owner_team = or_else owner_team service.owner_team;
    tier = or_else tier service.tier;
  }
  taken ← gets (λ d.
      exists_where (λ v. has_name service.org_id changed.name v && not (v.id == service.id))
        d.services)
  raise_if taken service_name_taken
  modify (λ d. record d {
    services = update_where (λ v. v.id == service.id) (λ _. changed) d.services;
  })
  pure changed

-- the foreign keys to `services.id`: RESTRICT from incidents, CASCADE from schedules and so shifts
abbrev pub of_service : ℕ → Incident → Bool
of_service id i = i.service_id == id

abbrev schedule_of_service : ℕ → OnCallSchedule → Bool
schedule_of_service id c = c.service_id == id

abbrev shift_of_service : ℕ → List OnCallSchedule → OnCallShift → Bool
shift_of_service id cs x = exists_where (λ c. c.id == x.schedule_id && c.service_id == id) cs

unfoldable pub delete_service : Organization → ℕ → Action ⊤
unfolding get_service ◌>>=◌
delete_service org service_id = do
  service ← get_service org service_id
  used ← gets (λ d. exists_where (of_service service.id) d.incidents)
  raise_if used service_in_use
  modify (λ d. record d {
    services = delete_where (λ v. v.id == service.id) d.services;
    schedules = delete_where (schedule_of_service service.id) d.schedules;
    shifts = delete_where (shift_of_service service.id d.schedules) d.shifts;
  })
