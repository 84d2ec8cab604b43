-- ===== src/Audit.antt =====
-- The audit log: backend/src/incident_desk/services/audit.py.
pub mod Pages
use incident_desk.Prelude.{
  ℕ, ◌==◌, opt_eq, str_eq, Bool, true, ◌&&◌, List, String, truncate, is_empty, Option, none, some,
  [], ◌∷◌, ◌++◌, if◌then◌else◌,
}
use incident_desk.Models.{Organization, AuditLog, Json}
use incident_desk.Paging.{page_of}
use incident_desk.Paging.Keys.{newest_first}
use incident_desk.Session.{Env, Action, ⊤, gets, modify, new_uuid, database_now, ◌>>=◌}

-- api/deps.py, `AuditInfo`
pub record AuditInfo : Type 0 where
  pub ip_address : Option String
  pub user_agent : Option String

-- `(user_agent or "")[:400] or None`
abbrev kept_agent : Option String → Option String
kept_agent none = none
kept_agent (some a) = let t = truncate 400 a in if is_empty t then none else some t

module _ (env : Env) where
  unfoldable pub record_audit :
      ℕ → Option ℕ → String → String → Option ℕ → Json → Json → AuditInfo → Action ⊤
  unfolding ◌>>=◌
  record_audit org_id actor_id action resource_type resource_id before after info = do
    id ← new_uuid env
    at ← database_now
    modify (λ d. record d {
      audit_log =
          d.audit_log
          ++ record {
            id = id;
            org_id = org_id;
            actor_id = actor_id;
            action = action;
            resource_type = resource_type;
            resource_id = resource_id;
            before = before;
            after = after;
            ip_address = info.ip_address;
            user_agent = kept_agent info.user_agent;
            created_at = at;
          }
            ∷ [];
    })

-- the optional filters of `list_entries`
pub record EntryFilters : Type 0 where
  pub action : Option String
  pub resource_type : Option String
  pub actor_id : Option ℕ

abbrev allows_value : Option String → String → Bool
allows_value none t = true
allows_value (some v) t = str_eq t v

-- `actor_id = ...` on a nullable column
abbrev allows_actor : Option ℕ → Option ℕ → Bool
allows_actor none a = true
allows_actor (some u) a = opt_eq a (some u)

abbrev pub is_entry : Organization → EntryFilters → AuditLog → Bool
is_entry org f e =
    e.org_id == org.id
    && allows_value f.action e.action
    && allows_value f.resource_type e.resource_type
    && allows_actor f.actor_id e.actor_id

abbrev pub entry_time : AuditLog → ℕ
entry_time e = e.created_at

abbrev pub entry_id : AuditLog → ℕ
entry_id e = e.id

unfoldable pub list_entries :
    Organization → EntryFilters → ℕ → Option (ℕ × ℕ) → Action (List AuditLog × Option (ℕ × ℕ))
unfolding ◌>>=◌
list_entries org f limit cursor =
    gets (λ d. page_of (newest_first entry_time entry_id) (is_entry org f) limit cursor d.audit_log)
