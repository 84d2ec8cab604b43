-- ===== src/Authz.antt =====
-- The authorisation model: backend/src/incident_desk/authz.py, and the dependency `require` of
-- backend/src/incident_desk/api/authz.py.
pub mod Grants
use incident_desk.Prelude.{
  ℕ, ◌==◌, String, str_eq, Bool, true, false, not, ◌&&◌, ◌||◌, Option, none, some, List, [], ◌∷◌,
  ◌++◌, find, if◌then◌else◌,
}
use incident_desk.Enums.{Role, owner, admin, responder, viewer}
use incident_desk.Errors.{forbidden, not_found, user_required}
use incident_desk.Models.{Organization, Membership, ApiKey, User}
use incident_desk.Session.{
  Database, Session, Action, pure, raise, gets, or_raise, raise_if, ◌>>=◌, ◌>>◌, ⊤,
}

pub data Permission : Type 0 where
  org_view org_manage member_view member_manage service_view service_manage : Permission
  incident_view incident_create incident_update : Permission
  comment_create comment_moderate attachment_upload : Permission
  oncall_view oncall_manage audit_view apikey_manage metrics_view : Permission

abbrev pub permission_value : Permission → String
permission_value org_view = "org:view"
permission_value org_manage = "org:manage"
permission_value member_view = "member:view"
permission_value member_manage = "member:manage"
permission_value service_view = "service:view"
permission_value service_manage = "service:manage"
permission_value incident_view = "incident:view"
permission_value incident_create = "incident:create"
permission_value incident_update = "incident:update"
permission_value comment_create = "comment:create"
permission_value comment_moderate = "comment:moderate"
permission_value attachment_upload = "attachment:upload"
permission_value oncall_view = "oncall:view"
permission_value oncall_manage = "oncall:manage"
permission_value audit_view = "audit:view"
permission_value apikey_manage = "apikey:manage"
permission_value metrics_view = "metrics:view"

abbrev viewer_permissions : List Permission
viewer_permissions =
    org_view ∷ member_view ∷ service_view ∷ incident_view ∷ oncall_view ∷ metrics_view ∷ []

abbrev responder_permissions : List Permission
responder_permissions =
    viewer_permissions
    ++ (incident_create ∷ incident_update ∷ comment_create ∷ attachment_upload ∷ [])

abbrev admin_permissions : List Permission
admin_permissions =
    responder_permissions
    ++ (member_manage ∷ service_manage ∷ oncall_manage ∷ comment_moderate ∷ audit_view
        ∷ apikey_manage ∷ [])

abbrev owner_permissions : List Permission
owner_permissions = admin_permissions ++ (org_manage ∷ [])

unfoldable pub role_permissions : Role → List Permission
role_permissions viewer = viewer_permissions
role_permissions responder = responder_permissions
role_permissions admin = admin_permissions
role_permissions owner = owner_permissions

abbrev pub contains_text : String → List String → Bool
contains_text t [] = false
contains_text t (s ∷ rest) = str_eq t s || contains_text t rest

-- `permission in granted`: a member of a `StrEnum` is compared by its value.
abbrev pub contains_permission : Permission → List Permission → Bool
contains_permission p [] = false
contains_permission p (q ∷ rest) =
    str_eq (permission_value p) (permission_value q) || contains_permission p rest

unfoldable pub role_has : Role → Permission → Bool
unfolding role_permissions
role_has role permission = contains_permission permission (role_permissions role)

-- api/deps.py, `Principal`
pub data Principal : Type 0 where
  user_session : User → Principal
  api_key : ApiKey → Principal

pub record AuthContext : Type 0 where
  pub org : Organization
  pub user : Option User
  pub membership : Option Membership
  pub key : Option ApiKey

-- `AuthContext.role`
abbrev pub context_role : AuthContext → Role
context_role ctx = elim ctx.membership [ some m ↦ m.role | none ↦ admin ]

-- `AuthContext.actor_id`
abbrev pub actor_id : AuthContext → Option ℕ
actor_id ctx = elim ctx.user [ some u ↦ some u.id | none ↦ none ]

-- `AuthContext.require_user`
unfoldable pub require_user : AuthContext → Action User
unfolding ◌>>=◌
require_user ctx = or_raise ctx.user user_required

-- the loops over the required permissions
abbrev pub all_in_scopes : List Permission → List String → Bool
all_in_scopes [] scopes = true
all_in_scopes (p ∷ ps) scopes = contains_text (permission_value p) scopes && all_in_scopes ps scopes

abbrev pub all_granted : List Permission → Role → Bool
all_granted [] role = true
all_granted (p ∷ ps) role = role_has role p && all_granted ps role

-- `SELECT organization, membership ... JOIN ... WHERE slug AND user_id`, the first row: for each
-- organisation with the slug, its first membership of the user.
abbrev member_of : ℕ → ℕ → List Membership → Option Membership
member_of user_id org_id ms = find (λ m. m.org_id == org_id && m.user_id == user_id) ms

unfoldable pub find_standing :
    String → ℕ → List Organization → List Membership → Option (Organization × Membership)
find_standing slug user_id [] ms = none
find_standing slug user_id (o ∷ rest) ms =
    let later = find_standing slug user_id rest ms in
    if str_eq o.slug slug
    then elim (member_of user_id o.id ms) [ some m ↦ some (o, m) | none ↦ later ]
    else later

require_for_key : List Permission → String → ApiKey → Action AuthContext
unfolding ◌>>=◌
require_for_key permissions org_slug key = do
  found ← gets (λ d. find (λ o. str_eq o.slug org_slug && o.id == key.org_id) d.organizations)
  org ← or_raise found not_found
  raise_if (not (all_in_scopes permissions key.scopes)) forbidden
  pure (record { org = org; user = none; membership = none; key = some key })

require_for_user : List Permission → String → User → Action AuthContext
unfolding find_standing role_has ◌>>=◌
require_for_user permissions org_slug user = do
  found ← gets (λ d. find_standing org_slug user.id d.organizations d.memberships)
  row ← or_raise found not_found
  raise_if (not (all_granted permissions row.1.role)) forbidden
  pure (record { org = row.0; user = some user; membership = some row.1; key = none })

unfoldable pub require : List Permission → String → Principal → Action AuthContext
unfolding require_for_key require_for_user ◌>>=◌
require permissions org_slug (api_key key) = require_for_key permissions org_slug key
require permissions org_slug (user_session user) = require_for_user permissions org_slug user
