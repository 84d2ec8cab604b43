-- ===== src/Authz/Grants.antt =====
-- What the authorisation dependency lets through.
use incident_desk.Prelude.{
  ℕ, ◌≤◌, ◌≡◌, ◌==◌, refl, String, str_eq, true, ◌&&◌, none, some, List, [], ◌∷◌, arith, find,
  find-holds, Option-cases, Bool-cases, inl, inr,
}
use incident_desk.Enums.{Role, owner, admin, responder, viewer}
use incident_desk.Models.{Organization, Membership, User, ApiKey}
use incident_desk.Session.{Session, ok, reply}
use incident_desk.Authz.{
  Permission, org_view, org_manage, member_view, member_manage, service_view, service_manage,
  incident_view, incident_create, incident_update, comment_create, comment_moderate,
  attachment_upload, oncall_view, oncall_manage, audit_view, apikey_manage, metrics_view,
  role_permissions, role_has, Principal, user_session, api_key, AuthContext, find_standing,
  all_granted, all_in_scopes, require,
}

-- the roles in ascending order
abbrev pub level : Role → ℕ
level viewer = 0
level responder = 1
level admin = 2
level owner = 3

role_has_up :
    (p : Permission)
    → (role_has viewer p ≡ true → role_has responder p ≡ true)
      × (role_has responder p ≡ true → role_has admin p ≡ true)
      × (role_has admin p ≡ true → role_has owner p ≡ true)
unfolding role_has role_permissions
role_has_up org_view = (λ h. refl, λ h. refl, λ h. refl)
role_has_up org_manage = (λ h. h, λ h. h, λ h. refl)
role_has_up member_view = (λ h. refl, λ h. refl, λ h. refl)
role_has_up member_manage = (λ h. h, λ h. refl, λ h. refl)
role_has_up service_view = (λ h. refl, λ h. refl, λ h. refl)
role_has_up service_manage = (λ h. h, λ h. refl, λ h. refl)
role_has_up incident_view = (λ h. refl, λ h. refl, λ h. refl)
role_has_up incident_create = (λ h. refl, λ h. refl, λ h. refl)
role_has_up incident_update = (λ h. refl, λ h. refl, λ h. refl)
role_has_up comment_create = (λ h. refl, λ h. refl, λ h. refl)
role_has_up comment_moderate = (λ h. h, λ h. refl, λ h. refl)
role_has_up attachment_upload = (λ h. refl, λ h. refl, λ h. refl)
role_has_up oncall_view = (λ h. refl, λ h. refl, λ h. refl)
role_has_up oncall_manage = (λ h. h, λ h. refl, λ h. refl)
role_has_up audit_view = (λ h. h, λ h. refl, λ h. refl)
role_has_up apikey_manage = (λ h. h, λ h. refl, λ h. refl)
role_has_up metrics_view = (λ h. refl, λ h. refl, λ h. refl)

-- A higher role may do all that a lower one may.
pub role_has_monotone :
    (a b : Role) (p : Permission) → level a ≤ level b → role_has a p ≡ true → role_has b p ≡ true
role_has_monotone viewer viewer p l h = h
role_has_monotone viewer responder p l h = (role_has_up p).0 h
role_has_monotone viewer admin p l h = (role_has_up p).1 ((role_has_up p).0 h)
role_has_monotone viewer owner p l h = (role_has_up p).2 ((role_has_up p).1 ((role_has_up p).0 h))
role_has_monotone responder responder p l h = h
role_has_monotone responder admin p l h = (role_has_up p).1 h
role_has_monotone responder owner p l h = (role_has_up p).2 ((role_has_up p).1 h)
role_has_monotone admin admin p l h = h
role_has_monotone admin owner p l h = (role_has_up p).2 h
role_has_monotone owner owner p l h = h
role_has_monotone responder viewer p l h = absurd (omega arith)
role_has_monotone admin viewer p l h = absurd (omega arith)
role_has_monotone admin responder p l h = absurd (omega arith)
role_has_monotone owner _ p l h = absurd (omega arith)

-- the organisation is one of the rows, with the slug, and the membership one of the rows that tie
-- the user to it
abbrev pub IsStanding :
    String → ℕ → List Organization → List Membership → Organization × Membership → Type 0
IsStanding slug user_id os ms row =
    (str_eq row.0.slug slug ≡ true)
    × (find (λ m. m.org_id == row.0.id && m.user_id == user_id) ms ≡ some row.1)

find_standing-IsStanding :
    (slug : String) (user_id : ℕ) (os : List Organization) (ms : List Membership)
    (row : Organization × Membership)
    → find_standing slug user_id os ms ≡ some row
    → IsStanding slug user_id os ms row
unfolding find_standing
find_standing-IsStanding slug user_id [] ms row h = cc
find_standing-IsStanding slug user_id (o ∷ os) ms row h = elim (Bool-cases (str_eq o.slug slug)) [
  | inr e ↦ find_standing-IsStanding slug user_id os ms row (ground arith)
  | inl e ↦ elim (Option-cases (find (λ m. m.org_id == o.id && m.user_id == user_id) ms)) [
    | inl f ↦ find_standing-IsStanding slug user_id os ms row (ground arith)
    | inr (m, f) ↦ let q : row ≡ (o, m) = ground arith in rw q (e, f)
  ]
]

module _ (permissions : List Permission) (slug : String) (s : Session) (ctx : AuthContext) where
  -- A user who is let through is a member of the organisation with the slug, in the role of that
  -- membership, which grants every permission asked for.
  pub require_user_session :
      (user : User)
      → reply (require permissions slug (user_session user)) s ≡ ok ctx
      → (m : Membership) × (ctx.membership ≡ some m)
        × (ctx.user ≡ some user)
        × IsStanding slug user.id s.db.organizations s.db.memberships (ctx.org, m)
        × (all_granted permissions m.role ≡ true)
  unfolding require
  require_user_session user h =
      elim (Option-cases (find_standing slug user.id s.db.organizations s.db.memberships)) [
        | inl e ↦ absurd (ground arith)
        | inr (row, e) ↦
            let v =
              find_standing-IsStanding slug user.id s.db.organizations s.db.memberships row e in
            (row.1, ground arith, ground arith, ground (arith, v), ground arith)
      ]

  -- An API key that is let through belongs to the organisation with the slug, acts for no user, and
  -- its scopes name every permission asked for.
  pub require_api_key :
      (key : ApiKey)
      → reply (require permissions slug (api_key key)) s ≡ ok ctx
      → (ctx.org.id ≡ key.org_id)
        × (str_eq ctx.org.slug slug ≡ true)
        × (ctx.user ≡ none)
        × (all_in_scopes permissions key.scopes ≡ true)
  unfolding require
  require_api_key key h =
      elim (Option-cases
        (find (λ o. str_eq o.slug slug && o.id == key.org_id) s.db.organizations)) [
          | inl e ↦ absurd (ground arith)
          | inr (o, e) ↦
              let f =
                find-holds (λ o. str_eq o.slug slug && o.id == key.org_id) s.db.organizations o e in
              (ground arith, ground arith, ground arith, ground arith)
        ]

-- A request is authorised or refused without a write.
pub require_writes_nothing :
    (permissions : List Permission) (slug : String) (p : Principal) (s : Session)
    → (require permissions slug p s).1 ≡ s
unfolding require
require_writes_nothing permissions slug (user_session user) s = ground arith
require_writes_nothing permissions slug (api_key key) s = ground arith
