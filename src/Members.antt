-- ===== src/Members.antt =====
-- Membership management: backend/src/incident_desk/services/members.py.
pub mod Once
pub mod Guard
pub mod Rows
pub mod Outcomes
pub mod Owners
use incident_desk.Prelude.{
  ℕ, zero, suc, ◌+◌, ◌==◌, ltb, leb, String, str_eq, strip, Bool, false, not, ◌&&◌, ◌||◌, Option,
  none, some, List, [], ◌∷◌, ◌++◌, is_some, find, update_where, delete_where, count_where,
  select_where, order_by, if◌then◌else◌,
}
use incident_desk.Enums.{Role, owner, viewer, role_eq}
use incident_desk.Errors.{
  forbidden, not_found, already_member, invitation_pending, last_owner, invalid_invitation,
  wrong_account,
}
use incident_desk.Models.{Organization, Membership, OrgInvitation, User}
use incident_desk.Session.{
  Database, Env, Action, pure, raise, gets, or_raise, raise_if, modify, now, new_uuid, database_now,
  new_secret, ok, Session, ◌>>=◌, ◌>>◌, ⊤,
}

-- 7 days
abbrev pub invitation_ttl : ℕ
invitation_ttl = 604_800_000_000

-- the primary key `(user_id, org_id)`
abbrev pub is_membership : ℕ → ℕ → Membership → Bool
is_membership user_id org_id m = m.user_id == user_id && m.org_id == org_id

abbrev pub is_owner_of : ℕ → Membership → Bool
is_owner_of org_id m = m.org_id == org_id && role_eq m.role owner

abbrev pub owner_count : ℕ → Database → ℕ
owner_count org_id d = count_where (is_owner_of org_id) d.memberships

get_membership : ℕ → ℕ → Action Membership
unfolding ◌>>=◌
get_membership org_id user_id = do
  found ← gets (λ d. find (is_membership user_id org_id) d.memberships)
  or_raise found not_found

guard_owner_changes : Role → Role → Option Role → Action ⊤
unfolding ◌>>=◌
guard_owner_changes actor_role target_role new_role =
    let touches_owner =
      role_eq target_role owner || (elim new_role [ some r ↦ role_eq r owner | none ↦ false ]) in
    raise_if (touches_owner && not (role_eq actor_role owner)) forbidden

-- `membership.role = new_role`
abbrev pub with_role : Role → Membership → Membership
with_role r m = record m { role = r }

unfoldable pub change_role : Organization → Role → ℕ → Role → Action Membership
unfolding get_membership guard_owner_changes ◌>>=◌
change_role org actor_role user_id new_role = do
  membership ← get_membership org.id user_id
  guard_owner_changes actor_role membership.role (some new_role)
  owners ← gets (owner_count org.id)
  raise_if (role_eq membership.role owner && not (role_eq new_role owner) && owners == 1) last_owner
  modify (λ d. record d {
    memberships = update_where (is_membership user_id org.id) (with_role new_role) d.memberships;
  })
  pure (with_role new_role membership)

unfoldable pub remove_member : Organization → Role → ℕ → Action ⊤
unfolding get_membership guard_owner_changes ◌>>=◌
remove_member org actor_role user_id = do
  membership ← get_membership org.id user_id
  guard_owner_changes actor_role membership.role none
  owners ← gets (owner_count org.id)
  raise_if (role_eq membership.role owner && owners == 1) last_owner
  modify (λ d. record d { memberships = delete_where (is_membership user_id org.id) d.memberships })

module _ (env : Env) where
  -- services/auth_service.py
  abbrev pub normalize_email : String → String
  normalize_email email = env.lower (strip email)

  -- security/tokens.py
  abbrev pub hash_token : String → String
  hash_token raw = env.sha256 raw

-- the partial unique index: one live invitation per address per organisation
abbrev pub is_pending : ℕ → String → OrgInvitation → Bool
is_pending org_id email i =
    i.org_id == org_id && str_eq i.email email && not (is_some i.accepted_at)

-- `existing_user is not None` and their membership is not None
abbrev pub is_member_by_email : ℕ → String → Database → Bool
is_member_by_email org_id email d = elim (find (λ u. str_eq u.email email) d.users) [
  | none ↦ false
  | some u ↦ is_some (find (is_membership u.id org_id) d.memberships)
]

module _ (env : Env) where
  unfoldable pub create_invitation :
      Organization → String → Role → User → Role → Action (OrgInvitation × String)
  unfolding guard_owner_changes ◌>>=◌
  create_invitation org raw_email role invited_by actor_role = do
    let email = normalize_email env raw_email
    guard_owner_changes actor_role viewer (some role)
    member ← gets (is_member_by_email org.id email)
    raise_if member already_member
    pending ← gets (λ d. find (is_pending org.id email) d.invitations)
    raise_if (is_some pending) invitation_pending
    raw ← new_secret env
    at ← now env
    id ← new_uuid env
    created_at ← database_now
    let invitation : OrgInvitation = record {
      id = id;
      org_id = org.id;
      email = email;
      role = role;
      invited_by = some invited_by.id;
      token_hash = hash_token env raw;
      expires_at = at + invitation_ttl;
      accepted_at = none;
      created_at = created_at;
    }
    modify (λ d. record d { invitations = d.invitations ++ invitation ∷ [] })
    pure (invitation, raw)

  abbrev pub has_token : String → OrgInvitation → Bool
  has_token raw i = str_eq i.token_hash (hash_token env raw)

-- `session.get(models.Organization, org_id)`
abbrev pub is_org : ℕ → Organization → Bool
is_org id o = o.id == id

-- the row that accepting an invitation adds
abbrev pub joining : User → Organization → OrgInvitation → Session → Membership
joining user org invitation s = record {
  user_id = user.id;
  org_id = org.id;
  role = invitation.role;
  joined_at = s.transaction_time;
}

module _ (env : Env) where
  -- `invitation.accepted_at = _now()`
  abbrev pub accept_row : ℕ → ℕ → Database → Database
  accept_row id at d = record d {
    invitations =
        update_where (λ i. i.id == id) (λ i. record i { accepted_at = some at }) d.invitations;
  }

  unfoldable pub add_member : User → Organization → OrgInvitation → Action Membership
  unfolding ◌>>=◌
  add_member user org invitation = do
    membership ← (λ s. (ok (joining user org invitation s), s))
    modify (λ d. record d { memberships = d.memberships ++ membership ∷ [] })
    at ← now env
    modify (accept_row invitation.id at)
    pure membership

  unfoldable pub keep_member : OrgInvitation → Membership → Action Membership
  unfolding ◌>>=◌
  keep_member invitation existing = do
    at ← now env
    modify (accept_row invitation.id at)
    pure existing

  -- an existing membership is kept as it is
  unfoldable pub join : User → Organization → OrgInvitation → Option Membership → Action Membership
  unfolding add_member keep_member
  join user org invitation none = add_member user org invitation
  join user org invitation (some existing) = keep_member invitation existing

  -- the end of `accept_invitation`, from the look for a membership on
  unfoldable pub admit : User → Organization → OrgInvitation → Action Membership
  unfolding join ◌>>=◌
  admit user org invitation = do
    existing ← gets (λ d. find (is_membership user.id org.id) d.memberships)
    join user org invitation existing

  unfoldable pub accept_invitation : User → String → Action (Organization × Membership)
  unfolding admit ◌>>=◌
  accept_invitation user raw_token = do
    found ← gets (λ d. find (has_token env raw_token) d.invitations)
    invitation ← or_raise found invalid_invitation
    raise_if (is_some invitation.accepted_at) invalid_invitation
    at ← now env
    raise_if (leb invitation.expires_at at) invalid_invitation
    raise_if (not (str_eq invitation.email user.email)) wrong_account
    found_org ← gets (λ d. find (is_org invitation.org_id) d.organizations)
    org ← or_raise found_org invalid_invitation
    membership ← admit user org invitation
    pure (org, membership)

unfoldable pub revoke_invitation : Organization → ℕ → Action ⊤
unfolding ◌>>=◌
revoke_invitation org invitation_id = do
  found ← gets (λ d.
      find (λ i. i.org_id == org.id && i.id == invitation_id && not (is_some i.accepted_at))
        d.invitations)
  invitation ← or_raise found not_found
  modify (λ d. record d { invitations = delete_where (λ i. i.id == invitation.id) d.invitations })

-- `ORDER BY created_at, id`
abbrev older_invitation : OrgInvitation → OrgInvitation → Bool
older_invitation i j =
    ltb i.created_at j.created_at || i.created_at == j.created_at && ltb i.id j.id

unfoldable pub list_pending_invitations : Organization → Action (List OrgInvitation)
unfolding ◌>>=◌
list_pending_invitations org = gets (λ d.
    order_by older_invitation
      (select_where (λ i. i.org_id == org.id && not (is_some i.accepted_at)) d.invitations))
