-- ===== src/Members/Outcomes.antt =====
-- What the operations on a found membership come to, branch by branch.
use incident_desk.Prelude.{
  ℕ, ◌≡◌, ◌==◌, not, ◌&&◌, ◌||◌, some, none, arith, find, update_where, delete_where, if◌then◌else◌,
}
use incident_desk.Enums.{Role, owner, role_eq}
use incident_desk.Errors.{forbidden, not_found, last_owner}
use incident_desk.Models.{Organization, Membership, OrgInvitation, User}
use incident_desk.Session.{Session, Env, Result, ok, err, ⊤}
use incident_desk.Members.{
  is_membership, owner_count, with_role, change_role, remove_member, admit, add_member, keep_member,
}

module _ (org : Organization) (actor_role : Role) (user_id : ℕ) (s : Session) where
  abbrev changed : Role → Membership → Result Membership × Session
  changed r m =
      if (role_eq m.role owner || role_eq r owner) && not (role_eq actor_role owner)
      then (err forbidden, s)
      else if role_eq m.role owner && not (role_eq r owner) && owner_count org.id s.db == 1
      then (err last_owner, s)
      else (
        ok (with_role r m),
        record s {
          db = record s.db {
            memberships =
                update_where (is_membership user_id org.id) (with_role r) s.db.memberships;
          };
        },
      )

  abbrev removed : Membership → Result ⊤ × Session
  removed m =
      if role_eq m.role owner && not (role_eq actor_role owner)
      then (err forbidden, s)
      else if role_eq m.role owner && owner_count org.id s.db == 1
      then (err last_owner, s)
      else (
        ok tt,
        record s {
          db = record s.db {
            memberships = delete_where (is_membership user_id org.id) s.db.memberships;
          };
        },
      )

  pub change_role-some :
      (r : Role) (m : Membership)
      → find (is_membership user_id org.id) s.db.memberships ≡ some m
      → change_role org actor_role user_id r s ≡ changed r m
  unfolding change_role
  change_role-some r m e = ground arith

  pub change_role-none :
      (r : Role)
      → find (is_membership user_id org.id) s.db.memberships ≡ none
      → change_role org actor_role user_id r s ≡ (err not_found, s)
  unfolding change_role
  change_role-none r e = cc

  pub remove_member-some :
      (m : Membership)
      → find (is_membership user_id org.id) s.db.memberships ≡ some m
      → remove_member org actor_role user_id s ≡ removed m
  unfolding remove_member
  remove_member-some m e = ground arith

  pub remove_member-none :
      find (is_membership user_id org.id) s.db.memberships ≡ none
      → remove_member org actor_role user_id s ≡ (err not_found, s)
  unfolding remove_member
  remove_member-none e = cc

module _ (env : Env) (user : User) (org : Organization) (i : OrgInvitation) (s : Session) where
  pub admit-none :
      find (is_membership user.id org.id) s.db.memberships ≡ none
      → admit env user org i s ≡ add_member env user org i s
  unfolding admit
  admit-none e = ground arith

  pub admit-some :
      (m : Membership)
      → find (is_membership user.id org.id) s.db.memberships ≡ some m
      → admit env user org i s ≡ keep_member env i m s
  unfolding admit
  admit-some m e = ground arith
