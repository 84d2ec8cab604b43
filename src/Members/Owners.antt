-- ===== src/Members/Owners.antt =====
-- The last-owner rule and the owner guard of services/members.py, for single operations and for any
-- sequence of them.
use incident_desk.Prelude.{
  ℕ, ◌≤◌, ◌≡◌, ◌≢◌, ◌==◌, ==_iff, ap, find-holds, count_where-append, Bool-cases, none, some, List,
  [], ◌∷◌, ◌⊎◌, inl, inr, arith, find, String, Option-cases,
}
use incident_desk.Enums.{Role}
use incident_desk.Models.{Organization, Membership, OrgInvitation, User}
use incident_desk.Session.{Database, Session, Env, modify}
use incident_desk.Session.Keeping.{Keeps, Kept, Always, keeping, Keeps-modify}
use incident_desk.Members.{
  is_membership, is_owner_of, owner_count, change_role, remove_member, create_invitation,
  accept_invitation, revoke_invitation, admit, add_member, keep_member, accept_row, joining,
}
use incident_desk.Members.Rows.{
  IsKeyed, count-update, count-delete, update-IsKeyed, delete-IsKeyed, add-IsKeyed,
}
use incident_desk.Members.Outcomes.{
  admit-none, admit-some, change_role-some, change_role-none, remove_member-some,
  remove_member-none,
}

-- The key of each membership is its own, and the organisation `x` has an owner.
abbrev pub HasOwner : ℕ → Database → Type 0
HasOwner x d = IsKeyed d.memberships × (1 ≤ owner_count x d)

-- A membership that the key finds lies in that organisation.
in_org :
    (u o : ℕ) (ms : List Membership) (m : Membership)
    → find (is_membership u o) ms ≡ some m
    → m.org_id ≡ o
in_org u o ms m e = ground (arith, find-holds (is_membership u o) ms m e)

-- the count of the organisation of the found row, where it is the one looked at
same_count : (x o : ℕ) (d : Database) → (x ≢ o) ⊎ (owner_count x d ≡ owner_count o d)
same_count x o d = elim (Bool-cases (x == o)) [
  | inl h ↦ inr (ap (λ y. owner_count y d) ((==_iff x o).0 h))
  | inr h ↦ inl (ground arith)
]

module _ (x : ℕ) (env : Env) where
  accept_row-Keeps : (id at : ℕ) → Keeps (HasOwner x) (modify (accept_row env id at))
  accept_row-Keeps id at = Keeps-modify _ (λ d h. h)

  keep_member-Keeps :
      (i : OrgInvitation) (m : Membership) → Keeps (HasOwner x) (keep_member env i m)
  unfolding keep_member
  keep_member-Keeps i m = search (keeping, accept_row-Keeps)

module _ (x : ℕ) (s : Session) (v : Always (HasOwner x) s) where
  change_role-Kept :
      (org : Organization) (a : Role) (user_id : ℕ) (r : Role)
      → Kept (HasOwner x) (change_role org a user_id r s)
  change_role-Kept org a user_id r =
      elim (Option-cases (find (is_membership user_id org.id) s.db.memberships)) [
        | inl e ↦ rw (change_role-none org a user_id s r e) v.1
        | inr (m, e) ↦ rw (change_role-some org a user_id s r m e) (
            ground (
              arith,
              in_org user_id org.id s.db.memberships m e,
              same_count x org.id s.db,
              count-update user_id org.id x r s.db.memberships m v.0.0 e,
              update-IsKeyed user_id org.id r s.db.memberships v.0.0,
            ))
      ]

  remove_member-Kept :
      (org : Organization) (a : Role) (user_id : ℕ)
      → Kept (HasOwner x) (remove_member org a user_id s)
  remove_member-Kept org a user_id =
      elim (Option-cases (find (is_membership user_id org.id) s.db.memberships)) [
        | inl e ↦ rw (remove_member-none org a user_id s e) v.1
        | inr (m, e) ↦ rw (remove_member-some org a user_id s m e) (
            ground (
              arith,
              in_org user_id org.id s.db.memberships m e,
              same_count x org.id s.db,
              count-delete user_id org.id x s.db.memberships m v.0.0 e,
              delete-IsKeyed user_id org.id s.db.memberships v.0.0,
            ))
      ]

  add_member-Kept :
      (env : Env) (user : User) (org : Organization) (i : OrgInvitation)
      → find (is_membership user.id org.id) s.db.memberships ≡ none
      → Kept (HasOwner x) (add_member env user org i s)
  unfolding add_member
  add_member-Kept env user org i n = (
    (
      add-IsKeyed (joining user org i s) s.db.memberships v.0.0 n,
      omega (
        arith,
        v.0.1,
        count_where-append (is_owner_of x) s.db.memberships (joining user org i s ∷ []),
      ),
    ),
    v.1,
  )

  admit-Kept :
      (env : Env) (user : User) (org : Organization) (i : OrgInvitation)
      → Kept (HasOwner x) (admit env user org i s)
  admit-Kept env user org i =
      elim (Option-cases (find (is_membership user.id org.id) s.db.memberships)) [
        | inl e ↦ rw (admit-none env user org i s e) (add_member-Kept env user org i e)
        | inr (m, e) ↦ rw (admit-some env user org i s m e) ((keep_member-Keeps x env i m).at s v)
      ]

module _ (x : ℕ) where
  -- Every operation on members keeps an owner in every organisation that has one.
  pub change_role-HasOwner :
      (org : Organization) (a : Role) (user_id : ℕ) (r : Role)
      → Keeps (HasOwner x) (change_role org a user_id r)
  change_role-HasOwner org a user_id r = record {
    at = λ s v. change_role-Kept x s v org a user_id r;
  }

  pub remove_member-HasOwner :
      (org : Organization) (a : Role) (user_id : ℕ)
      → Keeps (HasOwner x) (remove_member org a user_id)
  remove_member-HasOwner org a user_id = record {
    at = λ s v. remove_member-Kept x s v org a user_id;
  }

  admit-HasOwner :
      (env : Env) (user : User) (org : Organization) (i : OrgInvitation)
      → Keeps (HasOwner x) (admit env user org i)
  admit-HasOwner env user org i = record { at = λ s v. admit-Kept x s v env user org i }

  pub accept_invitation-HasOwner :
      (env : Env) (user : User) (raw : String) → Keeps (HasOwner x) (accept_invitation env user raw)
  unfolding accept_invitation
  accept_invitation-HasOwner env user raw = search (keeping, admit-HasOwner) depth 12

  pub create_invitation-HasOwner :
      (env : Env) (org : Organization) (address : String) (r : Role) (by : User) (a : Role)
      → Keeps (HasOwner x) (create_invitation env org address r by a)
  unfolding create_invitation
  create_invitation-HasOwner env org address r by a = search keeping depth 12

  pub revoke_invitation-HasOwner :
      (org : Organization) (id : ℕ) → Keeps (HasOwner x) (revoke_invitation org id)
  unfolding revoke_invitation
  revoke_invitation-HasOwner org id = search keeping depth 7
