-- ===== src/Members/Guard.antt =====
-- Who may touch owners: the guard `_guard_owner_changes` of services/members.py at work.
use incident_desk.Prelude.{
  ℕ, ◌≡◌, ◌≢◌, refl, false, some, List, [], ◌∷◌, arith, find, update_where, delete_where,
  select_where, Option-cases, inl, inr,
}
use incident_desk.Enums.{Role, owner, admin, responder, viewer, role_eq}
use incident_desk.Models.{Organization, Membership}
use incident_desk.Session.{Session, written}
use incident_desk.Members.{is_membership, is_owner_of, with_role, change_role, remove_member}
use incident_desk.Members.Rows.{IsKeyed, find-key, update-none, delete-none}
use incident_desk.Members.Outcomes.{
  change_role-some, change_role-none, remove_member-some, remove_member-none,
}

-- the rows of the owners of an organisation
abbrev pub owners : ℕ → List Membership → List Membership
owners x ms = select_where (is_owner_of x) ms

role_eq-owner : (r : Role) → r ≢ owner → role_eq r owner ≡ false
role_eq-owner owner n = absurd (n refl)
role_eq-owner admin n = refl
role_eq-owner responder n = refl
role_eq-owner viewer n = refl

module _ (user_id org_id x : ℕ) where
  owners-update :
      (r : Role) (ms : List Membership) (m : Membership)
      → IsKeyed ms
      → find (is_membership user_id org_id) ms ≡ some m
      → role_eq m.role owner ≡ false
      → role_eq r owner ≡ false
      → owners x (update_where (is_membership user_id org_id) (with_role r) ms) ≡ owners x ms
  owners-update r [] m k e a b = refl
  owners-update r (y ∷ ms) m k e a b =
      ground
        (arith, owners-update r ms m, find-key user_id org_id y ms, update-none user_id org_id r ms)

  owners-delete :
      (ms : List Membership) (m : Membership)
      → IsKeyed ms
      → find (is_membership user_id org_id) ms ≡ some m
      → role_eq m.role owner ≡ false
      → owners x (delete_where (is_membership user_id org_id) ms) ≡ owners x ms
  owners-delete [] m k e a = refl
  owners-delete (y ∷ ms) m k e a =
      ground
        (arith, owners-delete ms m, find-key user_id org_id y ms, delete-none user_id org_id ms)

module _ (org : Organization) (a : Role) (user_id x : ℕ) (s : Session)
    (k : IsKeyed s.db.memberships) (n : a ≢ owner) where
  -- Whoever is not an owner changes no role to or from owner: the rows of the owners of every
  -- organisation stay as they are, where memberships have distinct keys.
  pub change_role_by_others :
      (r : Role)
      → owners x (written (change_role org a user_id r) s).memberships ≡ owners x s.db.memberships
  change_role_by_others r =
      elim (Option-cases (find (is_membership user_id org.id) s.db.memberships)) [
        | inl e ↦ rw (change_role-none org a user_id s r e, written) refl
        | inr (m, e) ↦
            rw (change_role-some org a user_id s r m e, written)
              (ground
                (arith, owners-update user_id org.id x r s.db.memberships m k e, role_eq-owner a n))
      ]

  -- Whoever is not an owner removes no owner: the rows of the owners of every organisation stay as
  -- they are, where memberships have distinct keys.
  pub remove_member_by_others :
      owners x (written (remove_member org a user_id) s).memberships ≡ owners x s.db.memberships
  remove_member_by_others =
      elim (Option-cases (find (is_membership user_id org.id) s.db.memberships)) [
        | inl e ↦ rw (remove_member-none org a user_id s e, written) refl
        | inr (m, e) ↦
            rw (remove_member-some org a user_id s m e, written)
              (ground
                (arith, owners-delete user_id org.id x s.db.memberships m k e, role_eq-owner a n))
      ]
