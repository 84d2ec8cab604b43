-- ===== src/System/Tenancy.antt =====
-- What services/members.py, services/orgs.py, services/catalog.py, services/oncall.py and
-- services/apikeys.py keep of the invariant of the program.
use incident_desk.Prelude.{
  ℕ, ◌≡◌, ◌∙◌, sym, ap, arith, find, count_where-append, Option, none, some, String, List, [], ◌∷◌,
  ◌++◌,
}
use incident_desk.Models.{
  IncidentEvent, Json, User, Organization, OrganizationCounter, Membership, ApiKey, dict,
}
use incident_desk.Enums.{Role, owner, ServiceTier}
use incident_desk.Session.{Database, Session, Env, ok, reply, written}
use incident_desk.Session.Keeping.{Keeps, keeping, Keeps-and}
use incident_desk.Session.Pending.{Pending, pending, Pending-Keeps}
use mathlib.Core.Path.{subst}
use incident_desk.Authz.{Permission}
use incident_desk.Members.{
  change_role, remove_member, create_invitation, accept_invitation, revoke_invitation, admit, join,
  add_member, keep_member, is_membership, is_owner_of,
}
use incident_desk.Members.Owners.{
  change_role-HasOwner, remove_member-HasOwner, accept_invitation-HasOwner,
}
use incident_desk.Members.Rows.{add-IsKeyed}
use incident_desk.Incidents.Numbers.{IsGapless, issued, one_to}
use incident_desk.OnCall.{create_schedule, add_shift, delete_shift, get_schedule}
use incident_desk.OnCall.Disjoint.{
  HasDisjointShifts, add_shift-IsDisjoint, delete-IsDisjoint, delete_shift-Keeps,
}
use incident_desk.Orgs.{
  create_organization, create_service, update_service, delete_service, get_service,
}
use incident_desk.ApiKeys.{create_api_key, revoke_api_key, revoke_key}
use incident_desk.System.Sound.{Trail, IsSound, HasLogs}

module _ (x : ℕ) (es : Trail) (vs : List IncidentEvent) where
  -- the invariant without the owner
  abbrev Rest : Database → Type 0
  Rest d = IsGapless x d × (HasDisjointShifts d × HasLogs es vs d)

  pub change_role-IsSound :
      (org : Organization) (a : Role) (u : ℕ) (r : Role)
      → Keeps (IsSound x es vs) (change_role org a u r)
  unfolding change_role
  change_role-IsSound org a u r =
      Keeps-and _ (change_role-HasOwner x org a u r) (search keeping depth 12)

  pub remove_member-IsSound :
      (org : Organization) (a : Role) (u : ℕ) → Keeps (IsSound x es vs) (remove_member org a u)
  unfolding remove_member
  remove_member-IsSound org a u =
      Keeps-and _ (remove_member-HasOwner x org a u) (search keeping depth 12)

  pub create_invitation-IsSound :
      (env : Env) (org : Organization) (address : String) (r : Role) (by : User) (a : Role)
      → Keeps (IsSound x es vs) (create_invitation env org address r by a)
  unfolding create_invitation
  create_invitation-IsSound env org address r by a = search keeping depth 12

  pub revoke_invitation-IsSound :
      (org : Organization) (id : ℕ) → Keeps (IsSound x es vs) (revoke_invitation org id)
  unfolding revoke_invitation
  revoke_invitation-IsSound org id = search keeping depth 7

  join-Rest :
      (env : Env) (user : User) (org : Organization) (i : _) (o : Option Membership)
      → Keeps Rest (join env user org i o)
  unfolding join add_member keep_member
  join-Rest env user org i none = record { at = λ s h. h }
  join-Rest env user org i (some m) = record { at = λ s h. h }

  admit-Rest :
      (env : Env) (user : User) (org : Organization) (i : _) → Keeps Rest (admit env user org i)
  unfolding admit
  admit-Rest env user org i = search (keeping, join-Rest)

  pub accept_invitation-IsSound :
      (env : Env) (user : User) (raw : String)
      → Keeps (IsSound x es vs) (accept_invitation env user raw)
  unfolding accept_invitation
  accept_invitation-IsSound env user raw =
      Keeps-and _ (accept_invitation-HasOwner x env user raw)
        (search (keeping, admit-Rest) depth 12)

  pub create_service-IsSound :
      (env : Env) (org : Organization) (name description team : String) (tier : ServiceTier)
      → Keeps (IsSound x es vs) (create_service env org name description team tier)
  unfolding create_service
  create_service-IsSound env org name description team tier = search keeping depth 9

  pub update_service-IsSound :
      (org : Organization) (id : ℕ) (name description team : Option String)
      (tier : Option ServiceTier)
      → Keeps (IsSound x es vs) (update_service org id name description team tier)
  unfolding update_service get_service
  update_service-IsSound org id name description team tier = search keeping depth 9

  pub delete_service-IsSound :
      (org : Organization) (id : ℕ) → Keeps (IsSound x es vs) (delete_service org id)
  unfolding delete_service get_service
  delete_service-IsSound org id = Keeps-and _ (search keeping depth 12) (
      Keeps-and _ (search keeping depth 12)
        (Keeps-and _ (search (keeping, delete-IsDisjoint) depth 9) (search keeping depth 12)))

  pub create_schedule-IsSound :
      (env : Env) (org : Organization) (service_id : ℕ) (name : String) (rotation : Json)
      → Keeps (IsSound x es vs) (create_schedule env org service_id name rotation)
  unfolding create_schedule
  create_schedule-IsSound env org service_id name rotation = search keeping depth 9

  pub add_shift-IsSound :
      (env : Env) (org : Organization) (c u a b : ℕ)
      → Keeps (IsSound x es vs) (add_shift env org c u a b)
  unfolding add_shift get_schedule
  add_shift-IsSound env org c u a b = Keeps-and _ (search keeping depth 12) (
      Keeps-and _ (search keeping depth 12) (
        Keeps-and (add_shift env org c u a b)
          (record { at = λ s. add_shift-IsDisjoint env org c u a b s }) (search keeping depth 12)))

  pub delete_shift-IsSound :
      (org : Organization) (c id : ℕ) → Keeps (IsSound x es vs) (delete_shift org c id)
  unfolding delete_shift get_schedule
  delete_shift-IsSound org c id = Keeps-and _ (search keeping depth 12) (
      Keeps-and _ (search keeping depth 12)
        (Keeps-and _ (delete_shift-Keeps org c id) (search keeping depth 12)))

  pub create_api_key-IsSound :
      (env : Env) (org : Organization) (name : String) (ps : List Permission) (e : Option ℕ)
      → Keeps (IsSound x es vs) (create_api_key env org name ps e)
  unfolding create_api_key
  create_api_key-IsSound env org name ps e = search keeping depth 9

  revoke_key-IsSound : (env : Env) (k : ApiKey) → Keeps (IsSound x es vs) (revoke_key env k)
  unfolding revoke_key
  revoke_key-IsSound env k = search keeping depth 9

  pub revoke_api_key-IsSound :
      (env : Env) (org : Organization) (id : ℕ)
      → Keeps (IsSound x es vs) (revoke_api_key env org id)
  unfolding revoke_api_key
  revoke_api_key-IsSound env org id = search (keeping, revoke_key-IsSound)

-- a new counter at the end, which stands at nothing
issued-new :
    (x o : ℕ) (cs : List OrganizationCounter)
    → issued x (cs ++ record { org_id = o; incident_seq = 0 } ∷ []) ≡ issued x cs
issued-new x o [] = ground arith
issued-new x o (c ∷ cs) = ground (arith, issued-new x o cs)

module _ (x : ℕ) (es : Trail) (vs : List IncidentEvent) (env : Env) (name slug : String)
    (creator : User) (s : Session) where
  -- the first row of an organisation: its owner
  abbrev founding : ℕ → Membership
  founding id = record {
    user_id = creator.id;
    org_id = id;
    role = owner;
    joined_at = s.transaction_time;
  }

  abbrev founded : ℕ → Organization
  founded id = record { id = id; name = name; slug = slug; plan = "free"; settings = dict [] }

  abbrev opened_org : ℕ → Database → Database
  opened_org id d = record d {
    organizations = d.organizations ++ founded id ∷ [];
    memberships = d.memberships ++ founding id ∷ [];
    counters = d.counters ++ record { org_id = id; incident_seq = 0 } ∷ [];
  }

  opened_org-IsSound :
      (id : ℕ)
      → IsSound x es vs s.db
      → find (is_membership creator.id id) s.db.memberships ≡ none
      → IsSound x es vs (opened_org id s.db)
  opened_org-IsSound id ((k, o), ((ki, g), r)) n = (
    (
      add-IsKeyed (founding id) s.db.memberships k n,
      omega (arith, o, count_where-append (is_owner_of x) s.db.memberships (founding id ∷ [])),
    ),
    ((ki, g ∙ ap one_to (sym (issued-new x id s.db.counters))), r),
  )

  create_organization-ok :
      (o : Organization)
      → reply (create_organization env name slug creator) s ≡ ok o
      → (find (is_membership creator.id (env.uuid s.draws)) s.db.memberships ≡ none)
        × (written (create_organization env name slug creator) s
            ≡ opened_org (env.uuid s.draws) s.db)
  unfolding create_organization
  create_organization-ok o h = ground arith

module _ (x : ℕ) (es : Trail) (vs : List IncidentEvent) (env : Env) (name slug : String)
    (creator : User) where
  create_organization-Pending : Pending (create_organization env name slug creator)
  unfolding create_organization
  create_organization-Pending = search pending depth 14

  pub create_organization-IsSound :
      Keeps (IsSound x es vs) (create_organization env name slug creator)
  create_organization-IsSound =
      Pending-Keeps (IsSound x es vs) (create_organization env name slug creator)
        create_organization-Pending
        (λ s o v h.
          let (n, w) = create_organization-ok x es vs env name slug creator s o h in
          subst (IsSound x es vs) (sym w)
            (opened_org-IsSound x es vs env name slug creator s (env.uuid s.draws) v n))
