-- ===== src/Api/Orgs.antt =====
-- The handlers of api/v1/orgs.py and api/v1/services.py under backend/src/incident_desk that read or
-- change one row.
use incident_desk.Prelude.{ℕ, ◌==◌, String, Option, none, some, [], ◌∷◌, update_where}
use incident_desk.Enums.{Role, ServiceTier, tier1, tier2, tier3}
use incident_desk.Models.{Organization, Service, User, Json, null, text, dict}
use incident_desk.Session.{Env, Action, ⊤, pure, modify, commit, ◌>>=◌, ◌>>◌}
use incident_desk.Authz.{
  org_view, org_manage, service_view, service_manage, Principal, context_role, actor_id, require,
}
use incident_desk.Audit.{AuditInfo, record_audit}
use incident_desk.Orgs.{
  create_organization, get_service, create_service, update_service, delete_service,
}

-- `OrgUpdate`
pub record OrgUpdate : Type 0 where
  pub name : Option String
  pub settings : Option Json

-- `ServiceUpdate`, and its dump without the unset fields
pub record ServiceUpdate : Type 0 where
  pub name : Option String
  pub description : Option String
  pub owner_team : Option String
  pub tier : Option ServiceTier
  pub dumped : Json

abbrev tier_value : ServiceTier → String
tier_value tier1 = "tier1"
tier_value tier2 = "tier2"
tier_value tier3 = "tier3"

abbrev given {ℓ} : {A : Type ℓ} → Option A → A → A
given none old = old
given (some new) old = new

abbrev org_json : Organization → Json
org_json org = dict (("name", text org.name) ∷ ("settings", org.settings) ∷ [])

abbrev updated_org : OrgUpdate → Organization → Organization
updated_org payload org = record org {
  name = given payload.name org.name;
  settings = given payload.settings org.settings;
}

unfoldable pub get_org_request : String → Principal → Action (Organization × Role)
unfolding require ◌>>=◌
get_org_request org_slug principal = do
  ctx ← require (org_view ∷ []) org_slug principal
  pure (ctx.org, context_role ctx)

unfoldable pub get_service_request : String → Principal → ℕ → Action Service
unfolding get_service require ◌>>=◌
get_service_request org_slug principal service_id = do
  ctx ← require (service_view ∷ []) org_slug principal
  get_service ctx.org service_id

module _ (env : Env) where
  unfoldable pub create_org_request : String → String → User → Action Organization
  unfolding create_organization ◌>>=◌
  create_org_request name slug user = do
    org ← create_organization env name slug user
    commit env
    pure org

  module _ (info : AuditInfo) where
    unfoldable pub update_org_request : String → Principal → OrgUpdate → Action Organization
    unfolding record_audit require ◌>>=◌
    update_org_request org_slug principal payload = do
      ctx ← require (org_manage ∷ []) org_slug principal
      let org = updated_org payload ctx.org
      modify (λ d. record d {
        organizations = update_where (λ o. o.id == org.id) (λ _. org) d.organizations;
      })
      record_audit env org.id (actor_id ctx) "org.updated" "organization" (some org.id)
          (org_json ctx.org) (org_json org) info
      commit env
      pure org

    unfoldable pub create_service_request :
        String → Principal → String → String → String → ServiceTier → Action Service
    unfolding create_service record_audit require ◌>>=◌
    create_service_request org_slug principal name description owner_team tier = do
      ctx ← require (service_manage ∷ []) org_slug principal
      service ← create_service env ctx.org name description owner_team tier
      record_audit env ctx.org.id (actor_id ctx) "service.created" "service" (some service.id) null
          (dict (("name", text service.name) ∷ ("tier", text (tier_value service.tier)) ∷ [])) info
      commit env
      pure service

    unfoldable pub update_service_request : String → Principal → ℕ → ServiceUpdate → Action Service
    unfolding update_service record_audit require ◌>>=◌
    update_service_request org_slug principal service_id payload = do
      ctx ← require (service_manage ∷ []) org_slug principal
      service ←
          update_service ctx.org service_id payload.name payload.description payload.owner_team
            payload.tier
      record_audit env ctx.org.id (actor_id ctx) "service.updated" "service" (some service.id) null
          payload.dumped info
      commit env
      pure service

    unfoldable pub delete_service_request : String → Principal → ℕ → Action ⊤
    unfolding delete_service record_audit require ◌>>=◌
    delete_service_request org_slug principal service_id = do
      ctx ← require (service_manage ∷ []) org_slug principal
      delete_service ctx.org service_id
      record_audit env ctx.org.id (actor_id ctx) "service.deleted" "service" (some service_id) null
          null info
      commit env
