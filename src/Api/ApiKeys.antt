-- ===== src/Api/ApiKeys.antt =====
-- The handlers of backend/src/incident_desk/api/v1/apikeys.py.
use incident_desk.Prelude.{ℕ, String, Option, some, List, [], ◌∷◌}
use incident_desk.Models.{ApiKey, null, text, texts, dict}
use incident_desk.Session.{Env, Action, ⊤, pure, commit, ◌>>=◌, ◌>>◌}
use incident_desk.Authz.{Permission, apikey_manage, Principal, actor_id, require}
use incident_desk.Audit.{AuditInfo, record_audit}
use incident_desk.ApiKeys.{list_api_keys, create_api_key, revoke_api_key}

unfoldable pub list_api_keys_request : String → Principal → Action (List ApiKey)
unfolding list_api_keys require ◌>>=◌
list_api_keys_request org_slug principal = do
  ctx ← require (apikey_manage ∷ []) org_slug principal
  list_api_keys ctx.org

module _ (env : Env) (info : AuditInfo) where
  -- the key, and its full token
  unfoldable pub create_api_key_request :
      String → Principal → String → List Permission → Option ℕ → Action (ApiKey × String)
  unfolding create_api_key record_audit require ◌>>=◌
  create_api_key_request org_slug principal name scopes expires_at = do
    ctx ← require (apikey_manage ∷ []) org_slug principal
    made ← create_api_key env ctx.org name scopes expires_at
    record_audit env ctx.org.id (actor_id ctx) "apikey.created" "api_key" (some made.0.id) null
        (dict (("name", text made.0.name) ∷ ("scopes", texts made.0.scopes) ∷ [])) info
    commit env
    pure made

  unfoldable pub revoke_api_key_request : String → Principal → ℕ → Action ⊤
  unfolding revoke_api_key record_audit require ◌>>=◌
  revoke_api_key_request org_slug principal key_id = do
    ctx ← require (apikey_manage ∷ []) org_slug principal
    key ← revoke_api_key env ctx.org key_id
    record_audit env ctx.org.id (actor_id ctx) "apikey.revoked" "api_key" (some key_id) null null
        info
    commit env
