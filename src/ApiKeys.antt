-- ===== src/ApiKeys.antt =====
-- API keys: backend/src/incident_desk/services/apikeys.py.
use incident_desk.Prelude.{
  ℕ, ◌==◌, leb, ltb, String, concat, Bool, ◌&&◌, ◌||◌, Option, none, some, List, [], ◌∷◌, ◌++◌,
  is_some, find, select_where, update_where, if◌then◌else◌,
}
use Prim.Native.Nat.{Ordering}
use Prim.Native.String.{compare, ◌∷◌}
use incident_desk.Errors.{not_found}
use incident_desk.Models.{Organization, ApiKey}
use incident_desk.Session.{
  Env, Action, pure, gets, or_raise, modify, now, new_uuid, new_secret, database_now, ◌>>=◌, ◌>>◌,
}
use incident_desk.Authz.{Permission, permission_value}
use incident_desk.Members.{hash_token}

-- `f"ik_{prefix}_{secret}"`
unfoldable pub format_token : String → String → String
unfolding concat
format_token prefix secret = "i" ∷ "k" ∷ "_" ∷ concat prefix ("_" ∷ secret)

-- `sorted({scope.value for scope in scopes})`
insert_scope : String → List String → List String
insert_scope x [] = x ∷ []
insert_scope x (y ∷ ys) =
    let rest = insert_scope x ys in
    elim (compare x y) [ Ordering.lt ↦ x ∷ y ∷ ys | Ordering.eq ↦ y ∷ ys | Ordering.gt ↦ y ∷ rest ]

pub scope_values : List Permission → List String
unfolding insert_scope
scope_values [] = []
scope_values (p ∷ ps) = insert_scope (permission_value p) (scope_values ps)

abbrev pub is_api_key : ℕ → ℕ → ApiKey → Bool
is_api_key org_id id k = k.org_id == org_id && k.id == id

abbrev pub has_key_id : ℕ → ApiKey → Bool
has_key_id id k = k.id == id

abbrev pub key_row : ℕ → ℕ → String → String → String → List String → Option ℕ → ℕ → ApiKey
key_row id org_id name hash prefix scopes expires_at created_at = record {
  id = id;
  org_id = org_id;
  name = name;
  key_hash = hash;
  prefix = prefix;
  scopes = scopes;
  last_used_at = none;
  expires_at = expires_at;
  revoked_at = none;
  created_at = created_at;
}

-- `ORDER BY created_at, id`
abbrev is_earlier : ApiKey → ApiKey → Bool
is_earlier a b = ltb a.created_at b.created_at || (a.created_at == b.created_at && leb a.id b.id)

insert_key : ApiKey → List ApiKey → List ApiKey
insert_key x [] = x ∷ []
insert_key x (y ∷ ys) =
    let rest = insert_key x ys in if is_earlier x y then x ∷ y ∷ ys else y ∷ rest

order_keys : List ApiKey → List ApiKey
unfolding insert_key
order_keys [] = []
order_keys (x ∷ xs) = insert_key x (order_keys xs)

unfoldable pub list_api_keys : Organization → Action (List ApiKey)
unfolding order_keys ◌>>=◌
list_api_keys org = gets (λ d. order_keys (select_where (λ k. k.org_id == org.id) d.api_keys))

module _ (env : Env) where
  -- the key, and its full token
  unfoldable pub create_api_key :
      Organization → String → List Permission → Option ℕ → Action (ApiKey × String)
  unfolding scope_values format_token ◌>>=◌
  create_api_key org name scopes expires_at = do
    prefix ← new_secret env
    secret ← new_secret env
    id ← new_uuid env
    at ← database_now
    let key : ApiKey =
        key_row id org.id name (hash_token env secret) prefix (scope_values scopes) expires_at at
    modify (λ d. record d { api_keys = d.api_keys ++ key ∷ [] })
    pure (key, format_token prefix secret)

  -- `if key.revoked_at is None: ...`
  unfoldable pub revoke_key : ApiKey → Action ApiKey
  unfolding ◌>>=◌
  revoke_key key = if is_some key.revoked_at then pure key else (do
    at ← now env
    let revoked : ApiKey = record key { revoked_at = some at }
    modify (λ d. record d {
      api_keys =
          update_where (has_key_id key.id) (λ k. record k { revoked_at = some at }) d.api_keys;
    })
    pure revoked)

  unfoldable pub revoke_api_key : Organization → ℕ → Action ApiKey
  unfolding revoke_key ◌>>=◌
  revoke_api_key org key_id = do
    found ← gets (λ d. find (is_api_key org.id key_id) d.api_keys)
    key ← or_raise found not_found
    revoke_key key
