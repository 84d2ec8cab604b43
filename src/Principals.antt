-- ===== src/Principals.antt =====
-- Who sends a request: the dependencies of backend/src/incident_desk/api/deps.py.
pub mod Versions
pub mod Keys
use incident_desk.Prelude.{
  ℕ, ◌==◌, leb, String, str_eq, is_empty, Bool, true, false, not, ◌&&◌, ◌||◌, Option, none, some,
  List, [], ◌∷◌, is_some, find, update_where, if◌then◌else◌,
}
use Prim.Native.Char.{code}
use Prim.Native.String.{[], ◌∷◌}
use incident_desk.Errors.{unauthorized}
use incident_desk.Models.{User, ApiKey}
use incident_desk.Session.{
  Database, Env, Action, ⊤, pure, raise, gets, or_raise, raise_if, modify, now, commit, ◌>>=◌, ◌>>◌,
}
use incident_desk.Members.{hash_token}
use incident_desk.Sessions.{is_user}
use incident_desk.Authz.{Principal, user_session, api_key}
use incident_desk.ApiKeys.{has_key_id}

-- `token.startswith("ik_")`
unfoldable pub is_key_token : String → Bool
is_key_token (a ∷ b ∷ c ∷ s) = code a == 105 && code b == 107 && code c == 95
is_key_token _ = false

-- the text before the first `_`, and the text after it
unfoldable pub cut : String → Option (String × String)
cut [] = none
cut (c ∷ s) =
    let later = cut s in
    if code c == 95
    then some ([], s)
    else elim later [ none ↦ none | some parts ↦ some (c ∷ parts.0, parts.1) ]

abbrev pub non_empty : String × String → Option (String × String)
non_empty parts = if is_empty parts.0 || is_empty parts.1 then none else some parts

abbrev pub last_parts : Option (String × String) → Option (String × String)
last_parts none = none
last_parts (some parts) = non_empty parts

abbrev pub parts_after : Option (String × String) → Option (String × String)
parts_after none = none
parts_after (some outer) = last_parts (cut outer.1)

-- `token.split("_", 2)`: the second part and the third, if there are three and neither is empty
unfoldable pub key_parts : String → Option (String × String)
key_parts token = parts_after (cut token)

-- the candidate at which the loop ends
abbrev pub is_candidate : String → String → ApiKey → Bool
is_candidate prefix hash k = str_eq k.prefix prefix && str_eq k.key_hash hash

-- `key.expires_at is not None and key.expires_at <= now`
abbrev pub has_expired : ℕ → ApiKey → Bool
has_expired at k = elim k.expires_at [ none ↦ false | some end ↦ leb end at ]

module _ (env : Env) where
  unfoldable pub resolve_user : String → Action User
  unfolding ◌>>=◌
  resolve_user token = do
    at ← now env
    claims ← or_raise (env.decode_access at token) unauthorized
    found ← gets (λ d. find (is_user claims.user_id) d.users)
    user ← or_raise found unauthorized
    raise_if (not user.is_active) unauthorized
    raise_if (not (user.token_version == claims.token_version)) unauthorized
    pure user

  unfoldable pub resolve_parts : String × String → Action Principal
  unfolding ◌>>=◌
  resolve_parts parts = do
    at ← now env
    found ← gets (λ d. find (is_candidate parts.0 (hash_token env parts.1)) d.api_keys)
    key ← or_raise found unauthorized
    raise_if (is_some key.revoked_at) unauthorized
    raise_if (has_expired at key) unauthorized
    let used : ApiKey = record key { last_used_at = some at }
    modify (λ d. record d {
      api_keys =
          update_where (has_key_id key.id) (λ k. record k { last_used_at = some at }) d.api_keys;
    })
    commit env
    pure (api_key used)

  unfoldable pub resolve_api_key : String → Action Principal
  unfolding key_parts resolve_parts ◌>>=◌
  resolve_api_key token = do parts ← or_raise (key_parts token) unauthorized; resolve_parts parts

  -- no header, or the credentials of a bearer
  unfoldable pub get_current_user : Option String → Action User
  unfolding is_key_token resolve_user ◌>>=◌
  get_current_user none = raise unauthorized
  get_current_user (some token) =
      if is_key_token token then raise unauthorized else resolve_user token

  unfoldable pub resolve_session : String → Action Principal
  unfolding resolve_user ◌>>=◌
  resolve_session token = do user ← resolve_user token; pure (user_session user)

  unfoldable pub get_principal : Option String → Action Principal
  unfolding is_key_token resolve_api_key resolve_session ◌>>=◌
  get_principal none = raise unauthorized
  get_principal (some token) =
      if is_key_token token then resolve_api_key token else resolve_session token
