-- ===== src/Examples/Credentials.antt =====
-- Instances of the theorems on access tokens and API keys.
use incident_desk.Prelude.{◌≡◌, refl, none, some, [], ◌∷◌, true}
use incident_desk.Errors.{unauthorized}
use incident_desk.Models.{ApiKey}
use incident_desk.Session.{Session, Env, ok, err, reply}
use incident_desk.Authz.{incident_view, api_key}
use incident_desk.Sessions.{revoke_all_sessions}
use incident_desk.ApiKeys.{key_row, create_api_key, revoke_api_key}
use incident_desk.Principals.{is_key_token, get_principal, resolve_user, cut, key_parts}
use incident_desk.Principals.Versions.{IsStable, revoked_token_refused}
use incident_desk.Principals.Keys.{Opens, get_principal-create_api_key, revoked_key_refused}
use incident_desk.Samples.{acme, ann, sample, sample_db, sample_env, session_on}

abbrev minted_key : ApiKey
minted_key = key_row 502 1 "ci" "secret" "secret" ("incident:view" ∷ []) none 1_000

abbrev minted : Session
minted = (create_api_key sample_env acme "ci" (incident_view ∷ []) none sample).1

minted_reply :
    reply (create_api_key sample_env acme "ci" (incident_view ∷ []) none) sample
    ≡ ok (minted_key, "ik_secret_secret")
unfolding create_api_key
minted_reply = refl

get_principal-create_api_key_example :
    reply (get_principal sample_env (some "ik_secret_secret")) (record minted { draws = 9 })
    ≡ ok (api_key (record minted_key { last_used_at = some 1_009 }))
get_principal-create_api_key_example =
    get_principal-create_api_key sample_env acme "ci" (incident_view ∷ []) none sample
      (record minted { draws = 9 }) refl refl refl refl refl minted_key "ik_secret_secret"
      minted_reply refl

abbrev keyed : Session
keyed = session_on (record sample_db { api_keys = minted_key ∷ [] })

keyed-Opens : Opens sample_env "ik_secret_secret" minted_key (minted_key ∷ [])
unfolding key_parts cut
keyed-Opens = ("secret", "secret", refl, refl)

key_token : is_key_token "ik_secret_secret" ≡ true
unfolding is_key_token
key_token = refl

revoked_key_refused_example :
    reply
      (get_principal sample_env (some "ik_secret_secret"))
      (revoke_api_key sample_env acme 502 keyed).1
    ≡ err unauthorized
revoked_key_refused_example =
    revoked_key_refused sample_env acme 502 "ik_secret_secret" keyed
      (revoke_api_key sample_env acme 502 keyed).1 minted_key key_token refl keyed-Opens refl

-- every text is an access token of the user 7, of version 0
abbrev ann_env : Env
ann_env = record sample_env {
  decode_access = λ at token. some (record { user_id = 7; token_version = 0 });
}

ann_env-IsStable : IsStable ann_env "token"
ann_env-IsStable at at' c c' p q = cc

ann_opens : reply (resolve_user ann_env "token") sample ≡ ok ann
unfolding resolve_user
ann_opens = refl

revoked_token_refused_example :
    reply (resolve_user ann_env "token") (revoke_all_sessions ann_env ann sample).1
    ≡ err unauthorized
revoked_token_refused_example =
    revoked_token_refused ann_env "token" sample sample (revoke_all_sessions ann_env ann sample).1
      ann ann_env-IsStable ann_opens refl refl
