-- ===== src/Sessions.antt =====
-- Login sessions and rotating refresh-token families:
-- backend/src/incident_desk/services/sessions.py. The settings are the two lifetimes.
pub mod Rotation
pub mod Families
use incident_desk.Prelude.{
  ℕ, suc, ◌+◌, ◌==◌, leb, String, str_eq, strip, Bool, true, false, not, ◌&&◌, ◌||◌, Option, none,
  some, List, [], ◌∷◌, ◌++◌, is_some, find, update_where, if◌then◌else◌,
}
use incident_desk.Errors.{invalid_credentials, email_unverified, invalid_refresh, refresh_reused}
use incident_desk.Models.{User, RefreshToken}
use incident_desk.Session.{
  Database, Session, Env, Action, ⊤, pure, raise, gets, or_raise, raise_if, modify, now, new_uuid,
  new_secret, ◌>>=◌, ◌>>◌,
}
use incident_desk.Members.{normalize_email, hash_token}

-- the part of `Settings` that sessions read
pub record Settings : Type 0 where
  pub refresh_token_ttl : ℕ
  pub access_token_ttl_seconds : ℕ

pub record SessionTokens : Type 0 where
  pub access_token : String
  pub refresh_token : String
  pub expires_in : ℕ

-- `session.get(models.User, id)`
abbrev pub is_user : ℕ → User → Bool
is_user id u = u.id == id

abbrev pub has_email : String → User → Bool
has_email email u = str_eq u.email email

-- The changes of a mapped user, written to its row.
unfoldable pub save_user : User → Action ⊤
unfolding ◌>>=◌
save_user user =
    modify (λ d. record d { users = update_where (is_user user.id) (λ _. user) d.users })

-- `WHERE family_id = ... AND revoked_at IS NULL`
abbrev pub is_live_of_family : ℕ → RefreshToken → Bool
is_live_of_family family t = t.family_id == family && not (is_some t.revoked_at)

abbrev pub is_live_of_user : ℕ → RefreshToken → Bool
is_live_of_user user t = t.user_id == user && not (is_some t.revoked_at)

abbrev pub revoke_at : ℕ → RefreshToken → RefreshToken
revoke_at at t = record t { revoked_at = some at }

abbrev pub consume_at : ℕ → RefreshToken → RefreshToken
consume_at at t = record t { consumed_at = some at }

abbrev pub has_hash : String → RefreshToken → Bool
has_hash h t = str_eq t.token_hash h

abbrev pub has_id : ℕ → RefreshToken → Bool
has_id id t = t.id == id

module _ (env : Env) where
  unfoldable pub authenticate : String → String → Action User
  unfolding ◌>>=◌
  authenticate email password = do
    found ← gets (λ d. find (has_email (normalize_email env email)) d.users)
    user ← or_raise found invalid_credentials
    raise_if (not (env.argon_verify user.password_hash password) || not user.is_active)
        invalid_credentials
    raise_if (not (is_some user.email_verified_at)) email_unverified
    pure user

  module _ (settings : Settings) where
    unfoldable pub mint : User → ℕ → Action SessionTokens
    unfolding ◌>>=◌
    mint user family_id = do
      raw ← new_secret env
      at ← now env
      id ← new_uuid env
      modify (λ d. record d {
        refresh_tokens =
            d.refresh_tokens
            ++ record {
              id = id;
              user_id = user.id;
              family_id = family_id;
              token_hash = hash_token env raw;
              expires_at = at + settings.refresh_token_ttl;
              consumed_at = none;
              revoked_at = none;
            }
              ∷ [];
      })
      issued ← now env
      pure (record {
        access_token = env.encode_access user.id user.token_version issued;
        refresh_token = raw;
        expires_in = settings.access_token_ttl_seconds;
      })

    unfoldable pub issue_session : User → Action SessionTokens
    unfolding mint save_user ◌>>=◌
    issue_session user = do
      family_id ← new_uuid env
      tokens ← mint user family_id
      at ← now env
      save_user (record user { last_login_at = some at })
      pure tokens

  unfoldable pub revoke_family : ℕ → Action ⊤
  unfolding ◌>>=◌
  revoke_family family_id = do
    at ← now env
    modify (λ d. record d {
      refresh_tokens = update_where (is_live_of_family family_id) (revoke_at at) d.refresh_tokens;
    })

  -- the branch that takes a consumed token for a theft
  unfoldable pub refuse_reuse : RefreshToken → Action ⊤
  unfolding revoke_family ◌>>=◌
  refuse_reuse token =
      if is_some token.consumed_at
      then (do revoke_family token.family_id; raise refresh_reused)
      else pure tt

  module _ (settings : Settings) where
    -- the end of `rotate_refresh`: the token is consumed, and the next of its family issued
    unfoldable pub consume_and_mint : RefreshToken → User → Action SessionTokens
    unfolding mint ◌>>=◌
    consume_and_mint token user = do
      at ← now env
      modify (λ d. record d {
        refresh_tokens = update_where (has_id token.id) (consume_at at) d.refresh_tokens;
      })
      mint settings user token.family_id

    -- `rotate_refresh` for a token that is neither revoked nor consumed
    unfoldable pub reissue : RefreshToken → Action SessionTokens
    unfolding consume_and_mint ◌>>=◌
    reissue token = do
      at ← now env
      raise_if (leb token.expires_at at) invalid_refresh
      owner ← gets (λ d. find (is_user token.user_id) d.users)
      user ← or_raise owner invalid_refresh
      raise_if (not user.is_active) invalid_refresh
      consume_and_mint token user

    unfoldable pub rotate_refresh : String → Action SessionTokens
    unfolding refuse_reuse reissue ◌>>=◌
    rotate_refresh raw_refresh = do
      found ← gets (λ d. find (has_hash (hash_token env raw_refresh)) d.refresh_tokens)
      token ← or_raise found invalid_refresh
      raise_if (is_some token.revoked_at) invalid_refresh
      refuse_reuse token
      reissue token

  -- `if token is not None: ...`
  unfoldable pub revoke_found : Option RefreshToken → Action ⊤
  unfolding revoke_family ◌>>=◌
  revoke_found none = pure tt
  revoke_found (some token) = revoke_family token.family_id

  unfoldable pub revoke_session : String → Action ⊤
  unfolding revoke_found ◌>>=◌
  revoke_session raw_refresh = do
    found ← gets (λ d. find (has_hash (hash_token env raw_refresh)) d.refresh_tokens)
    revoke_found found

  unfoldable pub revoke_all_sessions : User → Action User
  unfolding save_user ◌>>=◌
  revoke_all_sessions user = do
    at ← now env
    modify (λ d. record d {
      refresh_tokens = update_where (is_live_of_user user.id) (revoke_at at) d.refresh_tokens;
    })
    let bumped : User = record user { token_version = user.token_version + 1 }
    save_user bumped
    pure bumped
