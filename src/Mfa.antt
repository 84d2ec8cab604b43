-- ===== src/Mfa.antt =====
-- TOTP MFA: backend/src/incident_desk/services/mfa.py and security/totp.py.
pub mod Replay
use incident_desk.Prelude.{
  ℕ, zero, suc, ◌+◌, ◌-◌, ◌/◌, ◌==◌, leb, ltb, all_chars, String, str_eq, strip, truncate, skip,
  concat, Bool, true, false, not, ◌&&◌, ◌||◌, Option, none, some, List, [], ◌∷◌, ◌++◌, is_some,
  find, update_where, if◌then◌else◌,
}
use incident_desk.Errors.{
  type_error, unauthorized, mfa_already_enabled, mfa_not_enrolled, invalid_mfa_code,
}
use incident_desk.Models.{User, MfaRecoveryCode}
use incident_desk.Session.{
  Database, Session, Env, AccessClaims, Action, ⊤, pure, raise, gets, or_raise, raise_if, modify,
  now, new_uuid, new_secret, ◌>>=◌, ◌>>◌,
}
use incident_desk.Members.{hash_token}
use incident_desk.Sessions.{Settings, SessionTokens, is_user, save_user, issue_session}

abbrev pub recovery_code_count : ℕ
recovery_code_count = 10

-- `STEP_SECONDS`, in microseconds
abbrev pub step : ℕ
step = 30_000_000

abbrev pub is_after_counter : Option ℕ → ℕ → Bool
is_after_counter none counter = true
is_after_counter (some last) counter = not (leb counter last)

-- `str.isascii`
abbrev pub is_ascii : String → Bool
is_ascii s = all_chars (λ c. ltb c 128) s

module _ (env : Env) where
  -- one round of the loop over the offsets
  abbrev pub try_counter : String → String → ℕ → Option ℕ → Option ℕ
  try_counter secret code counter matched =
      if str_eq (env.totp_code secret counter) (strip code) then some counter else matched

  -- the loop over the offsets -1, 0 and 1: of two counters that match, the later one is kept
  abbrev pub matching : String → String → ℕ → Option ℕ
  matching secret code at =
      let counter = at / step in
      try_counter secret code (counter + 1)
        (try_counter secret code counter (try_counter secret code (counter - 1) none))

  -- `hmac.compare_digest` raises a `TypeError` at a text that is not ASCII.
  unfoldable pub match_code : String → String → ℕ → Action (Option ℕ)
  unfolding strip ◌>>=◌
  match_code secret code at = do
    raise_if (not (is_ascii (strip code))) type_error
    pure (matching secret code at)

  unfoldable pub start_enrollment : User → Action String
  unfolding save_user ◌>>=◌
  start_enrollment user = do
    raise_if (is_some user.mfa_enabled_at) mfa_already_enabled
    secret ← new_secret env
    save_user (record user { mfa_secret = some secret })
    pure secret

  -- `raw[:4]`, a dash and `raw[4:]`
  unfoldable pub generate_recovery_code : Action String
  unfolding ◌>>=◌
  generate_recovery_code = do
    raw ← new_secret env
    pure (concat (truncate 4 raw) (concat "-" (skip 4 raw)))

  unfoldable pub generate_codes : ℕ → Action (List String)
  unfolding generate_recovery_code ◌>>=◌
  generate_codes zero = pure []
  generate_codes (suc n) = do
    code ← generate_recovery_code
    rest ← generate_codes n
    pure (code ∷ rest)

  -- `session.add_all(...)`, a row for each code
  unfoldable pub add_codes : ℕ → List String → Action ⊤
  unfolding ◌>>=◌
  add_codes user_id [] = pure tt
  add_codes user_id (code ∷ rest) = do
    id ← new_uuid env
    modify (λ d. record d {
      recovery_codes =
          d.recovery_codes
          ++ record { id = id; user_id = user_id; code_hash = hash_token env code; used_at = none }
            ∷ [];
    })
    add_codes user_id rest

  unfoldable pub confirm_enrollment : User → String → Action (List String)
  unfolding match_code save_user generate_codes add_codes ◌>>=◌
  confirm_enrollment user code = do
    raise_if (is_some user.mfa_enabled_at) mfa_already_enabled
    secret ← or_raise user.mfa_secret mfa_not_enrolled
    at ← now env
    matched ← match_code secret code at
    counter ← or_raise matched invalid_mfa_code
    enabled ← now env
    save_user (record user { mfa_enabled_at = some enabled; mfa_last_counter = some counter })
    codes ← generate_codes recovery_code_count
    add_codes user.id codes
    pure codes

  -- a match that is no replay is recorded
  unfoldable pub accept_counter : User → Option ℕ → Action Bool
  unfolding save_user ◌>>=◌
  accept_counter user none = pure false
  accept_counter user (some counter) =
      if is_after_counter user.mfa_last_counter counter
      then (do save_user (record user { mfa_last_counter = some counter }); pure true)
      else pure false

  unfoldable pub match_secret : Option String → User → String → Action Bool
  unfolding match_code accept_counter ◌>>=◌
  match_secret none user code = pure false
  match_secret (some secret) user code = do
    at ← now env
    matched ← match_code secret code at
    accept_counter user matched

  unfoldable pub try_totp : User → String → Action Bool
  unfolding match_secret ◌>>=◌
  try_totp user code = match_secret user.mfa_secret user code

  -- `user_id`, `code_hash` and `used_at IS NULL`
  abbrev pub is_unused_code : ℕ → String → MfaRecoveryCode → Bool
  is_unused_code user_id code r =
      r.user_id == user_id
      && str_eq r.code_hash (hash_token env (env.lower (strip code)))
      && not (is_some r.used_at)

  unfoldable pub use_code : Option MfaRecoveryCode → Action Bool
  unfolding ◌>>=◌
  use_code none = pure false
  use_code (some row) = do
    at ← now env
    modify (λ d. record d {
      recovery_codes =
          update_where (λ r. r.id == row.id) (λ r. record r { used_at = some at }) d.recovery_codes;
    })
    pure true

  unfoldable pub try_recovery_code : User → String → Action Bool
  unfolding use_code ◌>>=◌
  try_recovery_code user code = do
    found ← gets (λ d. find (is_unused_code user.id code) d.recovery_codes)
    use_code found

  -- `not await _try_totp(...) and not await _try_recovery_code(...)`
  unfoldable pub passes : User → String → Action Bool
  unfolding try_totp try_recovery_code ◌>>=◌
  passes user code = do
    by_totp ← try_totp user code
    if by_totp then pure true else try_recovery_code user code

  -- The user is read again from the session, with the counter that `try_totp` wrote.
  unfoldable pub complete_challenge : Settings → String → String → Action SessionTokens
  unfolding passes issue_session ◌>>=◌
  complete_challenge settings mfa_token code = do
    at ← now env
    claims ← or_raise (env.decode_mfa at mfa_token) unauthorized
    found ← gets (λ d. find (is_user claims.user_id) d.users)
    user ← or_raise found invalid_mfa_code
    raise_if
        (not user.is_active
          || not (user.token_version == claims.token_version)
          || not (is_some user.mfa_enabled_at))
        invalid_mfa_code
    passed ← passes user code
    raise_if (not passed) invalid_mfa_code
    changed ← gets (λ d. find (is_user user.id) d.users)
    current ← or_raise changed invalid_mfa_code
    issue_session env settings current
