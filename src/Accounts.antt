-- ===== src/Accounts.antt =====
-- Registration, email verification and password reset:
-- backend/src/incident_desk/services/auth_service.py.
pub mod Reset
use incident_desk.Prelude.{
  ℕ, suc, ◌+◌, ◌==◌, leb, String, str_eq, strip, Bool, true, false, not, ◌&&◌, ◌||◌, Option, none,
  some, List, [], ◌∷◌, ◌++◌, is_some, find, update_where, if◌then◌else◌,
}
use incident_desk.Errors.{email_taken, invalid_token}
use incident_desk.Models.{User, MailToken}
use incident_desk.Session.{
  Database, Session, Env, Action, ⊤, pure, gets, or_raise, raise_if, modify, now, new_uuid,
  new_secret, hash_password, ◌>>=◌, ◌>>◌,
}
use incident_desk.Members.{normalize_email, hash_token}
use incident_desk.Sessions.{is_user, has_email, save_user, revoke_all_sessions}

-- 24 hours, and 30 minutes
abbrev pub verification_ttl : ℕ
verification_ttl = 86_400_000_000

abbrev pub password_reset_ttl : ℕ
password_reset_ttl = 1_800_000_000

abbrev pub has_mail_hash : String → MailToken → Bool
has_mail_hash h t = str_eq t.token_hash h

abbrev pub is_mail_token : ℕ → MailToken → Bool
is_mail_token id t = t.id == id

abbrev pub consume_mail : ℕ → MailToken → MailToken
consume_mail at t = record t { consumed_at = some at }

module _ (env : Env) where
  unfoldable pub new_mail_token : User → ℕ → String → Action MailToken
  unfolding ◌>>=◌
  new_mail_token user ttl raw = do
    at ← now env
    id ← new_uuid env
    pure (record {
      id = id;
      user_id = user.id;
      token_hash = hash_token env raw;
      expires_at = at + ttl;
      consumed_at = none;
    })

  unfoldable pub issue_verification_token : User → Action String
  unfolding new_mail_token ◌>>=◌
  issue_verification_token user = do
    raw ← new_secret env
    token ← new_mail_token user verification_ttl raw
    modify (λ d. record d { verification_tokens = d.verification_tokens ++ token ∷ [] })
    pure raw

  unfoldable pub issue_password_reset_token : User → Action String
  unfolding new_mail_token ◌>>=◌
  issue_password_reset_token user = do
    raw ← new_secret env
    token ← new_mail_token user password_reset_ttl raw
    modify (λ d. record d { reset_tokens = d.reset_tokens ++ token ∷ [] })
    pure raw

  unfoldable pub register_user : String → String → String → Action (User × String)
  unfolding issue_verification_token ◌>>=◌
  register_user raw_email password full_name = do
    let email = normalize_email env raw_email
    existing ← gets (λ d. find (has_email email) d.users)
    raise_if (is_some existing) email_taken
    password_hash ← hash_password env password
    id ← new_uuid env
    let user : User = record {
      id = id;
      email = email;
      password_hash = password_hash;
      full_name = strip full_name;
      is_active = true;
      last_login_at = none;
      mfa_secret = none;
      mfa_enabled_at = none;
      mfa_last_counter = none;
      email_verified_at = none;
      token_version = 0;
    }
    modify (λ d. record d { users = d.users ++ user ∷ [] })
    raw ← issue_verification_token user
    pure (user, raw)

  -- the clock is read again only where the time is written
  unfoldable pub mark_verified : User → Action User
  unfolding ◌>>=◌
  mark_verified user =
      if is_some user.email_verified_at
      then pure user
      else do at ← now env; pure (record user { email_verified_at = some at })

  unfoldable pub verify_email : String → Action User
  unfolding mark_verified save_user ◌>>=◌
  verify_email raw_token = do
    found ← gets (λ d. find (has_mail_hash (hash_token env raw_token)) d.verification_tokens)
    token ← or_raise found invalid_token
    raise_if (is_some token.consumed_at) invalid_token
    at ← now env
    raise_if (leb token.expires_at at) invalid_token
    owner ← gets (λ d. find (is_user token.user_id) d.users)
    user ← or_raise owner invalid_token
    consumed ← now env
    modify (λ d. record d {
      verification_tokens =
          update_where (is_mail_token token.id) (consume_mail consumed) d.verification_tokens;
    })
    marked ← mark_verified user
    save_user marked
    pure marked

  unfoldable pub reset_password : String → String → Action User
  unfolding mark_verified save_user revoke_all_sessions ◌>>=◌
  reset_password raw_token new_password = do
    found ← gets (λ d. find (has_mail_hash (hash_token env raw_token)) d.reset_tokens)
    token ← or_raise found invalid_token
    raise_if (is_some token.consumed_at) invalid_token
    at ← now env
    raise_if (leb token.expires_at at) invalid_token
    owner ← gets (λ d. find (is_user token.user_id) d.users)
    user ← or_raise owner invalid_token
    raise_if (not user.is_active) invalid_token
    consumed ← now env
    modify (λ d. record d {
      reset_tokens = update_where (is_mail_token token.id) (consume_mail consumed) d.reset_tokens;
    })
    password_hash ← hash_password env new_password
    marked ← mark_verified (record user { password_hash = password_hash })
    save_user marked
    revoke_all_sessions env marked
