-- ===== src/Api/Auth.antt =====
-- The handlers of backend/src/incident_desk/api/v1/auth.py that change the database.
use incident_desk.Prelude.{String, List, Option, none, some, is_some, find, if◌then◌else◌}
use incident_desk.Errors.{refresh_reused}
use incident_desk.Models.{User}
use incident_desk.Session.{
  Env, email, Action, Result, ok, err, ⊤, pure, raise, gets, send, commit, attempt, ◌>>=◌, ◌>>◌,
}
use incident_desk.Members.{normalize_email}
use incident_desk.Sessions.{
  Settings, SessionTokens, has_email, authenticate, issue_session, rotate_refresh, revoke_session,
}
use incident_desk.Accounts.{
  register_user, verify_email, issue_password_reset_token, issue_verification_token, reset_password,
}
use incident_desk.Mfa.{complete_challenge, start_enrollment, confirm_enrollment}

-- `LoginResult`: a token pair, or the demand for a second factor
pub data LoginResult : Type 0 where
  token_pair : SessionTokens → LoginResult
  mfa_required : LoginResult

module _ (env : Env) where
  unfoldable pub register : String → String → String → Action User
  unfolding ◌>>=◌
  register address password full_name = do
    made ← register_user env address password full_name
    commit env
    send (email made.0.email made.1)
    pure made.0

  unfoldable pub verify : String → Action User
  unfolding ◌>>=◌
  verify token = do user ← verify_email env token; commit env; pure user

  -- the end of `login`, for a user whose password was right
  unfoldable pub finish_login : Settings → User → Action LoginResult
  unfolding ◌>>=◌
  finish_login settings user =
      if is_some user.mfa_enabled_at
      then pure mfa_required
      else do tokens ← issue_session env settings user; commit env; pure (token_pair tokens)

  unfoldable pub login : Settings → String → String → Action LoginResult
  unfolding finish_login ◌>>=◌
  login settings address password = do
    user ← authenticate env address password
    finish_login settings user

  unfoldable pub mfa_challenge : Settings → String → String → Action SessionTokens
  unfolding ◌>>=◌
  mfa_challenge settings mfa_token code = do
    tokens ← complete_challenge env settings mfa_token code
    commit env
    pure tokens

  -- what follows the `try` and its handler: a reuse is committed and raised again
  unfoldable pub after_rotation : Result SessionTokens → Action SessionTokens
  unfolding ◌>>=◌
  after_rotation (ok tokens) = do commit env; pure tokens
  after_rotation (err refresh_reused) = do commit env; raise refresh_reused
  after_rotation (err e) = raise e

  unfoldable pub refresh : Settings → String → Action SessionTokens
  unfolding after_rotation attempt ◌>>=◌
  refresh settings raw = attempt (rotate_refresh env settings raw) after_rotation

  unfoldable pub logout : String → Action ⊤
  unfolding ◌>>=◌
  logout raw = do revoke_session env raw; commit env

  -- a reset link for an active account
  unfoldable pub mail_reset : Option User → Action ⊤
  unfolding ◌>>=◌
  mail_reset none = pure tt
  mail_reset (some user) =
      if user.is_active
      then (do
        token ← issue_password_reset_token env user
        commit env
        send (email user.email token))
      else pure tt

  unfoldable pub forgot_password : String → Action ⊤
  unfolding mail_reset ◌>>=◌
  forgot_password address = do
    user ← gets (λ d. find (has_email (normalize_email env address)) d.users)
    mail_reset user

  unfoldable pub reset : String → String → Action User
  unfolding ◌>>=◌
  reset token password = do user ← reset_password env token password; commit env; pure user

  -- a fresh link for an account that is not verified
  unfoldable pub mail_verification : Option User → Action ⊤
  unfolding ◌>>=◌
  mail_verification none = pure tt
  mail_verification (some user) =
      if is_some user.email_verified_at
      then pure tt
      else do token ← issue_verification_token env user; commit env; send (email user.email token)

  unfoldable pub resend_verification : String → Action ⊤
  unfolding mail_verification ◌>>=◌
  resend_verification address = do
    user ← gets (λ d. find (has_email (normalize_email env address)) d.users)
    mail_verification user

  -- the secret; the `otpauth` link is made of it
  unfoldable pub mfa_enroll : User → Action String
  unfolding start_enrollment ◌>>=◌
  mfa_enroll user = do secret ← start_enrollment env user; commit env; pure secret

  unfoldable pub mfa_verify : User → String → Action (List String)
  unfolding confirm_enrollment ◌>>=◌
  mfa_verify user code = do codes ← confirm_enrollment env user code; commit env; pure codes
