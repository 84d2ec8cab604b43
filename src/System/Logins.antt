-- ===== src/System/Logins.antt =====
-- What services/auth_service.py, services/sessions.py, services/mfa.py and api/deps.py keep of the
-- invariant of the program.
use incident_desk.Prelude.{ℕ, zero, suc, String, List, [], ◌∷◌, ◌++◌, Option, none, some}
use incident_desk.Models.{IncidentEvent, User, RefreshToken, MfaRecoveryCode}
use incident_desk.Session.{Env, modify}
use incident_desk.Session.Keeping.{
  Keeps, keeping, Keeps-bind, Keeps-pure, Keeps-new_uuid, Keeps-modify,
}
use incident_desk.Members.{hash_token}
use incident_desk.Sessions.{
  Settings, save_user, authenticate, mint, issue_session, revoke_family, refuse_reuse,
  consume_and_mint, reissue, rotate_refresh, revoke_found, revoke_session, revoke_all_sessions,
}
use incident_desk.Accounts.{
  new_mail_token, issue_verification_token, issue_password_reset_token, register_user,
  mark_verified, verify_email, reset_password,
}
use incident_desk.Mfa.{
  match_code, start_enrollment, generate_recovery_code, generate_codes, add_codes,
  confirm_enrollment, accept_counter, match_secret, try_totp, use_code, try_recovery_code, passes,
  complete_challenge,
}
use incident_desk.System.Sound.{Trail, IsSound}

module _ (x : ℕ) (es : Trail) (vs : List IncidentEvent) where
  save_user-IsSound : (user : User) → Keeps (IsSound x es vs) (save_user user)
  unfolding save_user
  save_user-IsSound user = search keeping

module _ (x : ℕ) (es : Trail) (vs : List IncidentEvent) (env : Env) where
  pub authenticate-IsSound :
      (address password : String) → Keeps (IsSound x es vs) (authenticate env address password)
  unfolding authenticate
  authenticate-IsSound address password = search keeping depth 9

  mint-IsSound :
      (settings : Settings) (user : User) (family : ℕ)
      → Keeps (IsSound x es vs) (mint env settings user family)
  unfolding mint
  mint-IsSound settings user family = search keeping depth 9

  pub issue_session-IsSound :
      (settings : Settings) (user : User)
      → Keeps (IsSound x es vs) (issue_session env settings user)
  unfolding issue_session
  issue_session-IsSound settings user = search (keeping, mint-IsSound, save_user-IsSound) depth 9

  revoke_family-IsSound : (family : ℕ) → Keeps (IsSound x es vs) (revoke_family env family)
  unfolding revoke_family
  revoke_family-IsSound family = search keeping

  refuse_reuse-IsSound : (t : RefreshToken) → Keeps (IsSound x es vs) (refuse_reuse env t)
  unfolding refuse_reuse
  refuse_reuse-IsSound t = search (keeping, revoke_family-IsSound) depth 7

  reissue-IsSound :
      (settings : Settings) (t : RefreshToken) → Keeps (IsSound x es vs) (reissue env settings t)
  unfolding reissue consume_and_mint
  reissue-IsSound settings t = search (keeping, mint-IsSound) depth 12

  pub rotate_refresh-IsSound :
      (settings : Settings) (raw : String)
      → Keeps (IsSound x es vs) (rotate_refresh env settings raw)
  unfolding rotate_refresh
  rotate_refresh-IsSound settings raw =
      search (keeping, refuse_reuse-IsSound, reissue-IsSound) depth 9

  revoke_found-IsSound : (o : Option RefreshToken) → Keeps (IsSound x es vs) (revoke_found env o)
  unfolding revoke_found
  revoke_found-IsSound none = search keeping
  revoke_found-IsSound (some t) = search revoke_family-IsSound

  pub revoke_session-IsSound : (raw : String) → Keeps (IsSound x es vs) (revoke_session env raw)
  unfolding revoke_session
  revoke_session-IsSound raw = search (keeping, revoke_found-IsSound)

  revoke_all_sessions-IsSound :
      (user : User) → Keeps (IsSound x es vs) (revoke_all_sessions env user)
  unfolding revoke_all_sessions
  revoke_all_sessions-IsSound user = search (keeping, save_user-IsSound) depth 9

  new_mail_token-IsSound :
      (user : User) (ttl : ℕ) (raw : String)
      → Keeps (IsSound x es vs) (new_mail_token env user ttl raw)
  unfolding new_mail_token
  new_mail_token-IsSound user ttl raw = search keeping depth 7

  pub issue_verification_token-IsSound :
      (user : User) → Keeps (IsSound x es vs) (issue_verification_token env user)
  unfolding issue_verification_token
  issue_verification_token-IsSound user = search (keeping, new_mail_token-IsSound) depth 9

  pub issue_password_reset_token-IsSound :
      (user : User) → Keeps (IsSound x es vs) (issue_password_reset_token env user)
  unfolding issue_password_reset_token
  issue_password_reset_token-IsSound user = search (keeping, new_mail_token-IsSound) depth 9

  pub register_user-IsSound :
      (address password name : String)
      → Keeps (IsSound x es vs) (register_user env address password name)
  unfolding register_user
  register_user-IsSound address password name =
      search (keeping, issue_verification_token-IsSound) depth 12

  mark_verified-IsSound : (user : User) → Keeps (IsSound x es vs) (mark_verified env user)
  unfolding mark_verified
  mark_verified-IsSound user = search keeping depth 7

  pub verify_email-IsSound : (raw : String) → Keeps (IsSound x es vs) (verify_email env raw)
  unfolding verify_email
  verify_email-IsSound raw = search (keeping, mark_verified-IsSound, save_user-IsSound) depth 16

  pub reset_password-IsSound :
      (raw password : String) → Keeps (IsSound x es vs) (reset_password env raw password)
  unfolding reset_password
  reset_password-IsSound raw password =
      search (keeping, mark_verified-IsSound, save_user-IsSound, revoke_all_sessions-IsSound) depth
        18

  pub start_enrollment-IsSound : (user : User) → Keeps (IsSound x es vs) (start_enrollment env user)
  unfolding start_enrollment
  start_enrollment-IsSound user = search (keeping, save_user-IsSound) depth 7

  generate_recovery_code-IsSound : Keeps (IsSound x es vs) (generate_recovery_code env)
  unfolding generate_recovery_code
  generate_recovery_code-IsSound = search keeping

  generate_codes-IsSound : (n : ℕ) → Keeps (IsSound x es vs) (generate_codes env n)
  unfolding generate_codes
  generate_codes-IsSound zero = search keeping
  generate_codes-IsSound (suc n) =
      Keeps-bind _ _ generate_recovery_code-IsSound
        (λ c. Keeps-bind _ _ (generate_codes-IsSound n) (λ cs. Keeps-pure (c ∷ cs)))

  add_code-IsSound :
      (r : MfaRecoveryCode)
      → Keeps
          (IsSound x es vs)
          (modify (λ d. record d { recovery_codes = d.recovery_codes ++ r ∷ [] }))
  add_code-IsSound r = Keeps-modify _ (λ d h. h)

  add_codes-IsSound :
      (user_id : ℕ) (codes : List String) → Keeps (IsSound x es vs) (add_codes env user_id codes)
  unfolding add_codes
  add_codes-IsSound user_id [] = search keeping
  add_codes-IsSound user_id (c ∷ cs) = Keeps-bind _ _ (Keeps-new_uuid env) (λ id.
      Keeps-bind _ _
        (add_code-IsSound
          (record { id = id; user_id = user_id; code_hash = hash_token env c; used_at = none }))
        (λ u. add_codes-IsSound user_id cs))

  pub confirm_enrollment-IsSound :
      (user : User) (code : String) → Keeps (IsSound x es vs) (confirm_enrollment env user code)
  unfolding confirm_enrollment match_code
  confirm_enrollment-IsSound user code =
      search (keeping, save_user-IsSound, generate_codes-IsSound, add_codes-IsSound) depth 14

  accept_counter-IsSound :
      (user : User) (o : Option ℕ) → Keeps (IsSound x es vs) (accept_counter env user o)
  unfolding accept_counter
  accept_counter-IsSound user none = search keeping
  accept_counter-IsSound user (some c) = search (keeping, save_user-IsSound) depth 7

  match_secret-IsSound :
      (o : Option String) (user : User) (code : String)
      → Keeps (IsSound x es vs) (match_secret env o user code)
  unfolding match_secret match_code
  match_secret-IsSound none user code = search keeping
  match_secret-IsSound (some t) user code = search (keeping, accept_counter-IsSound)

  use_code-IsSound : (o : Option MfaRecoveryCode) → Keeps (IsSound x es vs) (use_code env o)
  unfolding use_code
  use_code-IsSound none = search keeping
  use_code-IsSound (some r) = search keeping depth 7

  passes-IsSound : (user : User) (code : String) → Keeps (IsSound x es vs) (passes env user code)
  unfolding passes try_totp try_recovery_code
  passes-IsSound user code = search (keeping, match_secret-IsSound, use_code-IsSound) depth 9

  pub complete_challenge-IsSound :
      (settings : Settings) (token code : String)
      → Keeps (IsSound x es vs) (complete_challenge env settings token code)
  unfolding complete_challenge
  complete_challenge-IsSound settings token code =
      search (keeping, passes-IsSound, issue_session-IsSound) depth 16
