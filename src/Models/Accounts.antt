-- ===== src/Models/Accounts.antt =====
-- Users and the tokens that prove who they are (db/models.py).
use incident_desk.Prelude.{ℕ, String, Bool, Option}

pub record User : Type 0 where
  pub id : ℕ
  pub email : String
  pub password_hash : String
  pub full_name : String
  pub is_active : Bool
  pub last_login_at : Option ℕ
  pub mfa_secret : Option String
  pub mfa_enabled_at : Option ℕ
  pub mfa_last_counter : Option ℕ
  pub email_verified_at : Option ℕ
  pub token_version : ℕ

pub record RefreshToken : Type 0 where
  pub id : ℕ
  pub user_id : ℕ
  pub family_id : ℕ
  pub token_hash : String
  pub expires_at : ℕ
  pub consumed_at : Option ℕ
  pub revoked_at : Option ℕ

pub record MfaRecoveryCode : Type 0 where
  pub id : ℕ
  pub user_id : ℕ
  pub code_hash : String
  pub used_at : Option ℕ

-- `EmailVerificationToken` and `PasswordResetToken` have the same columns.
pub record MailToken : Type 0 where
  pub id : ℕ
  pub user_id : ℕ
  pub token_hash : String
  pub expires_at : ℕ
  pub consumed_at : Option ℕ
