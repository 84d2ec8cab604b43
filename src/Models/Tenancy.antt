-- ===== src/Models/Tenancy.antt =====
-- Organisations, their members, invitations, services and counters (db/models.py).
use incident_desk.Prelude.{ℕ, String, Option, List}
use incident_desk.Enums.{Role, ServiceTier}
use incident_desk.Models.Values.{Json}

pub record Organization : Type 0 where
  pub id : ℕ
  pub name : String
  pub slug : String
  pub plan : String
  pub settings : Json

pub record Membership : Type 0 where
  pub user_id : ℕ
  pub org_id : ℕ
  pub role : Role
  pub joined_at : ℕ

pub record Service : Type 0 where
  pub id : ℕ
  pub org_id : ℕ
  pub name : String
  pub description : String
  pub owner_team : String
  pub tier : ServiceTier

pub record OrgInvitation : Type 0 where
  pub id : ℕ
  pub org_id : ℕ
  pub email : String
  pub role : Role
  pub invited_by : Option ℕ
  pub token_hash : String
  pub expires_at : ℕ
  pub accepted_at : Option ℕ
  pub created_at : ℕ

pub record ApiKey : Type 0 where
  pub id : ℕ
  pub org_id : ℕ
  pub name : String
  pub key_hash : String
  pub prefix : String
  pub scopes : List String
  pub last_used_at : Option ℕ
  pub expires_at : Option ℕ
  pub revoked_at : Option ℕ
  pub created_at : ℕ

pub record OrganizationCounter : Type 0 where
  pub org_id : ℕ
  pub incident_seq : ℕ

pub record IdempotencyKey : Type 0 where
  pub org_id : ℕ
  pub key : String
  pub status_code : ℕ
  pub response_body : String
  pub created_at : ℕ
