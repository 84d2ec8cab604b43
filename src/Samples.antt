-- ===== src/Samples.antt =====
-- Test data: an organisation with an owner and a responder, its service and counter, an incident,
-- a token family, and a plain environment.
use incident_desk.Prelude.{ℕ, ◌+◌, String, true, false, Option, none, some, [], ◌∷◌, str_eq}
use incident_desk.Enums.{owner, admin, responder, sev1, opened, tier1}
use incident_desk.Models.{
  Organization, Membership, OrgInvitation, User, RefreshToken, Incident, null,
}
use incident_desk.Session.{Database, Session, Env}
use incident_desk.Audit.{AuditInfo}
use incident_desk.Sessions.{Settings}

abbrev pub sample_env : Env
sample_env = record {
  clock = λ n. 1_000 + n;
  uuid = λ n. 500 + n;
  secret = λ n. "secret";
  sha256 = λ t. t;
  lower = λ t. t;
  argon_hash = λ n t. t;
  argon_verify = λ h t. str_eq h t;
  totp_code = λ k n. "000000";
  encode_access = λ u v t. "token";
  decode_mfa = λ t m. none;
  text_search = λ q t d. true;
  decode_access = λ t m. none;
  incident_json = λ i. i.title;
  uuid_text = λ n. "uuid";
  uuid_of_text = λ t. none;
  int_of_text = λ t. none;
  name_before = λ t u. false;
  path_name = λ t. t;
  uuid_hex = λ n. "hex";
}

abbrev pub sample_settings : Settings
sample_settings = record { refresh_token_ttl = 100; access_token_ttl_seconds = 10 }

abbrev pub acme : Organization
acme = record { id = 1; name = "Acme"; slug = "acme"; plan = "free"; settings = null }

abbrev pub person : ℕ → String → User
person id address = record {
  id = id;
  email = address;
  password_hash = "pw";
  full_name = address;
  is_active = true;
  last_login_at = none;
  mfa_secret = none;
  mfa_enabled_at = none;
  mfa_last_counter = none;
  email_verified_at = some 1;
  token_version = 0;
}

abbrev pub ann : User
ann = person 7 "ann"

abbrev pub bob : User
bob = person 8 "bob"

abbrev pub ann_member : Membership
ann_member = record { user_id = 7; org_id = 1; role = owner; joined_at = 1 }

abbrev pub bob_member : Membership
bob_member = record { user_id = 8; org_id = 1; role = responder; joined_at = 2 }

abbrev pub invited : OrgInvitation
invited = record {
  id = 31;
  org_id = 1;
  email = "eve";
  role = admin;
  invited_by = some 7;
  token_hash = "ticket";
  expires_at = 9_000;
  accepted_at = none;
  created_at = 3;
}

abbrev pub outage : Incident
outage = record {
  id = 41;
  org_id = 1;
  service_id = 21;
  sequence_number = 1;
  title = "down";
  description = "";
  severity = sev1;
  status = opened;
  reported_by = 7;
  assigned_to = none;
  started_at = 100;
  acknowledged_at = none;
  resolved_at = none;
  resolution_summary = none;
  tags = [];
  version = 1;
  created_at = 100;
}

-- a token of family 60, consumed or not, revoked or not
abbrev pub refresh_token : ℕ → String → Option ℕ → Option ℕ → RefreshToken
refresh_token id h consumed revoked = record {
  id = id;
  user_id = 7;
  family_id = 60;
  token_hash = h;
  expires_at = 9_000;
  consumed_at = consumed;
  revoked_at = revoked;
}

abbrev pub sample_db : Database
sample_db = record {
  organizations = acme ∷ [];
  memberships = ann_member ∷ bob_member ∷ [];
  services =
      record {
        id = 21;
        org_id = 1;
        name = "api";
        description = "";
        owner_team = "core";
        tier = tier1;
      }
      ∷ [];
  invitations = invited ∷ [];
  api_keys = [];
  counters = record { org_id = 1; incident_seq = 1 } ∷ [];
  idempotency_keys = [];
  users = ann ∷ bob ∷ person 9 "eve" ∷ [];
  refresh_tokens =
      refresh_token 61 "old" (some 5) none
      ∷ refresh_token 62 "new" none none
      ∷ record (refresh_token 63 "gone" none (some 6)) { family_id = 64 }
      ∷ [];
  recovery_codes = [];
  verification_tokens = [];
  reset_tokens = [];
  incidents = outage ∷ [];
  events = [];
  comments = [];
  audit_log = [];
  attachments = [];
  daily_metrics = [];
  schedules = [];
  shifts = [];
}

abbrev pub session_on : Database → Session
session_on d = record {
  db = d;
  committed = d;
  draws = 0;
  transaction_time = 1_000;
  event_seq = 1;
  comment_seq = 1;
  outbox = [];
}

abbrev pub sample : Session
sample = session_on sample_db

abbrev pub sample_info : AuditInfo
sample_info = record { ip_address = none; user_agent = some "curl" }
