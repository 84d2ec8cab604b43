-- ===== src/Session/Outside.antt =====
-- What the code takes from outside the repository: the clock, random draws, and the functions of
-- hashlib, argon2-cffi, PyJWT, pyotp and the Unicode case tables. Each draw of a request has a
-- number, the `draws` of its session. Times and durations are in microseconds.
use incident_desk.Prelude.{ℕ, String, Bool, Option}
use incident_desk.Models.{Incident}

-- security/jwt.py, `AccessClaims` without the `jti`, which nothing reads
pub record AccessClaims : Type 0 where
  pub user_id : ℕ
  pub token_version : ℕ

pub record Env : Type 0 where
  -- `datetime.now(UTC)`, and `now()` of a new transaction
  pub clock : ℕ → ℕ
  -- `uuid.uuid4()`
  pub uuid : ℕ → ℕ
  -- `secrets.token_urlsafe`, `secrets.token_hex` and `pyotp.random_base32`
  pub secret : ℕ → String
  -- `hashlib.sha256(...).hexdigest()`
  pub sha256 : String → String
  -- `str.lower`
  pub lower : String → String
  -- argon2: a draw is the salt
  pub argon_hash : ℕ → String → String
  pub argon_verify : String → String → Bool
  -- `pyotp.TOTP(secret).at(step * 30)`
  pub totp_code : String → ℕ → String
  -- the signed text for the claims, at a time, and the claims of a token that decodes at a time
  pub encode_access : ℕ → ℕ → ℕ → String
  pub decode_mfa : ℕ → String → Option AccessClaims
  -- `search_vector @@ websearch_to_tsquery('english', q)`, of the query, the title and the description
  pub text_search : String → String → String → Bool
  -- the claims of an access token that decodes at a time
  pub decode_access : ℕ → String → Option AccessClaims
  -- `Data(data=IncidentOut.model_validate(incident)).model_dump_json()`
  pub incident_json : Incident → String
  -- `str(uuid)`
  pub uuid_text : ℕ → String
  -- `uuid.UUID(text)`, and `max(0, int(text))`, none for a `ValueError`
  pub uuid_of_text : String → Option ℕ
  pub int_of_text : String → Option ℕ
  -- a text stands before another in the collation of the database
  pub name_before : String → String → Bool
  -- `Path(text).name`, and `uuid.uuid4().hex` of a draw
  pub path_name : String → String
  pub uuid_hex : ℕ → String
