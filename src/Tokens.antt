-- ===== src/Tokens.antt =====
-- Access tokens and MFA tokens: backend/src/incident_desk/security/jwt.py over PyJWT, which is a
-- parameter. Times are in seconds.
use incident_desk.Prelude.{
  ℕ, ◌+◌, ◌/◌, ◌≤◌, ◌≡◌, refl, ap, ◌∙◌, String, str_eq, Bool, false, Option, none, some,
  if◌then◌else◌, arith,
}
use incident_desk.Errors.{unauthorized}
use incident_desk.Session.{Session, Env, AccessClaims, Result, ok, err, reply}
use incident_desk.Principals.{resolve_user}

-- the part of `Settings` that tokens read
pub record TokenSettings : Type 0 where
  pub jwt_secret : String
  pub jwt_issuer : String
  pub jwt_audience : String
  pub access_token_ttl_seconds : ℕ

-- `LEEWAY_SECONDS` and `MFA_TOKEN_TTL_SECONDS`
abbrev pub leeway_seconds : ℕ
leeway_seconds = 10

abbrev pub mfa_token_ttl_seconds : ℕ
mfa_token_ttl_seconds = 300

-- the claims of a payload beside its times, its issuer and its audience
pub record Payload : Type 0 where
  pub sub : String
  pub ver : Option ℕ
  pub jti : String
  pub token_type : Option String

-- `jwt.encode` of claims issued at a time and expiring at a time, and `jwt.decode` at a time: none for
-- an `InvalidTokenError`
pub record Jwt : Type 0 where
  pub encode : TokenSettings → Payload → ℕ → ℕ → String
  pub decode : TokenSettings → ℕ → ℕ → String → Option Payload

-- What PyJWT documents, for a token of some claims, its time of issue and its end: it decodes with the
-- settings it was encoded with from the one to the other, and whatever it decodes to are the claims.
pub record Reads (jwt : Jwt) (settings : TokenSettings) (p : Payload) (issued expires : ℕ)
    : Type 0 where
  pub decode-encode :
      (leeway at : ℕ)
      → issued ≤ at
      → at ≤ expires
      → jwt.decode settings leeway at (jwt.encode settings p issued expires) ≡ some p
  pub decode_only :
      (leeway at : ℕ) (q : Payload)
      → jwt.decode settings leeway at (jwt.encode settings p issued expires) ≡ some q
      → q ≡ p

-- `payload.get("type") != expected_type`
abbrev has_type : String → Payload → Bool
has_type expected p = elim p.token_type [ none ↦ false | some t ↦ str_eq t expected ]

-- `int(payload.get("ver", 0))`
abbrev version_of : Option ℕ → ℕ
version_of none = 0
version_of (some n) = n

module _ (jwt : Jwt) (env : Env) (settings : TokenSettings) where
  -- `_create`, at a time and with the hex of a random id
  unfoldable pub create : ℕ → String → ℕ → ℕ → String → ℕ → String
  create at jti user_id token_version token_type ttl =
      jwt.encode settings
        (record {
          sub = env.uuid_text user_id;
          ver = some token_version;
          jti = jti;
          token_type = some token_type;
        })
        at (at + ttl)

  abbrev claims_of : Option ℕ → Payload → String → Result AccessClaims
  claims_of none p expected = err unauthorized
  claims_of (some user_id) p expected =
      if has_type expected p
      then ok (record { user_id = user_id; token_version = version_of p.ver })
      else err unauthorized

  abbrev checked : Option Payload → String → Result AccessClaims
  checked none expected = err unauthorized
  checked (some p) expected = claims_of (env.uuid_of_text p.sub) p expected

  -- `_decode`
  unfoldable pub decode : ℕ → String → String → Result AccessClaims
  decode at token expected_type =
      checked (jwt.decode settings leeway_seconds at token) expected_type

  unfoldable pub create_access_token : ℕ → String → ℕ → ℕ → String
  unfolding create
  create_access_token at jti user_id token_version =
      create at jti user_id token_version "access" settings.access_token_ttl_seconds

  unfoldable pub decode_access_token : ℕ → String → Result AccessClaims
  unfolding decode
  decode_access_token at token = decode at token "access"

  unfoldable pub create_mfa_token : ℕ → String → ℕ → ℕ → String
  unfolding create
  create_mfa_token at jti user_id token_version =
      create at jti user_id token_version "mfa" mfa_token_ttl_seconds

  unfoldable pub decode_mfa_token : ℕ → String → Result AccessClaims
  unfolding decode
  decode_mfa_token at token = decode at token "mfa"

abbrev pub claims_or_none : Result AccessClaims → Option AccessClaims
claims_or_none (ok c) = some c
claims_or_none (err e) = none

-- The environment in which the functions of the code decode the tokens; its clock is in microseconds.
abbrev pub with_tokens : Jwt → TokenSettings → Env → Env
with_tokens jwt settings env = record env {
  decode_access =
      λ at token. claims_or_none (decode_access_token jwt env settings (at / 1_000_000) token);
  decode_mfa =
      λ at token. claims_or_none (decode_mfa_token jwt env settings (at / 1_000_000) token);
}

resolve_user-undecoded :
    (env : Env) (token : String) (s : Session)
    → env.decode_access (env.clock s.draws) token ≡ none
    → reply (resolve_user env token) s ≡ err unauthorized
unfolding resolve_user
resolve_user-undecoded env token s e = ground (arith, e)

-- the claims of a token of the code
abbrev pub payload : Env → String → String → ℕ → ℕ → Payload
payload env token_type jti user_id token_version = record {
  sub = env.uuid_text user_id;
  ver = some token_version;
  jti = jti;
  token_type = some token_type;
}

module _ (jwt : Jwt) (env : Env) (settings : TokenSettings) (at : ℕ) (jti : String)
    (user_id token_version : ℕ) where
  -- An access token decodes to the user and the version that it was made for, from the time at which
  -- it was made until its lifetime has passed, if the text of the id reads back as the id.
  pub decode-create_access_token :
      (now : ℕ)
      → Reads jwt settings
          (payload env "access" jti user_id token_version)
          at
          (at + settings.access_token_ttl_seconds)
      → at ≤ now
      → now ≤ at + settings.access_token_ttl_seconds
      → env.uuid_of_text (env.uuid_text user_id) ≡ some user_id
      → decode_access_token jwt env settings now
          (create_access_token jwt env settings at jti user_id token_version)
        ≡ ok (record { user_id = user_id; token_version = token_version })
  unfolding decode_access_token create_access_token
  decode-create_access_token now laws a b u =
      ap (λ o. checked jwt env settings o "access") (laws.decode-encode leeway_seconds now a b)
      ∙ ap
          (λ o.
            claims_of jwt env settings o (payload env "access" jti user_id token_version) "access")
          u

  refused_claims :
      (o : Option ℕ)
      → claims_of jwt env settings o (payload env "mfa" jti user_id token_version) "access"
        ≡ err unauthorized
  refused_claims none = refl
  refused_claims (some u) = refl

  refused_payload :
      (o : Option Payload)
      → ((q : Payload) → o ≡ some q → q ≡ payload env "mfa" jti user_id token_version)
      → checked jwt env settings o "access" ≡ err unauthorized
  refused_payload none k = refl
  refused_payload (some q) k =
      ap (λ r. checked jwt env settings (some r) "access") (k q refl)
      ∙ refused_claims (env.uuid_of_text (env.uuid_text user_id))

  mfa_refused :
      (now : ℕ)
      → Reads jwt settings
          (payload env "mfa" jti user_id token_version)
          at
          (at + mfa_token_ttl_seconds)
      → decode_access_token jwt env settings now
          (create_mfa_token jwt env settings at jti user_id token_version)
        ≡ err unauthorized
  unfolding decode_access_token create_mfa_token
  mfa_refused now laws =
      refused_payload
        (jwt.decode settings leeway_seconds now (
          jwt.encode settings (payload env "mfa" jti user_id token_version) at
            (at + mfa_token_ttl_seconds)))
        (laws.decode_only leeway_seconds now)

  -- The token that the first step of a login with a second factor answers is no access token: whoever
  -- sends it as one is refused, at any time.
  pub resolve_user-create_mfa_token :
      (s : Session)
      → Reads jwt settings
          (payload env "mfa" jti user_id token_version)
          at
          (at + mfa_token_ttl_seconds)
      → reply
          (resolve_user
            (with_tokens jwt settings env)
            (create_mfa_token jwt env settings at jti user_id token_version))
          s
        ≡ err unauthorized
  resolve_user-create_mfa_token s laws =
      resolve_user-undecoded (with_tokens jwt settings env)
        (create_mfa_token jwt env settings at jti user_id token_version) s
        (ap claims_or_none (mfa_refused (env.clock s.draws / 1_000_000) laws))
