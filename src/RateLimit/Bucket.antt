-- ===== src/RateLimit/Bucket.antt =====
-- Which window a request counts in: backend/src/incident_desk/api/ratelimit_dep.py.
use incident_desk.Prelude.{
  ℕ, ◌==◌, ◌≡◌, refl, ap, ◌∙◌, String, str_eq, is_empty, concat, all_chars, Bool, true, false, not,
  ◌&&◌, Option, none, some, if◌then◌else◌,
}
use Prim.Native.Char.{code}
use Prim.Native.String.{[], ◌∷◌}
use incident_desk.Errors.{rate_limited}
use incident_desk.Session.{Env, AccessClaims, Result, ok, err, ⊤}
use incident_desk.ApiKeys.{format_token}
use incident_desk.Principals.{cut, is_key_token}
use incident_desk.Principals.Keys.{is_plain, cut-concat, cut-format_token, key_token-format_token}
use incident_desk.RateLimit.{Redis, check}

-- what the dependency reads of a request: a header that is missing is empty
pub record Request : Type 0 where
  pub authorization : String
  pub client : Option String
  pub path : String

-- the part of `Settings` that the dependency reads
pub record LimitSettings : Type 0 where
  pub rate_limit_login_per_minute : ℕ
  pub rate_limit_auth_per_minute : ℕ
  pub rate_limit_per_minute : ℕ

pub record Bucket : Type 0 where
  pub bucket : String
  pub limit : ℕ
  pub identity : String

-- `authorization.partition(" ")`, without the separator
unfoldable pub partition : String → String × String
partition [] = ([], [])
partition (c ∷ s) =
    let later = partition s in if code c == 32 then ([], s) else (c ∷ later.0, later.1)

-- `path.startswith(prefix)`
unfoldable pub starts_with : String → String → Bool
starts_with path [] = true
starts_with [] (d ∷ prefix) = false
starts_with (c ∷ path) (d ∷ prefix) =
    let rest = starts_with path prefix in if code c == code d then rest else false

abbrev pub login_path : String
login_path = "/api/v1/auth/login"

abbrev auth_prefix : String
auth_prefix = "/api/v1/auth/"

abbrev client_ip : Request → String
client_ip request = elim request.client [ some host ↦ host | none ↦ "unknown" ]

abbrev by_ip : Request → String × String
by_ip request = ("ip", client_ip request)

-- `len(parts) == 3 and parts[1]`
abbrev key_of_rest : Request → Option (String × String) → String × String
key_of_rest request none = by_ip request
key_of_rest request (some parts) = if is_empty parts.0 then by_ip request else ("key", parts.0)

abbrev key_identity : Request → Option (String × String) → String × String
key_identity request none = by_ip request
key_identity request (some outer) = key_of_rest request (cut outer.1)

abbrev claims_identity : Env → Request → Option AccessClaims → String × String
claims_identity env request none = by_ip request
claims_identity env request (some claims) = ("user", env.uuid_text claims.user_id)

-- a header with a token
abbrev pub bearer : String → String
bearer token = "B" ∷ "e" ∷ "a" ∷ "r" ∷ "e" ∷ "r" ∷ " " ∷ token

never : (b : Bool) → (b && str_eq "key" "ip") ≡ false
never true = refl
never false = refl

module _ (env : Env) (at : ℕ) where
  abbrev bearer_identity : Request → String → String × String
  bearer_identity request token =
      if is_key_token token
      then key_identity request (cut token)
      else claims_identity env request (env.decode_access at token)

  -- on the two parts of the header
  abbrev identify_parts : Request → String × String → String × String
  identify_parts request parts =
      if str_eq (env.lower parts.0) "bearer" && not (is_empty parts.1)
      then bearer_identity request parts.1
      else by_ip request

  -- the kind and the identity
  unfoldable pub identify : Request → String × String
  unfolding partition
  identify request = identify_parts request (partition request.authorization)

  abbrev labelled : String × String → String
  labelled who = concat who.0 (concat ":" who.1)

  unfoldable pub choose_bucket : LimitSettings → Request → Bucket
  unfolding identify starts_with
  choose_bucket settings request =
      let who = identify request in
      if str_eq request.path login_path
      then record {
        bucket = "login";
        limit = settings.rate_limit_login_per_minute;
        identity = labelled (by_ip request);
      }
      else if starts_with request.path auth_prefix && str_eq who.0 "ip"
      then record {
        bucket = "auth";
        limit = settings.rate_limit_auth_per_minute;
        identity = labelled who;
      }
      else record {
        bucket = "api";
        limit = settings.rate_limit_per_minute;
        identity = labelled who;
      }

  -- `rate_limiter`, with the member of the request and the namespace of the limiter; the window is a
  -- minute
  unfoldable pub rate_limiter :
      {S : Type 0} → Redis S → String → String → LimitSettings → Request → S → Result ⊤ × S
  unfolding choose_bucket check
  rate_limiter r namespace member settings request s =
      let b = choose_bucket settings request in
      let key = concat namespace (concat ":" (concat b.bucket (concat ":" b.identity))) in
      let d = check r key b.limit 60 member at s in
      (if d.0.allowed then ok tt else err (rate_limited d.0.retry_after_seconds), d.1)

  module _ (p q : String) (settings : LimitSettings) (request : Request) where
    key-identity :
        is_empty p ≡ false
        → all_chars is_plain p ≡ true
        → bearer_identity request (format_token p q) ≡ ("key", p)
    key-identity ne plain =
        ap
          (λ b.
            if b
            then key_identity request (cut (format_token p q))
            else claims_identity env request (env.decode_access at (format_token p q)))
          (key_token-format_token p q)
        ∙ ap (key_identity request) (cut-format_token p q)
        ∙ ap (key_of_rest request) (cut-concat p q plain)
        ∙ ap (λ b. if b then by_ip request else ("key", p)) ne

    bearer-parts : partition (bearer (format_token p q)) ≡ ("Bearer", format_token p q)
    unfolding partition
    bearer-parts = refl

    token-plain : is_empty (format_token p q) ≡ false
    unfolding format_token
    token-plain = refl

    identify-key :
        env.lower "Bearer" ≡ "bearer"
        → request.authorization ≡ bearer (format_token p q)
        → is_empty p ≡ false
        → all_chars is_plain p ≡ true
        → identify request ≡ ("key", p)
    unfolding identify
    identify-key low header ne plain =
        ap (identify_parts request) (ap partition header ∙ bearer-parts)
        ∙ ap
            (λ b.
              if b && not (is_empty (format_token p q))
              then bearer_identity request (format_token p q)
              else by_ip request)
            (ap (λ t. str_eq t "bearer") low)
        ∙ ap (λ b. if not b then bearer_identity request (format_token p q) else by_ip request)
            token-plain
        ∙ key-identity ne plain

    -- A request, not to the login, with a bearer that starts as an API key with a prefix `p`: it
    -- counts in the window of the API for that prefix, also under the path of the authentication
    -- endpoints, whatever its client is, and whether or not there is such a key.
    pub choose_bucket_unverified :
        env.lower "Bearer" ≡ "bearer"
        → request.authorization ≡ bearer (format_token p q)
        → is_empty p ≡ false
        → all_chars is_plain p ≡ true
        → str_eq request.path login_path ≡ false
        → choose_bucket settings request ≡ record {
          bucket = "api";
          limit = settings.rate_limit_per_minute;
          identity = concat "key" (concat ":" p);
        }
    unfolding choose_bucket
    choose_bucket_unverified low header ne plain path =
        rw (path, identify-key low header ne plain)
          (ap
            (λ b.
              if b
              then record {
                bucket = "auth";
                limit = settings.rate_limit_auth_per_minute;
                identity = labelled ("key", p);
              }
              else record {
                bucket = "api";
                limit = settings.rate_limit_per_minute;
                identity = labelled ("key", p);
              })
            (never (starts_with request.path auth_prefix)))
