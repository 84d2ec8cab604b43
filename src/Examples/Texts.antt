-- ===== src/Examples/Texts.antt =====
-- Instances of the theorems on tokens, cursors and the daily rollup.
use incident_desk.Prelude.{
  ◌⊎◌, Option, true, false, ℕ, ◌≡◌, leb, refl, String, concat, none, some, [], ◌∷◌, find,
  if◌then◌else◌, arith,
}
use incident_desk.Prelude.Strings.{rstrip_by}
use incident_desk.Errors.{unauthorized}
use incident_desk.Models.{Json, text, texts}
use incident_desk.Session.{Env, ok, err, reply, written}
use incident_desk.Principals.{resolve_user}
use incident_desk.Cursors.{Codec, Reads, encode_cursor, decode_cursor, decode_cursor-encode_cursor}
use incident_desk.Tokens.{
  Jwt, TokenSettings, Payload, payload, create_access_token, decode_access_token, create_mfa_token,
  with_tokens, decode-create_access_token, resolve_user-create_mfa_token,
}
use incident_desk.Models.{OrgMetricsDaily}
use incident_desk.Jobs.Rollup.{IsRollup, is_active, compute_daily_metrics_for-IsRollup}
use incident_desk.Jobs.Metrics.{is_metrics, compute_daily_metrics_for}
use incident_desk.Samples.{sample, sample_env}

-- the JSON of two texts and its base64
abbrev codec : Codec
codec = record {
  dumps = λ j. "[\"1\", \"2\"]";
  loads = λ t. some (texts ("1" ∷ "2" ∷ []));
  str = str_of;
  b64encode = λ t. "WyIxIiwgIjIiXQ==";
  b64decode = λ t. some "[\"1\", \"2\"]";
}
  where
    str_of : Json → String
    str_of (text t) = t
    str_of _ = ""

codec-Reads : Reads codec "1" "2"
unfolding concat rstrip_by
codec-Reads = record {
  loads-dumps = refl;
  str_first = refl;
  str_second = refl;
  b64decode-b64encode = refl;
  body = "WyIxIiwgIjIiXQ";
  pad = 2;
  b64encode-body = refl;
  body_bare = refl;
  pad_small = omega arith;
  groups = refl;
}

decode_cursor-encode_cursor_example :
    decode_cursor codec (encode_cursor codec "1" "2") ≡ ok ("1", "2")
decode_cursor-encode_cursor_example = decode_cursor-encode_cursor codec "1" "2" codec-Reads

abbrev token_settings : TokenSettings
token_settings = record {
  jwt_secret = "secret";
  jwt_issuer = "incident-desk";
  jwt_audience = "incident-desk-api";
  access_token_ttl_seconds = 900;
}

abbrev token_env : Env
token_env = record sample_env { uuid_text = λ n. "seven"; uuid_of_text = λ t. some 7 }

-- tokens of one kind, which decode until their end
abbrev jwt : String → Jwt
jwt kind = record {
  encode = λ settings p issued expires. "token";
  decode = λ settings leeway at token.
      if leb at 1_000 then some (payload token_env kind "id" 7 0) else none;
}

decodes :
    (kind : String) (p q : Payload) (at : ℕ)
    → (if leb at 1_000 then some p else none) ≡ some q
    → q ≡ p
decodes kind p q at e = ground (arith, e)

mfa-Reads :
    incident_desk.Tokens.Reads (jwt "mfa") token_settings (payload token_env "mfa" "id" 7 0) 100 400
mfa-Reads = record {
  decode-encode = λ leeway at a b. ground (arith, b);
  decode_only = λ leeway at q e. decodes "mfa" (payload token_env "mfa" "id" 7 0) q at e;
}

resolve_user-create_mfa_token_example :
    reply
      (resolve_user
        (with_tokens (jwt "mfa") token_settings token_env)
        (create_mfa_token (jwt "mfa") token_env token_settings 100 "id" 7 0))
      sample
    ≡ err unauthorized
resolve_user-create_mfa_token_example =
    resolve_user-create_mfa_token (jwt "mfa") token_env token_settings 100 "id" 7 0 sample mfa-Reads

access-Reads :
    incident_desk.Tokens.Reads
      (jwt "access")
      token_settings
      (payload token_env "access" "id" 7 0)
      100
      1_000
access-Reads = record {
  decode-encode = λ leeway at a b. ground (arith, b);
  decode_only = λ leeway at q e. decodes "access" (payload token_env "access" "id" 7 0) q at e;
}

access_token_decodes :
    decode_access_token
      (jwt "access")
      token_env
      token_settings
      500
      (create_access_token (jwt "access") token_env token_settings 100 "id" 7 0)
    ≡ ok (record { user_id = 7; token_version = 0 })
access_token_decodes =
    decode-create_access_token (jwt "access") token_env token_settings 100 "id" 7 0 500 access-Reads
      (omega arith) (omega arith) refl

abbrev rolled_up : Option OrgMetricsDaily
rolled_up =
    find (is_metrics 1 0)
      (written (compute_daily_metrics_for sample_env (some 0)) sample).daily_metrics

compute_daily_metrics_for-IsRollup_example :
    ((is_active 0 1 sample.db.incidents ≡ true)
      × ((m : OrgMetricsDaily) × (rolled_up ≡ some m) × IsRollup 0 1 sample.db.incidents m))
    ⊎ ((is_active 0 1 sample.db.incidents ≡ false)
        × (rolled_up ≡ find (is_metrics 1 0) sample.db.daily_metrics))
compute_daily_metrics_for-IsRollup_example =
    compute_daily_metrics_for-IsRollup sample_env 0 1 sample
