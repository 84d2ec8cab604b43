-- ===== src/Examples/Limits.antt =====
-- Instances of the theorems on the rate limiter, over Redis with one sorted set.
use incident_desk.Prelude.{
  concat, ℕ, ◌+◌, ◌≤◌, ◌*◌, ltb, ◌≡◌, refl, String, str_eq, not, Option, none, some, List, [], ◌∷◌,
  arith, count_where, delete_where, length, if◌then◌else◌, eq_refl,
}
use incident_desk.RateLimit.Bucket
use incident_desk.RateLimit.Bucket.{bearer, LimitSettings, choose_bucket, choose_bucket_unverified}
use incident_desk.ApiKeys.{format_token}
use incident_desk.Session.{Env}
use incident_desk.Samples.{sample_env}
use incident_desk.RateLimit.{Redis, Documented, one_if, second, check}
use incident_desk.RateLimit.Window.{
  Request, IsRun, IsWithin, answered, reference, answered-reference,
}

-- members with their scores
abbrev Members : Type 0
Members = List (String × ℕ)

-- trimmed, and without the first entry of a member
abbrev trim : ℕ → Members → Members
trim t ms = delete_where (λ e. not (ltb t e.1)) ms

remove : String → Members → Members
remove m [] = []
remove m (e ∷ es) = let rest = remove m es in if str_eq e.0 m then es else e ∷ rest

score : String → Members → Option ℕ
score m [] = none
score m (e ∷ es) = let later = score m es in if str_eq e.0 m then some e.1 else later

above : ℕ → Members → ℕ
above u ms = count_where (λ e. ltb u e.1) ms

abbrev one_set : Redis Members
one_set = record {
  zremrangebyscore = λ k t ms. trim t ms;
  zadd = λ k m x ms. (m, x) ∷ ms;
  zcard = λ k ms. length ms;
  expire = λ k w ms. ms;
  zrem = λ k m ms. remove m ms;
  oldest = λ k ms. none;
  zcount = λ k u ms. above u ms;
  zscore = λ k m ms. score m ms;
}

above-trim : (t u : ℕ) (ms : Members) → t ≤ u → above u (trim t ms) ≡ above u ms
unfolding above
above-trim t u [] h = refl
above-trim t u (e ∷ es) h = ground (arith, above-trim t u es h)

length-trim : (t : ℕ) (ms : Members) → length (trim t ms) ≡ above t ms
unfolding above
length-trim t [] = refl
length-trim t (e ∷ es) = ground (arith, length-trim t es)

score-trim : (m : String) (t : ℕ) (ms : Members) → score m ms ≡ none → score m (trim t ms) ≡ none
unfolding score
score-trim m t [] h = refl
score-trim m t (e ∷ es) h = ground (arith, score-trim m t es)

above-add :
    (m : String) (x u : ℕ) (ms : Members) → above u ((m, x) ∷ ms) ≡ above u ms + one_if (ltb u x)
unfolding above
above-add m x u ms = ground arith

score-add : (m : String) (x : ℕ) (ms : Members) → score m ((m, x) ∷ ms) ≡ some x
unfolding score
score-add m x ms = rw (eq_refl m) refl

above-remove :
    (m : String) (x u : ℕ) (ms : Members)
    → score m ms ≡ some x
    → above u (remove m ms) + one_if (ltb u x) ≡ above u ms
unfolding above score remove
above-remove m x u [] h = cc
above-remove m x u (e ∷ es) h = ground (arith, above-remove m x u es)

one_set-Documented : Documented one_set
one_set-Documented = record {
  trim_count = λ k t u ms h. above-trim t u ms h;
  trim_card = λ k t ms. length-trim t ms;
  trim_score = λ k m t ms h. score-trim m t ms h;
  add_count = λ k m x u ms h. above-add m x u ms;
  add_card = λ k m x ms h. omega arith;
  add_score = λ k m x ms h. score-add m x ms;
  expire_count = λ k w u ms. refl;
  expire_score = λ k m w ms. refl;
  rem_count = λ k m x u ms h. above-remove m x u ms h;
}

-- three requests within a second, of which two may pass, and one after the window
abbrev burst : List Request
burst = ("a", 5) ∷ ("b", 6) ∷ ("c", 7) ∷ ("d", 2_000_000) ∷ []

burst-IsRun : IsRun one_set "ip" 2 1 0 burst []
unfolding IsRun check score remove
burst-IsRun = (omega arith, refl, (omega arith, refl, (omega arith, refl, (omega arith, refl, tt))))

third_refused : answered one_set "ip" 2 1 burst [] [] ≡ 2_000_000 ∷ 6 ∷ 5 ∷ []
unfolding answered check score remove
third_refused = refl

nothing_counted : (u : ℕ) → above u [] ≡ 0
unfolding above
nothing_counted u = refl

answered-reference_example :
    (answered one_set "ip" 2 1 burst [] [] ≡ reference 2 (1 * second) burst [])
    × IsWithin 2 (1 * second) (answered one_set "ip" 2 1 burst [] [])
answered-reference_example =
    answered-reference one_set "ip" 2 1 one_set-Documented burst [] burst-IsRun nothing_counted

-- a request to reset a password, with the prefix "x7" of no key
abbrev guess : Bucket.Request
guess = record {
  authorization = bearer (format_token "x7" "");
  client = some "10.0.0.1";
  path = "/api/v1/auth/forgot-password";
}

abbrev limits : LimitSettings
limits = record {
  rate_limit_login_per_minute = 5;
  rate_limit_auth_per_minute = 10;
  rate_limit_per_minute = 100;
}

abbrev lowering : Env
lowering = record sample_env { lower = λ t. if str_eq t "Bearer" then "bearer" else t }

choose_bucket_unverified_example :
    choose_bucket lowering 0 limits guess
    ≡ record { bucket = "api"; limit = 100; identity = concat "key" (concat ":" "x7") }
choose_bucket_unverified_example =
    choose_bucket_unverified lowering 0 "x7" "" limits guess refl refl refl refl refl
