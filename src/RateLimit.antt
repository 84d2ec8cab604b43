-- ===== src/RateLimit.antt =====
-- The sliding-window limiter: backend/src/incident_desk/ratelimit.py. Times are in microseconds.
pub mod Window
pub mod Bucket
use incident_desk.Prelude.{
  ℕ, ◌+◌, ◌-◌, ◌*◌, ◌/◌, ◌≤◌, ltb, ◌≡◌, String, Bool, true, false, Option, none, some,
  if◌then◌else◌,
}

-- The commands of Redis on sorted sets that the limiter sends, and two that say what the others do.
-- A minimum of 0 and an open maximum are left out of the names.
pub record Redis (S : Type 0) : Type 0 where
  pub zremrangebyscore : String → ℕ → S → S
  pub zadd : String → String → ℕ → S → S
  pub zcard : String → S → ℕ
  pub expire : String → ℕ → S → S
  pub zrem : String → String → S → S
  -- the score of `ZRANGE key 0 0 WITHSCORES`
  pub oldest : String → S → Option ℕ
  -- `ZCOUNT key (after +inf` and `ZSCORE key member`
  pub zcount : String → ℕ → S → ℕ
  pub zscore : String → String → S → Option ℕ

abbrev pub one_if : Bool → ℕ
one_if b = if b then 1 else 0

-- What the documentation of the commands says of one key. The time to live of a key is longer than
-- any of its members counts, so that `EXPIRE` takes away nothing that is counted.
pub record Documented {S : Type 0} (r : Redis S) : Type 0 where
  pub trim_count :
      (k : String) (t u : ℕ) (s : S)
      → t ≤ u
      → r.zcount k u (r.zremrangebyscore k t s) ≡ r.zcount k u s
  pub trim_card :
      (k : String) (t : ℕ) (s : S) → r.zcard k (r.zremrangebyscore k t s) ≡ r.zcount k t s
  pub trim_score :
      (k m : String) (t : ℕ) (s : S)
      → r.zscore k m s ≡ none
      → r.zscore k m (r.zremrangebyscore k t s) ≡ none
  pub add_count :
      (k m : String) (x u : ℕ) (s : S)
      → r.zscore k m s ≡ none
      → r.zcount k u (r.zadd k m x s) ≡ r.zcount k u s + one_if (ltb u x)
  pub add_card :
      (k m : String) (x : ℕ) (s : S)
      → r.zscore k m s ≡ none
      → r.zcard k (r.zadd k m x s) ≡ r.zcard k s + 1
  pub add_score :
      (k m : String) (x : ℕ) (s : S)
      → r.zscore k m s ≡ none
      → r.zscore k m (r.zadd k m x s) ≡ some x
  pub expire_count : (k : String) (w u : ℕ) (s : S) → r.zcount k u (r.expire k w s) ≡ r.zcount k u s
  pub expire_score : (k m : String) (w : ℕ) (s : S) → r.zscore k m (r.expire k w s) ≡ r.zscore k m s
  pub rem_count :
      (k m : String) (x u : ℕ) (s : S)
      → r.zscore k m s ≡ some x
      → r.zcount k u (r.zrem k m s) + one_if (ltb u x) ≡ r.zcount k u s

pub record RateDecision : Type 0 where
  pub allowed : Bool
  pub limit : ℕ
  pub remaining : ℕ
  pub reset_seconds : ℕ
  pub retry_after_seconds : ℕ

abbrev pub second : ℕ
second = 1_000_000

-- `max(1, int(window_seconds - (now - oldest_score)) + 1)`
abbrev pub retry_after : ℕ → ℕ → Option ℕ → ℕ
retry_after window at none = window + 1
retry_after window at (some x) = (window * second - (at - x)) / second + 1

module _ {S : Type 0} (r : Redis S) (key : String) (limit window : ℕ) where
  -- the branch of an attempt that is over the limit
  over_limit : String → ℕ → S → RateDecision × S
  over_limit member at s =
      let left = r.zrem key member s in
      let wait = retry_after window at (r.oldest key left) in
      (
        record {
          allowed = false;
          limit = limit;
          remaining = 0;
          reset_seconds = wait;
          retry_after_seconds = wait;
        },
        left,
      )

  -- the decision on a count of the pipeline
  unfoldable pub decide : ℕ → String → ℕ → S → RateDecision × S
  unfolding over_limit
  decide count member at s = if ltb limit count then over_limit member at s else (
    record {
      allowed = true;
      limit = limit;
      remaining = limit - count;
      reset_seconds = window;
      retry_after_seconds = 0;
    },
    s,
  )

  -- `check`, of the key, the new member and the time
  unfoldable pub check : String → ℕ → S → RateDecision × S
  unfolding decide
  check member at s =
      let trimmed = r.zremrangebyscore key (at - window * second) s in
      let added = r.zadd key member at trimmed in
      decide (r.zcard key added) member at (r.expire key window added)

  -- `except RedisError`
  abbrev pub fail_open : RateDecision
  fail_open = record {
    allowed = true;
    limit = limit;
    remaining = limit;
    reset_seconds = window;
    retry_after_seconds = 0;
  }
