-- ===== src/Shared/RateLimit.antt =====
-- shared/rate_limit.rs: a token bucket for every caller, filled again by the time that passes.
-- Times are nanoseconds. The code counts tokens in a double-precision float; here a bucket holds the
-- exact credit in nanoseconds, of which `per_token` make a token. The rounding of the code is not modelled:
-- at the edge of a token it may decide otherwise.
pub mod Buckets
pub mod Balance
pub mod Requests
pub mod Retry
use recuerdos_ai.Prelude.{
  ℕ, ◌+◌, ◌-◌, ◌*◌, ◌/◌, ◌^◌, Bool, true, false, not, ◌&&◌, Option, none, some, List, [], ◌∷◌, ltb,
  leb, if◌then◌else◌, length, min, max, is_some,
}
use recuerdos_ai.Prelude.Dict
use recuerdos_ai.Text.{Text, text_eq}

-- A second, in nanoseconds.
abbrev pub second : ℕ
second = 10 ^ 9

abbrev pub idle_expiry : ℕ
idle_expiry = 60 * second

abbrev pub max_tracked_callers : ℕ
max_tracked_callers = 10_000

-- The wait of a refusal is in seconds.
pub data Decision : Type 0 where
  allowed : Decision
  denied : ℕ → Decision

pub record Bucket : Type 0 where
  pub credit : ℕ
  pub refreshed : ℕ

pub record RateLimiter : Type 0 where
  pub per_token : ℕ
  pub burst : ℕ
  pub buckets : List (Text × Bucket)

-- 60,000 ms over the rate, rounded up to whole milliseconds.
unfoldable pub interval : ℕ → ℕ
interval per_minute = (60_000 + (per_minute - 1)) / per_minute * 10 ^ 6

unfoldable pub new : ℕ → ℕ → RateLimiter
unfolding interval
new requests_per_minute burst = record {
  per_token = interval (max requests_per_minute 1);
  burst = max burst 1;
  buckets = [];
}

-- The credit of `burst` tokens.
unfoldable pub full : RateLimiter → ℕ
full l = l.burst * l.per_token

unfoldable pub is_recent : ℕ → Bucket → Bool
is_recent now b = ltb (now - b.refreshed) idle_expiry

-- Stale buckets go when a new caller comes and there are too many.
unfoldable pub sweep : Text → ℕ → List (Text × Bucket) → List (Text × Bucket)
unfolding is_recent
sweep key now m =
    if leb max_tracked_callers (length m) && not (is_some (Dict.get key m))
    then Dict.retain (is_recent now) m
    else m

-- `entry(key).or_insert(..)`
unfoldable pub bucket_or_full : RateLimiter → ℕ → Option Bucket → Bucket
unfolding full
bucket_or_full l now none = record { credit = full l; refreshed = now }
bucket_or_full l now (some b) = b

unfoldable pub refill : RateLimiter → ℕ → Bucket → Bucket
unfolding full
refill l now b = record { credit = min (b.credit + (now - b.refreshed)) (full l); refreshed = now }

-- At least one second.
unfoldable pub round_up_to_second : ℕ → ℕ
round_up_to_second elapsed = max ((elapsed + (second - 1)) / second) 1

-- `Duration::from_secs_f64(tokens)`: the number of tokens, read as seconds, to the nearest
-- nanosecond.
unfoldable pub tokens_as_seconds : ℕ → ℕ → ℕ
tokens_as_seconds per_token credit = (credit * second + per_token / 2) / per_token

unfoldable pub spend : ℕ → Bucket → Decision × Bucket
unfolding round_up_to_second tokens_as_seconds
spend per_token b =
    if leb per_token b.credit
    then (allowed, record b { credit = b.credit - per_token })
    else (denied (round_up_to_second (per_token - tokens_as_seconds per_token b.credit)), b)

unfoldable pub try_acquire : RateLimiter → Text → ℕ → Decision × RateLimiter
unfolding sweep bucket_or_full refill spend
try_acquire l key now =
    let swept = sweep key now l.buckets in
    let spent = spend l.per_token (refill l now (bucket_or_full l now (Dict.get key swept))) in
    (spent.0, record l { buckets = Dict.insert key spent.1 swept })
