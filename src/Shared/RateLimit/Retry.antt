-- ===== src/Shared/RateLimit/Retry.antt =====
-- shared/rate_limit.rs: the wait that a refusal asks for.
use recuerdos_ai.Prelude.{
  ℕ, ◌+◌, ◌*◌, ◌/◌, ◌≤◌, ◌<◌, ◌≡◌, ◌⊎◌, inl, inr, ◌≢◌, refl, List, [], ◌∷◌, arith, All, ◌∙◌,
}
use recuerdos_ai.Text.{Text, text_eq}
use recuerdos_ai.Shared.RateLimit.{
  Decision, allowed, denied, RateLimiter, full, try_acquire, second, spend, round_up_to_second,
  tokens_as_seconds, Bucket,
}
use recuerdos_ai.Shared.RateLimit.Balance.{
  balance, IsSettled, FillsInTime, try_acquire_lem, filled, filled_lem, price,
}
use recuerdos_ai.Shared.RateLimit.Requests.{
  Request, after, InOrder, InOrder-le, balance-later, same_limits, IsSettled-later,
}

mul_grows : (c p : ℕ) → second ≤ p → c * second ≤ c * p
mul_grows c p h = grind arith

div_le : (c p : ℕ) → second ≤ p → (c * second + p / 2) / p ≤ c
div_le c p h = grind (arith, mul_grows c p h)

compare_cases : (a b : ℕ) → (a ≤ b) ⊎ (b ≤ a)
compare_cases a b = ground arith

-- The wait is enough for the bucket to earn what it lacks.
wait_lem :
    (p : ℕ) (b : Bucket) (wait : ℕ) → (spend p b).0 ≡ denied wait → p ≤ b.credit + wait * second
unfolding spend round_up_to_second tokens_as_seconds
wait_lem p b wait h = elim (compare_cases p second) [
  | inl e ↦ ground arith
  | inr e ↦ ground (arith, div_le b.credit p e)
]

refused_lem :
    (l : RateLimiter) (key : Text) (now wait : ℕ)
    → FillsInTime l
    → IsSettled l now
    → (try_acquire l key now).0 ≡ denied wait
    → l.per_token ≤ balance l key now + wait * second
unfolding try_acquire
refused_lem l key now wait f s h =
    omega (arith, (filled_lem l key now f s).0, wait_lem l.per_token (filled l key now) wait h)

abbrev pub ByOthers : Text → List Request → Type 0
ByOthers key requests = All (λ r. key ≢ r.0) requests

-- The requests of others leave a caller's balance as it is.
after_others :
    (l : RateLimiter) (key : Text) (now stop : ℕ) (requests : List Request)
    → FillsInTime l
    → IsSettled l now
    → InOrder now requests stop
    → ByOthers key requests
    → (balance (after l requests) key stop ≡ balance l key stop)
      × ((after l requests).per_token ≡ l.per_token)
      × FillsInTime (after l requests)
      × IsSettled (after l requests) stop
unfolding after
after_others l key now stop [] f s o d = (refl, refl, f, IsSettled-later l now stop o s)
after_others l key now stop ((caller, t) ∷ rest) f s o d =
    let s' = IsSettled-later l now t o.0 s in
    let next = try_acquire_lem l caller t f s' in
    let tail = after_others (try_acquire l caller t).1 key t stop rest next.3 next.4 o.1 d.1 in
    (
      tail.0 ∙ next.2 key stop d.0 (InOrder-le t rest stop o.1),
      tail.1 ∙ (same_limits l caller t).0,
      tail.2,
      tail.3,
    )

refusal_is_free :
    (l : RateLimiter) (key : Text) (now wait : ℕ)
    → FillsInTime l
    → IsSettled l now
    → (try_acquire l key now).0 ≡ denied wait
    → balance (try_acquire l key now).1 key now ≡ balance l key now
refusal_is_free l key now wait f s h =
    free (try_acquire l key now) h (try_acquire_lem l key now f s).1
  where
    free :
        (next : Decision × RateLimiter)
        → next.0 ≡ denied wait
        → balance next.1 key now + price l next.0 ≡ balance l key now
        → balance next.1 key now ≡ balance l key now
    free (allowed, m) h e = cc
    free (denied w, m) h e = omega (arith, e)

token-le_full : (l : RateLimiter) → 0 < l.burst → l.per_token ≤ full l
unfolding full
token-le_full l b = mul_pos l.burst l.per_token b
  where
    mul_pos : (n p : ℕ) → 0 < n → p ≤ n * p
    mul_pos n p h = grind arith

-- In exact credit, of a limiter whose buckets fill within a minute and are not touched later than now, and that
-- allows one token at least: when it refuses a request with a wait of some seconds, then a request
-- of the same caller that comes after that wait is allowed, whatever other callers have asked for
-- in between.
pub retry_lem :
    (l : RateLimiter) (key : Text) (now wait stop : ℕ) (others : List Request)
    → 0 < l.burst
    → FillsInTime l
    → IsSettled l now
    → (try_acquire l key now).0 ≡ denied wait
    → InOrder now others stop
    → ByOthers key others
    → now + wait * second ≤ stop
    → (try_acquire (after (try_acquire l key now).1 others) key stop).0 ≡ allowed
retry_lem l key now wait stop others b f s h o d w =
    let next = try_acquire_lem l key now f s in
    let then = after_others (try_acquire l key now).1 key now stop others next.3 next.4 o d in
    (try_acquire_lem (after (try_acquire l key now).1 others) key stop then.2 then.3).0.1 (
      omega (
        arith,
        refused_lem l key now wait f s h,
        refusal_is_free l key now wait f s h,
        same_limits l key now,
        then.0,
        then.1,
        token-le_full l b,
        balance-later (try_acquire l key now).1 key now stop (InOrder-le now others stop o) next.4,
      ))
