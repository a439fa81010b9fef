-- ===== src/Shared/RateLimit/Requests.antt =====
-- shared/rate_limit.rs: a run of requests of several callers, in the order in which they get the
-- lock.
use recuerdos_ai.Prelude.{ℕ, ◌+◌, ◌-◌, ◌≤◌, ◌≡◌, Option, none, some, List, [], ◌∷◌, arith, min}
use recuerdos_ai.Prelude.Dict
use recuerdos_ai.Prelude.Dict.{AllValues}
use recuerdos_ai.Text.{Text, text_eq}
use recuerdos_ai.Shared.RateLimit.{Bucket, RateLimiter, full, try_acquire}
use recuerdos_ai.Shared.RateLimit.Balance.{balance, credit_at, IsSettled, TouchedBy, get-TouchedBy}

abbrev pub Request : Type 0
Request = Text × ℕ

-- The limiter after the requests.
unfoldable pub after : RateLimiter → List Request → RateLimiter
after l [] = l
after l ((key, now) ∷ rest) = after (try_acquire l key now).1 rest

-- The instants do not decrease, from `start` to `stop`.
abbrev pub InOrder : ℕ → List Request → ℕ → Type 0
InOrder start [] stop = start ≤ stop
InOrder start ((_, now) ∷ rest) stop = (start ≤ now) × InOrder now rest stop

Touched-later :
    (now t : ℕ) (m : List (Text × Bucket))
    → now ≤ t
    → AllValues (λ _ b. b.refreshed ≤ now) m
    → AllValues (λ _ b. b.refreshed ≤ t) m
Touched-later now t [] h a = tt
Touched-later now t ((k, b) ∷ m) h a = (omega (arith, a.0), Touched-later now t m h a.1)

pub IsSettled-later : (l : RateLimiter) (now t : ℕ) → now ≤ t → IsSettled l now → IsSettled l t
IsSettled-later l now t h s = (s.0, s.1, Touched-later now t l.buckets h s.2)

credit_at-later :
    (l : RateLimiter) (now t : ℕ) (o : Option Bucket)
    → now ≤ t
    → TouchedBy now o
    → credit_at l t o ≡ min (credit_at l now o + (t - now)) (full l)
unfolding credit_at
credit_at-later l now t none h b = omega arith
credit_at-later l now t (some c) h b = omega arith

-- A balance grows with the time that passes, up to a full bucket.
pub balance-later :
    (l : RateLimiter) (key : Text) (now t : ℕ)
    → now ≤ t
    → IsSettled l now
    → balance l key t ≡ min (balance l key now + (t - now)) (full l)
unfolding balance
balance-later l key now t h s =
    credit_at-later l now t (Dict.get key l.buckets) h (get-TouchedBy key now l.buckets s.2)

pub same_limits :
    (l : RateLimiter) (key : Text) (now : ℕ)
    → ((try_acquire l key now).1.per_token ≡ l.per_token)
      × (full (try_acquire l key now).1 ≡ full l)
unfolding try_acquire full
same_limits l key now = ground arith

pub InOrder-le :
    (start : ℕ) (requests : List Request) (stop : ℕ) → InOrder start requests stop → start ≤ stop
InOrder-le start [] stop o = o
InOrder-le start ((_, now) ∷ rest) stop o = omega (arith, o.0, InOrder-le now rest stop o.1)
