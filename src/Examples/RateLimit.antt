-- ===== src/Examples/RateLimit.antt =====
-- The rate limiter at concrete inputs: 60 requests a minute, two at once.
use recuerdos_ai.Prelude.Dict
use recuerdos_ai.Prelude.{◌*◌, ◌<◌, ◌≢◌, ◌≡◌, refl, [], ◌∷◌, arith}
use recuerdos_ai.Text.{Text, codes, same_text}
use recuerdos_ai.Shared.RateLimit.{RateLimiter, allowed, denied, new, try_acquire, second, full}
use recuerdos_ai.Shared.RateLimit.Balance.{IsSettled, FillsInTime}
use recuerdos_ai.Shared.RateLimit.Requests.{after}
use recuerdos_ai.Shared.RateLimit.Retry.{retry_lem}

abbrev alex : Text
alex = codes "alex"

abbrev sam : Text
sam = codes "sam"

abbrev limiter : RateLimiter
limiter = new 60 2

fills : FillsInTime limiter
unfolding full new
fills = omega arith

-- A limiter whose caller has spent both tokens.
abbrev spent : RateLimiter
spent = after limiter ((alex, 5) ∷ (alex, 6) ∷ [])

refused_test : (try_acquire spent alex 7).0 ≡ denied 1
unfolding try_acquire after new Dict.get Dict.insert same_text
refused_test = refl

spent_fills : FillsInTime spent
unfolding full after try_acquire new
spent_fills = omega arith

spent-IsSettled : IsSettled spent 7
unfolding after try_acquire new Dict.insert Dict.get same_text
spent-IsSettled = (omega arith, (refl, tt), (omega arith, tt))

one_token : 0 < spent.burst
unfolding after try_acquire new
one_token = omega arith

others : alex ≢ sam
others h = ground arith

retry_lem_example :
    (try_acquire (after (try_acquire spent alex 7).1 ((sam, 8) ∷ [])) alex (2 * second)).0 ≡ allowed
retry_lem_example =
    retry_lem spent alex 7 1 (2 * second) ((sam, 8) ∷ []) one_token spent_fills spent-IsSettled
      refused_test (omega arith) (others, tt) (omega arith)
