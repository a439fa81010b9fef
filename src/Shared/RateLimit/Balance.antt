-- ===== src/Shared/RateLimit/Balance.antt =====
-- shared/rate_limit.rs: what a caller has at an instant, and what `try_acquire` makes of it.
use recuerdos_ai.Prelude.{
  ℕ, ◌+◌, ◌-◌, ◌≤◌, ◌<◌, ◌≡◌, ◌≢◌, ◌↔◌, refl, not, ◌&&◌, Option, none, some, List, [], ◌∷◌,
  if◌then◌else◌, Bool-cases, inl, inr, arith, min, leb, subst, ◌∙◌, length, is_some, ap,
}
use recuerdos_ai.Prelude.Dict
use recuerdos_ai.Prelude.Dict.{AllValues, AllValues-remove, AllValues-retain, get-insert}
use recuerdos_ai.Text.{Text, text_eq}
use recuerdos_ai.Shared.RateLimit.{
  Decision, allowed, denied, Bucket, RateLimiter, full, sweep, is_recent, idle_expiry, refill,
  spend, try_acquire, bucket_or_full,
}
use recuerdos_ai.Shared.RateLimit.Buckets.{
  KeysOnce, KeysOnce-insert, KeysOnce-retain, kept, get-retain,
}

-- A bucket's credit at the instant `t`; a caller without a bucket has a full one.
unfoldable pub credit_at : RateLimiter → ℕ → Option Bucket → ℕ
credit_at l t none = full l
credit_at l t (some b) = min (b.credit + (t - b.refreshed)) (full l)

unfoldable pub balance : RateLimiter → Text → ℕ → ℕ
unfolding credit_at
balance l key t = credit_at l t (Dict.get key l.buckets)

-- One bucket for a caller, none of them touched after the instant `now`.
abbrev pub IsSettled : RateLimiter → ℕ → Type 0
IsSettled l now =
    (0 < l.per_token) × KeysOnce l.buckets × AllValues (λ _ b. b.refreshed ≤ now) l.buckets

-- A bucket at rest for a minute is full.
abbrev pub FillsInTime : RateLimiter → Type 0
FillsInTime l = full l ≤ idle_expiry

-- The credit that the decision costs.
abbrev pub price : RateLimiter → Decision → ℕ
price l allowed = l.per_token
price l (denied _) = 0

credit_at-kept :
    (l : RateLimiter) (now t : ℕ) (o : Option Bucket)
    → FillsInTime l
    → now ≤ t
    → credit_at l t (kept (is_recent now) o) ≡ credit_at l t o
unfolding credit_at is_recent
credit_at-kept l now t none f h = refl
credit_at-kept l now t (some b) f h = ground arith

credit_at-sweep :
    (l : RateLimiter) (key j : Text) (now t : ℕ)
    → FillsInTime l
    → KeysOnce l.buckets
    → now ≤ t
    → credit_at l t (Dict.get j (sweep key now l.buckets)) ≡ balance l j t
unfolding sweep balance
credit_at-sweep l key j now t f once h =
    elim (Bool-cases (leb 10_000 (length l.buckets) && not (is_some (Dict.get key l.buckets)))) [
      | inl p ↦ rw (p, get-retain (is_recent now) j l.buckets once) (credit_at-kept l now t _ f h)
      | inr p ↦ rw p refl
    ]

abbrev pub TouchedBy : ℕ → Option Bucket → Type 0
TouchedBy now none = Unit
TouchedBy now (some b) = b.refreshed ≤ now

credit_at-refill :
    (l : RateLimiter) (now t : ℕ) (o : Option Bucket)
    → now ≤ t
    → TouchedBy now o
    → credit_at l t (some (refill l now (bucket_or_full l now o))) ≡ credit_at l t o
unfolding credit_at refill bucket_or_full
credit_at-refill l now t none h r = ground arith
credit_at-refill l now t (some b) h r = ground arith

pub get-TouchedBy :
    (key : Text) (now : ℕ) (m : List (Text × Bucket))
    → AllValues (λ _ b. b.refreshed ≤ now) m
    → TouchedBy now (Dict.get key m)
unfolding Dict.get
get-TouchedBy key now [] h = tt
get-TouchedBy key now ((j, b) ∷ m) h = elim (Bool-cases (text_eq.beq j key)) [
  | inl p ↦ rw p h.0
  | inr p ↦ rw p (get-TouchedBy key now m h.1)
]

sweep-KeysOnce :
    (key : Text) (now : ℕ) (m : List (Text × Bucket)) → KeysOnce m → KeysOnce (sweep key now m)
unfolding sweep
sweep-KeysOnce key now m h =
    elim (Bool-cases (leb 10_000 (length m) && not (is_some (Dict.get key m)))) [
      | inl p ↦ rw p (KeysOnce-retain (is_recent now) m h)
      | inr p ↦ rw p h
    ]

sweep-Touched :
    (key : Text) (now t : ℕ) (m : List (Text × Bucket))
    → AllValues (λ _ b. b.refreshed ≤ t) m
    → AllValues (λ _ b. b.refreshed ≤ t) (sweep key now m)
unfolding sweep
sweep-Touched key now t m h =
    elim (Bool-cases (leb 10_000 (length m) && not (is_some (Dict.get key m)))) [
      | inl p ↦ rw p (AllValues-retain _ (is_recent now) m h)
      | inr p ↦ rw p h
    ]

-- The bucket from which the request is paid.
abbrev pub filled : RateLimiter → Text → ℕ → Bucket
filled l key now = refill l now (bucket_or_full l now (Dict.get key (sweep key now l.buckets)))

pub filled_lem :
    (l : RateLimiter) (key : Text) (now : ℕ)
    → FillsInTime l
    → IsSettled l now
    → ((filled l key now).credit ≡ balance l key now)
      × ((filled l key now).credit ≤ full l)
      × ((filled l key now).refreshed ≡ now)
unfolding credit_at refill
filled_lem l key now f s = ground (
  arith,
  credit_at-refill l now now (Dict.get key (sweep key now l.buckets)) (omega arith)
      (get-TouchedBy key now _ (sweep-Touched key now now _ s.2)),
  credit_at-sweep l key key now now f s.1 (omega arith),
)

spend_lem :
    (l : RateLimiter) (b : Bucket)
    → ((spend l.per_token b).1.refreshed ≡ b.refreshed)
      × ((spend l.per_token b).1.credit + price l (spend l.per_token b).0 ≡ b.credit)
      × (((spend l.per_token b).0 ≡ allowed) ↔ (l.per_token ≤ b.credit))
unfolding spend
spend_lem l b = ground arith

-- After the request its caller has what was left, and the others have what the sweep left them.
get-try_acquire :
    (l : RateLimiter) (key j : Text) (now : ℕ)
    → Dict.get j (try_acquire l key now).1.buckets ≡ (
        if text_eq.beq key j
        then some (spend l.per_token (filled l key now)).1
        else Dict.get j (sweep key now l.buckets))
unfolding try_acquire
get-try_acquire l key j now = get-insert key j _ (sweep key now l.buckets)

own_balance :
    (l : RateLimiter) (key : Text) (now : ℕ)
    → FillsInTime l
    → IsSettled l now
    → let next = try_acquire l key now in
      balance next.1 key now + price l next.0 ≡ balance l key now
unfolding balance credit_at full try_acquire
own_balance l key now f s = ground (
  arith,
  get-try_acquire l key key now,
  text_eq.beq_iff key key,
  filled_lem l key now f s,
  spend_lem l (filled l key now),
)

credit_at-try_acquire :
    (l : RateLimiter) (key : Text) (now t : ℕ) (o : Option Bucket)
    → credit_at (try_acquire l key now).1 t o ≡ credit_at l t o
unfolding credit_at full try_acquire
credit_at-try_acquire l key now t none = refl
credit_at-try_acquire l key now t (some b) = refl

other_get :
    (l : RateLimiter) (key j : Text) (now : ℕ)
    → j ≢ key
    → Dict.get j (try_acquire l key now).1.buckets ≡ Dict.get j (sweep key now l.buckets)
other_get l key j now d = ground (arith, get-try_acquire l key j now, text_eq.beq_iff key j)

other_balance :
    (l : RateLimiter) (key j : Text) (now t : ℕ)
    → FillsInTime l
    → IsSettled l now
    → j ≢ key
    → now ≤ t
    → balance (try_acquire l key now).1 j t ≡ balance l j t
unfolding balance
other_balance l key j now t f s d h =
    ap (credit_at (try_acquire l key now).1 t) (other_get l key j now d)
    ∙ credit_at-try_acquire l key now t (Dict.get j (sweep key now l.buckets))
    ∙ credit_at-sweep l key j now t f s.1 h

try_acquire-IsSettled :
    (l : RateLimiter) (key : Text) (now : ℕ)
    → FillsInTime l
    → IsSettled l now
    → IsSettled (try_acquire l key now).1 now
unfolding try_acquire Dict.insert
try_acquire-IsSettled l key now f s = (
  s.0,
  KeysOnce-insert key (spend l.per_token (filled l key now)).1 _
      (sweep-KeysOnce key now l.buckets s.1),
  (
    omega (arith, (spend_lem l (filled l key now)).0, (filled_lem l key now f s).2),
    AllValues-remove _ key _ (sweep-Touched key now now l.buckets s.2),
  ),
)

-- Of a limiter whose buckets fill within a minute and are not touched later than now,
-- try_acquire allows a request exactly if the caller's balance is one token at least, and takes
-- that token; a refusal takes nothing; no other caller's balance changes at any later instant,
-- although buckets may be forgotten; and the new limiter is such a one again.
pub try_acquire_lem :
    (l : RateLimiter) (key : Text) (now : ℕ)
    → FillsInTime l
    → IsSettled l now
    → let next = try_acquire l key now in
      ((next.0 ≡ allowed) ↔ (l.per_token ≤ balance l key now))
      × (balance next.1 key now + price l next.0 ≡ balance l key now)
      × ((j : Text) (t : ℕ) → j ≢ key → now ≤ t → balance next.1 j t ≡ balance l j t)
      × FillsInTime next.1
      × IsSettled next.1 now
unfolding try_acquire full
try_acquire_lem l key now f s = (
  subst (λ c. ((spend l.per_token (filled l key now)).0 ≡ allowed) ↔ (l.per_token ≤ c))
      (filled_lem l key now f s).0 (spend_lem l (filled l key now)).2,
  own_balance l key now f s,
  λ j t d h. other_balance l key j now t f s d h,
  f,
  try_acquire-IsSettled l key now f s,
)
