-- ===== src/Recall/Floats.antt =====
-- The single-precision numbers of the ranking: comparisons are exact, and the rounding of sums,
-- products, quotients and powers is the processor's, a parameter. Both zeros are one number.
use Prim.Native.Nat.{compare, Ordering}
use Prim.Native.Nat.Ordering.{lt, eq, gt}
use recuerdos_ai.Prelude.{
  ℕ, ◌*◌, ◌^◌, ◌≡◌, Bool, true, false, not, ◌&&◌, ◌||◌, arith, if◌then◌else◌,
}
use recuerdos_ai.Memories.Memory.Confidence.{F32, nan, neg_inf, pos_inf, neg, num, one}
use recuerdos_ai.Recall.Comparison.{IsConsistent, reverse, may_precede}

-- `f32::total_cmp` on numbers.
unfoldable pub total_cmp : F32 → F32 → Ordering
total_cmp nan nan = eq
total_cmp nan _ = gt
total_cmp _ nan = lt
total_cmp neg_inf neg_inf = eq
total_cmp neg_inf _ = lt
total_cmp _ neg_inf = gt
total_cmp pos_inf pos_inf = eq
total_cmp pos_inf _ = gt
total_cmp _ pos_inf = lt
total_cmp (neg m) (neg n) = compare n m
total_cmp (neg m) (num n) = lt
total_cmp (num m) (neg n) = gt
total_cmp (num m) (num n) = compare m n

total_cmp_flip : (a b : F32) → total_cmp b a ≡ reverse (total_cmp a b)
unfolding total_cmp
total_cmp_flip a b = ground arith

total_cmp_chain : (a b c : F32) → total_cmp a b ≡ lt → total_cmp b c ≡ lt → total_cmp a c ≡ lt
unfolding total_cmp
total_cmp_chain a b c h k = ground arith

total_cmp_alike : (a b c : F32) → total_cmp a b ≡ eq → total_cmp a c ≡ total_cmp b c
unfolding total_cmp
total_cmp_alike a b c h = ground arith

pub total_cmp-IsConsistent : IsConsistent total_cmp
total_cmp-IsConsistent = record {
  flip = total_cmp_flip;
  chain = total_cmp_chain;
  alike = total_cmp_alike;
}

unfoldable pub is_nan : F32 → Bool
is_nan nan = true
is_nan _ = false

-- `a <= b` and `a < b`, which hold of no NaN.
unfoldable pub at_most : F32 → F32 → Bool
unfolding is_nan total_cmp
at_most a b = not (is_nan a) && not (is_nan b) && may_precede (total_cmp a b)

unfoldable pub less : F32 → F32 → Bool
unfolding is_nan at_most
less a b = not (is_nan a) && not (is_nan b) && not (at_most b a)

-- `partial_cmp(..).unwrap_or(Equal)`
unfoldable pub partial_or_equal : F32 → F32 → Ordering
unfolding is_nan total_cmp
partial_or_equal a b = if is_nan a || is_nan b then eq else total_cmp a b

-- `f32::max` and `f32::min`, which ignore a NaN.
unfoldable pub f32_max : F32 → F32 → F32
unfolding less
f32_max nan b = b
f32_max a nan = a
f32_max a b = if less a b then b else a

unfoldable pub f32_min : F32 → F32 → F32
unfolding less
f32_min nan b = b
f32_min a nan = a
f32_min a b = if less b a then b else a

-- `f32::clamp`
unfoldable pub clamp : F32 → F32 → F32 → F32
unfolding less
clamp low high x = if less x low then low else if less high x then high else x

-- A float times two to the power 149.
abbrev pub half : F32
half = num (2 ^ 148)

abbrev pub unit : F32
unit = num one

abbrev pub nought : F32
nought = num 0

-- A whole number up to 2 ^ 24, which is exact.
abbrev pub whole : ℕ → F32
whole n = num (n * one)

-- What the processor rounds.
pub record Arithmetic : Type 0 where
  pub add : F32 → F32 → F32
  pub subtract : F32 → F32 → F32
  pub multiply : F32 → F32 → F32
  pub divide : F32 → F32 → F32
  pub power : F32 → F32 → F32
  pub of_integer : ℕ → F32
