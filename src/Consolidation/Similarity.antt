-- ===== src/Consolidation/Similarity.antt =====
-- consolidation/domain/similarity.rs: cosine similarity, over the processor's arithmetic.
pub mod Bounds
use Prim.Native.Nat.{Ordering}
use Prim.Native.Nat.Ordering.{eq}
use recuerdos_ai.Prelude.{
  ℕ, Bool, true, false, not, ◌&&◌, ◌||◌, List, [], ◌∷◌, ◌==◌, if◌then◌else◌, length, is_empty, ◌-◌,
}
use recuerdos_ai.Memories.Memory.Confidence.{F32, nan, neg_inf, pos_inf, neg, num, one}
use recuerdos_ai.Recall.Floats.{Arithmetic, total_cmp, clamp, unit, nought}

-- The number -1, and `f32::is_finite`.
abbrev pub minus_one : F32
minus_one = neg (one - 1)

unfoldable pub is_finite : F32 → Bool
is_finite (neg n) = true
is_finite (num n) = true
is_finite _ = false

-- `x == 0.0`
unfoldable pub is_nought : F32 → Bool
is_nought (num n) = n == 0
is_nought _ = false

pub record Sums : Type 0 where
  pub dot : F32
  pub norm_a : F32
  pub norm_b : F32

-- A quotient, kept from -1 to 1.
unfoldable pub similarity : F32 → F32
unfolding is_finite
similarity x = if is_finite x then clamp minus_one unit x else nought

module _ (f : Arithmetic) (sqrt : F32 → F32) where
  -- The loop, over `iter().zip`.
  unfoldable pub sums_from : Sums → List F32 → List F32 → Sums
  sums_from s [] _ = s
  sums_from s (left ∷ a) [] = s
  sums_from s (left ∷ a) (right ∷ b) =
      sums_from
        (record {
          dot = f.add s.dot (f.multiply left right);
          norm_a = f.add s.norm_a (f.multiply left left);
          norm_b = f.add s.norm_b (f.multiply right right);
        })
        a b

  unfoldable pub of_sums : Sums → F32
  unfolding similarity is_finite is_nought
  of_sums s =
      let magnitude = f.multiply (sqrt s.norm_a) (sqrt s.norm_b) in
      if is_nought magnitude || not (is_finite magnitude)
      then nought
      else similarity (f.divide s.dot magnitude)

  unfoldable pub cosine : List F32 → List F32 → F32
  unfolding of_sums sums_from
  cosine a b =
      if not (length a == length b) || is_empty a
      then nought
      else of_sums (sums_from (record { dot = nought; norm_a = nought; norm_b = nought }) a b)
