-- ===== src/Memories/Memory/Confidence.antt =====
-- The single-precision numbers of memories/domain/memory.rs. A finite `f32` is a multiple of 2^-149:
-- `num n` is n of these units and `neg n` is -(n + 1) of them, so that comparisons are exact.
use recuerdos_ai.Prelude.{ℕ, ◌^◌, ◌≤◌, min, arith}

pub data F32 : Type 0 where
  nan neg_inf pos_inf : F32
  neg num : ℕ → F32

-- The number 1.
abbrev pub one : ℕ
one = 2 ^ 149

-- `f32::clamp(0.0, 1.0)`, which gives back what is not a number.
unfoldable pub clamp_unit : F32 → F32
clamp_unit nan = nan
clamp_unit neg_inf = num 0
clamp_unit pos_inf = num one
clamp_unit (neg n) = num 0
clamp_unit (num n) = num (min n one)

unfoldable pub clamp_confidence : F32 → F32
unfolding clamp_unit
clamp_confidence nan = num 0
clamp_confidence x = clamp_unit x

-- From 0 to 1.
abbrev pub InUnit : F32 → Type 0
InUnit (num n) = n ≤ one
InUnit _ = ⊥

pub clamp_confidence-InUnit : (x : F32) → InUnit (clamp_confidence x)
unfolding clamp_confidence
clamp_confidence-InUnit nan = omega arith
clamp_confidence-InUnit neg_inf = omega arith
clamp_confidence-InUnit pos_inf = omega arith
clamp_confidence-InUnit (neg n) = omega arith
clamp_confidence-InUnit (num n) = omega arith
