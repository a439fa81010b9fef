-- ===== src/Consolidation/Decay.antt =====
-- consolidation/domain/decay.rs: what a memory is worth by its use, over the processor's arithmetic.
use recuerdos_ai.Prelude.{ℕ, ◌*◌, ◌-◌, ◌/◌, ◌^◌, Option, none, some}
use recuerdos_ai.Memories.Memory.Confidence.{F32, num}
use recuerdos_ai.Recall.Floats.{Arithmetic, f32_max, clamp, half, unit, nought, whole}

-- 0.35 as the nearest float.
abbrev pub min_importance : F32
min_importance = num (11_744_051 * 2 ^ 124)

abbrev pub recency_half_life_days : F32
recency_half_life_days = whole 90

abbrev pub frequency_saturation : F32
frequency_saturation = whole 5

-- `unwrap_or`
unfoldable pub or_created : Option ℕ → ℕ → ℕ
or_created none created_at = created_at
or_created (some at) created_at = at

module _ (f : Arithmetic) where
  -- A negative age counts as none.
  unfoldable pub recency : ℕ → ℕ → F32
  recency since now =
      let days = f32_max (f.divide (f.of_integer ((now - since) / 10 ^ 9)) (whole 86_400)) nought in
      f.power half (f.divide days recency_half_life_days)

  unfoldable pub frequency : ℕ → F32
  frequency access_count =
      f.subtract unit (f.power half (f.divide (f.of_integer access_count) frequency_saturation))

  unfoldable pub importance : ℕ → Option ℕ → ℕ → ℕ → F32
  unfolding recency frequency or_created
  importance created_at last_accessed_at access_count now =
      let since = or_created last_accessed_at created_at in
      let raw =
        f.add (f.multiply half (recency since now)) (f.multiply half (frequency access_count)) in
      f.add min_importance (f.multiply (f.subtract unit min_importance) (clamp nought unit raw))
