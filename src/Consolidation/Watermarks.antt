-- ===== src/Consolidation/Watermarks.antt =====
-- consolidation/infrastructure/sqlite_consolidation_state_store.rs: the table `consolidation_state`,
-- by user, category and subcategory, in which a missing subcategory is the empty text.
use recuerdos_ai.Prelude.{
  ℕ, ◌≡◌, ◌↔◌, Bool, true, ◌&&◌, Option, none, some, List, [], ◌==◌, Eq, arith,
}
use recuerdos_ai.Prelude.Dict
use recuerdos_ai.Text.{Text, same_text, same_text_iff}
use recuerdos_ai.Identity.UserContext.{UserContext}
use recuerdos_ai.Consolidation.Groups.{GroupKey}

pub record WatermarkKey : Type 0 where
  pub user_id : ℕ
  pub category : Text
  pub subcategory : Text

unfoldable pub same_watermark : WatermarkKey → WatermarkKey → Bool
same_watermark j k =
    j.user_id == k.user_id
    && same_text j.category k.category
    && same_text j.subcategory k.subcategory

pub same_watermark_iff : (j k : WatermarkKey) → (same_watermark j k ≡ true) ↔ (j ≡ k)
unfolding same_watermark
same_watermark_iff j k =
    ground (arith, same_text_iff j.category k.category, same_text_iff j.subcategory k.subcategory)

instance abbrev pub watermark_eq : Eq WatermarkKey
watermark_eq = record { beq = same_watermark; beq_iff = same_watermark_iff }

-- `subcategory.unwrap_or("")`
unfoldable pub or_blank : Option Text → Text
or_blank none = []
or_blank (some s) = s

abbrev pub watermark_key : UserContext → GroupKey → WatermarkKey
watermark_key context key = record {
  user_id = context.user_id;
  category = key.category;
  subcategory = or_blank key.subcategory;
}

abbrev pub Watermarks : Type 0
Watermarks = List (WatermarkKey × ℕ)

unfoldable pub last_max_updated_at : UserContext → GroupKey → Watermarks → Option ℕ
unfolding Dict.get or_blank
last_max_updated_at context key marks = Dict.get (watermark_key context key) marks

unfoldable pub record_watermark : UserContext → GroupKey → ℕ → Watermarks → Watermarks
unfolding Dict.insert or_blank
record_watermark context key max_updated_at marks =
    Dict.insert (watermark_key context key) max_updated_at marks
