-- ===== src/Consolidation/Groups/Keys.antt =====
-- The test of two keys of groups decides whether they are the same.
use recuerdos_ai.Prelude.{◌≡◌, ◌↔◌, true, Option, none, some, arith, Eq}
use recuerdos_ai.Text.{Text, same_text_iff}
use recuerdos_ai.Consolidation.Groups.{GroupKey, same_subcategory, same_key}

pub same_subcategory_iff : (s t : Option Text) → (same_subcategory s t ≡ true) ↔ (s ≡ t)
unfolding same_subcategory
same_subcategory_iff none none = ground arith
same_subcategory_iff none (some t) = ground arith
same_subcategory_iff (some s) none = ground arith
same_subcategory_iff (some s) (some t) = ground (arith, same_text_iff s t)

pub same_key_iff : (j k : GroupKey) → (same_key j k ≡ true) ↔ (j ≡ k)
unfolding same_key
same_key_iff j k =
    ground
      (arith, same_text_iff j.category k.category, same_subcategory_iff j.subcategory k.subcategory)

pub same_key_comm : (j k : GroupKey) → same_key j k ≡ same_key k j
same_key_comm j k = ground (arith, same_key_iff j k, same_key_iff k j)

instance abbrev pub key_eq : Eq GroupKey
key_eq = record { beq = same_key; beq_iff = same_key_iff }
