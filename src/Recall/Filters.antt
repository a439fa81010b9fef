-- ===== src/Recall/Filters.antt =====
-- memories/application/memory_recaller.rs: the filters of a query.
use recuerdos_ai.Prelude.{
  ℕ, Bool, true, false, ◌&&◌, ◌||◌, Option, none, some, List, [], ◌∷◌, leb, ◌==◌, contains,
  is_empty, any_where, nat_eq,
}
use recuerdos_ai.Text.{Text, same_text, text_eq}
use recuerdos_ai.Memories.Category.{
  Category, preference_coding, preference_personal, decision, fact_project, fact_person, experience,
  skill, reference, custom,
}
use recuerdos_ai.Memories.Memory.{Memory, is_active_at}
use recuerdos_ai.Recall.Query.{RecallQuery}

-- The derived equality of categories.
unfoldable pub variant : Category → ℕ
variant preference_coding = 0
variant preference_personal = 1
variant decision = 2
variant fact_project = 3
variant fact_person = 4
variant experience = 5
variant skill = 6
variant reference = 7
variant (custom name) = 8

unfoldable pub same_category : Category → Category → Bool
unfolding variant same_text
same_category (custom a) (custom b) = same_text a b
same_category a b = variant a == variant b

-- The tests of `matches`, in its order.
unfoldable pub is_wanted_category : List Category → Memory → Bool
unfolding any_where same_category
is_wanted_category categories memory =
    is_empty categories || any_where (same_category memory.category) categories

unfoldable pub has_subcategory : Option Text → Text → Bool
has_subcategory none wanted = false
has_subcategory (some s) wanted = same_text s wanted

unfoldable pub is_wanted_subcategory : List Text → Memory → Bool
unfolding any_where has_subcategory
is_wanted_subcategory subcategories memory =
    is_empty subcategories || any_where (has_subcategory memory.subcategory) subcategories

unfoldable pub has_all_tags : List Text → Memory → Bool
unfolding contains
has_all_tags [] memory = true
has_all_tags (tag ∷ tags) memory = contains memory.tags tag && has_all_tags tags memory

unfoldable pub is_since : Option ℕ → Memory → Bool
is_since none memory = true
is_since (some since) memory = leb since memory.created_at

unfoldable pub matches : RecallQuery → ℕ → Memory → Bool
unfolding is_active_at is_wanted_category is_wanted_subcategory has_all_tags is_since
matches query now memory =
    (query.include_superseded || is_active_at now memory)
    && is_wanted_category query.categories memory
    && is_wanted_subcategory query.subcategories memory
    && has_all_tags query.tags memory
    && is_since query.since memory
