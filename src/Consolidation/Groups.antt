-- ===== src/Consolidation/Groups.antt =====
-- consolidation/application/consolidation_runner.rs: the groups of memories that are compared with
-- each other.
pub mod Keys
pub mod Partition
use recuerdos_ai.Prelude.{
  ℕ, Bool, true, false, ◌&&◌, Option, none, some, List, [], ◌∷◌, ◌++◌, map, if◌then◌else◌,
}
use recuerdos_ai.Text.{Text, same_text}
use recuerdos_ai.Memories.Category.{as_str}
use recuerdos_ai.Memories.Memory.{Memory}

pub record GroupKey : Type 0 where
  pub category : Text
  pub subcategory : Option Text

unfoldable pub same_subcategory : Option Text → Option Text → Bool
same_subcategory none none = true
same_subcategory (some s) (some t) = same_text s t
same_subcategory _ _ = false

unfoldable pub same_key : GroupKey → GroupKey → Bool
unfolding same_subcategory
same_key j k = same_text j.category k.category && same_subcategory j.subcategory k.subcategory

unfoldable pub key_of : Memory → GroupKey
key_of memory = record { category = as_str memory.category; subcategory = memory.subcategory }

pub record Group : Type 0 where
  pub key : GroupKey
  pub members : List Memory

-- One turn of the loop: into the first group with the key, or into a new one at the end.
unfoldable pub file_under : GroupKey → Memory → List Group → List Group
unfolding same_key
file_under key memory [] = record { key = key; members = memory ∷ [] } ∷ []
file_under key memory (group ∷ groups) =
    let rest = file_under key memory groups in
    if same_key group.key key
    then record group { members = group.members ++ memory ∷ [] } ∷ groups
    else group ∷ rest

unfoldable pub file_all : List Group → List Memory → List Group
unfolding file_under key_of
file_all groups [] = groups
file_all groups (memory ∷ memories) = file_all (file_under (key_of memory) memory groups) memories

unfoldable pub by_category_and_subcategory : List Memory → List Group
unfolding file_all
by_category_and_subcategory memories = file_all [] memories

-- The key of a cluster is that of its first memory.
unfoldable pub group_key : List Memory → GroupKey
unfolding key_of
group_key [] = record { category = []; subcategory = none }
group_key (memory ∷ cluster) = key_of memory
