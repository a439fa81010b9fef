-- ===== src/Examples/Memories.antt =====
-- Memories and their store at concrete inputs.
use recuerdos_ai.Prelude.{
  ℕ, ◌≡◌, refl, true, none, some, List, [], ◌∷◌, nat_eq, any_where, count_where, update_where,
}
use recuerdos_ai.Text.{Text, codes, same_text, trim, to_ascii_lowercase, is_whitespace}
use recuerdos_ai.Shared.Error.{ok}
use recuerdos_ai.Identity.Scope.{read, write}
use recuerdos_ai.Identity.UserContext.{UserContext}
use recuerdos_ai.Memories.Category.{decision, custom, parse_with_extras, from_stored, as_str}
use recuerdos_ai.Memories.Category.Names.{from_stored-as_str}
use recuerdos_ai.Memories.Memory.{
  Memory, NewMemory, MemoryEdit, create, edit, normalize_tags, is_active_at,
}
use recuerdos_ai.Memories.Memory.Confidence.{num, one}
use recuerdos_ai.Memories.Memory.Fields.{AreTags, normalize_tags-AreTags}
use recuerdos_ai.Memories.Memory.WellFormed.{IsWellFormed, create-IsWellFormed, edit-IsWellFormed}
use recuerdos_ai.Memories.Repository.{Pin, Store, Row, delete_memory, merge_memories, find}
use recuerdos_ai.Memories.Repository.Operations.{inserting, updating, superseding, apply, Call, run}
use recuerdos_ai.Memories.Repository.Isolation.{SameForOthers, apply-SameForOthers}
use recuerdos_ai.Memories.Repository.Deletion.{delete_memory_final}
use recuerdos_ai.Memories.Repository.{insert, update_memory}
use recuerdos_ai.Memories.Services.Lookup.{Found, written, find-insert, find-update_memory}
use recuerdos_ai.Memories.Repository.Retiring.{Replaced, merge_memories-Replaced}

abbrev alex : UserContext
alex = record { user_id = 7; handle = codes "alex"; key_id = none; scopes = read ∷ write ∷ [] }

abbrev sam : UserContext
sam = record { user_id = 8; handle = codes "sam"; key_id = none; scopes = read ∷ write ∷ [] }

abbrev pin : Pin
pin = record { model = codes "m"; dimensions = 3 }

abbrev tabs : NewMemory
tabs = record {
  content = codes " tabs ";
  category = decision;
  subcategory = some (codes "Style");
  tags = codes " Rust" ∷ codes "rust" ∷ codes "" ∷ [];
  entities = [];
  confidence = num one;
  source = record { client = none; session_id = none };
  expires_at = some 100;
}

abbrev memory : ℕ → ℕ → Memory
memory id user_id = record {
  id = id;
  user_id = user_id;
  content = codes "tabs";
  category = decision;
  subcategory = some (codes "style");
  tags = codes "rust" ∷ [];
  entities = [];
  confidence = num one;
  source = record { client = none; session_id = none };
  created_at = 5;
  updated_at = 5;
  last_accessed_at = none;
  access_count = 0;
  importance = num one;
  expires_at = some 100;
  superseded_by = none;
}

create_test : create 1 7 tabs 5 ≡ ok (memory 1 7)
unfolding create trim is_whitespace to_ascii_lowercase same_text
create_test = refl

create-IsWellFormed_example :
    IsWellFormed (memory 1 7) × ((memory 1 7).user_id ≡ 7) × (is_active_at 5 (memory 1 7) ≡ true)
create-IsWellFormed_example = create-IsWellFormed 1 7 tabs 5 (memory 1 7) create_test

abbrev retag : MemoryEdit
retag = record {
  content = none;
  category = none;
  subcategory = some none;
  tags = some (codes "A" ∷ codes "b" ∷ []);
  expires_at = some none;
}

abbrev retagged : Memory
retagged = record (memory 1 7) {
  subcategory = none;
  tags = codes "a" ∷ codes "b" ∷ [];
  updated_at = 6;
  expires_at = none;
}

edit_test : edit (memory 1 7) retag 6 ≡ ok retagged
unfolding edit to_ascii_lowercase trim is_whitespace same_text
edit_test = refl

edit-IsWellFormed_example :
    IsWellFormed retagged
    × (retagged.id ≡ 1)
    × (retagged.user_id ≡ 7)
    × (retagged.created_at ≡ 5)
    × (retagged.superseded_by ≡ none)
    × (retagged.updated_at ≡ 6)
edit-IsWellFormed_example =
    edit-IsWellFormed (memory 1 7) retag 6 retagged create-IsWellFormed_example.0 edit_test

abbrev raw_tags : List Text
raw_tags = codes " Rust" ∷ codes "rust" ∷ codes "" ∷ codes "b" ∷ []

abbrev tags : List Text
tags = codes "rust" ∷ codes "b" ∷ []

tags_test : normalize_tags raw_tags ≡ ok tags
unfolding normalize_tags to_ascii_lowercase trim is_whitespace same_text
tags_test = refl

normalize_tags-AreTags_example : AreTags tags
normalize_tags-AreTags_example = normalize_tags-AreTags raw_tags tags tags_test

category_test :
    parse_with_extras (codes " Recipes") (codes "recipes" ∷ []) ≡ ok (custom (codes "recipes"))
unfolding parse_with_extras to_ascii_lowercase trim is_whitespace same_text any_where
category_test = refl

from_stored-as_str_example :
    from_stored (as_str (custom (codes "recipes"))) ≡ custom (codes "recipes")
from_stored-as_str_example =
    from_stored-as_str (codes " Recipes") (codes "recipes" ∷ []) (custom (codes "recipes"))
      category_test

-- Three memories of one user, and one of another.
abbrev row : ℕ → ℕ → Row
row id user_id = record { memory = memory id user_id; deleted_at = none }

abbrev store : Store
store = record {
  collections = (7, pin) ∷ (8, pin) ∷ [];
  rows = row 1 7 ∷ row 2 7 ∷ row 3 8 ∷ row 4 7 ∷ [];
  audit = [];
}

apply-SameForOthers_example :
    SameForOthers 7 (apply pin alex 9 (superseding 1 3 (codes "cli") []) store) store
apply-SameForOthers_example =
    apply-SameForOthers pin alex 9 (superseding 1 3 (codes "cli") []) store

deletes : (delete_memory alex 1 (codes "cli") [] 9 store).0 ≡ ok tt
unfolding delete_memory count_where
deletes = refl

abbrev later : List Call
later =
    record { context = alex; now = 10; operation = inserting (memory 1 7) (codes "cli") }
    ∷ record { context = sam; now = 11; operation = inserting (memory 1 8) (codes "cli") }
    ∷ record { context = alex; now = 12; operation = updating (memory 1 7) (codes "cli") }
    ∷ []

delete_memory_final_example :
    find alex 1 (run pin later (delete_memory alex 1 (codes "cli") [] 9 store).1) ≡ none
delete_memory_final_example = delete_memory_final pin alex 1 (codes "cli") [] 9 store later deletes

merge_memories-Replaced_example :
    Replaced alex 4
      (codes "merger")
      (codes "alike")
      9
      (1 ∷ 3 ∷ 1 ∷ 2 ∷ [])
      store
      (merge_memories alex (1 ∷ 3 ∷ 1 ∷ 2 ∷ []) 4 (codes "merger") (codes "alike") 9 store)
merge_memories-Replaced_example =
    merge_memories-Replaced alex 4 (codes "merger") (codes "alike") 9 (1 ∷ 3 ∷ 1 ∷ 2 ∷ []) store

-- The memory of the other user and the one that is repeated are passed over.
merge_test :
    (merge_memories alex (1 ∷ 3 ∷ 1 ∷ 2 ∷ []) 4 (codes "merger") (codes "alike") 9 store).0 ≡ ok 2
unfolding merge_memories count_where any_where update_where
merge_test = refl

find-insert_example :
    Found alex (memory 9 7) store (insert pin alex (memory 9 7) (codes "cli") 6 store)
find-insert_example = find-insert pin alex (memory 9 7) (codes "cli") 6 store

abbrev revised : Memory
revised = record (memory 2 7) { content = codes "spaces"; updated_at = 8 }

revises : (update_memory alex revised (codes "cli") 8 store).0 ≡ ok tt
unfolding update_memory count_where
revises = refl

find-update_memory_example :
    find alex 2 (update_memory alex revised (codes "cli") 8 store).1
    ≡ written revised (find alex 2 store)
find-update_memory_example = find-update_memory alex revised (codes "cli") 8 store revises

abbrev audited : Store
audited =
    (delete_memory alex 2 (codes "cli") [] 12 (delete_memory alex 1 (codes "cli") [] 9 store).1).1
