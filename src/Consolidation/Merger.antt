-- ===== src/Consolidation/Merger.antt =====
-- consolidation/domain/merge_prompt.rs, `parse_merge` and `check_mergeable`, and
-- consolidation/application/memory_merger.rs. An answer of the model, in JSON, stands as what is read
-- from it; `complete` asks the model about a cluster, and `render` writes an identifier.
pub mod Retirement
use recuerdos_ai.Prelude.{
  ℕ, Bool, true, false, Option, none, some, List, [], ◌∷◌, ◌++◌, map, ltb, if◌then◌else◌, is_empty,
  length,
}
use recuerdos_ai.Text.{Text, codes, trim}
use recuerdos_ai.Shared.Error.{Result, ok, err, validation}
use recuerdos_ai.Identity.UserContext.{UserContext}
use recuerdos_ai.Memories.Category.{Category, reference}
use recuerdos_ai.Memories.Memory.{Memory, NewMemory}
use recuerdos_ai.Memories.Memory.Confidence.{F32}
use recuerdos_ai.Memories.Repository.{Store, merge_memories}
use recuerdos_ai.Memories.Services.{World, Setting, save}
use recuerdos_ai.Recall.Floats.{f32_max, nought}
use recuerdos_ai.Understanding.Taxonomy.{Taxonomy, resolve}
use recuerdos_ai.Consolidation.Maintainer.{actor}

-- `Value::get`, and `as_str`, `as_bool` or `as_array`, for the fields of an answer.
pub record MergeAnswer : Type 0 where
  pub merge : Option Bool
  pub reason : Option Text
  pub content : Option Text
  pub category : Option Text
  pub tags : Option (List (Option Text))

pub record Replacement : Type 0 where
  pub content : Text
  pub category : Category
  pub tags : List Text
  pub reason : Text

pub data MergeDecision : Type 0 where
  merge : Replacement → MergeDecision
  keep_separate : Text → MergeDecision

unfoldable pub or_no_reason : Option Text → Text
or_no_reason none = codes "no reason given"
or_no_reason (some reason) = reason

unfoldable pub category_or : List Memory → Taxonomy → Option Text → Category
unfolding resolve
category_or cluster taxonomy (some name) = (resolve taxonomy name).category
category_or [] taxonomy none = reference
category_or (memory ∷ cluster) taxonomy none = memory.category

-- `filter_map`
unfoldable pub strings_of : List (Option Text) → List Text
strings_of [] = []
strings_of (none ∷ tags) = strings_of tags
strings_of (some tag ∷ tags) = tag ∷ strings_of tags

unfoldable pub tags_or : Option (List (Option Text)) → List Text
unfolding strings_of
tags_or none = []
tags_or (some tags) = strings_of tags

-- The content that replaces the cluster, if there is one.
unfoldable pub merge_into : Taxonomy → List Memory → MergeAnswer → Option Text → MergeDecision
unfolding category_or tags_or or_no_reason
merge_into taxonomy cluster answer none =
    keep_separate (codes "the merge decision carried no replacement content")
merge_into taxonomy cluster answer (some content) =
    if is_empty (trim content)
    then keep_separate (codes "the merge decision carried no replacement content")
    else merge (record {
      content = trim content;
      category = category_or cluster taxonomy answer.category;
      tags = tags_or answer.tags;
      reason = or_no_reason answer.reason;
    })

unfoldable pub parse_agreed : Taxonomy → List Memory → MergeAnswer → Option Bool → MergeDecision
unfolding merge_into or_no_reason
parse_agreed taxonomy cluster answer (some true) = merge_into taxonomy cluster answer answer.content
parse_agreed taxonomy cluster answer _ = keep_separate (or_no_reason answer.reason)

unfoldable pub parse_merge : Taxonomy → List Memory → MergeAnswer → MergeDecision
unfolding parse_agreed
parse_merge taxonomy cluster answer = parse_agreed taxonomy cluster answer answer.merge

unfoldable pub check_mergeable : List Memory → Result (Unit {0})
check_mergeable cluster = if ltb (length cluster) 2 then err validation else ok tt

pub data MergeOutcome : Type 0 where
  merged : ℕ → ℕ → MergeOutcome
  kept_separate : Text → MergeOutcome

-- The highest confidence of a cluster, and its first subcategory.
unfoldable pub highest_confidence : F32 → List Memory → F32
unfolding f32_max
highest_confidence highest [] = highest
highest_confidence highest (memory ∷ cluster) =
    highest_confidence (f32_max highest memory.confidence) cluster

unfoldable pub first_some : Option Text → Option Text → Option Text
first_some (some s) other = some s
first_some none other = other

unfoldable pub first_subcategory : List Memory → Option Text
unfolding first_some
first_subcategory [] = none
first_subcategory (memory ∷ cluster) = first_some memory.subcategory (first_subcategory cluster)

unfoldable pub replacement_of : List Memory → Replacement → NewMemory
unfolding highest_confidence first_subcategory
replacement_of cluster r = record {
  content = r.content;
  category = r.category;
  subcategory = first_subcategory cluster;
  tags = r.tags;
  entities = [];
  confidence = highest_confidence nought cluster;
  source = record { client = some actor; session_id = none };
  expires_at = none;
}

module _ {E V X : Type 0} (setting : Setting E V X) (taxonomy : Taxonomy) (render : ℕ → Text)
    (complete : List Memory → Result MergeAnswer) (context : UserContext) (now id : ℕ) where
  abbrev pub MergeReply : Type 0
  MergeReply = Result MergeOutcome × World V X

  unfoldable pub retire_members : ℕ → Result ℕ × Store → World V X → MergeReply
  retire_members replacement (err e, store) w = (err e, record w { store = store })
  retire_members replacement (ok retired, store) w =
      (ok (merged replacement retired), record w { store = store })

  -- What follows the save of the replacement.
  unfoldable pub merge_saved : List Memory → Text → Result Memory × World V X → MergeReply
  unfolding retire_members
  merge_saved cluster reason (err e, w) = (err e, w)
  merge_saved cluster reason (ok replacement, w) =
      retire_members replacement.id
        (merge_memories context (map (λ (m : Memory). m.id) cluster) replacement.id actor
          (codes "merged into " ++ render replacement.id ++ codes ": " ++ reason) now w.store)
        w

  unfoldable pub apply_merge : List Memory → MergeDecision → World V X → MergeReply
  unfolding merge_saved replacement_of
  apply_merge cluster (keep_separate reason) w = (ok (kept_separate reason), w)
  apply_merge cluster (merge r) w =
      merge_saved cluster r.reason (save setting context actor now id (replacement_of cluster r) w)

  unfoldable pub apply_answer : List Memory → Result MergeAnswer → World V X → MergeReply
  unfolding apply_merge parse_merge
  apply_answer cluster (err e) w = (err e, w)
  apply_answer cluster (ok answer) w = apply_merge cluster (parse_merge taxonomy cluster answer) w

  unfoldable pub execute_checked : Result (Unit {0}) → List Memory → World V X → MergeReply
  unfolding apply_answer
  execute_checked (err e) cluster w = (err e, w)
  execute_checked (ok _) cluster w = apply_answer cluster (complete cluster) w

  -- `MemoryMerger::execute`
  unfoldable pub execute : List Memory → World V X → MergeReply
  unfolding execute_checked check_mergeable
  execute cluster w = execute_checked (check_mergeable cluster) cluster w
