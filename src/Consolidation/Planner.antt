-- ===== src/Consolidation/Planner.antt =====
-- consolidation/application/consolidation_runner.rs, `plan`, `should_skip` and `cluster`: which
-- memories of a user are compared, and the clusters that are worth a call of the model. `embed` gives
-- one vector for each text, in their order.
pub mod Clusters
pub mod Plans
use Prim.Native.Nat.{compare}
use recuerdos_ai.Prelude.{
  ℕ, suc, ◌+◌, Bool, true, false, not, Option, none, some, List, [], ◌∷◌, ◌++◌, map, ltb, leb, ◌==◌,
  if◌then◌else◌, take, length, keep, nat_eq, max,
}
use recuerdos_ai.Prelude.Dict
use recuerdos_ai.Text.{Text}
use recuerdos_ai.Shared.Error.{Result, ok, err, ◌>>=◌}
use recuerdos_ai.Identity.UserContext.{UserContext}
use recuerdos_ai.Memories.Memory.{Memory, is_active_at}
use recuerdos_ai.Memories.Memory.Confidence.{F32}
use recuerdos_ai.Memories.Repository.{Store, list_memories}
use recuerdos_ai.Recall.Floats.{Arithmetic, at_most}
use recuerdos_ai.Recall.Sorting.{sort_by}
use recuerdos_ai.Consolidation.ClusterBuilder.{ClusterBuilder, link, clusters}
use recuerdos_ai.Consolidation.ClusterBuilder
use recuerdos_ai.Consolidation.Similarity.{cosine}
use recuerdos_ai.Consolidation.Groups.{GroupKey, Group, by_category_and_subcategory}
use recuerdos_ai.Consolidation.Watermarks.{Watermarks, last_max_updated_at}

abbrev pub max_memories_per_category : ℕ
max_memories_per_category = 2000

pub record ProcessedGroup : Type 0 where
  pub key : GroupKey
  pub max_updated_at : ℕ

pub record Plan : Type 0 where
  pub examined : ℕ
  pub clusters : List (List Memory)
  pub groups_skipped : ℕ
  pub processed : List ProcessedGroup

-- `HashMap::from_iter`, by identifier.
unfoldable pub by_id : List (ℕ × Memory) → List Memory → List (ℕ × Memory)
unfolding Dict.insert
by_id found [] = found
by_id found (memory ∷ group) = by_id (Dict.insert memory.id memory found) group

unfoldable pub push_found : Option Memory → List Memory → List Memory
push_found none rest = rest
push_found (some memory) rest = memory ∷ rest

-- `filter_map(|id| by_id.get(&id))`
unfoldable pub found_among : List (ℕ × Memory) → List ℕ → List Memory
unfolding Dict.get push_found
found_among found [] = []
found_among found (id ∷ ids) = push_found (Dict.get id found) (found_among found ids)

unfoldable pub zip : List Memory → List (List F32) → List (Memory × List F32)
zip [] _ = []
zip (memory ∷ group) [] = []
zip (memory ∷ group) (vector ∷ vectors) = (memory, vector) ∷ zip group vectors

-- The newest change to a group.
unfoldable pub newest_change : List Memory → Option ℕ
newest_change [] = none
newest_change (memory ∷ group) = elim (newest_change group) [
  | none ↦ some memory.updated_at
  | some at ↦ some (max memory.updated_at at)
]

unfoldable pub is_unchanged : Option ℕ → ℕ → Bool
is_unchanged none current_max = false
is_unchanged (some stored) current_max = stored == current_max

-- A group that is too large is cut to its newest memories.
unfoldable pub slice_of : List Memory → List Memory
unfolding sort_by
slice_of group =
    if ltb max_memories_per_category (length group)
    then take max_memories_per_category
        (sort_by (λ (a : Memory) (b : Memory). compare b.created_at a.created_at) group)
    else group

unfoldable pub largest_first : List Group → List Group
unfolding sort_by
largest_first groups =
    sort_by (λ (a : Group) (b : Group). compare (length b.members) (length a.members)) groups

module _ (f : Arithmetic) (sqrt : F32 → F32) (threshold : F32) where
  -- One memory against those behind it.
  unfoldable pub link_similar :
      Memory × List F32 → List (Memory × List F32) → ClusterBuilder → ClusterBuilder
  unfolding link cosine at_most
  link_similar left [] builder = builder
  link_similar left (right ∷ rest) builder = link_similar left rest (
      if at_most threshold (cosine f sqrt left.1 right.1)
      then link left.0.id right.0.id builder
      else builder)

  unfoldable pub link_pairs : List (Memory × List F32) → ClusterBuilder → ClusterBuilder
  unfolding link_similar
  link_pairs [] builder = builder
  link_pairs (left ∷ rest) builder = link_pairs rest (link_similar left rest builder)

  unfoldable pub cluster_embedded : List Memory → List (List F32) → List (List Memory)
  unfolding link_pairs clusters zip found_among by_id
  cluster_embedded group vectors =
      map (found_among (by_id [] group))
        (clusters (link_pairs (zip group vectors) ClusterBuilder.new))

  module _ (embed : List Text → Result (List (List F32))) where
    -- `cluster`
    unfoldable pub cluster : List Memory → Result (List (List Memory))
    unfolding cluster_embedded
    cluster group = do
      vectors ← embed (map (λ (m : Memory). m.content) group)
      ok (cluster_embedded group vectors)

    -- `state_store` is missing where nothing is ever skipped.
    module _ (context : UserContext) (state_store : Option Watermarks) where
      unfoldable pub should_skip_in : Option Watermarks → GroupKey → ℕ → Bool
      unfolding is_unchanged last_max_updated_at
      should_skip_in none key current_max = false
      should_skip_in (some marks) key current_max =
          is_unchanged (last_max_updated_at context key marks) current_max

      unfoldable pub should_skip : GroupKey → ℕ → Bool
      unfolding should_skip_in
      should_skip key current_max = should_skip_in state_store key current_max

      unfoldable pub examine : Group → ℕ → Plan → Result Plan
      unfolding cluster slice_of
      examine group current_max plan = do
        found ← cluster (slice_of group.members)
        ok (record plan {
          clusters = plan.clusters ++ found;
          processed =
              plan.processed ++ record { key = group.key; max_updated_at = current_max } ∷ [];
        })

      -- A group whose newest change is known.
      unfoldable pub plan_changed : Group → Option ℕ → Plan → Result Plan
      unfolding should_skip examine
      plan_changed group none plan = ok plan
      plan_changed group (some current_max) plan =
          if should_skip group.key current_max
          then ok (record plan { groups_skipped = plan.groups_skipped + 1 })
          else examine group current_max plan

      unfoldable pub plan_group : Group → Plan → Result Plan
      unfolding plan_changed newest_change
      plan_group group plan =
          if ltb (length group.members) 2
          then ok plan
          else plan_changed group (newest_change group.members) plan

      unfoldable pub plan_groups : List Group → Plan → Result Plan
      unfolding plan_group
      plan_groups [] plan = ok plan
      plan_groups (group ∷ groups) plan = plan_group group plan >>= plan_groups groups

      -- The memories that are active now.
      unfoldable pub active_memories : ℕ → Store → List Memory
      unfolding keep is_active_at list_memories
      active_memories now store = keep (is_active_at now) (list_memories context false store)

      unfoldable pub plan : ℕ → Store → Result Plan
      unfolding plan_groups largest_first by_category_and_subcategory active_memories
      plan now store =
          plan_groups (largest_first (by_category_and_subcategory (active_memories now store)))
            (record {
              examined = length (active_memories now store);
              clusters = [];
              groups_skipped = 0;
              processed = [];
            })
