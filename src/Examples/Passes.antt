-- ===== src/Examples/Passes.antt =====
-- Passes of consolidation at concrete inputs: of three memories of a user, two say the same and one
-- has expired.
use recuerdos_ai.Prelude.Dict
use recuerdos_ai.Consolidation.ClusterBuilder.{new}
use recuerdos_ai.Memories.Category.{as_str}
use recuerdos_ai.Prelude.{
  ℕ, ◌≡◌, refl, Bool, true, false, Option, none, some, List, [], ◌∷◌, map, Some, All, arith, inl,
  update_where, count_where, any_where, length, ◌⊎◌, if◌then◌else◌, is_some, ◌==◌,
}
use recuerdos_ai.Text.{Text, codes, same_text, trim, is_whitespace}
use recuerdos_ai.Shared.Error.{Result, ok, err, internal}
use recuerdos_ai.Identity.UserContext.{User}
use recuerdos_ai.Memories.Memory.{Memory, create}
use recuerdos_ai.Memories.Memory.Confidence.{F32}
use recuerdos_ai.Memories.Repository.{Row, delete_memory, insert, merge_memories}
use recuerdos_ai.Memories.Services.{World, save, Setting}
use recuerdos_ai.Recall.Floats.{half, unit, clamp}
use recuerdos_ai.Understanding.Taxonomy.{Taxonomy}
use recuerdos_ai.Consolidation.Groups.{by_category_and_subcategory, group_key}
use recuerdos_ai.Consolidation.Groups.Keys.{key_eq}
use recuerdos_ai.Consolidation.Groups.Partition.{
  group_of, keys_from, by_category_and_subcategory_lem,
}
use recuerdos_ai.Consolidation.Decay.{importance}
use recuerdos_ai.Consolidation.Maintainer
use recuerdos_ai.Consolidation.Merger
use recuerdos_ai.Consolidation.Merger.{MergeAnswer}
use recuerdos_ai.Consolidation.Merger.Retirement.{Left, execute-Left}
use recuerdos_ai.Consolidation.Planner.{newest_change, Plan, plan}
use recuerdos_ai.Consolidation.Planner.Plans.{IsMergeable, plan_lem}
use recuerdos_ai.Consolidation.Runner.{Runner, Pass, execute, consolidate_user, plan_of, maintain}
use recuerdos_ai.Consolidation.Runner.Spending.{decided}
use recuerdos_ai.Consolidation.Runner.Failures.{Unmoved, consolidate_user-Unmoved}
use recuerdos_ai.Examples.Recall.{exact, memory}
use recuerdos_ai.Examples.Services.{alex, setting}

abbrev expired : Memory
expired = record (memory 3) { expires_at = some 8 }

abbrev row : Memory → Row
row m = record { memory = m; deleted_at = none }

abbrev world : World ℕ ℕ
world = record {
  store = record {
    collections = [];
    rows = row (memory 1) ∷ row expired ∷ row (memory 2) ∷ [];
    audit = [];
  };
  vectors = 0;
  text = 0;
}

abbrev taxonomy : Taxonomy
taxonomy = record { extras = [] }

-- A model that merges every cluster, and one that does not answer.
abbrev agrees : List Memory → Result MergeAnswer
agrees _ = ok (record {
  merge = some true;
  reason = none;
  content = some (codes "tabs");
  category = none;
  tags = none;
})

abbrev fails : List Memory → Result MergeAnswer
fails _ = err internal

-- Every text has the same embedding.
abbrev embed : List Text → Result (List (List F32))
embed texts = ok (map (λ _. unit ∷ []) texts)

abbrev runner : (List Memory → Result MergeAnswer) → Runner Text ℕ ℕ
runner complete = record {
  setting = setting;
  arithmetic = exact;
  sqrt = λ x. x;
  threshold = half;
  embed = embed;
  date = λ _. [];
  render = λ _. [];
  taxonomy = taxonomy;
  complete = some complete;
  budget = record { max_llm_calls = some 1; max_duration_secs = none; max_memories = none };
  elapsed = λ _. 0;
  record_fault = λ _ _. none;
  now = λ _. 9;
  new_id = λ _. 5;
  find_by_id =
      λ id. ok (some (record { id = id; handle = codes "alex"; email = none; created_at = 0 }));
}

abbrev user : ℕ → User
user id = record { id = id; handle = codes "alex"; email = none; created_at = 0 }

by_category_and_subcategory_lem_example :
    (by_category_and_subcategory (memory 1 ∷ expired ∷ [])
      ≡ map (group_of (memory 1 ∷ expired ∷ [])) (keys_from [] (memory 1 ∷ expired ∷ [])))
    × recuerdos_ai.Prelude.Distinct (keys_from [] (memory 1 ∷ expired ∷ []))
by_category_and_subcategory_lem_example = by_category_and_subcategory_lem (memory 1 ∷ expired ∷ [])

abbrev planned : Plan
planned = record {
  examined = 2;
  clusters = (memory 1 ∷ memory 2 ∷ []) ∷ [];
  groups_skipped = 0;
  processed =
      record {
        key = record { category = codes "decision"; subcategory = none };
        max_updated_at = 5;
      }
      ∷ [];
}

planned-eq-plan : plan exact (λ x. x) half embed alex (some []) 9 world.store ≡ ok planned
unfolding plan same_text as_str clamp new
planned-eq-plan = refl

plan_lem_example : All (IsMergeable alex 9) planned.clusters
plan_lem_example =
    plan_lem alex 9 exact (λ x. x) half embed (some []) world.store planned planned-eq-plan

abbrev start : Pass ℕ ℕ
start = record {
  world = world;
  state_store = some [];
  budget = record {
    limits = record { max_llm_calls = none; max_duration_secs = none; max_memories = none };
    llm_calls_made = 0;
    memories_retired = 0;
    exhausted = false;
    reason = none;
  };
}

-- The same, with the scores that maintenance has written before.
abbrev scored : ℕ → Memory
scored id = record (memory id) { importance = importance exact 5 none 0 9 }

abbrev planned_later : Plan
planned_later = record planned { clusters = (scored 1 ∷ scored 2 ∷ []) ∷ [] }

planned-eq-plan_of :
    plan_of
      (runner fails)
      alex
      (record start { world = (maintain (runner fails) alex false world).1 })
    ≡ ok planned_later
unfolding plan_of maintain update_where delete_memory count_where same_text as_str clamp new
planned-eq-plan_of = refl

consolidate_user-Unmoved_example :
    Unmoved alex
      (group_key (scored 1 ∷ scored 2 ∷ []))
      []
      (consolidate_user (runner fails) alex false start).1.state_store
consolidate_user-Unmoved_example =
    consolidate_user-Unmoved (runner fails) alex (scored 1 ∷ scored 2 ∷ []) internal fails
      planned_later [] start refl refl planned-eq-plan_of (inl refl) (unfold group_key in λ e. cc)
      ((λ e. cc), tt) refl

-- A second memory has expired, and the database fails to delete it.
abbrev faulty : Setting Text ℕ ℕ
faulty = record setting {
  ports = record setting.ports { delete_fault = λ _ id. if id == 4 then some internal else none };
}

abbrev two_expired : World ℕ ℕ
two_expired = record world {
  store = record world.store {
    rows = row (record (memory 4) { expires_at = some 7 }) ∷ world.store.rows;
  };
}

one_of_two :
    (Maintainer.execute faulty exact (λ _. []) alex 9 two_expired).0
    ≡ ok (record { expired = 1; rescored = 2 })
unfolding Maintainer.execute delete_memory update_where count_where
one_of_two = refl

-- The call was made.
one_decided : decided (execute (runner agrees) false (user 7 ∷ user 8 ∷ []) world (some [])).0 ≡ 1
unfolding execute update_where delete_memory count_where same_text as_str clamp new Merger.execute
    trim is_whitespace save create insert merge_memories
one_decided = refl

execute-Left_example :
    Left setting taxonomy
      (λ _. [])
      agrees
      alex
      9
      5
      (memory 1 ∷ memory 2 ∷ [])
      world
      (Merger.execute setting taxonomy (λ _. []) agrees alex 9 5 (memory 1 ∷ memory 2 ∷ []) world)
execute-Left_example =
    execute-Left setting taxonomy (λ _. []) agrees alex 9 5 (memory 1 ∷ memory 2 ∷ []) world

both_retired :
    (Merger.execute setting taxonomy (λ _. []) agrees alex 9 5 (memory 1 ∷ memory 2 ∷ []) world).0
    ≡ ok (Merger.merged 5 2)
unfolding Merger.execute trim is_whitespace save create insert Dict.get any_where merge_memories
    count_where update_where
both_retired = refl

-- What the model was asked in vain is not counted.
none_counted :
    (execute (runner fails) false (user 7 ∷ []) world (some [])).1.budget.llm_calls_made ≡ 0
unfolding execute update_where delete_memory count_where same_text as_str clamp new Merger.execute
none_counted = refl

-- A group keeps its newest change when another memory leaves it.
same_newest :
    newest_change (memory 1 ∷ record (memory 2) { updated_at = 3 } ∷ [])
    ≡ newest_change (memory 1 ∷ [])
unfolding newest_change
same_newest = refl
