-- ===== src/Consolidation/Planner/Plans.antt =====
-- What a plan hands to the model.
use recuerdos_ai.Prelude.{
  ℕ, ◌≤◌, ◌≡◌, sym, ◌∙◌, true, Option, none, some, List, [], ◌∷◌, map, All, All-append, All-of,
  All-kept, All-map, All-take, if-cases, subst, Bool-cases, inl, inr, length, ltb,
}
use recuerdos_ai.Text.{Text}
use recuerdos_ai.Shared.Error.{Result, ok, >>=-eq-ok, ok-injective}
use recuerdos_ai.Identity.UserContext.{UserContext}
use recuerdos_ai.Memories.Memory.{Memory, is_active_at}
use recuerdos_ai.Memories.Memory.Confidence.{F32}
use recuerdos_ai.Memories.Repository.{Store}
use recuerdos_ai.Recall.Floats.{Arithmetic}
use recuerdos_ai.Recall.Sorting.{sort_by-Shuffle, All-Shuffle}
use recuerdos_ai.Consolidation.Groups.{
  GroupKey, Group, key_of, group_key, same_key, by_category_and_subcategory,
}
use recuerdos_ai.Consolidation.Groups.Keys.{same_key_iff}
use recuerdos_ai.Consolidation.Groups.Partition.{
  members_of, group_of, keys_from, by_category_and_subcategory_lem,
}
use recuerdos_ai.Consolidation.Listing.{list_memories-All, All-any, is_listed-mine}
use recuerdos_ai.Consolidation.Watermarks.{Watermarks}
use recuerdos_ai.Consolidation.Planner.{
  Plan, cluster, slice_of, largest_first, max_memories_per_category, newest_change, should_skip,
  examine, plan_changed, plan_group, plan_groups, active_memories, plan,
}
use recuerdos_ai.Consolidation.Planner.Clusters.{ClusterOf, cluster_embedded-All}

module _ (P : Memory → Type 0) where
  slice_of-All : (group : List Memory) → All P group → All P (slice_of group)
  unfolding slice_of
  slice_of-All group h =
      if-cases (All P) (ltb max_memories_per_category (length group))
        (λ _. All-take P max_memories_per_category _ (All-Shuffle P (sort_by-Shuffle _ group) h))
        (λ _. h)

module _ (context : UserContext) (now : ℕ) where
  -- A memory of the user that is active now.
  abbrev pub IsActive : Memory → Type 0
  IsActive m = (m.user_id ≡ context.user_id) × (is_active_at now m ≡ true)

  -- One that is active, of a group.
  abbrev IsOf : GroupKey → Memory → Type 0
  IsOf key m = IsActive m × (key_of m ≡ key)

  -- What the model is asked about: two memories or more, all active memories of the user, and all of
  -- the category and the subcategory of the first.
  abbrev pub IsMergeable : List Memory → Type 0
  IsMergeable cluster =
      (2 ≤ length cluster) × All (λ m. IsActive m × (key_of m ≡ group_key cluster)) cluster

  abbrev IsGroup : Group → Type 0
  IsGroup group = All (IsOf group.key) group.members

  group_of-IsGroup :
      (memories : List Memory) (key : GroupKey)
      → All IsActive memories
      → IsGroup (group_of memories key)
  unfolding members_of
  group_of-IsGroup memories key h =
      All-of _ _ _ (λ m k. (k.0, (same_key_iff (key_of m) key).0 k.1))
        (All-kept IsActive (λ m. same_key (key_of m) key) memories h)

  groups-All :
      (memories : List Memory)
      → All IsActive memories
      → All IsGroup (by_category_and_subcategory memories)
  groups-All memories h =
      rw (by_category_and_subcategory_lem memories).0
        (All-map IsGroup (group_of memories) (keys_from [] memories) (each (keys_from [] memories)))
    where
      each : (keys : List GroupKey) → All (λ key. IsGroup (group_of memories key)) keys
      each [] = tt
      each (key ∷ keys) = (group_of-IsGroup memories key h, each keys)

  -- The key of a cluster of a group is that of the group.
  ClusterOf-IsMergeable :
      (key : GroupKey) (cluster : List Memory) → ClusterOf (IsOf key) cluster → IsMergeable cluster
  unfolding group_key
  ClusterOf-IsMergeable key [] h = (h.0, tt)
  ClusterOf-IsMergeable key (memory ∷ rest) h =
      (h.0, All-of _ _ (memory ∷ rest) (λ m k. (k.0, k.1 ∙ sym h.1.0.1)) h.1)

  module _ (f : Arithmetic) (sqrt : F32 → F32) (threshold : F32)
      (embed : List Text → Result (List (List F32))) where
    cluster-IsMergeable :
        (key : GroupKey) (group : List Memory) (found : List (List Memory))
        → All (IsOf key) group
        → cluster f sqrt threshold embed group ≡ ok found
        → All IsMergeable found
    unfolding cluster
    cluster-IsMergeable key group found h e =
        let (vectors, _, k) = >>=-eq-ok (embed (map (λ (m : Memory). m.content) group)) _ e in
        subst (All IsMergeable) (ok-injective k) (
          All-of _ _ _ (ClusterOf-IsMergeable key)
            (cluster_embedded-All f sqrt threshold (IsOf key) group vectors h))

    module _ (state_store : Option Watermarks) where
      abbrev IsPlan : Plan → Type 0
      IsPlan planned = All IsMergeable planned.clusters

      examine-IsPlan :
          (group : Group) (at : ℕ) (before after : Plan)
          → IsGroup group
          → IsPlan before
          → examine f sqrt threshold embed context state_store group at before ≡ ok after
          → IsPlan after
      unfolding examine
      examine-IsPlan group at before after g h e =
          let (found, c, k) =
            >>=-eq-ok (cluster f sqrt threshold embed (slice_of group.members)) _ e in
          subst IsPlan (ok-injective k) (
            All-append IsMergeable before.clusters found h
              (cluster-IsMergeable group.key _ found (slice_of-All _ group.members g) c))

      plan_changed-IsPlan :
          (group : Group) (newest : Option ℕ) (before after : Plan)
          → IsGroup group
          → IsPlan before
          → plan_changed f sqrt threshold embed context state_store group newest before ≡ ok after
          → IsPlan after
      unfolding plan_changed
      plan_changed-IsPlan group none before after g h e = subst IsPlan (ok-injective e) h
      plan_changed-IsPlan group (some at) before after g h e =
          elim (Bool-cases (should_skip f sqrt threshold embed context state_store group.key at)) [
            | inl s ↦ subst IsPlan (ok-injective (rw s at e)) h
            | inr s ↦ examine-IsPlan group at before after g h (rw s at e)
          ]

      plan_group-IsPlan :
          (group : Group) (before after : Plan)
          → IsGroup group
          → IsPlan before
          → plan_group f sqrt threshold embed context state_store group before ≡ ok after
          → IsPlan after
      unfolding plan_group
      plan_group-IsPlan group before after g h e =
          elim (Bool-cases (ltb (length group.members) 2)) [
            | inl s ↦ subst IsPlan (ok-injective (rw s at e)) h
            | inr s ↦
                plan_changed-IsPlan group (newest_change group.members) before after g h (rw s at e)
          ]

      plan_groups-IsPlan :
          (groups : List Group) (before after : Plan)
          → All IsGroup groups
          → IsPlan before
          → plan_groups f sqrt threshold embed context state_store groups before ≡ ok after
          → IsPlan after
      unfolding plan_groups
      plan_groups-IsPlan [] before after g h e = subst IsPlan (ok-injective e) h
      plan_groups-IsPlan (group ∷ groups) before after g h e =
          let (next, first, rest) =
            >>=-eq-ok (plan_group f sqrt threshold embed context state_store group before) _ e in
          plan_groups-IsPlan groups next after g.1 (plan_group-IsPlan group before next g.0 h first)
            rest

      -- Whatever is embedded, and whatever is skipped, each cluster of a plan has two memories or more,
      -- and all its memories are the user's, are active at the time of the plan, neither superseded nor
      -- expired, and share the category and the subcategory of the first of them.
      pub plan_lem :
          (store : Store) (planned : Plan)
          → plan f sqrt threshold embed context state_store now store ≡ ok planned
          → All IsMergeable planned.clusters
      unfolding plan largest_first active_memories
      plan_lem store planned e =
          plan_groups-IsPlan _ _ planned
            (All-Shuffle IsGroup (sort_by-Shuffle _ _) (
              groups-All _ (
                All-kept _ (is_active_at now) _ (
                  list_memories-All (λ (m : Memory). m.user_id ≡ context.user_id) context store
                    (All-any _ store.rows (is_listed-mine context))))))
            tt e
