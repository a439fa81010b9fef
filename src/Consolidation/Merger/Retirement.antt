-- ===== src/Consolidation/Merger/Retirement.antt =====
-- What the merge of a cluster leaves, by its result.
use recuerdos_ai.Prelude.{ℕ, ◌≡◌, refl, ◌⊎◌, inl, inr, List, [], ◌∷◌, ◌++◌, map}
use recuerdos_ai.Text.{Text}
use recuerdos_ai.Shared.Error.{Result, ok, err}
use recuerdos_ai.Identity.UserContext.{UserContext}
use recuerdos_ai.Memories.Memory.{Memory}
use recuerdos_ai.Memories.Memory.WellFormed.{IsWellFormed}
use recuerdos_ai.Memories.Repository.{Store}
use recuerdos_ai.Memories.Repository.Retiring.{Retired, Replaced, merge_memories-Replaced}
use recuerdos_ai.Memories.Services.{World, Setting}
use recuerdos_ai.Memories.Services.Rows.{visible, row_of}
use recuerdos_ai.Memories.Services.Saving.{Saved, save_lem}
use recuerdos_ai.Understanding.Taxonomy.{Taxonomy}
use recuerdos_ai.Consolidation.Maintainer.{actor}
use recuerdos_ai.Consolidation.Merger.{
  MergeAnswer, MergeDecision, keep_separate, merge, MergeReply, merged, kept_separate,
  retire_members, merge_saved, apply_merge, apply_answer, execute_checked, execute, parse_merge,
  check_mergeable, replacement_of,
}

abbrev pub ids_of : List Memory → List ℕ
ids_of = map (λ (m : Memory). m.id)

-- The store with one more visible memory.
abbrev pub IsAdded : Memory → Store → Store → Type 0
IsAdded m before after = visible after ≡ visible before ++ row_of m ∷ []

module _ {E V X : Type 0} (setting : Setting E V X) (taxonomy : Taxonomy) (render : ℕ → Text)
    (complete : List Memory → Result MergeAnswer) (context : UserContext) (now id : ℕ) where
  abbrev pub Left :
      List Memory → World V X → MergeReply setting taxonomy render complete context now id → Type 0
  Left cluster w (ok (kept_separate reason), after) = after ≡ w
  Left cluster w (ok (merged replacement retired), after) =
      (m : Memory) × (between : Store) × (reason : Text) × (m.id ≡ replacement)
      × IsWellFormed m
      × (m.user_id ≡ context.user_id)
      × IsAdded m w.store between
      × Retired context replacement actor reason now (ids_of cluster) between after.store retired
  Left cluster w (err e, after) =
      (visible after.store ≡ visible w.store)
      ⊎ ((m : Memory) × IsWellFormed m
          × (m.user_id ≡ context.user_id)
          × IsAdded m w.store after.store)

  retire_members-Left :
      (cluster : List Memory) (m : Memory) (reason : Text) (w between : World V X)
      (reply : Result ℕ × Store)
      → IsWellFormed m
      → m.user_id ≡ context.user_id
      → IsAdded m w.store between.store
      → Replaced context m.id actor reason now (ids_of cluster) between.store reply
      → Left cluster w
          (retire_members setting taxonomy render complete context now id m.id reply between)
  unfolding retire_members
  retire_members-Left cluster m reason w between (err e, store) wf mine added same =
      inr (m, wf, mine, rw same added)
  retire_members-Left cluster m reason w between (ok retired, store) wf mine added merged_rows =
      (m, between.store, reason, refl, wf, mine, added, merged_rows)

  merge_saved-Left :
      (cluster : List Memory) (reason : Text) (w : World V X) (reply : Result Memory × World V X)
      → Saved setting context actor now w reply
      → Left cluster w
          (merge_saved setting taxonomy render complete context now id cluster reason reply)
  unfolding merge_saved
  merge_saved-Left cluster reason w (err e, after) saved = elim saved.1 [
    | inl same ↦ inl same
    | inr stranded ↦ inr (stranded.0, stranded.1.1, stranded.1.2, stranded.1.3)
  ]
  merge_saved-Left cluster reason w (ok m, between) saved =
      retire_members-Left cluster m _ w between _ saved.1 saved.2 saved.0
        (merge_memories-Replaced context m.id actor _ now (ids_of cluster) between.store)

  apply_merge-Left :
      (cluster : List Memory) (decision : MergeDecision) (w : World V X)
      → Left cluster w
          (apply_merge setting taxonomy render complete context now id cluster decision w)
  unfolding apply_merge
  apply_merge-Left cluster (keep_separate reason) w = refl
  apply_merge-Left cluster (merge r) w =
      merge_saved-Left cluster r.reason w _
        (save_lem setting context actor now id (replacement_of cluster r) w)

  apply_answer-Left :
      (cluster : List Memory) (answer : Result MergeAnswer) (w : World V X)
      → Left cluster w
          (apply_answer setting taxonomy render complete context now id cluster answer w)
  unfolding apply_answer
  apply_answer-Left cluster (err e) w = inl refl
  apply_answer-Left cluster (ok answer) w =
      apply_merge-Left cluster (parse_merge taxonomy cluster answer) w

  execute_checked-Left :
      (checked : Result (Unit {0})) (cluster : List Memory) (w : World V X)
      → Left cluster w
          (execute_checked setting taxonomy render complete context now id checked cluster w)
  unfolding execute_checked
  execute_checked-Left (err e) cluster w = inl refl
  execute_checked-Left (ok _) cluster w = apply_answer-Left cluster (complete cluster) w

  -- Whatever the model answers, no memory is retired before the one that replaces it stands in the
  -- store. A cluster that is kept separate changes nothing. A merge that succeeds has added one
  -- well-formed memory of the user's, and then superseded by it exactly the user's rows that stand under
  -- the identifiers of the cluster's members and were neither deleted nor superseded, and changed no
  -- other; it counts the members that had such a row, each once. One that fails has hidden and changed no
  -- visible row; at most the replacement was added.
  pub execute-Left :
      (cluster : List Memory) (w : World V X)
      → Left cluster w (execute setting taxonomy render complete context now id cluster w)
  unfolding execute
  execute-Left cluster w = execute_checked-Left (check_mergeable cluster) cluster w
