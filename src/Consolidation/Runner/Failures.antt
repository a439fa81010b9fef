-- ===== src/Consolidation/Runner/Failures.antt =====
-- What becomes of a group one of whose clusters the model has failed on.
use recuerdos_ai.Prelude.{
  ℕ, ◌≡◌, refl, ◌∙◌, ◌⊎◌, inl, inr, Bool, true, false, Option, some, List, [], ◌∷◌, arith, if-cases,
  any_where, All, Some,
}
use recuerdos_ai.Shared.Error.{RaError, Result, ok, err}
use recuerdos_ai.Identity.UserContext.{UserContext}
use recuerdos_ai.Memories.Memory.{Memory}
use recuerdos_ai.Memories.Services.{World}
use recuerdos_ai.Consolidation.Groups.{GroupKey, same_key, group_key}
use recuerdos_ai.Consolidation.Groups.Keys.{same_key_iff}
use recuerdos_ai.Consolidation.Maintainer.{MaintenanceOutcome}
use recuerdos_ai.Consolidation.Merger.{MergeAnswer, MergeOutcome, merged, kept_separate}
use recuerdos_ai.Consolidation.Merger
use recuerdos_ai.Consolidation.Planner.{Plan, ProcessedGroup}
use recuerdos_ai.Consolidation.Watermarks.{Watermarks, last_max_updated_at, watermark_eq}
use recuerdos_ai.Consolidation.Report.{ConsolidationReport}
use recuerdos_ai.Consolidation.Runner.Recorded.{
  NonBlank, record_all-Elsewhere, without_failed-Elsewhere,
}
use recuerdos_ai.Consolidation.Runner.{
  Runner, Progress, Pass, stop, spend_retired, spend_call, spend_merge, tally, merge_cluster,
  handle, run_clusters, record_all, without_failed, record_handled, merge_planned, maintain,
  plan_of, consolidate_user, consolidate_planned, consolidate_maintained,
}

-- The key of a group that has a failed cluster, or a run that the budget broke.
abbrev pub HasFailed : {V X : Type 0} → GroupKey → Progress V X → Type 0
HasFailed key p = any_where (same_key key) p.failed ≡ true

abbrev pub Held : {V X : Type 0} → GroupKey → Progress V X → Type 0
Held key p = (p.budget_broke ≡ true) ⊎ HasFailed key p

module _ {E V X : Type 0} (runner : Runner E V X) where
  failed-spend_call : (p : Progress V X) → (spend_call runner p).failed ≡ p.failed
  unfolding spend_call stop
  failed-spend_call p =
      if-cases (λ (q : Progress V X). q.failed ≡ p.failed) _ (λ _. refl) (λ _. refl)

  failed-spend_retired :
      (retired : ℕ) (p : Progress V X) → (spend_retired runner retired p).failed ≡ p.failed
  unfolding spend_retired stop
  failed-spend_retired retired p =
      if-cases (λ (q : Progress V X). q.failed ≡ p.failed) _ (λ _. refl) (λ _. refl)

  failed-spend_merge :
      (retired : ℕ) (p : Progress V X) → (spend_merge runner retired p).failed ≡ p.failed
  unfolding spend_merge
  failed-spend_merge retired p =
      if-cases (λ (q : Progress V X). q.failed ≡ p.failed) (spend_call runner p).budget_broke
        (λ _. failed-spend_call p)
        (λ _. failed-spend_retired retired (spend_call runner p) ∙ failed-spend_call p)

  tally-HasFailed :
      (key j : GroupKey) (outcome : Result MergeOutcome) (p : Progress V X)
      → HasFailed key p
      → HasFailed key (tally runner j outcome p)
  unfolding tally any_where
  tally-HasFailed key j (ok (merged replacement retired)) p h = rw (failed-spend_merge retired _) h
  tally-HasFailed key j (ok (kept_separate reason)) p h = rw (failed-spend_call _) h
  tally-HasFailed key j (err e) p h = ground arith

  module _ (context : UserContext) (complete : List Memory → Result MergeAnswer) where
    run_clusters-HasFailed :
        (key : GroupKey) (clusters : List (List Memory)) (p : Progress V X)
        → HasFailed key p
        → HasFailed key (run_clusters runner context complete clusters p)
    unfolding run_clusters stop handle
    run_clusters-HasFailed key [] p h = h
    run_clusters-HasFailed key (cluster ∷ clusters) p h =
        let (outcome, w) = merge_cluster runner context complete cluster p.world in
        let handled = tally-HasFailed key (group_key cluster) outcome (record p { world = w }) h in
        if-cases (HasFailed key) p.budget.exhausted (λ _. h)
          (λ _.
            if-cases (HasFailed key) (handle runner context complete cluster p).budget_broke
              (λ _. handled)
              (λ _.
                run_clusters-HasFailed key clusters (handle runner context complete cluster p)
                  handled))

    -- Where the model fails on a cluster, so does its merge.
    execute_checked-fails :
        (checked : Result (Unit {0})) (cluster : List Memory) (now id : ℕ) (w : World V X)
        (e : RaError)
        → complete cluster ≡ err e
        → (f : RaError) × (Merger.execute_checked runner.setting runner.taxonomy runner.render
              complete context now id checked cluster w
            ≡ (err f, w))
    unfolding Merger.execute_checked Merger.apply_answer
    execute_checked-fails (err f) cluster now id w e h = (f, refl)
    execute_checked-fails (ok _) cluster now id w e h = (e, rw h refl)

    merge_cluster-fails :
        (cluster : List Memory) (w : World V X) (e : RaError)
        → complete cluster ≡ err e
        → (f : RaError) × (merge_cluster runner context complete cluster w ≡ (err f, w))
    unfolding merge_cluster Merger.execute
    merge_cluster-fails cluster w e h =
        execute_checked-fails (Merger.check_mergeable cluster) cluster (runner.now w)
          (runner.new_id w) w e h

    handle-HasFailed :
        (cluster : List Memory) (p : Progress V X) (e : RaError)
        → complete cluster ≡ err e
        → HasFailed (group_key cluster) (handle runner context complete cluster p)
    unfolding handle tally any_where
    handle-HasFailed cluster p e h =
        let (f, fails) = merge_cluster-fails cluster p.world e h in
        let same = (same_key_iff (group_key cluster) (group_key cluster)).1 refl in
        rw fails (ground arith)

    run_clusters-Held :
        (cluster : List Memory) (e : RaError) (clusters : List (List Memory)) (p : Progress V X)
        → complete cluster ≡ err e
        → Some (λ c. c ≡ cluster) clusters
        → Held (group_key cluster) (run_clusters runner context complete clusters p)
    unfolding run_clusters stop
    run_clusters-Held cluster e [] p h s = absurd s
    run_clusters-Held cluster e (c ∷ clusters) p h s =
        let handled = handle runner context complete c p in
        if-cases (Held (group_key cluster)) p.budget.exhausted (λ _. inl refl)
          (λ _.
            if-cases (Held (group_key cluster)) handled.budget_broke (λ broke. inl broke)
              (λ _. elim s [
                | inl same ↦ inr (
                    run_clusters-HasFailed (group_key cluster) clusters handled
                      (rw same (handle-HasFailed cluster p e h)))
                | inr later ↦ run_clusters-Held cluster e clusters handled h later
              ]))

-- What a user's watermark of a key is after a run.
abbrev pub Unmoved : UserContext → GroupKey → Watermarks → Option Watermarks → Type 0
Unmoved context key marks after =
    (kept : Watermarks) × (after ≡ some kept)
    × (last_max_updated_at context key kept ≡ last_max_updated_at context key marks)

record_handled-Unmoved :
    (fault : Watermarks → GroupKey → Option RaError) (context : UserContext) (key : GroupKey)
    (budget_broke : Bool) (failed : List GroupKey) (processed : List ProcessedGroup)
    (marks : Watermarks)
    → (budget_broke ≡ true) ⊎ (any_where (same_key key) failed ≡ true)
    → NonBlank key
    → All (λ (g : ProcessedGroup). NonBlank g.key) processed
    → Unmoved context key marks
        (record_handled fault context budget_broke failed processed (some marks)).1
unfolding record_handled
record_handled-Unmoved fault context key true failed processed marks held b bs = (marks, refl, refl)
record_handled-Unmoved fault context key false failed processed marks (inl e) b bs = cc
record_handled-Unmoved fault context key false failed processed marks (inr h) b bs = (
  (record_all fault context (without_failed failed processed) marks).1,
  refl,
  record_all-Elsewhere fault context key (without_failed failed processed) marks
      (without_failed-Elsewhere context key failed processed h b bs),
)

module _ {E V X : Type 0} (runner : Runner E V X) (context : UserContext) (cluster : List Memory)
    (e : RaError) (complete : List Memory → Result MergeAnswer) (planned : Plan)
    (marks : Watermarks) where
  merge_planned-Unmoved :
      (report : ConsolidationReport) (pass : Pass V X)
      → complete cluster ≡ err e
      → Some (λ c. c ≡ cluster) planned.clusters
      → NonBlank (group_key cluster)
      → All (λ (g : ProcessedGroup). NonBlank g.key) planned.processed
      → pass.state_store ≡ some marks
      → Unmoved context
          (group_key cluster)
          marks
          (merge_planned runner context (some complete) planned report pass).1.state_store
  unfolding merge_planned
  merge_planned-Unmoved report pass h among b bs store = rw store (
      record_handled-Unmoved runner.record_fault context (group_key cluster) _ _ planned.processed
        marks (run_clusters-Held runner context complete cluster e planned.clusters _ h among) b bs)

  maintained-Unmoved :
      (maintenance : Result MaintenanceOutcome) (pass : Pass V X)
      → runner.complete ≡ some complete
      → complete cluster ≡ err e
      → plan_of runner context pass ≡ ok planned
      → Some (λ c. c ≡ cluster) planned.clusters
      → NonBlank (group_key cluster)
      → All (λ (g : ProcessedGroup). NonBlank g.key) planned.processed
      → pass.state_store ≡ some marks
      → Unmoved context
          (group_key cluster)
          marks
          (consolidate_maintained runner context false maintenance pass).1.state_store
  unfolding consolidate_maintained consolidate_planned
  maintained-Unmoved (err f) pass has_model h plans among b bs store = (marks, store, refl)
  maintained-Unmoved (ok maintenance) pass has_model h plans among b bs store =
      rw (plans, has_model) (merge_planned-Unmoved _ pass h among b bs store)

  -- A run with a model and a store of watermarks, in which no key has a blank subcategory: where the
  -- model fails on one of the clusters that were planned for the user, the watermark of that cluster's
  -- group is after the run what it was before, whether the run went through or broke off on its budget.
  pub consolidate_user-Unmoved :
      (pass : Pass V X)
      → runner.complete ≡ some complete
      → complete cluster ≡ err e
      → plan_of runner context
          (record pass { world = (maintain runner context false pass.world).1 })
        ≡ ok planned
      → Some (λ c. c ≡ cluster) planned.clusters
      → NonBlank (group_key cluster)
      → All (λ (g : ProcessedGroup). NonBlank g.key) planned.processed
      → pass.state_store ≡ some marks
      → Unmoved context
          (group_key cluster)
          marks
          (consolidate_user runner context false pass).1.state_store
  unfolding consolidate_user
  consolidate_user-Unmoved pass has_model h plans among b bs store =
      maintained-Unmoved (maintain runner context false pass.world).0
        (record pass { world = (maintain runner context false pass.world).1 }) has_model h plans
        among b bs store
