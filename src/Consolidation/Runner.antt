-- ===== src/Consolidation/Runner.antt =====
-- consolidation/application/consolidation_runner.rs: one pass over the memories of every user. What a
-- user's part of a pass changes (the store, the indexes, the watermarks, the budget, the report) is
-- passed from step to step. `now` and `new_id` read the clock and draw an identifier in a world.
pub mod Spending
pub mod Recorded
pub mod Failures
use recuerdos_ai.Prelude.{
  ℕ, ◌+◌, Bool, true, false, not, ◌&&◌, Option, none, some, is_some, List, [], ◌∷◌, ◌++◌, map,
  if◌then◌else◌, length, any_where, keep, ◌==◌,
}
use recuerdos_ai.Text.{Text}
use recuerdos_ai.Shared.Error.{RaError, Result, ok, err}
use recuerdos_ai.Identity.UserContext.{User, UserContext, resolve_background}
use recuerdos_ai.Memories.Category.{as_str}
use recuerdos_ai.Memories.Memory.{Memory}
use recuerdos_ai.Memories.Memory.Confidence.{F32}
use recuerdos_ai.Memories.Repository.{Store}
use recuerdos_ai.Memories.Services.{World, Setting}
use recuerdos_ai.Recall.Floats.{Arithmetic}
use recuerdos_ai.Understanding.Taxonomy.{Taxonomy}
use recuerdos_ai.Consolidation.Groups.{GroupKey, same_key, group_key}
use recuerdos_ai.Consolidation.Report.{ConsolidationReport, ClusterPreview, empty_report, absorb}
use recuerdos_ai.Consolidation.Budget.{
  BudgetLimits, ConsolidationBudget, record_llm_call, record_retired,
}
use recuerdos_ai.Consolidation.Budget
use recuerdos_ai.Consolidation.Maintainer.{MaintenanceOutcome}
use recuerdos_ai.Consolidation.Maintainer
use recuerdos_ai.Consolidation.Merger.{MergeAnswer, MergeOutcome, merged, kept_separate}
use recuerdos_ai.Consolidation.Merger
use recuerdos_ai.Consolidation.Planner.{Plan, ProcessedGroup, plan}
use recuerdos_ai.Consolidation.Watermarks.{Watermarks, record_watermark}

-- What a runner is built over. `complete` asks the model about a cluster of a user; without a model
-- there is none. `record_fault` is the error, if any, of the database on a write of a watermark.
pub record Runner (E V X : Type 0) : Type 0 where
  pub setting : Setting E V X
  pub arithmetic : Arithmetic
  pub sqrt : F32 → F32
  pub threshold : F32
  pub embed : List Text → Result (List (List F32))
  pub date : ℕ → Text
  pub render : ℕ → Text
  pub taxonomy : Taxonomy
  pub complete : Option (List Memory → Result MergeAnswer)
  pub budget : BudgetLimits
  pub elapsed : ConsolidationBudget → ℕ
  pub now : World V X → ℕ
  pub new_id : World V X → ℕ
  pub record_fault : Watermarks → GroupKey → Option RaError
  pub find_by_id : ℕ → Result (Option User)

-- What the clusters of one user leave behind.
pub record Progress (V X : Type 0) : Type 0 where
  pub world : World V X
  pub budget : ConsolidationBudget
  pub report : ConsolidationReport
  pub failed : List GroupKey
  pub budget_broke : Bool

-- What a pass goes through: the state that outlasts it, with what it may still spend.
pub record Pass (V X : Type 0) : Type 0 where
  pub world : World V X
  pub state_store : Option Watermarks
  pub budget : ConsolidationBudget

-- `replace('\n', " ")`
unfoldable pub on_one_line : Text → Text
on_one_line text = map (λ c. if c == 10 then 32 else c) text

unfoldable pub category_of_first : List Memory → Text
category_of_first [] = []
category_of_first (memory ∷ cluster) = as_str memory.category

unfoldable pub preview : List Memory → ClusterPreview
unfolding on_one_line category_of_first
preview cluster = record {
  category = category_of_first cluster;
  contents = map (λ (m : Memory). on_one_line m.content) cluster;
}

-- The groups whose clusters were all handled.
unfoldable pub without_failed : List GroupKey → List ProcessedGroup → List ProcessedGroup
unfolding keep any_where same_key
without_failed failed processed =
    keep (λ (g : ProcessedGroup). not (any_where (same_key g.key) failed)) processed

-- The result is an error from the first write that fails; the writes before it stand.
unfoldable pub record_all :
    (Watermarks → GroupKey → Option RaError)
    → UserContext
    → List ProcessedGroup
    → Watermarks
    → Result (Unit {0}) × Watermarks
unfolding record_watermark
record_all fault context [] marks = (ok tt, marks)
record_all fault context (group ∷ groups) marks = elim (fault marks group.key) [
  | some e ↦ (err e, marks)
  | none ↦
      record_all fault context groups
        (record_watermark context group.key group.max_updated_at marks)
]

unfoldable pub record_handled :
    (Watermarks → GroupKey → Option RaError)
    → UserContext
    → Bool
    → List GroupKey
    → List ProcessedGroup
    → Option Watermarks
    → Result (Unit {0}) × Option Watermarks
unfolding record_all without_failed
record_handled fault context budget_broke failed processed none = (ok tt, none)
record_handled fault context true failed processed (some marks) = (ok tt, some marks)
record_handled fault context false failed processed (some marks) =
    let (recorded, after) = record_all fault context (without_failed failed processed) marks in
    (recorded, some after)

-- The report is lost where a watermark could not be written.
unfoldable pub unless_unrecorded :
    Result (Unit {0}) → ConsolidationReport → Result ConsolidationReport
unless_unrecorded (ok _) report = ok report
unless_unrecorded (err e) report = err e

module _ {E V X : Type 0} (runner : Runner E V X) where
  -- A stop on the budget, which the report tells.
  unfoldable pub stop : Progress V X → Progress V X
  stop p = record p {
    report = record p.report { budget_exhausted = true; budget_reason = p.budget.reason };
    budget_broke = true;
  }

  unfoldable pub spend_retired : ℕ → Progress V X → Progress V X
  unfolding stop record_retired
  spend_retired retired p =
      let spent = record p { budget = record_retired runner.elapsed retired p.budget } in
      if spent.budget.exhausted then stop spent else spent

  unfoldable pub spend_call : Progress V X → Progress V X
  unfolding stop record_llm_call
  spend_call p =
      let spent = record p { budget = record_llm_call runner.elapsed p.budget } in
      if spent.budget.exhausted then stop spent else spent

  unfoldable pub spend_merge : ℕ → Progress V X → Progress V X
  unfolding spend_call spend_retired
  spend_merge retired p =
      let called = spend_call p in
      if called.budget_broke then called else spend_retired retired called

  -- How one cluster ends.
  unfoldable pub tally : GroupKey → Result MergeOutcome → Progress V X → Progress V X
  unfolding spend_merge spend_call
  tally key (ok (merged replacement retired)) p = spend_merge retired (record p {
    report = record p.report { merged = p.report.merged + 1; retired = p.report.retired + retired };
  })
  tally key (ok (kept_separate reason)) p =
      spend_call
        (record p { report = record p.report { kept_separate = p.report.kept_separate + 1 } })
  tally key (err e) p = record p { failed = key ∷ p.failed }

  module _ (context : UserContext) where
    unfoldable pub merge_cluster :
        (List Memory → Result MergeAnswer)
        → List Memory
        → World V X
        → Result MergeOutcome × World V X
    merge_cluster complete cluster w =
        Merger.execute runner.setting runner.taxonomy runner.render complete context (runner.now w)
          (runner.new_id w) cluster w

    unfoldable pub handle :
        (List Memory → Result MergeAnswer) → List Memory → Progress V X → Progress V X
    unfolding merge_cluster tally group_key
    handle complete cluster p =
        let (outcome, w) = merge_cluster complete cluster p.world in
        tally (group_key cluster) outcome (record p { world = w })

    -- The loop over the clusters.
    unfoldable pub run_clusters :
        (List Memory → Result MergeAnswer) → List (List Memory) → Progress V X → Progress V X
    unfolding handle stop
    run_clusters complete [] p = p
    run_clusters complete (cluster ∷ clusters) p =
        let handled = handle complete cluster p in
        let rest = run_clusters complete clusters handled in
        if p.budget.exhausted then stop p else if handled.budget_broke then handled else rest

    unfoldable pub maintain : Bool → World V X → Result MaintenanceOutcome × World V X
    unfolding Maintainer.execute
    maintain true w = (ok (record { expired = 0; rescored = 0 }), w)
    maintain false w =
        Maintainer.execute runner.setting runner.arithmetic runner.date context (runner.now w) w

    unfoldable pub report_of : Bool → Plan → MaintenanceOutcome → ConsolidationReport
    report_of dry_run planned maintenance = record empty_report {
      dry_run = dry_run;
      memories_examined = planned.examined;
      clusters_found = length planned.clusters;
      groups_skipped = planned.groups_skipped;
      expired = maintenance.expired;
      rescored = maintenance.rescored;
    }

    abbrev pub UserReply : Type 0
    UserReply = Result ConsolidationReport × Pass V X

    unfoldable pub merge_planned :
        Option (List Memory → Result MergeAnswer)
        → Plan
        → ConsolidationReport
        → Pass V X
        → UserReply
    unfolding run_clusters record_handled unless_unrecorded
    merge_planned none planned report pass = (ok report, pass)
    merge_planned (some complete) planned report pass =
        let p = run_clusters complete planned.clusters (record {
          world = pass.world;
          budget = pass.budget;
          report = report;
          failed = [];
          budget_broke = false;
        }) in
        let (recorded, state_store) =
          record_handled runner.record_fault context p.budget_broke p.failed planned.processed
            pass.state_store in
        (
          unless_unrecorded recorded p.report,
          record { world = p.world; state_store = state_store; budget = p.budget },
        )

    -- What follows the plan: a dry run only shows its clusters.
    unfoldable pub consolidate_planned :
        Bool → Result Plan → MaintenanceOutcome → Pass V X → UserReply
    unfolding merge_planned report_of preview
    consolidate_planned dry_run (err e) maintenance pass = (err e, pass)
    consolidate_planned true (ok planned) maintenance pass = (
      ok (record (report_of true planned maintenance) { previews = map preview planned.clusters }),
      pass,
    )
    consolidate_planned false (ok planned) maintenance pass =
        merge_planned runner.complete planned (report_of false planned maintenance) pass

    unfoldable pub plan_of : Pass V X → Result Plan
    unfolding plan
    plan_of pass =
        plan runner.arithmetic runner.sqrt runner.threshold runner.embed context pass.state_store
          (runner.now pass.world) pass.world.store

    unfoldable pub consolidate_maintained : Bool → Result MaintenanceOutcome → Pass V X → UserReply
    unfolding consolidate_planned plan_of
    consolidate_maintained dry_run (err e) pass = (err e, pass)
    consolidate_maintained dry_run (ok maintenance) pass =
        consolidate_planned dry_run (plan_of pass) maintenance pass

    unfoldable pub consolidate_user : Bool → Pass V X → UserReply
    unfolding consolidate_maintained maintain
    consolidate_user dry_run pass =
        let (maintenance, w) = maintain dry_run pass.world in
        consolidate_maintained dry_run maintenance (record pass { world = w })

  -- A user whose part of the pass fails costs no other user theirs.
  unfoldable pub absorb_reply :
      Result ConsolidationReport → ConsolidationReport → ConsolidationReport
  unfolding absorb
  absorb_reply (ok theirs) report = absorb report theirs
  absorb_reply (err e) report = report

  unfoldable pub run_user :
      Bool → Result UserContext → ConsolidationReport × Pass V X → ConsolidationReport × Pass V X
  unfolding consolidate_user absorb_reply
  run_user dry_run (err e) (report, pass) = (report, pass)
  run_user dry_run (ok context) (report, pass) =
      let (reply, after) = consolidate_user context dry_run pass in
      (absorb_reply reply report, after)

  unfoldable pub run_users :
      Bool → List User → ConsolidationReport × Pass V X → ConsolidationReport × Pass V X
  unfolding run_user resolve_background
  run_users dry_run [] state = state
  run_users dry_run (user ∷ users) (report, pass) =
      let rest =
        run_users dry_run users
          (run_user dry_run (resolve_background runner.find_by_id user.id) (report, pass)) in
      if pass.budget.exhausted
      then (record report { budget_exhausted = true; budget_reason = pass.budget.reason }, pass)
      else rest

  -- `execute`, over the users that were listed; the refresh of profiles, which changes nothing here,
  -- is left out.
  unfoldable pub execute :
      Bool → List User → World V X → Option Watermarks → ConsolidationReport × Pass V X
  unfolding run_users Budget.new
  execute dry_run users w state_store = run_users dry_run users (
    record empty_report { dry_run = dry_run; users = length users },
    record { world = w; state_store = state_store; budget = Budget.new runner.budget },
  )
