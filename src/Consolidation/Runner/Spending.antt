-- ===== src/Consolidation/Runner/Spending.antt =====
-- What a pass spends of the calls that its budget allows.
use recuerdos_ai.Prelude.{ℕ, ◌+◌, ◌≤◌, ◌≡◌}
use recuerdos_ai.Shared.Error.{Result, ok, err}
use recuerdos_ai.Identity.UserContext.{UserContext}
use recuerdos_ai.Memories.Memory.{Memory}
use recuerdos_ai.Consolidation.Report.{ConsolidationReport}
use recuerdos_ai.Consolidation.Budget.{ConsolidationBudget}
use recuerdos_ai.Consolidation.Budget
use recuerdos_ai.Consolidation.Budget.Calls.{Fits}
use recuerdos_ai.Consolidation.Merger.{merged, kept_separate}
use recuerdos_ai.Consolidation.Watermarks.{Watermarks}
use recuerdos_ai.Consolidation.Runner.{Runner, Progress, Pass}

-- How many clusters of a report the model has decided on.
abbrev pub decided : ConsolidationReport → ℕ
decided report = report.merged + report.kept_separate

-- The calls of a budget are those that were made before, and one for each cluster that was decided.
abbrev pub Spent : {V X : Type 0} → ℕ → ℕ → Progress V X → Type 0
Spent max before p = Fits max p.budget × (before + decided p.report ≡ p.budget.llm_calls_made)

abbrev pub decided_of : Result ConsolidationReport → ℕ
decided_of (ok report) = decided report
decided_of (err e) = 0

-- What a user's part of the pass leaves, when it began with so many calls.
abbrev pub UserSpent : {V X : Type 0} → ℕ → ℕ → Result ConsolidationReport × Pass V X → Type 0
UserSpent max before (reply, after) =
    Fits max after.budget × (before + decided_of reply ≤ after.budget.llm_calls_made)

abbrev pub PassSpent : {V X : Type 0} → ℕ → ConsolidationReport × Pass V X → Type 0
PassSpent max (report, pass) = Fits max pass.budget × (decided report ≤ pass.budget.llm_calls_made)
