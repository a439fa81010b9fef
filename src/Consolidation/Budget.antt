-- ===== src/Consolidation/Budget.antt =====
-- consolidation/application/consolidation_runner.rs, `ConsolidationBudget`: what a pass may still
-- spend. `elapsed` gives the whole seconds since the start at which a budget is checked.
pub mod Calls
use recuerdos_ai.Prelude.{ℕ, ◌+◌, Bool, true, false, Option, none, some, leb, if◌then◌else◌}
use recuerdos_ai.Consolidation.Report.{
  StopReason, max_llm_calls_reached, max_memories_reached, max_duration_reached,
}

pub record BudgetLimits : Type 0 where
  pub max_llm_calls : Option ℕ
  pub max_duration_secs : Option ℕ
  pub max_memories : Option ℕ

pub record ConsolidationBudget : Type 0 where
  pub limits : BudgetLimits
  pub llm_calls_made : ℕ
  pub memories_retired : ℕ
  pub exhausted : Bool
  pub reason : Option StopReason

unfoldable pub new : BudgetLimits → ConsolidationBudget
new limits = record {
  limits = limits;
  llm_calls_made = 0;
  memories_retired = 0;
  exhausted = false;
  reason = none;
}

-- bootstrap/consolidation_wiring.rs: a limit of nought in the configuration is none.
unfoldable pub some_if_nonzero : ℕ → Option ℕ
some_if_nonzero n = if leb n 0 then none else some n

unfoldable pub reached : Option ℕ → ℕ → Bool
reached none n = false
reached (some max) n = leb max n

unfoldable pub stopped : StopReason → ConsolidationBudget → ConsolidationBudget
stopped reason b = record b { exhausted = true; reason = some reason }

module _ (elapsed : ConsolidationBudget → ℕ) where
  unfoldable pub check : ConsolidationBudget → ConsolidationBudget
  unfolding reached stopped
  check b =
      if b.exhausted
      then b
      else if reached b.limits.max_llm_calls b.llm_calls_made
      then stopped max_llm_calls_reached b
      else if reached b.limits.max_duration_secs (elapsed b)
      then stopped (max_duration_reached (elapsed b)) b
      else if reached b.limits.max_memories b.memories_retired
      then stopped max_memories_reached b
      else b

  unfoldable pub record_llm_call : ConsolidationBudget → ConsolidationBudget
  unfolding check
  record_llm_call b = check (record b { llm_calls_made = b.llm_calls_made + 1 })

  unfoldable pub record_retired : ℕ → ConsolidationBudget → ConsolidationBudget
  unfolding check
  record_retired count b = check (record b { memories_retired = b.memories_retired + count })
