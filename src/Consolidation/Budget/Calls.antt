-- ===== src/Consolidation/Budget/Calls.antt =====
-- A budget that limits the calls of the model, as calls and retirements are recorded.
use recuerdos_ai.Prelude.{ℕ, ◌+◌, ◌≤◌, ◌<◌, ◌≡◌, refl, false, some, arith, if-cases}
use recuerdos_ai.Consolidation.Report.{
  StopReason, max_llm_calls_reached, max_duration_reached, max_memories_reached,
}
use recuerdos_ai.Consolidation.Budget.{
  ConsolidationBudget, reached, stopped, check, record_llm_call, record_retired,
}

-- At most `max` calls, and fewer where the budget is not exhausted.
pub record Fits (max : ℕ) (b : ConsolidationBudget) : Type 0 where
  pub limit : b.limits.max_llm_calls ≡ some max
  pub calls : b.llm_calls_made ≤ max
  pub spare : b.exhausted ≡ false → b.llm_calls_made < max

abbrev pub Kept : ℕ → ConsolidationBudget → ConsolidationBudget → Type 0
Kept max b after = Fits max after × (after.llm_calls_made ≡ b.llm_calls_made)

stopped-Kept :
    (max : ℕ) (reason : StopReason) (b : ConsolidationBudget)
    → b.limits.max_llm_calls ≡ some max
    → b.llm_calls_made ≤ max
    → Kept max b (stopped reason b)
unfolding stopped
stopped-Kept max reason b limit calls =
    (record { limit = limit; calls = calls; spare = λ e. cc }, refl)

not_reached : (max n : ℕ) → reached (some max) n ≡ false → n < max
unfolding reached
not_reached max n e = ground arith

module _ (max : ℕ) (elapsed : ConsolidationBudget → ℕ) where
  -- What a check makes of a budget with calls to spare or spent.
  pub check-Kept :
      (b : ConsolidationBudget)
      → b.limits.max_llm_calls ≡ some max
      → b.llm_calls_made ≤ max
      → Kept max b (check elapsed b)
  unfolding check
  check-Kept b limit calls =
      if-cases (Kept max b) b.exhausted
        (λ e. (record { limit = limit; calls = calls; spare = λ n. cc }, refl))
        (λ _.
          if-cases (Kept max b) (reached b.limits.max_llm_calls b.llm_calls_made)
            (λ _. stopped-Kept max max_llm_calls_reached b limit calls)
            (λ c.
              if-cases (Kept max b) (reached b.limits.max_duration_secs (elapsed b))
                (λ _. stopped-Kept max (max_duration_reached (elapsed b)) b limit calls)
                (λ _.
                  if-cases (Kept max b) (reached b.limits.max_memories b.memories_retired)
                    (λ _. stopped-Kept max max_memories_reached b limit calls)
                    (λ _. (
                      record {
                        limit = limit;
                        calls = calls;
                        spare = λ _. not_reached max b.llm_calls_made (rw limit at c);
                      },
                      refl,
                    )))))

  pub record_llm_call-Fits :
      (b : ConsolidationBudget)
      → Fits max b
      → b.exhausted ≡ false
      → Fits max (record_llm_call elapsed b)
        × ((record_llm_call elapsed b).llm_calls_made ≡ b.llm_calls_made + 1)
  unfolding record_llm_call
  record_llm_call-Fits b fits e =
      let less = fits.spare e in
      check-Kept (record b { llm_calls_made = b.llm_calls_made + 1 }) fits.limit (omega arith)

  pub record_retired-Fits :
      (count : ℕ) (b : ConsolidationBudget)
      → Fits max b
      → Kept max b (record_retired elapsed count b)
  unfolding record_retired
  record_retired-Fits count b fits =
      check-Kept (record b { memories_retired = b.memories_retired + count }) fits.limit fits.calls
