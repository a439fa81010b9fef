-- ===== src/Consolidation/Report.antt =====
-- consolidation/domain/consolidation_run.rs: what a pass did. A reason to stop stands for its text.
use recuerdos_ai.Prelude.{ℕ, ◌+◌, Bool, false, ◌||◌, Option, none, some, List, [], ◌++◌}
use recuerdos_ai.Text.{Text}

pub data StopReason : Type 0 where
  max_llm_calls_reached max_memories_reached : StopReason
  max_duration_reached : ℕ → StopReason

pub record ClusterPreview : Type 0 where
  pub category : Text
  pub contents : List Text

pub record ConsolidationReport : Type 0 where
  pub dry_run : Bool
  pub users : ℕ
  pub memories_examined : ℕ
  pub clusters_found : ℕ
  pub merged : ℕ
  pub retired : ℕ
  pub kept_separate : ℕ
  pub expired : ℕ
  pub rescored : ℕ
  pub groups_skipped : ℕ
  pub budget_exhausted : Bool
  pub budget_reason : Option StopReason
  pub previews : List ClusterPreview

-- `ConsolidationReport::default()`
abbrev pub empty_report : ConsolidationReport
empty_report = record {
  dry_run = false;
  users = 0;
  memories_examined = 0;
  clusters_found = 0;
  merged = 0;
  retired = 0;
  kept_separate = 0;
  expired = 0;
  rescored = 0;
  groups_skipped = 0;
  budget_exhausted = false;
  budget_reason = none;
  previews = [];
}

-- `get_or_insert`, where there is something to insert.
unfoldable pub first_reason : Option StopReason → Option StopReason → Option StopReason
first_reason (some reason) other = some reason
first_reason none other = other

unfoldable pub absorb : ConsolidationReport → ConsolidationReport → ConsolidationReport
unfolding first_reason
absorb report other = record report {
  memories_examined = report.memories_examined + other.memories_examined;
  clusters_found = report.clusters_found + other.clusters_found;
  merged = report.merged + other.merged;
  retired = report.retired + other.retired;
  kept_separate = report.kept_separate + other.kept_separate;
  expired = report.expired + other.expired;
  rescored = report.rescored + other.rescored;
  groups_skipped = report.groups_skipped + other.groups_skipped;
  budget_exhausted = report.budget_exhausted || other.budget_exhausted;
  budget_reason = first_reason report.budget_reason other.budget_reason;
  previews = report.previews ++ other.previews;
}
