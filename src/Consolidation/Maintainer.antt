-- ===== src/Consolidation/Maintainer.antt =====
-- consolidation/application/memory_maintainer.rs: what has expired is forgotten, and the rest of what
-- is in use is scored again. `date` writes the day of a moment.
pub mod Due
pub mod Expiry
use recuerdos_ai.Prelude.{
  ℕ, ◌+◌, Bool, true, false, not, Option, none, some, List, [], ◌∷◌, ◌++◌, map, length, keep,
}
use recuerdos_ai.Text.{Text, codes}
use recuerdos_ai.Shared.Error.{RaError, Result, ok, err}
use recuerdos_ai.Identity.UserContext.{UserContext}
use recuerdos_ai.Memories.Memory.{Memory, is_superseded, is_expired_at}
use recuerdos_ai.Memories.Memory.Confidence.{F32}
use recuerdos_ai.Memories.Repository.{list_memories, set_importance}
use recuerdos_ai.Memories.Services.{World, Setting, forget}
use recuerdos_ai.Recall.Floats.{Arithmetic}
use recuerdos_ai.Consolidation.Decay.{importance}

abbrev pub actor : Text
actor = codes "consolidation"

pub record MaintenanceOutcome : Type 0 where
  pub expired : ℕ
  pub rescored : ℕ

module _ {E V X : Type 0} (setting : Setting E V X) (f : Arithmetic) (date : ℕ → Text)
    (context : UserContext) (now : ℕ) where
  unfoldable pub expiry_reason : Option ℕ → Text
  expiry_reason (some at) = codes "expired on " ++ date at
  expiry_reason none = codes "expired"

  -- What was forgotten counts; what could not be is passed over.
  unfoldable pub retired_of : Result (Unit {0}) → ℕ
  retired_of (ok _) = 1
  retired_of (err e) = 0

  -- The loop over what has expired.
  unfoldable pub retire_expired : List Memory → World V X → ℕ × World V X
  unfolding expiry_reason retired_of forget
  retire_expired [] w = (0, w)
  retire_expired (memory ∷ expired) w =
      let (reply, w₁) =
        forget setting context actor now memory.id (expiry_reason memory.expires_at) w in
      let (count, w₂) = retire_expired expired w₁ in (retired_of reply + count, w₂)

  unfoldable pub score_of : Memory → ℕ × F32
  unfolding importance
  score_of memory =
      (memory.id, importance f memory.created_at memory.last_accessed_at memory.access_count now)

  unfoldable pub scores_of : List Memory → List (ℕ × F32)
  unfolding score_of keep is_superseded
  scores_of live = map score_of (keep (λ memory. not (is_superseded memory)) live)

  -- The scores are written in one transaction; where that fails, the outcome is lost.
  unfoldable pub rescore :
      Option RaError → ℕ → List (ℕ × F32) → World V X → Result MaintenanceOutcome × World V X
  unfolding set_importance
  rescore (some e) expired scores w = (err e, w)
  rescore none expired scores w = (
    ok (record { expired = expired; rescored = length scores }),
    record w { store = set_importance context scores w.store },
  )

  unfoldable pub execute : World V X → Result MaintenanceOutcome × World V X
  unfolding retire_expired scores_of keep is_expired_at list_memories rescore
  execute w =
      let stored = list_memories context false w.store in
      let expired = keep (is_expired_at now) stored in
      let live = keep (λ memory. not (is_expired_at now memory)) stored in
      let (count, w₁) = retire_expired expired w in
      rescore (setting.ports.score_fault now) count (scores_of live) w₁
