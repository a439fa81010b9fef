-- ===== src/Consolidation/Maintainer/Expiry.antt =====
-- What maintenance takes out of a user's store.
use recuerdos_ai.Prelude.{
  ◌⊎◌, Option, some, is_some, not, false, ℕ, ◌≡◌, true, false, List, [], map, keep, All, length,
}
use recuerdos_ai.Text.{Text}
use recuerdos_ai.Shared.Error.{RaError, Result, ok, err}
use recuerdos_ai.Identity.UserContext.{UserContext}
use recuerdos_ai.Memories.Memory.{Memory, is_expired_at}
use recuerdos_ai.Memories.Repository.{list_memories}
use recuerdos_ai.Memories.Services.{World, Setting}
use recuerdos_ai.Memories.Services.Rows.{visible}
use recuerdos_ai.Recall.Floats.{Arithmetic}
use recuerdos_ai.Consolidation.Maintainer.{MaintenanceOutcome}
use recuerdos_ai.Consolidation.Maintainer.Due.{IsDue, spared, id_of}

module _ {E V X : Type 0} (setting : Setting E V X) (f : Arithmetic) (date : ℕ → Text)
    (context : UserContext) (now : ℕ) where
  -- The errors of the database, by identifier.
  abbrev pub faults : ℕ → Option RaError
  faults id = setting.ports.delete_fault now id

  -- The memories that the database does not fail to delete.
  abbrev pub deletable : List Memory → List Memory
  deletable expired = keep (λ (m : Memory). not (is_some (faults m.id))) expired

  -- What the loop over the expired memories leaves.
  record Retired (expired : List Memory) (w : World V X) (reply : ℕ × World V X) : Type 0 where
    count : reply.0 ≡ length (deletable expired)
    due : All (IsDue context now faults []) reply.1.store.rows
    rest : visible reply.1.store ≡ spared context now faults (deletable expired) (visible w.store)

  -- The memories that maintenance forgets.
  abbrev pub expired_in : World V X → List Memory
  expired_in w = keep (is_expired_at now) (list_memories context false w.store)

  -- What maintenance leaves, by its result.
  abbrev pub Maintained : World V X → Result MaintenanceOutcome × World V X → Type 0
  Maintained w r =
      (((e : RaError) × (setting.ports.score_fault now ≡ some e) × (r.0 ≡ err e))
        ⊎ ((outcome : MaintenanceOutcome) × (r.0 ≡ ok outcome)
            × (outcome.expired ≡ length (deletable (expired_in w)))))
      × (map id_of (visible r.1.store)
          ≡ map id_of (spared context now faults (deletable (expired_in w)) (visible w.store)))
      × All (λ (m : Memory). (is_expired_at now m ≡ false) ⊎ (is_some (faults m.id) ≡ true))
          (list_memories context false r.1.store)
