-- ===== src/Memories/Repository/Operations.antt =====
-- Every operation of the store that writes, as one type, for statements about all of them.
use recuerdos_ai.Prelude.{ℕ, List, [], ◌∷◌}
use recuerdos_ai.Text.{Text}
use recuerdos_ai.Identity.UserContext.{UserContext}
use recuerdos_ai.Memories.Memory.{Memory}
use recuerdos_ai.Memories.Memory.Confidence.{F32}
use recuerdos_ai.Memories.Repository.{
  Pin, Store, insert, update_memory, delete_memory, supersede_memory, merge_memories,
  set_importance, touch_accessed,
}

pub data Operation : Type 0 where
  inserting updating : Memory → Text → Operation
  deleting : ℕ → Text → Text → Operation
  superseding : ℕ → ℕ → Text → Text → Operation
  merging : List ℕ → ℕ → Text → Text → Operation
  scoring : List (ℕ × F32) → Operation
  touching : List ℕ → Operation

-- The store after an operation that `context` calls, whether it fails or not.
unfoldable pub apply : Pin → UserContext → ℕ → Operation → Store → Store
apply pin context now (inserting memory actor) store = (insert pin context memory actor now store).1
apply pin context now (updating memory actor) store =
    (update_memory context memory actor now store).1
apply pin context now (deleting id actor reason) store =
    (delete_memory context id actor reason now store).1
apply pin context now (superseding old new actor reason) store =
    (supersede_memory context old new actor reason now store).1
apply pin context now (merging ids new actor reason) store =
    (merge_memories context ids new actor reason now store).1
apply pin context now (scoring scores) store = set_importance context scores store
apply pin context now (touching ids) store = touch_accessed context ids now store

pub record Call : Type 0 where
  pub context : UserContext
  pub now : ℕ
  pub operation : Operation

-- Any series of calls, by any users.
unfoldable pub run : Pin → List Call → Store → Store
unfolding apply
run pin [] store = store
run pin (call ∷ calls) store = run pin calls (apply pin call.context call.now call.operation store)
