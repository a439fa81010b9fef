-- ===== src/Memories/Services/Forgetting.antt =====
-- What a deletion does to the store and the indexes, whatever the indexes answer.
use recuerdos_ai.Prelude.{Option, some, none, ℕ, ◌≡◌, refl, ap, not, keep}
use recuerdos_ai.Text.{Text}
use recuerdos_ai.Shared.Error.{RaError, Result, ok, err}
use recuerdos_ai.Identity.UserContext.{UserContext}
use recuerdos_ai.Memories.Repository.{Store, is_mine, delete_memory}
use recuerdos_ai.Memories.Services.{World, Setting, delete_unless, try_delete, forget_row, forget}
use recuerdos_ai.Memories.Services.Rows.{visible, Deleted, delete_memory-Deleted}

module _ {E V X : Type 0} (setting : Setting E V X) (context : UserContext) (actor : Text)
    (now : ℕ) where
  -- What a call leaves, by its result.
  abbrev pub Forgotten : ℕ → World V X → Result (Unit {0}) × World V X → Type 0
  Forgotten id w (err e, after) = after ≡ w
  Forgotten id w (ok _, after) =
      (visible after.store ≡ keep (λ r. not (is_mine context id r)) (visible w.store))
      × (after.vectors ≡ (setting.ports.vector_remove context id w.vectors).1)
      × (after.text ≡ (setting.ports.text_remove context id w.text).1)

  forget_row-Forgotten :
      (id : ℕ) (w : World V X) (r : Result (Unit {0}) × Store)
      → Deleted context id w.store r
      → Forgotten id w (forget_row setting context actor now id r w)
  unfolding forget_row
  forget_row-Forgotten id w (err e, store) deleted = ap (λ s. record w { store = s }) deleted
  forget_row-Forgotten id w (ok _, store) deleted = (deleted, refl, refl)

  try_delete-Deleted :
      (fault : Option RaError) (id : ℕ) (reason : Text) (store : Store)
      → Deleted context id store (delete_unless setting context actor now fault id reason store)
  unfolding delete_unless
  try_delete-Deleted (some e) id reason store = refl
  try_delete-Deleted none id reason store = delete_memory-Deleted context id actor reason now store

  -- The result of a step that is not reached when the database fails.
  abbrev pub unless_fault : Option RaError → Result (Unit {0}) → Result (Unit {0})
  unless_fault (some e) r = err e
  unless_fault none r = r

  pub forget_lem :
      (id : ℕ) (reason : Text) (w : World V X)
      → Forgotten id w (forget setting context actor now id reason w)
        × ((forget setting context actor now id reason w).0
            ≡ unless_fault
                (setting.ports.delete_fault now id)
                (delete_memory context id actor reason now w.store).0)
  unfolding forget try_delete
  forget_lem id reason w = (
    forget_row-Forgotten id w _
        (try_delete-Deleted (setting.ports.delete_fault now id) id reason w.store),
    same_result (setting.ports.delete_fault now id),
  )
    where
      of_row :
          (r : Result (Unit {0}) × Store) → (forget_row setting context actor now id r w).0 ≡ r.0
      of_row (err e, store) = unfold forget_row in refl
      of_row (ok tt, store) = unfold forget_row in refl

      same_result :
          (fault : Option RaError)
          → (forget_row setting context actor now id
              (delete_unless setting context actor now fault id reason w.store)
              w).0
            ≡ unless_fault fault (delete_memory context id actor reason now w.store).0
      same_result (some e) = unfold delete_unless forget_row in refl
      same_result none =
          unfold delete_unless in of_row (delete_memory context id actor reason now w.store)
