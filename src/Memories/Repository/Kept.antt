-- ===== src/Memories/Repository/Kept.antt =====
-- No call brings a deleted memory back.
use recuerdos_ai.Prelude.{
  nat_eq, ℕ, ◌≡◌, refl, none, some, List, [], ◌∷◌, ◌==◌, count_where, is_empty, Bool-cases, inl,
  inr, subst,
}
use recuerdos_ai.Prelude.Dict
use recuerdos_ai.Text.{Text}
use recuerdos_ai.Shared.Error.{Result, ok, err, ok-injective}
use recuerdos_ai.Identity.UserContext.{UserContext}
use recuerdos_ai.Memories.Memory.Confidence.{F32}
use recuerdos_ai.Memories.Repository.{
  Pin, Store, Merge, ensure_collection, write_audit, audit_entry, delete, supersede, is_mine,
  is_present, is_current, refers_to_row, insert, write_columns, update_operation, update_memory,
  mark_deleted, delete_memory, mark_superseded, supersede_memory, retire_one, retire_all, commit,
  merge_memories, set_score, set_importance, is_touched, touch, touch_accessed,
}
use recuerdos_ai.Memories.Repository.Operations.{
  Operation, inserting, updating, deleting, superseding, merging, scoring, touching, apply, Call,
  run,
}
use recuerdos_ai.Memories.Repository.Gone.{
  IsGone, update-IsGone, change_rows-IsGone, write_columns_keeps, mark_deleted_keeps,
  mark_superseded_keeps, set_score_keeps, touch_keeps, insert_into-IsGone, collection_of-IsGone,
}

module _ (id owner : ℕ) where
  retire_one-IsGone :
      (context : UserContext) (replacement : ℕ) (actor reason : Text) (now target : ℕ)
      (m m' : Merge)
      → IsGone id owner m.store
      → retire_one context replacement actor reason now target m ≡ ok m'
      → IsGone id owner m'.store
  unfolding retire_one
  retire_one-IsGone context replacement actor reason now target m m' g h =
      elim (Bool-cases (count_where (is_current context target) m.store.rows == 0)) [
        | inl e ↦ subst (λ x. IsGone id owner x.store) (ok-injective (rw e at h)) g
        | inr e ↦ elim (Bool-cases (refers_to_row (some replacement) m.store.rows)) [
          | inl r ↦
              subst (λ x. IsGone id owner x.store) (ok-injective (rw (e, r) at h))
                (unfold write_audit in
                  update-IsGone id owner (is_current context target)
                    (mark_superseded replacement now) m.store _
                    (mark_superseded_keeps id owner replacement now) g)
          | inr r ↦ cc (rw (e, r) at h)
        ]
      ]

  retire_step-IsGone :
      (context : UserContext) (replacement : ℕ) (actor reason : Text) (now target : ℕ)
      (ids : List ℕ) (m m' : Merge) (r : Result Merge)
      → IsGone id owner m.store
      → retire_one context replacement actor reason now target m ≡ r
      → ((n : Merge)
          → IsGone id owner n.store
          → retire_all context replacement actor reason now ids n ≡ ok m'
          → IsGone id owner m'.store)
      → (elim r [ err e ↦ err e | ok n ↦ retire_all context replacement actor reason now ids n ])
        ≡ ok m'
      → IsGone id owner m'.store
  retire_step-IsGone context replacement actor reason now target ids m m' (err e) g at rest k = cc
  retire_step-IsGone context replacement actor reason now target ids m m' (ok n) g at rest k =
      rest n (retire_one-IsGone context replacement actor reason now target m n g at) k

  retire_all-IsGone :
      (context : UserContext) (replacement : ℕ) (actor reason : Text) (now : ℕ) (ids : List ℕ)
      (m m' : Merge)
      → IsGone id owner m.store
      → retire_all context replacement actor reason now ids m ≡ ok m'
      → IsGone id owner m'.store
  unfolding retire_all
  retire_all-IsGone context replacement actor reason now [] m m' g h =
      subst (λ x. IsGone id owner x.store) (ok-injective h) g
  retire_all-IsGone context replacement actor reason now (target ∷ ids) m m' g h =
      retire_step-IsGone context replacement actor reason now target ids m m' _ g refl
        (λ n gone k. retire_all-IsGone context replacement actor reason now ids n m' gone k) h

  commit-IsGone :
      (store : Store) (r : Result Merge)
      → IsGone id owner store
      → ((m : Merge) → r ≡ ok m → IsGone id owner m.store)
      → IsGone id owner (commit store r).1
  unfolding commit
  commit-IsGone store (err e) g h = g
  commit-IsGone store (ok m) g h = h m refl

  set_importance-IsGone :
      (context : UserContext) (scores : List (ℕ × F32)) (store : Store)
      → IsGone id owner store
      → IsGone id owner (set_importance context scores store)
  unfolding set_importance
  set_importance-IsGone context [] store g = g
  set_importance-IsGone context ((target, x) ∷ scores) store g =
      set_importance-IsGone context scores _ (
        update-IsGone id owner (is_present context target) (set_score x) store store.audit
          (set_score_keeps id owner x) g)

  touch-IsGone :
      (context : UserContext) (ids : List ℕ) (now : ℕ) (store : Store)
      → IsGone id owner store
      → IsGone id owner (touch_accessed context ids now store)
  unfolding touch_accessed
  touch-IsGone context ids now store g = elim (Bool-cases (is_empty ids)) [
    | inl e ↦ rw e g
    | inr e ↦ rw e (
        update-IsGone id owner (is_touched context ids) (touch now) store store.audit
          (touch_keeps id owner now) g)
  ]

  apply-IsGone :
      (pin : Pin) (context : UserContext) (now : ℕ) (operation : Operation) (store : Store)
      → IsGone id owner store
      → IsGone id owner (apply pin context now operation store)
  unfolding apply
  apply-IsGone pin context now (inserting memory actor) store g =
      unfold insert in
      insert_into-IsGone id owner context memory actor now store
        (ensure_collection pin context.user_id store) g
        (λ s h.
          collection_of-IsGone id owner pin context.user_id
            (Dict.get context.user_id store.collections) store s g (unfold ensure_collection in h))
  apply-IsGone pin context now (updating memory actor) store g =
      unfold update_memory in
      change_rows-IsGone id owner (is_present context memory.id) (write_columns memory)
        memory.superseded_by (audit_entry context memory.id (update_operation memory) actor [] now)
        store (write_columns_keeps id owner memory) g
  apply-IsGone pin context now (deleting target actor reason) store g =
      unfold delete_memory in
      change_rows-IsGone id owner (is_mine context target) (mark_deleted now) none
        (audit_entry context target delete actor reason now) store (mark_deleted_keeps id owner now)
        g
  apply-IsGone pin context now (superseding old new actor reason) store g =
      unfold supersede_memory in
      change_rows-IsGone id owner (is_present context old) (mark_superseded new now) (some new)
        (audit_entry context old supersede actor reason now) store
        (mark_superseded_keeps id owner new now) g
  apply-IsGone pin context now (merging ids new actor reason) store g =
      unfold merge_memories in
      commit-IsGone store
        (retire_all context new actor reason now ids (record { store = store; retired = 0 })) g
        (λ m h.
          retire_all-IsGone context new actor reason now ids (record { store = store; retired = 0 })
            m g h)
  apply-IsGone pin context now (scoring scores) store g =
      set_importance-IsGone context scores store g
  apply-IsGone pin context now (touching ids) store g = touch-IsGone context ids now store g

  pub run-IsGone :
      (pin : Pin) (calls : List Call) (store : Store)
      → IsGone id owner store
      → IsGone id owner (run pin calls store)
  unfolding run
  run-IsGone pin [] store g = g
  run-IsGone pin (call ∷ calls) store g =
      run-IsGone pin calls _ (apply-IsGone pin call.context call.now call.operation store g)
