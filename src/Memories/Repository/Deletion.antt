-- ===== src/Memories/Repository/Deletion.antt =====
-- A memory that was deleted is gone for good.
use recuerdos_ai.Prelude.{
  nat_eq, ℕ, ◌≡◌, refl, ◌∙◌, true, false, none, List, [], ◌∷◌, arith, ◌==◌, any_where, count_where,
  update_where, Bool-cases, inl, inr, All,
}
use recuerdos_ai.Text.{Text}
use recuerdos_ai.Shared.Error.{ok}
use recuerdos_ai.Identity.UserContext.{UserContext}
use recuerdos_ai.Memories.Repository.{
  Pin, Store, Row, has_id, owned_by, is_mine, is_present, change_rows, mark_deleted, delete_memory,
  find, find_row,
}
use recuerdos_ai.Memories.Repository.Operations.{Call, run}
use recuerdos_ai.Memories.Repository.Gone.{
  true-false, GoneRow, IsGone, stands_update, mark_deleted_keeps, coalesce_some, not_mine,
}
use recuerdos_ai.Memories.Repository.Kept.{run-IsGone}

module _ (id owner : ℕ) where
  present_not_gone :
      (context : UserContext) (r : Row)
      → context.user_id ≡ owner
      → is_present context id r ≡ true
      → GoneRow id owner r
      → false ≡ true
  unfolding is_present is_mine has_id owned_by
  present_not_gone context r mine e gone = ground arith

  find_row_gone :
      (context : UserContext) (rows : List Row)
      → context.user_id ≡ owner
      → All (GoneRow id owner) rows
      → find_row context id rows ≡ none
  unfolding find_row
  find_row_gone context [] mine g = refl
  find_row_gone context (r ∷ rows) mine g = elim (Bool-cases (is_present context id r)) [
    | inl e ↦ true-false (present_not_gone context r mine e g.0)
    | inr e ↦ rw e (find_row_gone context rows mine g.1)
  ]

  stands_of_count :
      (context : UserContext) (rows : List Row)
      → (count_where (is_mine context id) rows == 0) ≡ false
      → any_where (has_id id) rows ≡ true
  unfolding count_where any_where
  stands_of_count context [] h = cc
  stands_of_count context (r ∷ rows) h = elim (Bool-cases (has_id id r)) [
    | inl e ↦ rw e refl
    | inr e ↦ rw e (stands_of_count context rows (unfold is_mine in (rw e at h)))
  ]

  deleted_by_owner :
      (context : UserContext) (now : ℕ) (rows : List Row)
      → context.user_id ≡ owner
      → All (GoneRow id owner) (update_where (is_mine context id) (mark_deleted now) rows)
  unfolding update_where
  deleted_by_owner context now [] mine = tt
  deleted_by_owner context now (r ∷ rows) mine = elim (Bool-cases (is_mine context id r)) [
    | inl e ↦ rw e (
      (λ _ _. unfold mark_deleted in coalesce_some id owner r.deleted_at now),
      deleted_by_owner context now rows mine,
    )
    | inr e ↦ rw e (
      (λ same whose. true-false (not_mine id owner context r mine e same whose)),
      deleted_by_owner context now rows mine,
    )
  ]

  delete-IsGone :
      (context : UserContext) (actor reason : Text) (now : ℕ) (store : Store)
      → context.user_id ≡ owner
      → (delete_memory context id actor reason now store).0 ≡ ok tt
      → IsGone id owner (delete_memory context id actor reason now store).1
  unfolding delete_memory change_rows
  delete-IsGone context actor reason now store mine h =
      elim (Bool-cases (count_where (is_mine context id) store.rows == 0)) [
        | inl e ↦ cc (rw e at h)
        | inr e ↦ rw e (record {
          stands =
              stands_update id owner _ _ store.rows (mark_deleted_keeps id owner now)
              ∙ stands_of_count context store.rows e;
          deleted = deleted_by_owner context now store.rows mine;
        })
      ]

-- Once a user's deletion of a memory succeeds, then whatever calls follow, by whatever users and
-- with whatever arguments, an insert under the same identifier included, that user does not find the
-- memory again.
pub delete_memory_final :
    (pin : Pin) (context : UserContext) (id : ℕ) (actor reason : Text) (now : ℕ) (store : Store)
    (calls : List Call)
    → (delete_memory context id actor reason now store).0 ≡ ok tt
    → find context id (run pin calls (delete_memory context id actor reason now store).1) ≡ none
unfolding find
delete_memory_final pin context id actor reason now store calls h =
    let gone =
      run-IsGone id context.user_id pin calls _
        (delete-IsGone id context.user_id context actor reason now store refl h) in
    find_row_gone id context.user_id context _ refl gone.deleted
