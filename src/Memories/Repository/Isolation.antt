-- ===== src/Memories/Repository/Isolation.antt =====
-- No operation touches what belongs to another user.
use recuerdos_ai.Prelude.{
  ℕ, ◌≡◌, refl, ◌∙◌, Bool, true, false, not, Option, none, some, List, [], ◌∷◌, ◌++◌, arith, ◌==◌,
  ==_refl, keep, any_where, count_where, update_where, nat_eq, is_empty, keep-update_where,
  keep-append, Bool-cases, inl, inr, subst, ◌⊎◌,
}
use mathlib.Core.List.{append-nil}
use recuerdos_ai.Text.{Text}
use recuerdos_ai.Shared.Error.{Result, ok, err, ok-injective}
use recuerdos_ai.Identity.UserContext.{UserContext}
use recuerdos_ai.Memories.Memory.{Memory}
use recuerdos_ai.Memories.Memory.Confidence.{F32}
use recuerdos_ai.Memories.Repository.{
  delete, supersede, Pin, Store, Row, AuditEntry, AuditOperation, Merge, collection_of,
  ensure_collection, audit_entry, write_audit, has_id, owned_by, is_mine, is_present, is_current,
  refers_to_row, new_row, insert_row, insert_into, insert, write_columns, change_rows,
  update_operation, update_memory, mark_deleted, delete_memory, mark_superseded, supersede_memory,
  retire_one, retire_all, commit, merge_memories, set_score, set_importance, is_touched, touch,
  touch_accessed,
}
use recuerdos_ai.Memories.Repository.Operations.{
  Operation, inserting, updating, deleting, superseding, merging, scoring, touching, apply,
}

-- What belongs to everybody else.
abbrev pub foreign_row : ℕ → Row → Bool
foreign_row user_id row = not (row.memory.user_id == user_id)

abbrev pub foreign_entry : ℕ → AuditEntry → Bool
foreign_entry user_id entry = not (entry.user_id == user_id)

-- Two stores that everybody but `user_id` sees alike.
pub record SameForOthers (user_id : ℕ) (a b : Store) : Type 0 where
  pub rows : keep (foreign_row user_id) a.rows ≡ keep (foreign_row user_id) b.rows
  pub audit : keep (foreign_entry user_id) a.audit ≡ keep (foreign_entry user_id) b.audit

module _ (context : UserContext) where
  abbrev Same : Store → Store → Type 0
  Same = SameForOthers context.user_id

  Same-refl : (s : Store) → Same s s
  Same-refl s = record { rows = refl; audit = refl }

  Same-trans : (a b c : Store) → Same a b → Same b c → Same a c
  Same-trans a b c h k = record { rows = h.rows ∙ k.rows; audit = h.audit ∙ k.audit }

  -- An update of the caller's rows that leaves the owner is invisible to others.
  rows_same :
      (p : Row → Bool) (f : Row → Row) (rows : List Row)
      → ((r : Row) → p r ≡ true → r.memory.user_id ≡ context.user_id)
      → ((r : Row) → (f r).memory.user_id ≡ r.memory.user_id)
      → keep (foreign_row context.user_id) (update_where p f rows)
        ≡ keep (foreign_row context.user_id) rows
  rows_same p f rows mine same = keep-update_where (foreign_row context.user_id) p f rows (λ r hit.
      (
        rw (mine r hit, ==_refl context.user_id) refl,
        rw (same r, mine r hit, ==_refl context.user_id) refl,
      ))

  entry_same :
      (audit : List AuditEntry) (id : ℕ) (operation : AuditOperation) (actor detail : Text)
      (now : ℕ)
      → keep
          (foreign_entry context.user_id)
          (audit ++ audit_entry context id operation actor detail now ∷ [])
        ≡ keep (foreign_entry context.user_id) audit
  entry_same audit id operation actor detail now =
      rw (keep-append (foreign_entry context.user_id) audit _)
        (unfold keep in rw (==_refl context.user_id) (append-nil _))

  change_rows-Same :
      (p : Row → Bool) (f : Row → Row) (reference : Option ℕ) (id : ℕ) (operation : AuditOperation)
      (actor detail : Text) (now : ℕ) (store : Store)
      → ((r : Row) → p r ≡ true → r.memory.user_id ≡ context.user_id)
      → ((r : Row) → (f r).memory.user_id ≡ r.memory.user_id)
      → Same
          (change_rows p f reference (audit_entry context id operation actor detail now) store).1
          store
  unfolding change_rows
  change_rows-Same p f reference id operation actor detail now store mine same =
      elim (Bool-cases (count_where p store.rows == 0)) [
        | inl e ↦ rw e (Same-refl store)
        | inr e ↦ elim (Bool-cases (refers_to_row reference store.rows)) [
          | inl r ↦
              rw (e, r)
                (record {
                  rows = rows_same p f store.rows mine same;
                  audit = entry_same store.audit id operation actor detail now;
                })
          | inr r ↦ rw (e, r) (Same-refl store)
        ]
      ]

  mine_of_is_mine :
      (id : ℕ) (r : Row) → is_mine context id r ≡ true → r.memory.user_id ≡ context.user_id
  unfolding is_mine owned_by
  mine_of_is_mine id r h = ground arith

  mine_of_is_present :
      (id : ℕ) (r : Row) → is_present context id r ≡ true → r.memory.user_id ≡ context.user_id
  unfolding is_present owned_by
  mine_of_is_present id r h = ground arith

  mine_of_is_current :
      (id : ℕ) (r : Row) → is_current context id r ≡ true → r.memory.user_id ≡ context.user_id
  unfolding is_current owned_by
  mine_of_is_current id r h = ground arith

  mine_of_is_touched :
      (ids : List ℕ) (r : Row)
      → is_touched context ids r ≡ true
      → r.memory.user_id ≡ context.user_id
  unfolding is_touched owned_by
  mine_of_is_touched ids r h = ground arith

  insert_row-Same :
      (memory : Memory) (actor : Text) (now : ℕ) (store : Store)
      → Same (insert_row context memory actor now store).1 store
  unfolding insert_row
  insert_row-Same memory actor now store =
      elim (Bool-cases (any_where (has_id memory.id) store.rows)) [
        | inl e ↦ rw e (Same-refl store)
        | inr e ↦
            elim (Bool-cases
              (refers_to_row memory.superseded_by (store.rows ++ new_row context memory ∷ []))) [
                | inl r ↦
                    rw (e, r)
                      (record {
                        rows =
                            rw (keep-append (foreign_row context.user_id) store.rows _)
                              (unfold keep new_row in rw (==_refl context.user_id) (append-nil _));
                        audit =
                            unfold write_audit in entry_same store.audit memory.id _ actor _ now;
                      })
                | inr r ↦ rw (e, r) (Same-refl store)
              ]
      ]

  insert_into-Same :
      (memory : Memory) (actor : Text) (now : ℕ) (store : Store) (r : Result Store)
      → ((s : Store) → r ≡ ok s → Same s store)
      → Same (insert_into context memory actor now store r).1 store
  unfolding insert_into
  insert_into-Same memory actor now store (err e) h = Same-refl store
  insert_into-Same memory actor now store (ok s) h =
      Same-trans _ s store (insert_row-Same memory actor now s) (h s refl)

  collection_of-Same :
      (pin : Pin) (user_id : ℕ) (o : Option Pin) (store s : Store)
      → collection_of pin user_id o store ≡ ok s
      → Same s store
  unfolding collection_of
  collection_of-Same pin user_id none store s h =
      rw (← ok-injective h) (record { rows = refl; audit = refl })
  collection_of-Same pin user_id (some stored) store s h =
      let same : store ≡ s = ground arith in rw (← same) (Same-refl store)

  retire_one-Same :
      (replacement : ℕ) (actor reason : Text) (now id : ℕ) (m m' : Merge)
      → retire_one context replacement actor reason now id m ≡ ok m'
      → Same m'.store m.store
  unfolding retire_one
  retire_one-Same replacement actor reason now id m m' h =
      elim (Bool-cases (count_where (is_current context id) m.store.rows == 0)) [
        | inl e ↦ subst (λ x. Same x.store m.store) (ok-injective (rw e at h)) (Same-refl m.store)
        | inr e ↦ elim (Bool-cases (refers_to_row (some replacement) m.store.rows)) [
          | inl r ↦
              subst (λ x. Same x.store m.store) (ok-injective (rw (e, r) at h))
                (record {
                  rows =
                      unfold write_audit in
                      rows_same (is_current context id) (mark_superseded replacement now)
                        m.store.rows (mine_of_is_current id) (λ x. unfold mark_superseded in refl);
                  audit = unfold write_audit in entry_same m.store.audit id _ actor reason now;
                })
          | inr r ↦ cc (rw (e, r) at h)
        ]
      ]

  retire_step-Same :
      (replacement : ℕ) (actor reason : Text) (now id : ℕ) (ids : List ℕ) (m m' : Merge)
      (r : Result Merge)
      → retire_one context replacement actor reason now id m ≡ r
      → ((n : Merge)
          → retire_all context replacement actor reason now ids n ≡ ok m'
          → Same m'.store n.store)
      → (elim r [ err e ↦ err e | ok n ↦ retire_all context replacement actor reason now ids n ])
        ≡ ok m'
      → Same m'.store m.store
  retire_step-Same replacement actor reason now id ids m m' (err e) at rest k = cc
  retire_step-Same replacement actor reason now id ids m m' (ok n) at rest k =
      Same-trans _ n.store m.store (rest n k)
        (retire_one-Same replacement actor reason now id m n at)

  retire_all-Same :
      (replacement : ℕ) (actor reason : Text) (now : ℕ) (ids : List ℕ) (m m' : Merge)
      → retire_all context replacement actor reason now ids m ≡ ok m'
      → Same m'.store m.store
  unfolding retire_all
  retire_all-Same replacement actor reason now [] m m' h =
      subst (λ x. Same x.store m.store) (ok-injective h) (Same-refl m.store)
  retire_all-Same replacement actor reason now (id ∷ ids) m m' h =
      retire_step-Same replacement actor reason now id ids m m' _ refl
        (λ n k. retire_all-Same replacement actor reason now ids n m' k) h

  commit-Same :
      (store : Store) (r : Result Merge)
      → ((m : Merge) → r ≡ ok m → Same m.store store)
      → Same (commit store r).1 store
  unfolding commit
  commit-Same store (err e) h = Same-refl store
  commit-Same store (ok m) h = h m refl

  set_importance-Same :
      (scores : List (ℕ × F32)) (store : Store) → Same (set_importance context scores store) store
  unfolding set_importance
  set_importance-Same [] store = Same-refl store
  set_importance-Same ((id, x) ∷ scores) store =
      Same-trans _ _ store (set_importance-Same scores _) (record {
        rows =
            rows_same (is_present context id) (set_score x) store.rows (mine_of_is_present id)
              (λ r. unfold set_score in refl);
        audit = refl;
      })

-- Whatever a user calls, with whatever identifiers, the rows of all other users and their audit
-- trails are as they were.
pub apply-SameForOthers :
    (pin : Pin) (context : UserContext) (now : ℕ) (operation : Operation) (store : Store)
    → SameForOthers context.user_id (apply pin context now operation store) store
unfolding apply
apply-SameForOthers pin context now (inserting memory actor) store =
    unfold insert in
    insert_into-Same context memory actor now store (ensure_collection pin context.user_id store)
      (λ s h.
        collection_of-Same context pin context.user_id _ store s (unfold ensure_collection in h))
apply-SameForOthers pin context now (updating memory actor) store =
    unfold update_memory in
    change_rows-Same context (is_present context memory.id) (write_columns memory)
      memory.superseded_by memory.id (update_operation memory) actor [] now store
      (mine_of_is_present context memory.id) (λ r. unfold write_columns in refl)
apply-SameForOthers pin context now (deleting id actor reason) store =
    unfold delete_memory in
    change_rows-Same context (is_mine context id) (mark_deleted now) none id delete actor reason now
      store (mine_of_is_mine context id) (λ r. unfold mark_deleted in refl)
apply-SameForOthers pin context now (superseding old new actor reason) store =
    unfold supersede_memory in
    change_rows-Same context (is_present context old) (mark_superseded new now) (some new) old
      supersede actor reason now store (mine_of_is_present context old)
      (λ r. unfold mark_superseded in refl)
apply-SameForOthers pin context now (merging ids new actor reason) store =
    unfold merge_memories in
    commit-Same context store _ (λ m h.
      retire_all-Same context new actor reason now ids (record { store = store; retired = 0 }) m h)
apply-SameForOthers pin context now (scoring scores) store =
    set_importance-Same context scores store
apply-SameForOthers pin context now (touching ids) store = touch_same (Bool-cases (is_empty ids))
  where
    touch_same :
        (is_empty ids ≡ true) ⊎ (is_empty ids ≡ false)
        → SameForOthers context.user_id (touch_accessed context ids now store) store
    touch_same (inl e) = unfold touch_accessed in rw e (Same-refl context store)
    touch_same (inr e) =
        unfold touch_accessed in
        rw e (record {
          rows =
              rows_same context (is_touched context ids) (touch now) store.rows
                (mine_of_is_touched context ids) (λ r. unfold touch in refl);
          audit = refl;
        })
