-- ===== src/Memories/Services/Rows.antt =====
-- The rows that a reader can see, after an insert, a deletion, and both.
use recuerdos_ai.Prelude.{
  nat_eq, ℕ, ◌≡◌, refl, sym, ap, ◌∙◌, Bool, true, false, not, Option, none, some, is_some, List, [],
  ◌∷◌, ◌++◌, arith, ◌==◌, ==_refl, keep, any_where, count_where, update_where, keep-append,
  Bool-cases, inl, inr, subst,
}
use mathlib.Core.List.{append-nil}
use recuerdos_ai.Prelude.Dict
use recuerdos_ai.Text.{Text}
use recuerdos_ai.Shared.Error.{Result, ok, err, ok-injective}
use recuerdos_ai.Identity.UserContext.{UserContext}
use recuerdos_ai.Memories.Category.{as_str, from_stored}
use recuerdos_ai.Memories.Memory.{Memory}
use recuerdos_ai.Memories.Repository.{
  Pin, Store, Row, collection_of, ensure_collection, write_audit, has_id, owned_by, is_mine,
  refers_to_row, new_row, insert_row, insert_into, insert, change_rows, mark_deleted, delete_memory,
  coalesce,
}

abbrev pub is_visible : Row → Bool
is_visible row = not (is_some row.deleted_at)

-- The rows that are not deleted: every read of the store is a function of these.
abbrev pub visible : Store → List Row
visible store = keep is_visible store.rows

-- A memory as it is read back, its category from the name under which it is stored.
abbrev pub read_back : Memory → Memory
read_back m = record m { category = from_stored (as_str m.category) }

abbrev pub row_of : Memory → Row
row_of m = record { memory = read_back m; deleted_at = none }

-- What an insert leaves, by its result.
abbrev pub Inserted : UserContext → Memory → Store → Result (Unit {0}) × Store → Type 0
Inserted context memory store (err e, after) = after.rows ≡ store.rows
Inserted context memory store (ok _, after) =
    (any_where (has_id memory.id) store.rows ≡ false)
    × (after.rows ≡ store.rows ++ new_row context memory ∷ [])

insert_row-Inserted :
    (context : UserContext) (memory : Memory) (actor : Text) (now : ℕ) (store : Store)
    → Inserted context memory store (insert_row context memory actor now store)
unfolding insert_row
insert_row-Inserted context memory actor now store =
    elim (Bool-cases (any_where (has_id memory.id) store.rows)) [
      | inl e ↦ rw e refl
      | inr e ↦
          elim (Bool-cases
            (refers_to_row memory.superseded_by (store.rows ++ new_row context memory ∷ []))) [
              | inl r ↦ rw (e, r) (e, unfold write_audit in refl)
              | inr r ↦ rw (e, r) refl
            ]
    ]

insert_into-Inserted :
    (context : UserContext) (memory : Memory) (actor : Text) (now : ℕ) (store : Store)
    (r : Result Store)
    → ((s : Store) → r ≡ ok s → s.rows ≡ store.rows)
    → Inserted context memory store (insert_into context memory actor now store r)
unfolding insert_into
insert_into-Inserted context memory actor now store (err e) h = refl
insert_into-Inserted context memory actor now store (ok s) h =
    moved (insert_row context memory actor now s) (insert_row-Inserted context memory actor now s)
  where
    moved :
        (r : Result (Unit {0}) × Store)
        → Inserted context memory s r
        → Inserted context memory store r
    moved (err e, after) k = k ∙ h s refl
    moved (ok _, after) k = (
      subst (λ x. any_where (has_id memory.id) x ≡ false) (h s refl) k.0,
      subst (λ x. after.rows ≡ x ++ new_row context memory ∷ []) (h s refl) k.1,
    )

collection_of-rows :
    (pin : Pin) (user_id : ℕ) (o : Option Pin) (store s : Store)
    → collection_of pin user_id o store ≡ ok s
    → s.rows ≡ store.rows
unfolding collection_of
collection_of-rows pin user_id none store s h = sym (ap (λ (x : Store). x.rows) (ok-injective h))
collection_of-rows pin user_id (some stored) store s h =
    let same : store ≡ s = ground arith in sym (ap (λ (x : Store). x.rows) same)

pub insert-Inserted :
    (pin : Pin) (context : UserContext) (memory : Memory) (actor : Text) (now : ℕ) (store : Store)
    → Inserted context memory store (insert pin context memory actor now store)
unfolding insert ensure_collection
insert-Inserted pin context memory actor now store =
    insert_into-Inserted context memory actor now store
      (ensure_collection pin context.user_id store)
      (λ s h.
        collection_of-rows pin context.user_id (Dict.get context.user_id store.collections) store s
          h)

pub coalesce-is_some : (at : Option ℕ) (now : ℕ) → is_some (coalesce at now) ≡ true
unfolding coalesce
coalesce-is_some none now = refl
coalesce-is_some (some at) now = refl

-- What a deletion hides: the caller's row of that identifier, and no other.
pub hide_mine :
    (context : UserContext) (id now : ℕ) (rows : List Row)
    → keep is_visible (update_where (is_mine context id) (mark_deleted now) rows)
      ≡ keep (λ r. not (is_mine context id r)) (keep is_visible rows)
unfolding keep update_where
hide_mine context id now [] = refl
hide_mine context id now (r ∷ rows) = elim (Bool-cases (is_mine context id r)) [
  | inl e ↦ elim (Bool-cases (is_some r.deleted_at)) [
    | inl d ↦ rw (e, hidden, d, hide_mine context id now rows) refl
    | inr d ↦ rw (e, hidden, d, e, hide_mine context id now rows) refl
  ]
  | inr e ↦ elim (Bool-cases (is_some r.deleted_at)) [
    | inl d ↦ rw (e, d, hide_mine context id now rows) refl
    | inr d ↦ rw (e, d, e, hide_mine context id now rows) refl
  ]
]
  where
    hidden : is_some (mark_deleted now r).deleted_at ≡ true
    hidden = unfold mark_deleted in coalesce-is_some r.deleted_at now

-- What a deletion leaves, by its result.
abbrev pub Deleted : UserContext → ℕ → Store → Result (Unit {0}) × Store → Type 0
Deleted context id store (err e, after) = after ≡ store
Deleted context id store (ok _, after) =
    visible after ≡ keep (λ r. not (is_mine context id r)) (visible store)

pub delete_memory-Deleted :
    (context : UserContext) (id : ℕ) (actor reason : Text) (now : ℕ) (store : Store)
    → Deleted context id store (delete_memory context id actor reason now store)
unfolding delete_memory change_rows
delete_memory-Deleted context id actor reason now store =
    elim (Bool-cases (count_where (is_mine context id) store.rows == 0)) [
      | inl e ↦ rw e refl
      | inr e ↦ rw e (hide_mine context id now store.rows)
    ]

new_is_mine :
    (context : UserContext) (memory : Memory)
    → is_mine context memory.id (new_row context memory) ≡ true
unfolding is_mine has_id owned_by new_row
new_is_mine context memory = rw (==_refl memory.id, ==_refl context.user_id) refl

count_where-last :
    (p : Row → Bool) (rows : List Row) (r : Row)
    → p r ≡ true
    → (count_where p (rows ++ r ∷ []) == 0) ≡ false
unfolding count_where
count_where-last p [] r h = rw h refl
count_where-last p (s ∷ rows) r h = let rest = count_where-last p rows r h in ground arith

keep_absent :
    (context : UserContext) (id : ℕ) (rows : List Row)
    → any_where (has_id id) rows ≡ false
    → keep (λ r. not (is_mine context id r)) (keep is_visible rows) ≡ keep is_visible rows
unfolding keep any_where is_mine
keep_absent context id [] h = refl
keep_absent context id (r ∷ rows) h = elim (Bool-cases (has_id id r)) [
  | inl e ↦ cc (rw e at h)
  | inr e ↦ elim (Bool-cases (is_some r.deleted_at)) [
    | inl d ↦ rw d (keep_absent context id rows (rw e at h))
    | inr d ↦ rw (d, e, keep_absent context id rows (rw e at h)) refl
  ]
]

keep_new :
    (context : UserContext) (memory : Memory)
    → keep (λ r. not (is_mine context memory.id r)) (keep is_visible (new_row context memory ∷ []))
      ≡ []
keep_new context memory =
    unfold keep in
    elim (Bool-cases (is_some (new_row context memory).deleted_at)) [
      | inl d ↦ rw d refl
      | inr d ↦ rw (d, new_is_mine context memory) refl
    ]

-- A row that was just inserted, deleted again, leaves what was visible.
pub visible-delete_memory :
    (context : UserContext) (memory : Memory) (actor reason : Text) (now : ℕ) (store before : Store)
    → any_where (has_id memory.id) before.rows ≡ false
    → store.rows ≡ before.rows ++ new_row context memory ∷ []
    → visible (delete_memory context memory.id actor reason now store).1 ≡ visible before
unfolding delete_memory change_rows
visible-delete_memory context memory actor reason now store before fresh rows =
    rw
      (
        rows,
        count_where-last (is_mine context memory.id) before.rows (new_row context memory)
            (new_is_mine context memory),
        hide_mine context memory.id now (before.rows ++ new_row context memory ∷ []),
        keep-append is_visible before.rows (new_row context memory ∷ []),
        keep-append (λ r. not (is_mine context memory.id r)) (keep is_visible before.rows)
            (keep is_visible (new_row context memory ∷ [])),
        keep_new context memory,
        keep_absent context memory.id before.rows fresh,
      )
      (append-nil _)
