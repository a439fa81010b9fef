-- ===== src/Memories/Services/Lookup.antt =====
-- What a lookup finds after an insert and after an update.
use recuerdos_ai.Prelude.{
  ℕ, ◌≡◌, ◌≢◌, refl, ap, true, false, Option, none, some, List, [], ◌∷◌, ◌++◌, arith, ◌==◌, ==_refl,
  if◌then◌else◌, any_where, update_where, count_where, Bool-cases, inl, inr,
}
use recuerdos_ai.Text.{Text}
use recuerdos_ai.Shared.Error.{Result, ok, err}
use recuerdos_ai.Identity.UserContext.{UserContext}
use recuerdos_ai.Memories.Category.{as_str, from_stored}
use recuerdos_ai.Memories.Memory.{Memory}
use recuerdos_ai.Memories.Memory.Confidence.{num, one}
use recuerdos_ai.Memories.Repository.{
  Pin, Store, Row, has_id, owned_by, is_mine, is_present, new_row, insert, write_columns,
  change_rows, update_memory, refers_to_row, find, find_row,
}
use recuerdos_ai.Memories.Services.Rows.{Inserted, insert-Inserted}

abbrev or_else : Option Memory → Option Memory → Option Memory
or_else none o = o
or_else (some m) o = some m

or_else-none : (o : Option Memory) → or_else o none ≡ o
or_else-none none = refl
or_else-none (some m) = refl

find_row-append :
    (context : UserContext) (id : ℕ) (rows : List Row) (r : Row)
    → find_row context id (rows ++ r ∷ [])
      ≡ or_else (find_row context id rows) (if is_present context id r then some r.memory else none)
unfolding find_row
find_row-append context id [] r = refl
find_row-append context id (s ∷ rows) r = elim (Bool-cases (is_present context id s)) [
  | inl e ↦ rw e refl
  | inr e ↦ rw e (find_row-append context id rows r)
]

not_present :
    (context : UserContext) (id : ℕ) (r : Row)
    → has_id id r ≡ false
    → is_present context id r ≡ false
unfolding is_present is_mine
not_present context id r e = rw e refl

find_row-absent :
    (context : UserContext) (id : ℕ) (rows : List Row)
    → any_where (has_id id) rows ≡ false
    → find_row context id rows ≡ none
unfolding find_row any_where
find_row-absent context id [] h = refl
find_row-absent context id (r ∷ rows) h = elim (Bool-cases (has_id id r)) [
  | inl e ↦ cc (rw e at h)
  | inr e ↦ rw (not_present context id r e, find_row-absent context id rows (rw e at h)) refl
]

new_present :
    (context : UserContext) (memory : Memory)
    → is_present context memory.id (new_row context memory) ≡ true
unfolding is_present is_mine has_id owned_by new_row
new_present context memory = rw (==_refl memory.id, ==_refl context.user_id) refl

new_not_present :
    (context : UserContext) (memory : Memory) (other : ℕ)
    → memory.id ≢ other
    → is_present context other (new_row context memory) ≡ false
unfolding is_present is_mine has_id new_row
new_not_present context memory other apart = elim (Bool-cases (memory.id == other)) [
  | inl e ↦ absurd (apart (ground arith))
  | inr e ↦ rw e refl
]

-- What is read back of a memory that was inserted: its category from its name, and the columns that an
-- insert does not name at their defaults.
abbrev pub inserted : UserContext → Memory → Memory
inserted context memory = record memory {
  user_id = context.user_id;
  category = from_stored (as_str memory.category);
  access_count = 0;
  importance = num one;
}

inserted_lem :
    (context : UserContext) (memory : Memory)
    → (new_row context memory).memory ≡ inserted context memory
unfolding new_row
inserted_lem context memory = refl

-- What a lookup finds after an insert, by its result.
abbrev pub Found : UserContext → Memory → Store → Result (Unit {0}) × Store → Type 0
Found context memory store (err e, after) = (id : ℕ) → find context id after ≡ find context id store
Found context memory store (ok _, after) =
    (find context memory.id store ≡ none)
    × (find context memory.id after ≡ some (inserted context memory))
    × ((other : ℕ) → memory.id ≢ other → find context other after ≡ find context other store)

Inserted-Found :
    (context : UserContext) (memory : Memory) (store : Store) (r : Result (Unit {0}) × Store)
    → Inserted context memory store r
    → Found context memory store r
unfolding find
Inserted-Found context memory store (err e, after) h = λ id. ap (find_row context id) h
Inserted-Found context memory store (ok _, after) h = (
  find_row-absent context memory.id store.rows h.0,
  rw
      (
        h.1,
        find_row-append context memory.id store.rows (new_row context memory),
        find_row-absent context memory.id store.rows h.0,
        new_present context memory,
      )
      (ap some (inserted_lem context memory)),
  λ other apart.
      rw
        (
          h.1,
          find_row-append context other store.rows (new_row context memory),
          new_not_present context memory other apart,
        )
        (or_else-none _),
)

-- An insert that succeeds put a memory where there was none. The caller then finds it under its
-- identifier, as their own, with no accesses and the full importance, in the category that the name of
-- its category is read as, and otherwise as it was given; and under every other identifier what was
-- there. An insert that fails changes no lookup.
pub find-insert :
    (pin : Pin) (context : UserContext) (memory : Memory) (actor : Text) (now : ℕ) (store : Store)
    → Found context memory store (insert pin context memory actor now store)
find-insert pin context memory actor now store =
    Inserted-Found context memory store _ (insert-Inserted pin context memory actor now store)

-- What is read back of a memory after an update: the columns that an update writes from the new memory,
-- the category from its name, and the rest from the old.
abbrev pub written : Memory → Option Memory → Option Memory
written memory none = none
written memory (some old) = some (record old {
  content = memory.content;
  category = from_stored (as_str memory.category);
  subcategory = memory.subcategory;
  tags = memory.tags;
  entities = memory.entities;
  confidence = memory.confidence;
  updated_at = memory.updated_at;
  expires_at = memory.expires_at;
  superseded_by = memory.superseded_by;
})

same_present :
    (context : UserContext) (memory : Memory) (id : ℕ) (r : Row)
    → is_present context id (write_columns memory r) ≡ is_present context id r
unfolding is_present is_mine has_id owned_by write_columns
same_present context memory id r = refl

find_row-cons :
    (context : UserContext) (id : ℕ) (r : Row) (rows : List Row)
    → find_row context id (r ∷ rows)
      ≡ (if is_present context id r then some r.memory else find_row context id rows)
unfolding find_row
find_row-cons context id r rows = refl

written_one :
    (memory : Memory) (r : Row)
    → some (write_columns memory r).memory ≡ written memory (some r.memory)
unfolding write_columns
written_one memory r = refl

find_row-written :
    (context : UserContext) (memory : Memory) (id : ℕ) (rows : List Row)
    → find_row context id (update_where (is_present context id) (write_columns memory) rows)
      ≡ written memory (find_row context id rows)
unfolding update_where
find_row-written context memory id [] = unfold find_row in refl
find_row-written context memory id (r ∷ rows) =
    let rest = find_row-written context memory id rows in
    let more = update_where (is_present context id) (write_columns memory) rows in
    elim (Bool-cases (is_present context id r)) [
      | inl e ↦
          rw
            (
              e,
              find_row-cons context id (write_columns memory r) more,
              find_row-cons context id r rows,
              same_present context memory id r,
              e,
            )
            (written_one memory r)
      | inr e ↦ rw (e, find_row-cons context id r more, find_row-cons context id r rows, e) rest
    ]

-- After an update that succeeds, the caller finds the memory with the content, subcategory, tags,
-- entities, confidence, instant of the update, expiry and replacement that were given, in the category
-- that the name of the given category is read as, and with the rest (its owner, its source, its creation,
-- its accesses and its importance) as it was.
pub find-update_memory :
    (context : UserContext) (memory : Memory) (actor : Text) (now : ℕ) (store : Store)
    → (update_memory context memory actor now store).0 ≡ ok tt
    → find context memory.id (update_memory context memory actor now store).1
      ≡ written memory (find context memory.id store)
unfolding update_memory change_rows find
find-update_memory context memory actor now store h =
    elim (Bool-cases (count_where (is_present context memory.id) store.rows == 0)) [
      | inl e ↦ cc (rw e at h)
      | inr e ↦ elim (Bool-cases (refers_to_row memory.superseded_by store.rows)) [
        | inl r ↦ rw (e, r) (find_row-written context memory memory.id store.rows)
        | inr r ↦ cc (rw (e, r) at h)
      ]
    ]
