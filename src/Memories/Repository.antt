-- ===== src/Memories/Repository.antt =====
-- memories/domain/memory_repository.rs and memories/infrastructure/sqlite_memory_repository.rs: the
-- tables `memories`, `memory_audit` and `collections`, rows in the order of their insertion. A
-- statement or a transaction is one step; a constraint that it breaks is the error `conflict` and
-- changes nothing. Tags and entities stand for their JSON texts. Faults of the database itself are
-- left out, and so are users that are removed while they act.
pub mod Operations
pub mod Isolation
pub mod Gone
pub mod Kept
pub mod Deletion
pub mod Retiring
pub mod Updates
pub mod Trail
use recuerdos_ai.Prelude.{
  ℕ, zero, suc, ◌+◌, Bool, true, false, not, ◌&&◌, ◌||◌, Option, none, some, is_some, List, [], ◌∷◌,
  ◌++◌, map, ltb, leb, ◌==◌, if◌then◌else◌, keep, any_where, count_where, update_where, contains,
  nat_eq, take, is_empty,
}
use recuerdos_ai.Prelude.Dict
use recuerdos_ai.Text.{Text, codes, same_text}
use recuerdos_ai.Shared.Error.{RaError, Result, ok, err, validation, conflict, not_found}
use recuerdos_ai.Identity.UserContext.{UserContext}
use recuerdos_ai.Memories.Category.{from_stored, as_str}
use recuerdos_ai.Memories.Memory.{Memory, is_superseded}
use recuerdos_ai.Memories.Memory.Confidence.{F32, num, one}

pub data AuditOperation : Type 0 where
  add update delete supersede merge : AuditOperation

pub record AuditEntry : Type 0 where
  pub memory_id : ℕ
  pub user_id : ℕ
  pub operation : AuditOperation
  pub actor : Text
  pub detail : Text
  pub at : ℕ

-- A row of `memories`; its column `user_id` is that of the memory.
pub record Row : Type 0 where
  pub memory : Memory
  pub deleted_at : Option ℕ

-- The embedding model that a collection was built with.
pub record Pin : Type 0 where
  pub model : Text
  pub dimensions : ℕ

pub record Store : Type 0 where
  pub collections : List (ℕ × Pin)
  pub rows : List Row
  pub audit : List AuditEntry

unfoldable pub same_pin : Pin → Pin → Bool
same_pin a b = same_text a.model b.model && a.dimensions == b.dimensions

-- The stored pin of a user's collection against the configured one; a first write creates it.
unfoldable pub collection_of : Pin → ℕ → Option Pin → Store → Result Store
unfolding same_pin
collection_of configured user_id none store =
    ok (record store { collections = Dict.insert user_id configured store.collections })
collection_of configured user_id (some stored) store =
    if same_pin stored configured then ok store else err validation

-- `collection_id`
unfoldable pub ensure_collection : Pin → ℕ → Store → Result Store
unfolding collection_of
ensure_collection configured user_id store =
    collection_of configured user_id (Dict.get user_id store.collections) store

-- `verify_pin`: every collection agrees with the configuration.
unfoldable pub verify_pin : Pin → List (ℕ × Pin) → Result (Unit {0})
unfolding same_pin
verify_pin configured [] = ok tt
verify_pin configured ((user_id, stored) ∷ rest) =
    let others = verify_pin configured rest in
    if same_pin stored configured then others else err validation

abbrev pub audit_entry : UserContext → ℕ → AuditOperation → Text → Text → ℕ → AuditEntry
audit_entry context memory_id operation actor detail now = record {
  memory_id = memory_id;
  user_id = context.user_id;
  operation = operation;
  actor = actor;
  detail = detail;
  at = now;
}

-- `write_audit`
unfoldable pub write_audit : UserContext → ℕ → AuditOperation → Text → Text → ℕ → Store → Store
write_audit context memory_id operation actor detail now store = record store {
  audit = store.audit ++ audit_entry context memory_id operation actor detail now ∷ [];
}

unfoldable pub has_id : ℕ → Row → Bool
has_id id row = row.memory.id == id

unfoldable pub owned_by : ℕ → Row → Bool
owned_by user_id row = row.memory.user_id == user_id

-- `WHERE id = ?1 AND user_id = ?2`
unfoldable pub is_mine : UserContext → ℕ → Row → Bool
unfolding has_id owned_by
is_mine context id row = has_id id row && owned_by context.user_id row

-- `… AND deleted_at IS NULL`
unfoldable pub is_present : UserContext → ℕ → Row → Bool
unfolding is_mine
is_present context id row = is_mine context id row && not (is_some row.deleted_at)

-- `… AND superseded_by IS NULL`
unfoldable pub is_current : UserContext → ℕ → Row → Bool
unfolding is_present is_superseded
is_current context id row = is_present context id row && not (is_superseded row.memory)

-- `superseded_by REFERENCES memories (id)`
unfoldable pub refers_to_row : Option ℕ → List Row → Bool
unfolding has_id
refers_to_row none rows = true
refers_to_row (some id) rows = any_where (has_id id) rows

-- A row holds a memory as it is read back. A category is written as its name and read by `from_stored`;
-- the other columns (text, JSON, RFC 3339 and numbers) are read back as they were written, by what
-- serde_json, chrono and SQLite document. The columns that an insert does not name have their defaults.
unfoldable pub new_row : UserContext → Memory → Row
unfolding as_str from_stored
new_row context memory = record {
  memory = record memory {
    user_id = context.user_id;
    category = from_stored (as_str memory.category);
    access_count = 0;
    importance = num one;
  };
  deleted_at = none;
}

unfoldable pub insert_row : UserContext → Memory → Text → ℕ → Store → Result (Unit {0}) × Store
unfolding has_id refers_to_row new_row write_audit
insert_row context memory actor now store =
    if any_where (has_id memory.id) store.rows
    then (err conflict, store)
    else if refers_to_row memory.superseded_by (store.rows ++ new_row context memory ∷ [])
    then (
      ok tt,
      write_audit context memory.id add actor (as_str memory.category) now
          (record store { rows = store.rows ++ new_row context memory ∷ [] }),
    )
    else (err conflict, store)

unfoldable pub insert_into :
    UserContext → Memory → Text → ℕ → Store → Result Store → Result (Unit {0}) × Store
unfolding insert_row
insert_into context memory actor now store (err e) = (err e, store)
insert_into context memory actor now store (ok store') = insert_row context memory actor now store'

unfoldable pub insert : Pin → UserContext → Memory → Text → ℕ → Store → Result (Unit {0}) × Store
unfolding insert_into ensure_collection
insert configured context memory actor now store =
    insert_into context memory actor now store (ensure_collection configured context.user_id store)

unfoldable pub write_columns : Memory → Row → Row
unfolding as_str from_stored
write_columns memory row = record row {
  memory = record row.memory {
    content = memory.content;
    category = from_stored (as_str memory.category);
    subcategory = memory.subcategory;
    tags = memory.tags;
    entities = memory.entities;
    confidence = memory.confidence;
    updated_at = memory.updated_at;
    expires_at = memory.expires_at;
    superseded_by = memory.superseded_by;
  };
}

-- An `UPDATE` of the rows that pass `p`, and its audit entry: no row is `not_found`.
unfoldable pub change_rows :
    (Row → Bool) → (Row → Row) → Option ℕ → AuditEntry → Store → Result (Unit {0}) × Store
unfolding refers_to_row
change_rows p f reference entry store =
    if count_where p store.rows == 0
    then (err not_found, store)
    else if refers_to_row reference store.rows
    then (
      ok tt,
      record store { rows = update_where p f store.rows; audit = store.audit ++ entry ∷ [] },
    )
    else (err conflict, store)

unfoldable pub update_operation : Memory → AuditOperation
unfolding is_superseded
update_operation memory = if is_superseded memory then supersede else update

unfoldable pub update_memory : UserContext → Memory → Text → ℕ → Store → Result (Unit {0}) × Store
unfolding change_rows is_present write_columns update_operation
update_memory context memory actor now store =
    change_rows (is_present context memory.id) (write_columns memory) memory.superseded_by
      (audit_entry context memory.id (update_operation memory) actor [] now) store

-- `COALESCE(deleted_at, ?3)`
unfoldable pub coalesce : Option ℕ → ℕ → Option ℕ
coalesce none now = some now
coalesce (some at) now = some at

unfoldable pub mark_deleted : ℕ → Row → Row
unfolding coalesce
mark_deleted now row = record row { deleted_at = coalesce row.deleted_at now }

unfoldable pub delete_memory : UserContext → ℕ → Text → Text → ℕ → Store → Result (Unit {0}) × Store
unfolding change_rows is_mine mark_deleted
delete_memory context id actor reason now store =
    change_rows (is_mine context id) (mark_deleted now) none
      (audit_entry context id delete actor reason now) store

unfoldable pub mark_superseded : ℕ → ℕ → Row → Row
mark_superseded replacement now row = record row {
  memory = record row.memory { superseded_by = some replacement; updated_at = now };
}

unfoldable pub supersede_memory :
    UserContext → ℕ → ℕ → Text → Text → ℕ → Store → Result (Unit {0}) × Store
unfolding change_rows is_present mark_superseded
supersede_memory context superseded replacement actor reason now store =
    change_rows (is_present context superseded) (mark_superseded replacement now) (some replacement)
      (audit_entry context superseded supersede actor reason now) store

-- What a transaction that merges has done so far.
pub record Merge : Type 0 where
  pub store : Store
  pub retired : ℕ

-- One turn of the loop; a member that is gone or retired is passed over.
unfoldable pub retire_one : UserContext → ℕ → Text → Text → ℕ → ℕ → Merge → Result Merge
unfolding is_current mark_superseded refers_to_row write_audit
retire_one context replacement actor reason now id m =
    if count_where (is_current context id) m.store.rows == 0
    then ok m
    else if refers_to_row (some replacement) m.store.rows
    then ok (record {
      store = write_audit context id merge actor reason now (record m.store {
        rows = update_where (is_current context id) (mark_superseded replacement now) m.store.rows;
      });
      retired = m.retired + 1;
    })
    else err conflict

unfoldable pub retire_all : UserContext → ℕ → Text → Text → ℕ → List ℕ → Merge → Result Merge
unfolding retire_one
retire_all context replacement actor reason now [] m = ok m
retire_all context replacement actor reason now (id ∷ ids) m =
    elim (retire_one context replacement actor reason now id m) [
      | err e ↦ err e
      | ok m' ↦ retire_all context replacement actor reason now ids m'
    ]

-- The end of the transaction: an error rolls everything back.
unfoldable pub commit : Store → Result Merge → Result ℕ × Store
commit store (err e) = (err e, store)
commit store (ok m) = (ok m.retired, m.store)

unfoldable pub merge_memories :
    UserContext → List ℕ → ℕ → Text → Text → ℕ → Store → Result ℕ × Store
unfolding retire_all commit
merge_memories context superseded replacement actor reason now store = commit store (
    retire_all context replacement actor reason now superseded
      (record { store = store; retired = 0 }))

unfoldable pub find_row : UserContext → ℕ → List Row → Option Memory
unfolding is_present
find_row context id [] = none
find_row context id (row ∷ rows) =
    let rest = find_row context id rows in
    if is_present context id row then some row.memory else rest

unfoldable pub find : UserContext → ℕ → Store → Option Memory
unfolding find_row
find context id store = find_row context id store.rows

-- `WHERE user_id = ?1 AND deleted_at IS NULL AND id IN (…)`
unfoldable pub is_among : UserContext → List ℕ → Row → Bool
unfolding owned_by contains
is_among context ids row =
    owned_by context.user_id row && not (is_some row.deleted_at) && contains ids row.memory.id

unfoldable pub find_many : UserContext → List ℕ → Store → List Memory
unfolding is_among keep
find_many context ids store =
    if is_empty ids
    then []
    else map (λ (r : Row). r.memory) (keep (is_among context ids) store.rows)

-- `WHERE user_id = ?1 AND deleted_at IS NULL`, and `AND superseded_by IS NULL` unless all are wanted
unfoldable pub is_listed : UserContext → Bool → Row → Bool
unfolding owned_by is_superseded
is_listed context include_inactive row =
    owned_by context.user_id row
    && not (is_some row.deleted_at)
    && (include_inactive || not (is_superseded row.memory))

-- `ORDER BY created_at DESC`; of equals, the row that was inserted first.
unfoldable pub insert_newest : Memory → List Memory → List Memory
insert_newest m [] = m ∷ []
insert_newest m (n ∷ ns) =
    if leb n.created_at m.created_at then m ∷ n ∷ ns else n ∷ insert_newest m ns

unfoldable pub newest_first : List Memory → List Memory
unfolding insert_newest
newest_first [] = []
newest_first (m ∷ ms) = insert_newest m (newest_first ms)

unfoldable pub list_memories : UserContext → Bool → Store → List Memory
unfolding newest_first is_listed keep
list_memories context include_inactive store =
    newest_first
      (map (λ (r : Row). r.memory) (keep (is_listed context include_inactive) store.rows))

unfoldable pub set_score : F32 → Row → Row
set_score importance row = record row { memory = record row.memory { importance = importance } }

-- `set_importance`: one statement for each score, in one transaction.
unfoldable pub set_importance : UserContext → List (ℕ × F32) → Store → Store
unfolding is_present set_score
set_importance context [] store = store
set_importance context ((id, importance) ∷ scores) store =
    set_importance context scores (record store {
      rows = update_where (is_present context id) (set_score importance) store.rows;
    })

-- `WHERE user_id = ?2 AND id IN (…)`, deleted or not
unfoldable pub is_touched : UserContext → List ℕ → Row → Bool
unfolding owned_by contains
is_touched context ids row = owned_by context.user_id row && contains ids row.memory.id

unfoldable pub touch : ℕ → Row → Row
touch now row = record row {
  memory = record row.memory {
    last_accessed_at = some now;
    access_count = row.memory.access_count + 1;
  };
}

unfoldable pub touch_accessed : UserContext → List ℕ → ℕ → Store → Store
unfolding is_touched touch
touch_accessed context ids now store =
    if is_empty ids
    then store
    else record store { rows = update_where (is_touched context ids) (touch now) store.rows }
