-- ===== src/Memories/Repository/Retiring.antt =====
-- memories/infrastructure/sqlite_memory_repository.rs, `merge`: exactly which rows a merge retires, and
-- what it writes about them.
use recuerdos_ai.Prelude.{
  ℕ, ◌≡◌, refl, sym, ap, ◌∙◌, subst, Bool, true, false, not, ◌&&◌, ◌||◌, some, is_some, List, [],
  ◌∷◌, ◌++◌, map, arith, any_where, count_where, update_where, contains, nat_eq, Bool-cases, inl,
  inr, ◌==◌, length, length-append, if◌then◌else◌, ==_iff,
}
use mathlib.Core.List.{append-nil, append_assoc}
use recuerdos_ai.Text.{Text}
use recuerdos_ai.Shared.Error.{Result, ok, err, ok-injective}
use recuerdos_ai.Identity.UserContext.{UserContext}
use recuerdos_ai.Memories.Memory.{is_superseded}
use recuerdos_ai.Memories.Repository.{
  Store, Row, AuditEntry, merge, audit_entry, write_audit, has_id, owned_by, is_mine, is_present,
  is_current, mark_superseded, refers_to_row, Merge, retire_one, retire_all, commit, merge_memories,
}
use recuerdos_ai.Memories.Repository.Updates.{
  update_where-same, update_where-twice, any_where-updated, update_where-never,
  count_where-any_where, any_where-same, any_where-and,
}

module _ (context : UserContext) (replacement : ℕ) (actor reason : Text) (now : ℕ) where
  -- A row of the caller's that is neither deleted nor superseded, under one of the identifiers.
  abbrev pub is_retirable : List ℕ → Row → Bool
  is_retirable ids row =
      contains ids row.memory.id
      && row.memory.user_id == context.user_id
      && not (is_some row.deleted_at)
      && not (is_some row.memory.superseded_by)

  abbrev pub retire : Row → Row
  retire row = record row {
    memory = record row.memory { superseded_by = some replacement; updated_at = now };
  }

  -- The identifiers that have such a row, each once, in their order.
  unfoldable pub retired_ids : List ℕ → List ℕ → List Row → List ℕ
  unfolding contains any_where
  retired_ids seen [] rows = []
  retired_ids seen (id ∷ ids) rows =
      let rest = retired_ids (id ∷ seen) ids rows in
      if not (contains seen id) && any_where (is_retirable (id ∷ [])) rows then id ∷ rest else rest

  abbrev pub merge_entries : List ℕ → List AuditEntry
  merge_entries ids = map (λ id. audit_entry context id merge actor reason now) ids

  -- What a merge of these identifiers makes of a store, and what it returns.
  pub record Retired (ids : List ℕ) (before after : Store) (n : ℕ) : Type 0 where
    pub rows : after.rows ≡ update_where (is_retirable ids) retire before.rows
    pub audit : after.audit ≡ before.audit ++ merge_entries (retired_ids [] ids before.rows)
    pub count : n ≡ length (retired_ids [] ids before.rows)
    pub collections : after.collections ≡ before.collections

  -- What a call leaves, by its result.
  abbrev pub Replaced : List ℕ → Store → Result ℕ × Store → Type 0
  Replaced ids before (err e, after) = after ≡ before
  Replaced ids before (ok n, after) = Retired ids before after n

  current_lem : (id : ℕ) (row : Row) → is_current context id row ≡ is_retirable (id ∷ []) row
  unfolding is_current is_present is_mine has_id owned_by is_superseded contains
  current_lem id row = ground (arith, ==_iff row.memory.id id, ==_iff id row.memory.id)

  marked_lem : (row : Row) → mark_superseded replacement now row ≡ retire row
  unfolding mark_superseded
  marked_lem row = refl

  retired_not : (ids : List ℕ) (row : Row) → is_retirable ids (retire row) ≡ false
  retired_not ids row = ground arith

  -- The loop has gone through `seen`, from these rows on.
  record Gone (seen : List ℕ) (before : Store) (written : List ℕ) (m : Merge) : Type 0 where
    rows : m.store.rows ≡ update_where (is_retirable seen) retire before.rows
    audit : m.store.audit ≡ before.audit ++ merge_entries written
    count : m.retired ≡ length written
    collections : m.store.collections ≡ before.collections

  turn_rows :
      (id : ℕ) (seen : List ℕ) (rows : List Row)
      → update_where
          (is_current context id)
          (mark_superseded replacement now)
          (update_where (is_retirable seen) retire rows)
        ≡ update_where (is_retirable (id ∷ seen)) retire rows
  unfolding contains mark_superseded
  turn_rows id seen rows =
      update_where-same retire (is_current context id) (is_retirable (id ∷ []))
        (update_where (is_retirable seen) retire rows) (current_lem id)
      ∙ update_where-twice retire (is_retirable (id ∷ [])) (is_retirable seen) rows
          (retired_not (id ∷ []))
      ∙ update_where-same retire (λ r. is_retirable seen r || is_retirable (id ∷ []) r)
          (is_retirable (id ∷ seen)) rows (λ r. ground arith)

  unseen_row :
      (id : ℕ) (seen : List ℕ) (r : Row)
      → (not (is_retirable seen r) && is_retirable (id ∷ []) r)
        ≡ (not (contains seen id) && is_retirable (id ∷ []) r)
  unfolding contains
  unseen_row id seen r = elim (Bool-cases (id == r.memory.id)) [
    | inl e ↦ let same : id ≡ r.memory.id = ground arith in rw same (ground arith)
    | inr e ↦ ground arith
  ]

  turn_any :
      (id : ℕ) (seen : List ℕ) (rows : List Row)
      → (count_where (is_current context id) (update_where (is_retirable seen) retire rows) == 0)
        ≡ not (not (contains seen id) && any_where (is_retirable (id ∷ [])) rows)
  turn_any id seen rows =
      count_where-any_where (is_current context id) (update_where (is_retirable seen) retire rows)
      ∙ ap not (
          any_where-same (is_current context id) (is_retirable (id ∷ []))
            (update_where (is_retirable seen) retire rows) (current_lem id)
          ∙ any_where-updated retire (is_retirable (id ∷ [])) (is_retirable seen) rows
              (retired_not (id ∷ []))
          ∙ any_where-same _ _ rows (unseen_row id seen)
          ∙ any_where-and (not (contains seen id)) (is_retirable (id ∷ [])) rows)

  turned :
      (id : ℕ) (seen written : List ℕ) (before : Store) (m : Merge)
      → Gone seen before written m
      → update_where (is_current context id) (mark_superseded replacement now) m.store.rows
        ≡ update_where (is_retirable (id ∷ seen)) retire before.rows
  turned id seen written before m g =
      ap (update_where (is_current context id) (mark_superseded replacement now)) g.rows
      ∙ turn_rows id seen before.rows

  entries_push :
      (written : List ℕ) (id : ℕ)
      → merge_entries (written ++ id ∷ [])
        ≡ merge_entries written ++ audit_entry context id merge actor reason now ∷ []
  entries_push [] id = refl
  entries_push (w ∷ written) id =
      ap (λ entries. audit_entry context w merge actor reason now ∷ entries)
        (entries_push written id)

  step-Gone :
      (id : ℕ) (seen written : List ℕ) (before : Store) (m m' : Merge)
      → Gone seen before written m
      → retire_one context replacement actor reason now id m ≡ ok m'
      → (not (contains seen id) && any_where (is_retirable (id ∷ [])) before.rows) ≡ true
      → Gone (id ∷ seen) before (written ++ id ∷ []) m'
  unfolding retire_one write_audit
  step-Gone id seen written before m m' g h new =
      let found : (count_where (is_current context id) m.store.rows == 0) ≡ false =
        rw (g.rows, turn_any id seen before.rows, new) refl in
      elim (Bool-cases (refers_to_row (some replacement) m.store.rows)) [
        | inl r ↦
            subst (Gone (id ∷ seen) before (written ++ id ∷ [])) (ok-injective (rw (found, r) at h))
              (record {
                rows = turned id seen written before m g;
                audit =
                    ap (λ entries. entries ++ audit_entry context id merge actor reason now ∷ [])
                      g.audit
                    ∙ append_assoc before.audit (merge_entries written) _
                    ∙ ap (λ entries. before.audit ++ entries) (sym (entries_push written id));
                count =
                    let same = g.count in
                    let longer = length-append written (id ∷ []) in omega arith;
                collections = g.collections;
              })
        | inr r ↦ cc (rw (found, r) at h)
      ]

  skip-Gone :
      (id : ℕ) (seen written : List ℕ) (before : Store) (m m' : Merge)
      → Gone seen before written m
      → retire_one context replacement actor reason now id m ≡ ok m'
      → (not (contains seen id) && any_where (is_retirable (id ∷ [])) before.rows) ≡ false
      → Gone (id ∷ seen) before written m'
  unfolding retire_one
  skip-Gone id seen written before m m' g h old =
      let none_left : (count_where (is_current context id) m.store.rows == 0) ≡ true =
        rw (g.rows, turn_any id seen before.rows, old) refl in
      subst (Gone (id ∷ seen) before written) (ok-injective (rw none_left at h)) (record {
        rows =
            sym (
              update_where-never (is_current context id) (mark_superseded replacement now)
                m.store.rows none_left)
            ∙ turned id seen written before m g;
        audit = g.audit;
        count = g.count;
        collections = g.collections;
      })

  abbrev pushed : List ℕ → List ℕ → List ℕ
  pushed [] seen = seen
  pushed (id ∷ ids) seen = pushed ids (id ∷ seen)

  contains-pushed :
      (ids seen : List ℕ) (x : ℕ)
      → contains (pushed ids seen) x ≡ (contains ids x || contains seen x)
  unfolding contains
  contains-pushed [] seen x = refl
  contains-pushed (id ∷ ids) seen x = let rest = contains-pushed ids (id ∷ seen) x in ground arith

  retire_all-Gone :
      (ids seen written : List ℕ) (before : Store) (m m' : Merge)
      → Gone seen before written m
      → retire_all context replacement actor reason now ids m ≡ ok m'
      → Gone (pushed ids seen) before (written ++ retired_ids seen ids before.rows) m'
  unfolding retire_all retired_ids
  retire_all-Gone [] seen written before m m' g h =
      rw (append-nil written) (subst (Gone seen before written) (ok-injective h) g)
  retire_all-Gone (id ∷ ids) seen written before m m' g h =
      one (retire_one context replacement actor reason now id m)
        (λ also n g k. retire_all-Gone ids (id ∷ seen) also before n m' g k) refl h
    where
      one :
          (r : Result Merge)
          → ((also : List ℕ) (n : Merge)
              → Gone (id ∷ seen) before also n
              → retire_all context replacement actor reason now ids n ≡ ok m'
              → Gone
                  (pushed ids (id ∷ seen))
                  before
                  (also ++ retired_ids (id ∷ seen) ids before.rows)
                  m')
          → retire_one context replacement actor reason now id m ≡ r
          → (elim r [
            | err e ↦ err e
            | ok n ↦ retire_all context replacement actor reason now ids n
          ])
            ≡ ok m'
          → Gone
              (pushed ids (id ∷ seen))
              before
              (written
                ++ (if not (contains seen id) && any_where (is_retirable (id ∷ [])) before.rows
                    then id ∷ retired_ids (id ∷ seen) ids before.rows
                    else retired_ids (id ∷ seen) ids before.rows))
              m'
      one (err e) rest at k = cc
      one (ok n) rest at k =
          elim (Bool-cases
            (not (contains seen id) && any_where (is_retirable (id ∷ [])) before.rows)) [
              | inl e ↦
                  rw
                    (
                      e,
                      sym (
                          append_assoc written (id ∷ []) (retired_ids (id ∷ seen) ids before.rows)),
                    )
                    (rest (written ++ id ∷ []) n (step-Gone id seen written before m n g at e) k)
              | inr e ↦ rw e (rest written n (skip-Gone id seen written before m n g at e) k)
            ]

  none_seen : (rows : List Row) → update_where (is_retirable []) retire rows ≡ rows
  unfolding update_where contains
  none_seen [] = refl
  none_seen (r ∷ rows) = ap (λ x. r ∷ x) (none_seen rows)

  same_ids : (ids : List ℕ) (row : Row) → is_retirable (pushed ids []) row ≡ is_retirable ids row
  unfolding contains
  same_ids ids row = let e = contains-pushed ids [] row.memory.id in ground arith

  commit-Replaced :
      (ids : List ℕ) (store : Store) (r : Result Merge)
      → ((m : Merge) → r ≡ ok m → Gone (pushed ids []) store (retired_ids [] ids store.rows) m)
      → Replaced ids store (commit store r)
  unfolding commit
  commit-Replaced ids store (err e) h = refl
  commit-Replaced ids store (ok m) h =
      let g = h m refl in
      record {
        rows =
            g.rows
            ∙ update_where-same retire (is_retirable (pushed ids [])) (is_retirable ids) store.rows
                (same_ids ids);
        audit = g.audit;
        count = g.count;
        collections = g.collections;
      }

  -- A merge that fails leaves the store as it was. One that returns `n` has superseded by the replacement
  -- exactly the caller's rows that stand under the given identifiers and were neither deleted nor
  -- superseded, and has changed no other row. `n` is the number of the identifiers that have such a row,
  -- each counted once: one that is repeated in the list, was retired before or has no row counts for
  -- nothing. For these identifiers, in their order, and for no other, one audit entry is appended.
  pub merge_memories-Replaced :
      (ids : List ℕ) (store : Store)
      → Replaced ids store (merge_memories context ids replacement actor reason now store)
  unfolding merge_memories
  merge_memories-Replaced ids store =
      commit-Replaced ids store
        (retire_all context replacement actor reason now ids
          (record { store = store; retired = 0 }))
        (λ m h.
          retire_all-Gone ids [] [] store (record { store = store; retired = 0 }) m
            (record {
              rows = sym (none_seen store.rows);
              audit = sym (append-nil store.audit);
              count = refl;
              collections = refl;
            })
            h)
