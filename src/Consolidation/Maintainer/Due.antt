-- ===== src/Consolidation/Maintainer/Due.antt =====
-- The rows that maintenance is about to retire, as they are marked one after the other.
use recuerdos_ai.Prelude.{
  ℕ, Option, is_some, ◌≡◌, refl, sym, ap, ◌∙◌, Bool, true, false, not, ◌||◌, List, [], ◌∷◌, map,
  arith, keep, All, All-of, Bool-cases, inl, inr, ◌==◌, any_where, count_where, update_where,
  ==_refl,
}
use recuerdos_ai.Text.{Text}
use recuerdos_ai.Shared.Error.{RaError, ok}
use recuerdos_ai.Identity.UserContext.{UserContext}
use recuerdos_ai.Memories.Memory.{Memory, is_expired_at}
use recuerdos_ai.Memories.Repository.{
  Store, Row, has_id, owned_by, is_mine, is_listed, mark_deleted, change_rows, delete_memory,
  refers_to_row,
}
use recuerdos_ai.Memories.Repository.Updates.{update_where-never, count_where-any_where}
use recuerdos_ai.Memories.Services.Rows.{visible, hide_mine, coalesce-is_some}
use recuerdos_ai.Consolidation.Maintainer.{actor}

any_where-update :
    (q p : Row → Bool) (f : Row → Row) (rows : List Row)
    → ((r : Row) → q (f r) ≡ q r)
    → any_where q (update_where p f rows) ≡ any_where q rows
unfolding any_where update_where
any_where-update q p f [] k = refl
any_where-update q p f (r ∷ rows) k = elim (Bool-cases (p r)) [
  | inl e ↦ rw (e, k r, any_where-update q p f rows k) refl
  | inr e ↦ rw (e, any_where-update q p f rows k) refl
]

pub keep-twice :
    (g h : Row → Bool) (rows : List Row)
    → keep (λ r. not (g r)) (keep (λ r. not (h r)) rows) ≡ keep (λ r. not (h r || g r)) rows
unfolding keep
keep-twice g h [] = refl
keep-twice g h (r ∷ rows) = elim (Bool-cases (h r)) [
  | inl e ↦ rw e (keep-twice g h rows)
  | inr e ↦ rw (e, keep-twice g h rows) refl
]

module _ (context : UserContext) (now : ℕ) (fault : ℕ → Option RaError) where
  -- Found or not, the rows of an identifier are those that a deletion marks.
  pub rows-delete_memory :
      (id : ℕ) (reason : Text) (store : Store)
      → (delete_memory context id actor reason now store).1.rows
        ≡ update_where (is_mine context id) (mark_deleted now) store.rows
  unfolding delete_memory change_rows refers_to_row
  rows-delete_memory id reason store =
      elim (Bool-cases (count_where (is_mine context id) store.rows == 0)) [
        | inl e ↦
            rw e (sym (update_where-never (is_mine context id) (mark_deleted now) store.rows e))
        | inr e ↦ rw e refl
      ]

  -- A listed row that has expired is about to be retired, or its deletion fails.
  abbrev pub IsDue : List Memory → Row → Type 0
  IsDue expired row =
      is_listed context false row ≡ true
      → is_expired_at now row.memory ≡ true
      → (any_where (λ (m : Memory). is_mine context m.id row) expired
          || is_some (fault row.memory.id))
        ≡ true

  -- A row for each memory that is about to be retired.
  abbrev pub HasRow : List Row → Memory → Type 0
  HasRow rows m = any_where (is_mine context m.id) rows ≡ true

  mark_deleted-is_mine :
      (id : ℕ) (row : Row) → is_mine context id (mark_deleted now row) ≡ is_mine context id row
  unfolding mark_deleted is_mine has_id owned_by
  mark_deleted-is_mine id row = refl

  mark_deleted-IsDue : (expired : List Memory) (row : Row) → IsDue expired (mark_deleted now row)
  unfolding is_listed mark_deleted
  mark_deleted-IsDue expired row listed =
      let gone = coalesce-is_some row.deleted_at now in ground arith

  pub delete-IsDue :
      (m : Memory) (expired : List Memory) (rows : List Row)
      → All (IsDue (m ∷ expired)) rows
      → All (IsDue expired) (update_where (is_mine context m.id) (mark_deleted now) rows)
  unfolding update_where any_where
  delete-IsDue m expired [] h = tt
  delete-IsDue m expired (row ∷ rows) h = elim (Bool-cases (is_mine context m.id row)) [
    | inl e ↦ rw e (mark_deleted-IsDue expired row, delete-IsDue m expired rows h.1)
    | inr e ↦ rw e ((λ listed old. rw e at (h.0 listed old)), delete-IsDue m expired rows h.1)
  ]

  pub skip-IsDue :
      (m : Memory) (expired : List Memory) (rows : List Row)
      → is_some (fault m.id) ≡ true
      → All (IsDue (m ∷ expired)) rows
      → All (IsDue expired) rows
  unfolding any_where is_mine has_id
  skip-IsDue m expired [] e h = tt
  skip-IsDue m expired (row ∷ rows) e h =
      ((λ listed old. skipped (h.0 listed old)), skip-IsDue m expired rows e h.1)
    where
      skipped :
          (any_where (λ (n : Memory). is_mine context n.id row) (m ∷ expired)
              || is_some (fault row.memory.id))
            ≡ true
          → (any_where (λ (n : Memory). is_mine context n.id row) expired
              || is_some (fault row.memory.id))
            ≡ true
      skipped k = elim (Bool-cases (row.memory.id == m.id)) [
        | inl same ↦
            let at : row.memory.id ≡ m.id = ground arith in
            let fails : is_some (fault row.memory.id) ≡ true = rw at e in ground arith
        | inr apart ↦ rw apart at k
      ]

  pub delete-HasRow :
      (id : ℕ) (rows : List Row) (expired : List Memory)
      → All (HasRow rows) expired
      → All (HasRow (update_where (is_mine context id) (mark_deleted now) rows)) expired
  delete-HasRow id rows expired h =
      All-of _ _ expired
        (λ m has.
          any_where-update (is_mine context m.id) (is_mine context id) (mark_deleted now) rows
            (mark_deleted-is_mine m.id)
          ∙ has)
        h

  -- The visible rows that are not about to be retired.
  abbrev pub spared : List Memory → List Row → List Row
  spared expired rows =
      keep (λ r. not (any_where (λ (m : Memory). is_mine context m.id r) expired)) rows

  pub visible-delete :
      (id : ℕ) (reason : Text) (store : Store)
      → visible (delete_memory context id actor reason now store).1
        ≡ keep (λ r. not (is_mine context id r)) (visible store)
  visible-delete id reason store =
      rw (rows-delete_memory id reason store) (hide_mine context id now store.rows)

  pub delete_memory-ok :
      (id : ℕ) (reason : Text) (store : Store)
      → any_where (is_mine context id) store.rows ≡ true
      → (delete_memory context id actor reason now store).0 ≡ ok tt
  unfolding delete_memory change_rows refers_to_row
  delete_memory-ok id reason store h =
      rw (count_where-any_where (is_mine context id) store.rows, h) refl

  pub listed-is_mine :
      (row : Row) → is_listed context false row ≡ true → is_mine context row.memory.id row ≡ true
  unfolding is_listed is_mine has_id owned_by
  listed-is_mine row e = let same = ==_refl row.memory.id in ground arith

  pub spared-none : (rows : List Row) → spared [] rows ≡ rows
  unfolding keep any_where
  spared-none [] = refl
  spared-none (r ∷ rows) = ap (λ rest. r ∷ rest) (spared-none rows)

abbrev pub id_of : Row → ℕ
id_of row = row.memory.id

pub map-keep-update :
    (g : Row → ℕ) (q p : Row → Bool) (f : Row → Row) (rows : List Row)
    → ((r : Row) → q (f r) ≡ q r)
    → ((r : Row) → g (f r) ≡ g r)
    → map g (keep q (update_where p f rows)) ≡ map g (keep q rows)
unfolding keep update_where
map-keep-update g q p f [] h k = refl
map-keep-update g q p f (r ∷ rows) h k = elim (Bool-cases (p r)) [
  | inl e ↦ elim (Bool-cases (q r)) [
    | inl d ↦ rw (e, h r, d, k r, map-keep-update g q p f rows h k) refl
    | inr d ↦ rw (e, h r, d, map-keep-update g q p f rows h k) refl
  ]
  | inr e ↦ elim (Bool-cases (q r)) [
    | inl d ↦ rw (e, d, map-keep-update g q p f rows h k) refl
    | inr d ↦ rw (e, d, map-keep-update g q p f rows h k) refl
  ]
]
