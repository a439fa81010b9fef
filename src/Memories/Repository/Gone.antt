-- ===== src/Memories/Repository/Gone.antt =====
-- A memory that stands in the store and is deleted: rows that change keep it so, and an insert too.
use recuerdos_ai.Prelude.{
  nat_eq, ℕ, ◌≡◌, refl, sym, ◌∙◌, Bool, true, false, Option, none, some, is_some, List, [], ◌∷◌,
  ◌++◌, arith, ◌==◌, any_where, count_where, update_where, Bool-cases, inl, inr, All, All-append,
  All-update_where, subst,
}
use recuerdos_ai.Text.{Text}
use recuerdos_ai.Shared.Error.{Result, ok, err, ok-injective}
use recuerdos_ai.Identity.UserContext.{UserContext}
use recuerdos_ai.Memories.Memory.{Memory}
use recuerdos_ai.Memories.Memory.Confidence.{F32}
use recuerdos_ai.Memories.Repository.{
  Pin, Store, Row, AuditEntry, collection_of, write_audit, has_id, owned_by, coalesce, is_mine,
  refers_to_row, new_row, insert_row, insert_into, write_columns, change_rows, mark_deleted,
  mark_superseded, set_score, touch,
}

pub true-false {ℓ} : {A : Type ℓ} → false ≡ true → A
true-false h = cc

module _ (id owner : ℕ) where
  abbrev pub GoneRow : Row → Type 0
  GoneRow r = r.memory.id ≡ id → r.memory.user_id ≡ owner → is_some r.deleted_at ≡ true

  -- The memory `id` stands in the store, and is deleted where `owner` has it.
  pub record IsGone (store : Store) : Type 0 where
    pub stands : any_where (has_id id) store.rows ≡ true
    pub deleted : All GoneRow store.rows

  -- A change of rows that keeps identifiers and deletions.
  pub record KeepsGone (f : Row → Row) : Type 0 where
    pub same_id : (r : Row) → (f r).memory.id ≡ r.memory.id
    pub same_owner : (r : Row) → (f r).memory.user_id ≡ r.memory.user_id
    pub still : (r : Row) → is_some r.deleted_at ≡ true → is_some (f r).deleted_at ≡ true

  pub stands_update :
      (p : Row → Bool) (f : Row → Row) (rows : List Row)
      → KeepsGone f
      → any_where (has_id id) (update_where p f rows) ≡ any_where (has_id id) rows
  unfolding any_where update_where has_id
  stands_update p f [] k = refl
  stands_update p f (r ∷ rs) k = elim (Bool-cases (p r)) [
    | inl e ↦ rw (e, k.same_id r, stands_update p f rs k) refl
    | inr e ↦ rw (e, stands_update p f rs k) refl
  ]

  stands_append :
      (rows more : List Row)
      → any_where (has_id id) rows ≡ true
      → any_where (has_id id) (rows ++ more) ≡ true
  unfolding any_where
  stands_append [] more h = cc
  stands_append (r ∷ rs) more h = elim (Bool-cases (has_id id r)) [
    | inl e ↦ rw e refl
    | inr e ↦ rw e (stands_append rs more (rw e at h))
  ]

  pub update-IsGone :
      (p : Row → Bool) (f : Row → Row) (store : Store) (audit : List AuditEntry)
      → KeepsGone f
      → IsGone store
      → IsGone (record store { rows = update_where p f store.rows; audit = audit })
  update-IsGone p f store audit k g = record {
    stands = stands_update p f store.rows k ∙ g.stands;
    deleted =
        All-update_where GoneRow p f store.rows
          (λ r _ gone same mine.
            k.still r (gone (sym (k.same_id r) ∙ same) (sym (k.same_owner r) ∙ mine)))
          g.deleted;
  }

  pub change_rows-IsGone :
      (p : Row → Bool) (f : Row → Row) (reference : Option ℕ) (entry : AuditEntry) (store : Store)
      → KeepsGone f
      → IsGone store
      → IsGone (change_rows p f reference entry store).1
  unfolding change_rows
  change_rows-IsGone p f reference entry store k g =
      elim (Bool-cases (count_where p store.rows == 0)) [
        | inl e ↦ rw e g
        | inr e ↦ elim (Bool-cases (refers_to_row reference store.rows)) [
          | inl r ↦ rw (e, r) (update-IsGone p f store _ k g)
          | inr r ↦ rw (e, r) g
        ]
      ]

  pub write_columns_keeps : (memory : Memory) → KeepsGone (write_columns memory)
  unfolding write_columns
  write_columns_keeps memory = record {
    same_id = λ r. refl;
    same_owner = λ r. refl;
    still = λ r h. h;
  }

  pub mark_deleted_keeps : (now : ℕ) → KeepsGone (mark_deleted now)
  unfolding mark_deleted
  mark_deleted_keeps now = record {
    same_id = λ r. refl;
    same_owner = λ r. refl;
    still = λ r h. ground arith;
  }

  pub mark_superseded_keeps : (new now : ℕ) → KeepsGone (mark_superseded new now)
  unfolding mark_superseded
  mark_superseded_keeps new now = record {
    same_id = λ r. refl;
    same_owner = λ r. refl;
    still = λ r h. h;
  }

  pub set_score_keeps : (x : F32) → KeepsGone (set_score x)
  unfolding set_score
  set_score_keeps x = record { same_id = λ r. refl; same_owner = λ r. refl; still = λ r h. h }

  pub touch_keeps : (now : ℕ) → KeepsGone (touch now)
  unfolding touch
  touch_keeps now = record { same_id = λ r. refl; same_owner = λ r. refl; still = λ r h. h }

  pub coalesce_some : (at : Option ℕ) (now : ℕ) → is_some (coalesce at now) ≡ true
  unfolding coalesce
  coalesce_some none now = refl
  coalesce_some (some at) now = refl

  pub not_mine :
      (context : UserContext) (r : Row)
      → context.user_id ≡ owner
      → is_mine context id r ≡ false
      → r.memory.id ≡ id
      → r.memory.user_id ≡ owner
      → false ≡ true
  unfolding is_mine has_id owned_by
  not_mine context r mine e same whose = ground arith

  same_of_new :
      (context : UserContext) (memory : Memory)
      → (new_row context memory).memory.id ≡ id
      → memory.id ≡ id
  unfolding new_row
  same_of_new context memory h = h

  not_standing :
      (memory : Memory) (rows : List Row)
      → any_where (has_id memory.id) rows ≡ false
      → any_where (has_id id) rows ≡ true
      → memory.id ≡ id
      → false ≡ true
  not_standing memory rows e h same =
      sym (subst (λ x. any_where (has_id x) rows ≡ false) same e) ∙ h

  -- An insert under the identifier of a deleted memory breaks the primary key.
  insert_row-IsGone :
      (context : UserContext) (memory : Memory) (actor : Text) (now : ℕ) (store : Store)
      → IsGone store
      → IsGone (insert_row context memory actor now store).1
  unfolding insert_row
  insert_row-IsGone context memory actor now store g =
      elim (Bool-cases (any_where (has_id memory.id) store.rows)) [
        | inl e ↦ rw e g
        | inr e ↦
            elim (Bool-cases
              (refers_to_row memory.superseded_by (store.rows ++ new_row context memory ∷ []))) [
                | inl r ↦
                    rw (e, r)
                      (unfold write_audit in
                        record {
                          stands = stands_append store.rows _ g.stands;
                          deleted = All-append GoneRow store.rows _ g.deleted (
                            (λ same _. true-false (
                                not_standing memory store.rows e g.stands
                                  (same_of_new context memory same))),
                            tt,
                          );
                        })
                | inr r ↦ rw (e, r) g
              ]
      ]

  pub insert_into-IsGone :
      (context : UserContext) (memory : Memory) (actor : Text) (now : ℕ) (store : Store)
      (r : Result Store)
      → IsGone store
      → ((s : Store) → r ≡ ok s → IsGone s)
      → IsGone (insert_into context memory actor now store r).1
  unfolding insert_into
  insert_into-IsGone context memory actor now store (err e) g h = g
  insert_into-IsGone context memory actor now store (ok s) g h =
      insert_row-IsGone context memory actor now s (h s refl)

  pub collection_of-IsGone :
      (pin : Pin) (user_id : ℕ) (o : Option Pin) (store s : Store)
      → IsGone store
      → collection_of pin user_id o store ≡ ok s
      → IsGone s
  unfolding collection_of
  collection_of-IsGone pin user_id none store s g h =
      subst IsGone (ok-injective h) (record { stands = g.stands; deleted = g.deleted })
  collection_of-IsGone pin user_id (some stored) store s g h =
      let same : store ≡ s = ground arith in subst IsGone same g
