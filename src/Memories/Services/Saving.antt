-- ===== src/Memories/Services/Saving.antt =====
-- What a save leaves for the readers of the store.
use recuerdos_ai.Prelude.{
  ℕ, some, Option, ◌⊎◌, inl, inr, ◌≡◌, refl, none, not, List, [], ◌∷◌, ◌++◌, any_where, false, keep,
  keep-append, subst,
}
use recuerdos_ai.Text.{Text}
use recuerdos_ai.Shared.Error.{RaError, Result, ok, err, ok-injective, guard, validation, >>=-eq-ok}
use recuerdos_ai.Identity.UserContext.{UserContext}
use recuerdos_ai.Memories.Memory.{
  Memory, NewMemory, create, check_content, has_passed, normalize_subcategory, normalize_tags,
}
use recuerdos_ai.Memories.Memory.WellFormed.{IsWellFormed, create-IsWellFormed}
use recuerdos_ai.Memories.Repository.{Store, Row, has_id, new_row}
use recuerdos_ai.Memories.Services.{
  World, Setting, delete_unless, try_delete, embedded_text, save_vector, save_row, save_embedding,
  save_memory, save,
}
use recuerdos_ai.Memories.Services.Rows.{
  is_visible, visible, row_of, Inserted, insert-Inserted, visible-delete_memory,
}

-- The row of a memory as it was made is that of what is read back.
new_row-create :
    (context : UserContext) (id : ℕ) (new : NewMemory) (now : ℕ) (m : Memory)
    → create id context.user_id new now ≡ ok m
    → new_row context m ≡ row_of m
unfolding create new_row
new_row-create context id new now m h =
    let (content, c, h₁) = >>=-eq-ok (check_content new.content) _ h in
    let (_, g, h₂) = >>=-eq-ok (guard (not (has_passed now new.expires_at)) validation) _ h₁ in
    let (subcategory, s, h₃) = >>=-eq-ok (normalize_subcategory new.subcategory) _ h₂ in
    let (tags, t, h₄) = >>=-eq-ok (normalize_tags new.tags) _ h₃ in
    subst (λ x. new_row context x ≡ row_of x) (ok-injective h₄) refl

visible-append :
    (rows : List Row) (m : Memory)
    → keep is_visible (rows ++ row_of m ∷ []) ≡ keep is_visible rows ++ row_of m ∷ []
visible-append rows m = rw (keep-append is_visible rows _) (unfold keep in refl)

module _ {E V X : Type 0} (setting : Setting E V X) (context : UserContext) (actor : Text)
    (now : ℕ) where
  -- The row of a memory without a vector, which the database has failed to delete again.
  abbrev pub Stranded : Store → Store → Memory → Type 0
  Stranded before after m =
      ((e : RaError) × (setting.ports.delete_fault now m.id ≡ some e))
      × IsWellFormed m
      × (m.user_id ≡ context.user_id)
      × (visible after ≡ visible before ++ row_of m ∷ [])

  -- What a save leaves, by its result.
  abbrev pub Saved : World V X → Result Memory × World V X → Type 0
  Saved w (err e, after) =
      (after.text ≡ w.text)
      × ((visible after.store ≡ visible w.store) ⊎ ((m : Memory) × Stranded w.store after.store m))
  Saved w (ok m, after) =
      (visible after.store ≡ visible w.store ++ row_of m ∷ [])
      × IsWellFormed m
      × (m.user_id ≡ context.user_id)
      × (embedding : E) × (setting.ports.embed_one (embedded_text setting context actor now m)
          ≡ ok embedding)
      × (setting.ports.vector_upsert context m.id embedding w.vectors ≡ (ok tt, after.vectors))

  rolled_back :
      (m : Memory) (w : World V X) (store : Store) (fault : Option RaError) (reason : Text)
      → IsWellFormed m
      → m.user_id ≡ context.user_id
      → new_row context m ≡ row_of m
      → any_where (has_id m.id) w.store.rows ≡ false
      → store.rows ≡ w.store.rows ++ new_row context m ∷ []
      → setting.ports.delete_fault now m.id ≡ fault
      → (visible (delete_unless setting context actor now fault m.id reason store).1
          ≡ visible w.store)
        ⊎ ((n : Memory) × Stranded w.store
              (delete_unless setting context actor now fault m.id reason store).1
              n)
  unfolding delete_unless
  rolled_back m w store none reason wf mine whole fresh rows at =
      inl (visible-delete_memory context m actor reason now store w.store fresh rows)
  rolled_back m w store (some e) reason wf mine whole fresh rows at =
      inr (m, ((e, at), wf, mine, rw (rows, whole) (visible-append w.store.rows m)))

  save_vector-Saved :
      (m : Memory) (w : World V X) (store : Store) (embedding : E) (r : Result (Unit {0}) × V)
      → IsWellFormed m
      → m.user_id ≡ context.user_id
      → new_row context m ≡ row_of m
      → setting.ports.embed_one (embedded_text setting context actor now m) ≡ ok embedding
      → any_where (has_id m.id) w.store.rows ≡ false
      → store.rows ≡ w.store.rows ++ new_row context m ∷ []
      → setting.ports.vector_upsert context m.id embedding w.vectors ≡ r
      → Saved w (save_vector setting context actor now m r (record w { store = store }))
  unfolding save_vector try_delete
  save_vector-Saved m w store embedding (err e, vectors) wf mine whole embedded fresh rows
        upserted =
      (
        refl,
        rolled_back m w store (setting.ports.delete_fault now m.id) _ wf mine whole fresh rows refl,
      )
  save_vector-Saved m w store embedding (ok tt, vectors) wf mine whole embedded fresh rows
        upserted =
      (visible_new, wf, mine, embedding, embedded, upserted)
    where
      visible_new : visible store ≡ visible w.store ++ row_of m ∷ []
      visible_new = rw (rows, whole) (visible-append w.store.rows m)

  save_row-Saved :
      (m : Memory) (w : World V X) (embedding : E) (r : Result (Unit {0}) × Store)
      → IsWellFormed m
      → m.user_id ≡ context.user_id
      → new_row context m ≡ row_of m
      → setting.ports.embed_one (embedded_text setting context actor now m) ≡ ok embedding
      → Inserted context m w.store r
      → Saved w (save_row setting context actor now m embedding r w)
  unfolding save_row
  save_row-Saved m w embedding (err e, store) wf mine whole embedded inserted =
      (refl, inl (rw inserted refl))
  save_row-Saved m w embedding (ok tt, store) wf mine whole embedded inserted =
      save_vector-Saved m w store embedding _ wf mine whole embedded inserted.0 inserted.1 refl

  save_embedding-Saved :
      (m : Memory) (w : World V X) (r : Result E)
      → IsWellFormed m
      → m.user_id ≡ context.user_id
      → new_row context m ≡ row_of m
      → setting.ports.embed_one (embedded_text setting context actor now m) ≡ r
      → Saved w (save_embedding setting context actor now m r w)
  unfolding save_embedding
  save_embedding-Saved m w (err e) wf mine whole embedded = (refl, inl refl)
  save_embedding-Saved m w (ok embedding) wf mine whole embedded =
      save_row-Saved m w embedding _ wf mine whole embedded
        (insert-Inserted setting.pin context m actor now w.store)

  save_memory-Saved :
      (id : ℕ) (new : NewMemory) (w : World V X) (r : Result Memory)
      → create id context.user_id new now ≡ r
      → Saved w (save_memory setting context actor now r w)
  unfolding save_memory
  save_memory-Saved id new w (err e) made = (refl, inl refl)
  save_memory-Saved id new w (ok m) made =
      let (wf, mine, _) = create-IsWellFormed id context.user_id new now m made in
      save_embedding-Saved m w _ wf mine (new_row-create context id new now m made) refl

  -- A save that fails, at whichever step, leaves the keyword index as it was. It leaves every row that a
  -- reader can see as it was too, but where the database fails to delete the row of a memory whose vector
  -- was refused: then that one row is more, well-formed and the caller's. A save that succeeds adds
  -- exactly the memory that it returns, as it is read back, which is well-formed and the caller's, and
  -- the vector index has accepted the embedding of its text.
  pub save_lem :
      (id : ℕ) (new : NewMemory) (w : World V X) → Saved w (save setting context actor now id new w)
  unfolding save
  save_lem id new w = save_memory-Saved id new w _ refl
