-- ===== src/Memories/Services.antt =====
-- memories/application/: direct_memory_saver.rs, memory_updater.rs, memory_forgetter.rs and
-- memory_finder.rs. A service writes to the store and to two indexes, which share no transaction; the
-- indexes and the embedder are the ports that it is built over.
pub mod Rows
pub mod Lookup
pub mod Saving
pub mod Forgetting
pub mod Updating
use recuerdos_ai.Prelude.{
  ℕ, Bool, true, false, not, ◌&&◌, ◌||◌, Option, none, some, List, [], ◌∷◌, if◌then◌else◌,
}
use recuerdos_ai.Text.{Text, codes, same_text, trim}
use recuerdos_ai.Shared.Error.{RaError, Result, ok, err, not_found, ok_or}
use recuerdos_ai.Identity.UserContext.{UserContext}
use recuerdos_ai.Memories.Memory.{Memory, NewMemory, MemoryEdit, create, edit}
use recuerdos_ai.Memories.DocumentText
use recuerdos_ai.Memories.DocumentText.{DocumentText, embeds_labels}
use recuerdos_ai.Memories.Repository.{Pin, Store, insert, update_memory, delete_memory, find}

-- The embedder, `VectorIndex` and `TextIndex`, over what they keep. `delete_fault` is the error, if any,
-- of the database when it is asked at an instant to delete an identifier, and `score_fault` when it is
-- asked to write scores.
pub record Ports (Embedding Vectors TextIndex : Type 0) : Type 0 where
  pub embed_one : Text → Result Embedding
  pub vector_upsert : UserContext → ℕ → Embedding → Vectors → Result (Unit {0}) × Vectors
  pub vector_remove : UserContext → ℕ → Vectors → Result (Unit {0}) × Vectors
  pub text_upsert : UserContext → Memory → TextIndex → Result (Unit {0}) × TextIndex
  pub text_remove : UserContext → ℕ → TextIndex → Result (Unit {0}) × TextIndex
  pub delete_fault : ℕ → ℕ → Option RaError
  pub score_fault : ℕ → Option RaError

pub record World (Vectors TextIndex : Type 0) : Type 0 where
  pub store : Store
  pub vectors : Vectors
  pub text : TextIndex

-- What the services share: the configuration, the ports, and the caller.
pub record Setting (Embedding Vectors TextIndex : Type 0) : Type 0 where
  pub pin : Pin
  pub ports : Ports Embedding Vectors TextIndex
  pub document_text : DocumentText
  pub uppercase : ℕ → Text

module _ {E V X : Type 0} (setting : Setting E V X) (context : UserContext) (actor : Text)
    (now : ℕ) where
  abbrev pub Reply : Type 0
  Reply = Result Memory × World V X

  pub embedded_text : Memory → Text
  embedded_text memory = DocumentText.of setting.uppercase setting.document_text memory

  -- A deletion by a database that may fail, and then changes nothing.
  unfoldable pub delete_unless : Option RaError → ℕ → Text → Store → Result (Unit {0}) × Store
  unfolding delete_memory
  delete_unless (some e) id reason store = (err e, store)
  delete_unless none id reason store = delete_memory context id actor reason now store

  unfoldable pub try_delete : ℕ → Text → Store → Result (Unit {0}) × Store
  unfolding delete_unless
  try_delete id reason store = delete_unless (setting.ports.delete_fault now id) id reason store

  -- `DirectMemorySaver::execute`, from its last step to its first: the keyword index may fail; without
  -- its vector, the row is deleted again, and where that fails too, it stays.
  unfoldable pub save_vector : Memory → Result (Unit {0}) × V → World V X → Reply
  unfolding try_delete
  save_vector memory (ok _, vectors) w = (
    ok memory,
    record w { vectors = vectors; text = (setting.ports.text_upsert context memory w.text).1 },
  )
  save_vector memory (err e, vectors) w = (
    err e,
    record w {
      store = (try_delete memory.id (codes "rolled back: the vector index write failed") w.store).1;
      vectors = vectors;
    },
  )

  unfoldable pub save_row : Memory → E → Result (Unit {0}) × Store → World V X → Reply
  unfolding save_vector
  save_row memory embedding (err e, store) w = (err e, record w { store = store })
  save_row memory embedding (ok _, store) w =
      save_vector memory (setting.ports.vector_upsert context memory.id embedding w.vectors)
        (record w { store = store })

  unfoldable pub save_embedding : Memory → Result E → World V X → Reply
  unfolding save_row
  save_embedding memory (err e) w = (err e, w)
  save_embedding memory (ok embedding) w =
      save_row memory embedding (insert setting.pin context memory actor now w.store) w

  unfoldable pub save_memory : Result Memory → World V X → Reply
  unfolding save_embedding embedded_text
  save_memory (err e) w = (err e, w)
  save_memory (ok memory) w =
      save_embedding memory (setting.ports.embed_one (embedded_text memory)) w

  unfoldable pub save : ℕ → NewMemory → World V X → Reply
  unfolding save_memory
  save id new w = save_memory (create id context.user_id new now) w

  -- `MemoryForgetter::execute`: the row first; what the indexes answer is ignored.
  unfoldable pub forget_row :
      ℕ → Result (Unit {0}) × Store → World V X → Result (Unit {0}) × World V X
  forget_row id (err e, store) w = (err e, record w { store = store })
  forget_row id (ok _, store) w = (
    ok tt,
    record {
      store = store;
      vectors = (setting.ports.vector_remove context id w.vectors).1;
      text = (setting.ports.text_remove context id w.text).1;
    },
  )

  unfoldable pub forget : ℕ → Text → World V X → Result (Unit {0}) × World V X
  unfolding forget_row try_delete
  forget id reason w = forget_row id (try_delete id reason w.store) w

  -- `MemoryUpdater::execute`, from its last step to its first.
  unfoldable pub update_text : Memory → World V X → Reply
  update_text updated w =
      (ok updated, record w { text = (setting.ports.text_upsert context updated w.text).1 })

  unfoldable pub update_vector : Memory → Result (Unit {0}) × V → World V X → Reply
  unfolding update_text
  update_vector updated (err e, vectors) w = (err e, record w { vectors = vectors })
  update_vector updated (ok _, vectors) w = update_text updated (record w { vectors = vectors })

  unfoldable pub update_embedding : Memory → Result E → World V X → Reply
  unfolding update_vector
  update_embedding updated (err e) w = (err e, w)
  update_embedding updated (ok embedding) w =
      update_vector updated (setting.ports.vector_upsert context updated.id embedding w.vectors) w

  unfoldable pub content_changed : MemoryEdit → Memory → Bool
  content_changed change existing = elim change.content [
    | none ↦ false
    | some content ↦ not (same_text (trim content) existing.content)
  ]

  unfoldable pub embedded_text_changed : MemoryEdit → Memory → Memory → Bool
  unfolding content_changed embeds_labels embedded_text
  embedded_text_changed change existing updated =
      content_changed change existing
      || (embeds_labels setting.document_text
          && not (same_text (embedded_text existing) (embedded_text updated)))

  unfoldable pub update_row :
      MemoryEdit → Memory → Memory → Result (Unit {0}) × Store → World V X → Reply
  unfolding update_embedding update_text embedded_text_changed
  update_row change existing updated (err e, store) w = (err e, record w { store = store })
  update_row change existing updated (ok _, store) w =
      if embedded_text_changed change existing updated
      then update_embedding updated (setting.ports.embed_one (embedded_text updated))
          (record w { store = store })
      else update_text updated (record w { store = store })

  unfoldable pub update_edited : MemoryEdit → Memory → Result Memory → World V X → Reply
  unfolding update_row
  update_edited change existing (err e) w = (err e, w)
  update_edited change existing (ok updated) w =
      update_row change existing updated (update_memory context updated actor now w.store) w

  unfoldable pub update_found : MemoryEdit → Option Memory → World V X → Reply
  unfolding update_edited
  update_found change none w = (err not_found, w)
  update_found change (some existing) w = update_edited change existing (edit existing change now) w

  unfoldable pub update : ℕ → MemoryEdit → World V X → Reply
  unfolding update_found
  update id change w = update_found change (find context id w.store) w

-- `MemoryFinder::execute`
unfoldable pub find_one : UserContext → ℕ → Store → Result Memory
find_one context id store = ok_or (find context id store) not_found
