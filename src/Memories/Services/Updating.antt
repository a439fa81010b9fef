-- ===== src/Memories/Services/Updating.antt =====
-- The vector of a memory follows its text when it is edited.
use recuerdos_ai.Prelude.{
  ℕ, ◌≡◌, refl, sym, ◌∙◌, true, false, not, ◌⊎◌, inl, inr, Option, none, some, arith, leb, length,
  is_empty, Bool-cases, subst,
}
use recuerdos_ai.Text.{Text, same_text, same_text_iff, trim}
use recuerdos_ai.Shared.Error.{Result, ok, err, ok-injective, guard, validation, >>=-eq-ok}
use recuerdos_ai.Identity.UserContext.{UserContext}
use recuerdos_ai.Memories.Memory.{
  Memory, MemoryEdit, edit, edited, check_content, normalize_subcategory, normalize_tags,
  max_content_len,
}
use recuerdos_ai.Memories.DocumentText.{DocumentText, content, enriched, embeds_labels, of, render}
use recuerdos_ai.Memories.Repository.{Store, find}
use recuerdos_ai.Memories.Services.{
  World, Setting, embedded_text, content_changed, embedded_text_changed, update_text, update_vector,
  update_embedding, update_row, update_edited, update_found, update,
}

check_content-trim : (raw out : Text) → check_content raw ≡ ok out → trim raw ≡ out
unfolding check_content
check_content-trim raw out h =
    let (_, g₁, h₁) = >>=-eq-ok (guard (not (is_empty (trim raw))) validation) _ h in
    let (_, g₂, h₂) = >>=-eq-ok (guard (leb (length (trim raw)) max_content_len) validation) _ h₁ in
    ok-injective h₂

edit-content :
    (m : Memory) (change : MemoryEdit) (now : ℕ) (m' : Memory)
    → edit m change now ≡ ok m'
    → edited change.content m.content check_content ≡ ok m'.content
unfolding edit
edit-content m change now m' h =
    let (c, e, h₁) = >>=-eq-ok (edited change.content m.content check_content) _ h in
    let (category, _, h₂) = >>=-eq-ok (edited change.category m.category ok) _ h₁ in
    let (subcategory, s, h₃) =
      >>=-eq-ok (edited change.subcategory m.subcategory normalize_subcategory) _ h₂ in
    let (tags, t, h₄) = >>=-eq-ok (edited change.tags m.tags normalize_tags) _ h₃ in
    let (expires_at, _, h₅) = >>=-eq-ok (edited change.expires_at m.expires_at ok) _ h₄ in
    subst (λ (x : Memory). edited change.content m.content check_content ≡ ok x.content)
      (ok-injective h₅) e

module _ {E V X : Type 0} (setting : Setting E V X) (context : UserContext) (actor : Text)
    (now : ℕ) where
  same_content :
      (o : Option Text) (change : MemoryEdit) (existing updated : Memory)
      → change.content ≡ o
      → content_changed setting context actor now change existing ≡ false
      → edited o existing.content check_content ≡ ok updated.content
      → updated.content ≡ existing.content
  unfolding content_changed
  same_content none change existing updated e unchanged kept = sym (ok-injective kept)
  same_content (some c) change existing updated e unchanged kept =
      let same : same_text (trim c) existing.content ≡ true = ground (arith, e, unchanged) in
      sym (check_content-trim c updated.content kept) ∙ (same_text_iff _ _).0 same

  text_in_step :
      (format : DocumentText) (change : MemoryEdit) (existing updated : Memory)
      → setting.document_text ≡ format
      → edit existing change now ≡ ok updated
      → embedded_text_changed setting context actor now change existing updated ≡ false
      → of setting.uppercase format updated ≡ of setting.uppercase format existing
  unfolding embedded_text_changed
  text_in_step content change existing updated f edited_ok unchanged =
      let same : content_changed setting context actor now change existing ≡ false = ground arith in
      unfold of render in
      same_content change.content change existing updated refl same
        (edit-content existing change now updated edited_ok)
  text_in_step enriched change existing updated f edited_ok unchanged =
      let e : embeds_labels setting.document_text ≡ true = rw f (unfold embeds_labels in refl) in
      let same : same_text (embedded_text setting context actor now existing)
            (embedded_text setting context actor now updated)
          ≡ true =
        ground arith in
      unfold embedded_text in
      subst (λ x. of setting.uppercase x updated ≡ of setting.uppercase x existing) f
        (sym ((same_text_iff _ _).0 same))

  -- What became of the vector of a memory: its text is as it was, and so is the index, or the index
  -- has accepted the embedding of its new text.
  abbrev pub InStep : Memory → Memory → V → V → Type 0
  InStep existing updated before after =
      ((embedded_text setting context actor now updated
          ≡ embedded_text setting context actor now existing)
        × (after ≡ before))
      ⊎ ((embedding : E) × (setting.ports.embed_one
              (embedded_text setting context actor now updated)
            ≡ ok embedding)
          × (setting.ports.vector_upsert context updated.id embedding before ≡ (ok tt, after)))

  -- What an update leaves, by its result.
  abbrev pub Updated : ℕ → MemoryEdit → World V X → Result Memory × World V X → Type 0
  Updated id change w (err e, after) = after.text ≡ w.text
  Updated id change w (ok m, after) =
      (existing : Memory) × (find context id w.store ≡ some existing)
      × (edit existing change now ≡ ok m)
      × InStep existing m w.vectors after.vectors
      × (after.text ≡ (setting.ports.text_upsert context m w.text).1)

  module _ (id : ℕ) (change : MemoryEdit) (existing : Memory) (w : World V X) where
    update_vector-Updated :
        (m : Memory) (store : Store) (embedding : E) (r : Result (Unit {0}) × V)
        → find context id w.store ≡ some existing
        → edit existing change now ≡ ok m
        → setting.ports.embed_one (embedded_text setting context actor now m) ≡ ok embedding
        → setting.ports.vector_upsert context m.id embedding w.vectors ≡ r
        → Updated id change w
            (update_vector setting context actor now m r (record w { store = store }))
    unfolding update_vector update_text
    update_vector-Updated m store embedding (err e, vectors) found changed embedded upserted = refl
    update_vector-Updated m store embedding (ok tt, vectors) found changed embedded upserted =
        (existing, found, changed, inr (embedding, embedded, upserted), refl)

    update_embedding-Updated :
        (m : Memory) (store : Store) (r : Result E)
        → find context id w.store ≡ some existing
        → edit existing change now ≡ ok m
        → setting.ports.embed_one (embedded_text setting context actor now m) ≡ r
        → Updated id change w
            (update_embedding setting context actor now m r (record w { store = store }))
    unfolding update_embedding
    update_embedding-Updated m store (err e) found changed embedded = refl
    update_embedding-Updated m store (ok embedding) found changed embedded =
        update_vector-Updated m store embedding _ found changed embedded refl

    update_row-Updated :
        (m : Memory) (r : Result (Unit {0}) × Store)
        → find context id w.store ≡ some existing
        → edit existing change now ≡ ok m
        → Updated id change w (update_row setting context actor now change existing m r w)
    unfolding update_row
    update_row-Updated m (err e, store) found changed = refl
    update_row-Updated m (ok tt, store) found changed =
        elim (Bool-cases (embedded_text_changed setting context actor now change existing m)) [
          | inl e ↦ rw e (update_embedding-Updated m store _ found changed refl)
          | inr e ↦ rw e (
              unfold update_text in
              (
                existing,
                found,
                changed,
                inl (
                  unfold embedded_text in
                      text_in_step setting.document_text change existing m refl changed e,
                  refl,
                ),
                refl,
              ))
        ]

    update_edited-Updated :
        (r : Result Memory)
        → find context id w.store ≡ some existing
        → edit existing change now ≡ r
        → Updated id change w (update_edited setting context actor now change existing r w)
    unfolding update_edited
    update_edited-Updated (err e) found changed = refl
    update_edited-Updated (ok m) found changed = update_row-Updated m _ found changed

  update_found-Updated :
      (id : ℕ) (change : MemoryEdit) (w : World V X) (o : Option Memory)
      → find context id w.store ≡ o
      → Updated id change w (update_found setting context actor now change o w)
  unfolding update_found
  update_found-Updated id change w none found = refl
  update_found-Updated id change w (some existing) found =
      update_edited-Updated id change existing w _ found refl

  -- An update that returns a memory has edited the one that the caller has under the identifier, and
  -- its vector is in step, in either format of the embedded text: that text is what it was and the
  -- vectors are not touched, or the vector index has accepted the embedding of the new text. The
  -- keyword index is offered the memory then, and is left alone by an update that fails.
  pub update_lem :
      (id : ℕ) (change : MemoryEdit) (w : World V X)
      → Updated id change w (update setting context actor now id change w)
  unfolding update
  update_lem id change w = update_found-Updated id change w _ refl
