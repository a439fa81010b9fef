-- ===== src/Memories/Memory/WellFormed.antt =====
-- What holds of every memory that is made and edited, and when a memory is active.
use recuerdos_ai.Prelude.{
  ℕ, ◌≤◌, ◌≡◌, refl, true, false, not, Option, none, some, arith, leb, length, is_empty, subst,
}
use recuerdos_ai.Text.{Text, trim}
use recuerdos_ai.Text.Trim.{trim_idem}
use recuerdos_ai.Shared.Error.{Result, ok, ok-injective, guard, guard-eq-ok, validation, >>=-eq-ok}
use recuerdos_ai.Memories.Memory.{
  Memory, NewMemory, MemoryEdit, check_content, has_passed, normalize_subcategory, normalize_tags,
  create, edit, edited, is_active_at, max_content_len,
}
use recuerdos_ai.Memories.Memory.Confidence.{InUnit, clamp_confidence-InUnit}
use recuerdos_ai.Memories.Memory.Fields.{
  AreTags, IsSubcategory, normalize_subcategory-IsSubcategory, normalize_tags-AreTags,
}

pub record IsContent (t : Text) : Type 0 where
  pub trimmed : trim t ≡ t
  pub full : is_empty t ≡ false
  pub short : length t ≤ max_content_len

pub record IsWellFormed (m : Memory) : Type 0 where
  pub content : IsContent m.content
  pub subcategory : IsSubcategory m.subcategory
  pub tags : AreTags m.tags
  pub confidence : InUnit m.confidence

check_content-IsContent : (raw out : Text) → check_content raw ≡ ok out → IsContent out
unfolding check_content
check_content-IsContent raw out h =
    let (_, g₁, h₁) = >>=-eq-ok (guard (not (is_empty (trim raw))) validation) _ h in
    let (_, g₂, h₂) = >>=-eq-ok (guard (leb (length (trim raw)) max_content_len) validation) _ h₁ in
    let full : not (is_empty (trim raw)) ≡ true = guard-eq-ok _ _ g₁ in
    let short : leb (length (trim raw)) max_content_len ≡ true = guard-eq-ok _ _ g₂ in
    subst IsContent (ok-injective h₂)
      (record { trimmed = trim_idem raw; full = ground arith; short = ground arith })

edited_lem :
    {A B : Type 0} (P : B → Type 0) (o : Option A) (old : B) (f : A → Result B) (out : B)
    → P old
    → ((a : A) (b : B) → f a ≡ ok b → P b)
    → edited o old f ≡ ok out
    → P out
edited_lem P none old f out p k h = subst P (ok-injective h) p
edited_lem P (some a) old f out p k h = k a out h

-- A memory that is made is well-formed, belongs to its user, is not superseded, and is active at the
-- moment it is made.
pub create-IsWellFormed :
    (id user_id : ℕ) (new : NewMemory) (now : ℕ) (m : Memory)
    → create id user_id new now ≡ ok m
    → IsWellFormed m × (m.user_id ≡ user_id) × (is_active_at now m ≡ true)
unfolding create
create-IsWellFormed id user_id new now m h =
    let (content, c, h₁) = >>=-eq-ok (check_content new.content) _ h in
    let (_, g, h₂) = >>=-eq-ok (guard (not (has_passed now new.expires_at)) validation) _ h₁ in
    let (subcategory, s, h₃) = >>=-eq-ok (normalize_subcategory new.subcategory) _ h₂ in
    let (tags, t, h₄) = >>=-eq-ok (normalize_tags new.tags) _ h₃ in
    subst (λ x. IsWellFormed x × (x.user_id ≡ user_id) × (is_active_at now x ≡ true))
      (ok-injective h₄)
      (
        record {
          content = check_content-IsContent new.content content c;
          subcategory = normalize_subcategory-IsSubcategory new.subcategory subcategory s;
          tags = normalize_tags-AreTags new.tags tags t;
          confidence = clamp_confidence-InUnit new.confidence;
        },
        refl,
        unfold is_active_at in guard-eq-ok _ _ g,
      )

-- An edit keeps a memory well-formed, and leaves its owner, its identity, its age and what replaced
-- it as they were.
pub edit-IsWellFormed :
    (m : Memory) (change : MemoryEdit) (now : ℕ) (m' : Memory)
    → IsWellFormed m
    → edit m change now ≡ ok m'
    → IsWellFormed m'
      × (m'.id ≡ m.id)
      × (m'.user_id ≡ m.user_id)
      × (m'.created_at ≡ m.created_at)
      × (m'.superseded_by ≡ m.superseded_by)
      × (m'.updated_at ≡ now)
unfolding edit
edit-IsWellFormed m change now m' w h =
    let (content, c, h₁) = >>=-eq-ok (edited change.content m.content check_content) _ h in
    let (category, _, h₂) = >>=-eq-ok (edited change.category m.category ok) _ h₁ in
    let (subcategory, s, h₃) =
      >>=-eq-ok (edited change.subcategory m.subcategory normalize_subcategory) _ h₂ in
    let (tags, t, h₄) = >>=-eq-ok (edited change.tags m.tags normalize_tags) _ h₃ in
    let (expires_at, _, h₅) = >>=-eq-ok (edited change.expires_at m.expires_at ok) _ h₄ in
    subst
      (λ x.
        IsWellFormed x
        × (x.id ≡ m.id)
        × (x.user_id ≡ m.user_id)
        × (x.created_at ≡ m.created_at)
        × (x.superseded_by ≡ m.superseded_by)
        × (x.updated_at ≡ now))
      (ok-injective h₅)
      (
        record {
          content =
              edited_lem IsContent change.content m.content check_content content w.content
                check_content-IsContent c;
          subcategory =
              edited_lem IsSubcategory change.subcategory m.subcategory normalize_subcategory
                subcategory w.subcategory normalize_subcategory-IsSubcategory s;
          tags =
              edited_lem AreTags change.tags m.tags normalize_tags tags w.tags
                normalize_tags-AreTags t;
          confidence = w.confidence;
        },
        refl,
        refl,
        refl,
        refl,
        refl,
      )
