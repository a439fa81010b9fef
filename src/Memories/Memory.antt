-- ===== src/Memories/Memory.antt =====
-- memories/domain/memory.rs: one memory, how it is made and edited, and when it is active.
pub mod Confidence
pub mod Fields
pub mod WellFormed
use Confidence.{F32, num, one, clamp_confidence}
use recuerdos_ai.Prelude.{
  ℕ, zero, suc, ◌+◌, ◌%◌, ◌^◌, Bool, true, false, not, ◌&&◌, ◌||◌, Option, none, some, is_some,
  List, [], ◌∷◌, ◌++◌, ltb, leb, min, length, contains, is_empty, if◌then◌else◌, ◌-◌,
}
use recuerdos_ai.Text.{Text, codes, text_eq, same_text, trim, to_ascii_lowercase}
use recuerdos_ai.Shared.Error.{RaError, Result, ok, err, validation, guard, ◌>>=◌, ◌>>◌}
use recuerdos_ai.Memories.Category.{Category}

abbrev pub max_content_len : ℕ
max_content_len = 4000

abbrev pub max_tags : ℕ
max_tags = 32

abbrev pub max_tag_len : ℕ
max_tag_len = 64

abbrev pub max_subcategory_len : ℕ
max_subcategory_len = 64

pub record MemorySource : Type 0 where
  pub client : Option Text
  pub session_id : Option Text

pub record Entity : Type 0 where
  pub name : Text
  pub kind : Text

pub record Memory : Type 0 where
  pub id : ℕ
  pub user_id : ℕ
  pub content : Text
  pub category : Category
  pub subcategory : Option Text
  pub tags : List Text
  pub entities : List Entity
  pub confidence : F32
  pub source : MemorySource
  pub created_at : ℕ
  pub updated_at : ℕ
  pub last_accessed_at : Option ℕ
  pub access_count : ℕ
  pub importance : F32
  pub expires_at : Option ℕ
  pub superseded_by : Option ℕ

pub record NewMemory : Type 0 where
  pub content : Text
  pub category : Category
  pub subcategory : Option Text
  pub tags : List Text
  pub entities : List Entity
  pub confidence : F32
  pub source : MemorySource
  pub expires_at : Option ℕ

unfoldable pub normalize_subcategory : Option Text → Result (Option Text)
normalize_subcategory none = ok none
normalize_subcategory (some raw) =
    let s = to_ascii_lowercase (trim raw) in
    if is_empty s
    then ok none
    else if ltb max_subcategory_len (length s)
    then err validation
    else ok (some s)

unfoldable pub push_tag : List Text → Text → List Text
unfolding contains
push_tag normalized tag = if contains normalized tag then normalized else normalized ++ tag ∷ []

-- The loop of `normalize_tags`.
unfoldable pub collect_tags : List Text → List Text → Result (List Text)
unfolding push_tag
collect_tags normalized [] = ok normalized
collect_tags normalized (raw ∷ tags) =
    let tag = to_ascii_lowercase (trim raw) in
    let skip = collect_tags normalized tags in
    let keep_it = collect_tags (push_tag normalized tag) tags in
    if is_empty tag then skip else if ltb max_tag_len (length tag) then err validation else keep_it

unfoldable pub normalize_tags : List Text → Result (List Text)
unfolding collect_tags
normalize_tags tags = do
  normalized ← collect_tags [] tags
  if ltb max_tags (length normalized) then err validation else ok normalized

-- The two tests of a content, trimmed.
unfoldable pub check_content : Text → Result Text
check_content raw = do
  guard (not (is_empty (trim raw))) validation
  guard (leb (length (trim raw)) max_content_len) validation
  ok (trim raw)

unfoldable pub has_passed : ℕ → Option ℕ → Bool
has_passed now none = false
has_passed now (some expires) = leb expires now

-- `Memory::create`; the fresh identifier is the argument `id`.
unfoldable pub create : ℕ → ℕ → NewMemory → ℕ → Result Memory
unfolding check_content has_passed normalize_subcategory normalize_tags clamp_confidence
create id user_id new now = do
  content ← check_content new.content
  guard (not (has_passed now new.expires_at)) validation
  subcategory ← normalize_subcategory new.subcategory
  tags ← normalize_tags new.tags
  ok (record {
    id = id;
    user_id = user_id;
    content = content;
    category = new.category;
    subcategory = subcategory;
    tags = tags;
    entities = new.entities;
    confidence = clamp_confidence new.confidence;
    source = new.source;
    created_at = now;
    updated_at = now;
    last_accessed_at = none;
    access_count = 0;
    importance = num one;
    expires_at = new.expires_at;
    superseded_by = none;
  })

unfoldable pub is_superseded : Memory → Bool
is_superseded memory = is_some memory.superseded_by

unfoldable pub is_expired_at : ℕ → Memory → Bool
unfolding has_passed
is_expired_at now memory = has_passed now memory.expires_at

unfoldable pub is_active_at : ℕ → Memory → Bool
unfolding is_superseded is_expired_at
is_active_at now memory = not (is_superseded memory) && not (is_expired_at now memory)

pub record MemoryEdit : Type 0 where
  pub content : Option Text
  pub category : Option Category
  pub subcategory : Option (Option Text)
  pub tags : Option (List Text)
  pub expires_at : Option (Option ℕ)

-- A field that the edit does not name keeps its value.
abbrev pub edited {ℓ κ} : {A : Type ℓ} {B : Type κ} → Option A → B → (A → Result B) → Result B
edited none old f = ok old
edited (some new) old f = f new

unfoldable pub edit : Memory → MemoryEdit → ℕ → Result Memory
unfolding check_content normalize_subcategory normalize_tags
edit memory change now = do
  content ← edited change.content memory.content check_content
  category ← edited change.category memory.category ok
  subcategory ← edited change.subcategory memory.subcategory normalize_subcategory
  tags ← edited change.tags memory.tags normalize_tags
  expires_at ← edited change.expires_at memory.expires_at ok
  ok (record memory {
    content = content;
    category = category;
    subcategory = subcategory;
    tags = tags;
    expires_at = expires_at;
    updated_at = now;
  })

unfoldable pub supersede : Memory → ℕ → ℕ → Memory
supersede memory replacement now = record memory {
  superseded_by = some replacement;
  updated_at = now;
}

-- `saturating_add` on `u32`
unfoldable pub mark_accessed : Memory → ℕ → Memory
mark_accessed memory now = record memory {
  last_accessed_at = some now;
  access_count = min (memory.access_count + 1) (2 ^ 32 - 1);
}
