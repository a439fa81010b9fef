-- ===== src/Recall/Query.antt =====
-- memories/domain/recall_query.rs: what a caller asks for.
pub mod Limits
use recuerdos_ai.Prelude.{
  ℕ, zero, suc, ◌+◌, ◌*◌, Bool, true, false, not, Option, none, some, List, [], ◌∷◌, leb, min, max,
  length, is_empty, if◌then◌else◌, map, keep,
}
use recuerdos_ai.Text.{Text, trim, to_ascii_lowercase}
use recuerdos_ai.Shared.Error.{RaError, Result, ok, err, validation, guard, ◌>>=◌, ◌>>◌}
use recuerdos_ai.Memories.Category.{Category}
use recuerdos_ai.Memories.Memory.Confidence.{F32, num, clamp_unit}

-- An `i64`: `negsuc n` is -(n + 1).
pub data ℤ : Type 0 where
  pos negsuc : ℕ → ℤ

abbrev pub max_limit : ℕ
max_limit = 50

abbrev pub max_query_len : ℕ
max_query_len = 1000

pub record RecallQuery : Type 0 where
  pub text : Text
  pub categories : List Category
  pub subcategories : List Text
  pub tags : List Text
  pub since : Option ℕ
  pub as_of : Option ℕ
  pub limit : ℕ
  pub include_superseded : Bool
  pub min_relevance : F32

unfoldable pub limit_of : ℤ → Result ℕ
limit_of (negsuc n) = err validation
limit_of (pos zero) = err validation
limit_of (pos (suc n)) = ok (min (suc n) max_limit)

unfoldable pub new : Text → ℤ → Result RecallQuery
unfolding limit_of
new raw limit = do
  guard (not (is_empty (trim raw))) validation
  guard (leb (length (trim raw)) max_query_len) validation
  shown ← limit_of limit
  ok (record {
    text = trim raw;
    categories = [];
    subcategories = [];
    tags = [];
    since = none;
    as_of = none;
    limit = shown;
    include_superseded = false;
    min_relevance = num 0;
  })

-- Trimmed, in lower case, without the empty ones.
unfoldable pub wanted : List Text → List Text
unfolding to_ascii_lowercase trim
wanted raw = keep (λ s. not (is_empty s)) (map (λ s. to_ascii_lowercase (trim s)) raw)

unfoldable pub with_categories : List Category → RecallQuery → RecallQuery
with_categories categories query = record query { categories = categories }

unfoldable pub with_tags : List Text → RecallQuery → RecallQuery
unfolding wanted
with_tags tags query = record query { tags = wanted tags }

unfoldable pub with_subcategories : List Text → RecallQuery → RecallQuery
unfolding wanted
with_subcategories subcategories query = record query { subcategories = wanted subcategories }

unfoldable pub with_since : Option ℕ → RecallQuery → RecallQuery
with_since since query = record query { since = since }

unfoldable pub with_as_of : Option ℕ → RecallQuery → RecallQuery
with_as_of as_of query = record query { as_of = as_of }

unfoldable pub including_superseded : RecallQuery → RecallQuery
including_superseded query = record query { include_superseded = true }

unfoldable pub with_min_relevance : F32 → RecallQuery → RecallQuery
unfolding clamp_unit
with_min_relevance min_relevance query = record query { min_relevance = clamp_unit min_relevance }

-- `clamp(40, 200)`
unfoldable pub candidate_depth : RecallQuery → ℕ
candidate_depth query = min (max (query.limit * 8) 40) 200
