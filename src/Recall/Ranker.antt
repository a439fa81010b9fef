-- ===== src/Recall/Ranker.antt =====
-- memories/domain/recall_ranker.rs: reciprocal-rank fusion of the legs of a search, weighed by
-- recency, quality and relevance. An identifier compares as its text does, which is written in
-- digits of one width.
pub mod Fusion
pub mod Order
pub mod Relevance
pub mod Rerank
use Prim.Native.Nat.{compare, Ordering}
use Prim.Native.Nat.Ordering.{lt, eq, gt}
use recuerdos_ai.Prelude.{
  ℕ, zero, suc, ◌+◌, ◌-◌, ◌*◌, ◌/◌, ◌^◌, Bool, true, false, not, ◌&&◌, ◌||◌, Option, none, some,
  List, [], ◌∷◌, ◌++◌, map, keep, ltb, leb, ◌==◌, if◌then◌else◌, is_some, max, update_where,
  any_where, is_empty,
}
use recuerdos_ai.Memories.Memory.{Memory}
use recuerdos_ai.Memories.Memory.Confidence.{F32, pos_inf, num, one, clamp_unit}
use recuerdos_ai.Recall.Sorting.{sort_by}
use recuerdos_ai.Recall.Comparison.{then_with}
use recuerdos_ai.Recall.Floats.{
  Arithmetic, total_cmp, is_nan, at_most, less, partial_or_equal, f32_max, f32_min, clamp, half,
  unit, nought, whole,
}

-- The multiples of powers of two that stand for the decimal fractions.
abbrev pub rrf_k : F32
rrf_k = whole 60

abbrev pub multiplier_floor : F32
multiplier_floor = num (13_421_773 * 2 ^ 125)

abbrev pub bm25_saturation : F32
bm25_saturation = whole 8

abbrev pub graph_hop_relevance : F32
graph_hop_relevance = num (11_744_051 * 2 ^ 124)

abbrev pub largest_baseline : F32
largest_baseline = num (16_609_444 * 2 ^ 125)

-- An instant counts nanoseconds.
abbrev pub second : ℕ
second = 10 ^ 9

pub data RerankStrategy : Type 0 where
  rrf : F32 → RerankStrategy
  replace : RerankStrategy

pub record MatchDetail : Type 0 where
  pub vector_rank : Option ℕ
  pub bm25_rank : Option ℕ
  pub graph_rank : Option ℕ
  pub rerank_rank : Option ℕ

pub record ScoredMemory : Type 0 where
  pub memory : Memory
  pub score : F32
  pub relevance : F32
  pub rerank_score : Option F32
  pub match_detail : MatchDetail

pub record RecallRanker : Type 0 where
  pub recency_half_life_days : F32
  pub graph_rank_weight : F32
  pub graph_unanchored_floor : ℕ
  pub rerank_strategy : RerankStrategy
  pub similarity_baseline : F32
  pub relevance_weight : F32

unfoldable pub with_relevance_calibration : F32 → RecallRanker → RecallRanker
with_relevance_calibration similarity_baseline ranker = record ranker {
  similarity_baseline = similarity_baseline;
}

unfoldable pub with_relevance_weight : F32 → RecallRanker → RecallRanker
with_relevance_weight weight ranker = record ranker { relevance_weight = weight }

unfoldable pub with_graph_ranking : F32 → ℕ → RecallRanker → RecallRanker
with_graph_ranking rank_weight unanchored_floor ranker = record ranker {
  graph_rank_weight = rank_weight;
  graph_unanchored_floor = unanchored_floor;
}

unfoldable pub with_rerank_strategy : RerankStrategy → RecallRanker → RecallRanker
with_rerank_strategy strategy ranker = record ranker { rerank_strategy = strategy }

-- The position of an identifier, from 1.
unfoldable pub rank_of : List ℕ → ℕ → Option ℕ
rank_of [] id = none
rank_of (x ∷ xs) id =
    let later = rank_of xs id in
    if x == id then some 1 else elim later [ none ↦ none | some n ↦ some (suc n) ]

unfoldable pub highest_first : F32 → F32 → Ordering
unfolding total_cmp is_nan
highest_first a b =
    if is_nan a then (if is_nan b then eq else gt) else (if is_nan b then lt else total_cmp b a)

-- Newest first, then by identifier.
unfoldable pub by_age_and_id : ScoredMemory → ScoredMemory → Ordering
by_age_and_id a b =
    then_with (compare b.memory.created_at a.memory.created_at) (compare a.memory.id b.memory.id)

unfoldable pub by_score : ScoredMemory → ScoredMemory → Ordering
unfolding highest_first by_age_and_id
by_score a b = then_with (highest_first a.score b.score) (by_age_and_id a b)

unfoldable pub by_score_and_relevance : ScoredMemory → ScoredMemory → Ordering
unfolding highest_first by_age_and_id
by_score_and_relevance a b =
    then_with (highest_first a.score b.score)
      (then_with (highest_first b.relevance a.relevance) (by_age_and_id a b))

unfoldable pub sort_ranked : List ScoredMemory → List ScoredMemory
unfolding by_score
sort_ranked = sort_by by_score

unfoldable pub sort_ranked_with_relevance : List ScoredMemory → List ScoredMemory
unfolding by_score_and_relevance
sort_ranked_with_relevance = sort_by by_score_and_relevance

unfoldable pub is_found : ScoredMemory → Bool
is_found s =
    is_some s.match_detail.vector_rank
    || is_some s.match_detail.bm25_rank
    || is_some s.match_detail.graph_rank

-- Where a memory stands in each leg.
unfoldable pub detail_of : List ℕ → List ℕ → List ℕ → ℕ → MatchDetail
unfolding rank_of
detail_of vector keyword graph id = record {
  vector_rank = rank_of vector id;
  bm25_rank = rank_of keyword id;
  graph_rank = rank_of graph id;
  rerank_rank = none;
}

module _ (f : Arithmetic) where
  unfoldable pub new : ℕ → RecallRanker
  new days = record {
    recency_half_life_days = if days == 0 then pos_inf else f.of_integer days;
    graph_rank_weight = unit;
    graph_unanchored_floor = 0;
    rerank_strategy = rrf unit;
    similarity_baseline = half;
    relevance_weight = half;
  }

  unfoldable pub floored : F32 → F32
  unfolding clamp_unit
  floored value =
      f.add multiplier_floor (f.multiply (f.subtract unit multiplier_floor) (clamp_unit value))

  unfoldable pub quality : Memory → F32
  unfolding floored
  quality memory = floored (f.multiply memory.confidence memory.importance)

  unfoldable pub reciprocal_rank : Option ℕ → F32
  reciprocal_rank (some rank) = f.divide unit (f.add rrf_k (f.of_integer rank))
  reciprocal_rank none = nought

  -- A memory from the future has no age.
  unfoldable pub age_days : ℕ → ℕ → F32
  unfolding f32_max
  age_days created_at now =
      f32_max (f.divide (f.of_integer ((now - created_at) / second)) (whole 86_400)) nought

  unfoldable pub recency_multiplier : RecallRanker → ℕ → ℕ → F32
  unfolding age_days floored
  recency_multiplier ranker created_at now =
      floored (f.power half (f.divide (age_days created_at now) ranker.recency_half_life_days))

  unfoldable pub is_unanchored : MatchDetail → Bool
  is_unanchored detail = not (is_some detail.vector_rank) && not (is_some detail.bm25_rank)

  unfoldable pub graph_term : RecallRanker → MatchDetail → Option ℕ → F32
  unfolding reciprocal_rank f32_min is_unanchored
  graph_term ranker detail none = nought
  graph_term ranker detail (some rank) =
      let term = f.multiply ranker.graph_rank_weight (reciprocal_rank (some rank)) in
      if is_unanchored detail && ltb 0 ranker.graph_unanchored_floor
      then f32_min term (reciprocal_rank (some ranker.graph_unanchored_floor))
      else term

  unfoldable pub graph_relevance : RecallRanker → MatchDetail → F32
  unfolding graph_term
  graph_relevance ranker detail = graph_term ranker detail detail.graph_rank

  -- The sum of the three legs.
  unfoldable pub leg_sum : RecallRanker → MatchDetail → F32
  unfolding reciprocal_rank graph_relevance
  leg_sum ranker detail =
      f.add (f.add (reciprocal_rank detail.vector_rank) (reciprocal_rank detail.bm25_rank))
        (graph_relevance ranker detail)

  unfoldable pub score : RecallRanker → Memory → MatchDetail → ℕ → F32
  unfolding leg_sum recency_multiplier quality
  score ranker memory detail now =
      f.multiply
        (f.multiply (leg_sum ranker detail) (recency_multiplier ranker memory.created_at now))
        (quality memory)

  -- One candidate, with its place in each leg.
  unfoldable pub scored_by : RecallRanker → List ℕ → List ℕ → List ℕ → ℕ → Memory → ScoredMemory
  unfolding detail_of score
  scored_by ranker vector keyword graph now memory = record {
    memory = memory;
    score = score ranker memory (detail_of vector keyword graph memory.id) now;
    relevance = nought;
    rerank_score = none;
    match_detail = detail_of vector keyword graph memory.id;
  }

  unfoldable pub rank_with_graph :
      RecallRanker → List ℕ → List ℕ → List ℕ → List Memory → ℕ → List ScoredMemory
  unfolding scored_by is_found sort_ranked
  rank_with_graph ranker vector keyword graph candidates now =
      sort_ranked (keep is_found (map (scored_by ranker vector keyword graph now) candidates))

  unfoldable pub rank : RecallRanker → List ℕ → List ℕ → List Memory → ℕ → List ScoredMemory
  unfolding rank_with_graph
  rank ranker vector keyword candidates now =
      rank_with_graph ranker vector keyword [] candidates now

  -- `RelevanceCalibration::correct`
  unfoldable pub correct : RecallRanker → F32 → F32
  unfolding clamp clamp_unit
  correct ranker similarity =
      let baseline = clamp nought largest_baseline ranker.similarity_baseline in
      clamp_unit (f.divide (f.subtract similarity baseline) (f.subtract unit baseline))

  unfoldable pub combined : RecallRanker → Option F32 → F32 → F32
  unfolding correct
  combined ranker none keyword = keyword
  combined ranker (some similarity) keyword =
      f.subtract unit
        (f.multiply (f.subtract unit (correct ranker similarity)) (f.subtract unit keyword))

  unfoldable pub relevance : RecallRanker → Option F32 → F32 → Bool → F32
  unfolding f32_max combined less
  relevance ranker vector_similarity bm25 graph_only =
      let positive = f32_max bm25 nought in
      let value =
        combined ranker vector_similarity (f.divide positive (f.add positive bm25_saturation)) in
      if less nought value then value else if graph_only then graph_hop_relevance else nought

  unfoldable pub affinity : RecallRanker → F32 → F32
  unfolding clamp_unit
  affinity ranker r =
      f.subtract unit (f.multiply ranker.relevance_weight (f.subtract unit (clamp_unit r)))

  unfoldable pub weighed : RecallRanker → ScoredMemory → ScoredMemory
  unfolding affinity
  weighed ranker s = record s { score = f.multiply s.score (affinity ranker s.relevance) }

  unfoldable pub apply_relevance : RecallRanker → List ScoredMemory → List ScoredMemory
  unfolding at_most is_nan weighed sort_ranked_with_relevance
  apply_relevance ranker ranked =
      if at_most ranker.relevance_weight nought || is_nan ranker.relevance_weight
      then ranked
      else sort_ranked_with_relevance (map (weighed ranker) ranked)
