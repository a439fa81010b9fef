-- ===== src/Recall/Ranker/Fusion.antt =====
-- memories/domain/recall_ranker.rs: what the fused list holds, and in which order.
use Prim.Native.Nat.Ordering.{eq}
use recuerdos_ai.Prelude.{
  ◌-◌, ◌*◌, ◌/◌, ◌^◌, ℕ, ◌≡◌, ◌≢◌, List, [], ◌∷◌, map, keep, All, All-keep, arith, inl, inr,
  Bool-cases, ◌+◌, ◌==◌, length, contains, nat_eq, Option, some, none, refl, Bool, not, ◌&&◌, ◌||◌,
  ltb, if◌then◌else◌, ap, ◌∙◌, subst, is_some,
}
use recuerdos_ai.Memories.Memory.{Memory}
use recuerdos_ai.Memories.Memory.Confidence.{F32, clamp_unit, num}
use recuerdos_ai.Recall.Sorting.{
  sort_by, Shuffle, sort_by-Shuffle, sort_by-IsOrdered, NoTies, sort_by-Shuffled, keep-Shuffle,
  map-Shuffle,
}
use recuerdos_ai.Recall.Floats.{Arithmetic, nought, unit, whole, f32_min, f32_max, half}
use recuerdos_ai.Recall.Ranker.Order.{by_score-IsConsistent, AllBestFirst, AllBestFirst-of}
use recuerdos_ai.Recall.Ranker.{
  MatchDetail, ScoredMemory, RecallRanker, by_age_and_id, by_score, is_found, rank_of, detail_of,
  score, leg_sum, reciprocal_rank, graph_relevance, graph_term, is_unanchored, recency_multiplier,
  age_days, quality, floored, scored_by, rank_with_graph, sort_ranked,
}

-- Every memory has an identifier of its own.
abbrev pub OwnIds : List Memory → Type 0
OwnIds [] = Unit
OwnIds (m ∷ ms) = All (λ n. m.id ≢ n.id) ms × OwnIds ms

-- What stands in a list before an item.
unfoldable pub before : List ℕ → ℕ → List ℕ
before [] id = []
before (x ∷ xs) id = if x == id then [] else x ∷ before xs id

-- The place of an item of a list, from 1.
unfoldable pub place : List ℕ → ℕ → Option ℕ
unfolding before contains
place xs id = if contains xs id then some (length (before xs id) + 1) else none

rank_of_lem : (xs : List ℕ) (id : ℕ) → rank_of xs id ≡ place xs id
unfolding rank_of place before contains
rank_of_lem [] id = refl
rank_of_lem (x ∷ xs) id = elim (Bool-cases (x == id)) [
  | inl e ↦ rw e refl
  | inr e ↦ rw (e, rank_of_lem xs id) (ground arith)
]

tied_by_id : (x y : ScoredMemory) → by_score x y ≡ eq → x.memory.id ≡ y.memory.id
unfolding by_score by_age_and_id
tied_by_id x y h = ground arith

module _ (f : Arithmetic) (ranker : RecallRanker) (vector keyword graph : List ℕ) (now : ℕ) where
  abbrev pub found_rows : List Memory → List ScoredMemory
  found_rows candidates =
      keep is_found (map (scored_by f ranker vector keyword graph now) candidates)

  rows-Shuffle : {ms ns : List Memory} → Shuffle ms ns → Shuffle (found_rows ms) (found_rows ns)
  rows-Shuffle s = keep-Shuffle is_found (map-Shuffle _ s)

  untied-All :
      (m : Memory) (ms : List Memory)
      → All (λ n. m.id ≢ n.id) ms
      → All
          (λ s. by_score (scored_by f ranker vector keyword graph now m) s ≢ eq)
          (map (scored_by f ranker vector keyword graph now) ms)
  unfolding scored_by
  untied-All m [] h = tt
  untied-All m (n ∷ ns) h = (λ e. h.0 (tied_by_id _ _ e), untied-All m ns h.1)

  found_rows-NoTies : (ms : List Memory) → OwnIds ms → NoTies by_score (found_rows ms)
  unfolding keep
  found_rows-NoTies [] h = tt
  found_rows-NoTies (m ∷ ms) h =
      elim (Bool-cases (is_found (scored_by f ranker vector keyword graph now m))) [
        | inl e ↦ rw e (All-keep _ is_found _ (untied-All m ms h.0), found_rows-NoTies ms h.1)
        | inr e ↦ rw e (found_rows-NoTies ms h.1)
      ]

  -- What a leg gives to the item at a place.
  abbrev pub share : Option ℕ → F32
  share none = nought
  share (some n) = f.divide unit (f.add (whole 60) (f.of_integer n))

  -- The part of the graph is weighed, and for a memory that only the graph has found it is bounded by
  -- that of a floor, if there is one.
  abbrev pub graph_share : Bool → Option ℕ → F32
  graph_share only_graph none = nought
  graph_share only_graph (some n) =
      let weighed = f.multiply ranker.graph_rank_weight (share (some n)) in
      if only_graph && ltb 0 ranker.graph_unanchored_floor
      then f32_min weighed (share (some ranker.graph_unanchored_floor))
      else weighed

  -- A factor is kept between 0.8 and 1.
  abbrev pub factor : F32 → F32
  factor x =
      let floor = num (13_421_773 * 2 ^ 125) in
      f.add floor (f.multiply (f.subtract unit floor) (clamp_unit x))

  abbrev pub days : Memory → F32
  days m = f32_max (f.divide (f.of_integer ((now - m.created_at) / 10 ^ 9)) (whole 86_400)) nought

  -- The row of a memory, from its places in the legs: the sum of what the legs give, times a factor that
  -- halves with each half-life of its age, times one for its confidence and importance.
  abbrev pub fused_row : Memory → ScoredMemory
  fused_row m = record {
    memory = m;
    score =
        f.multiply
          (f.multiply
            (f.add (f.add (share (place vector m.id)) (share (place keyword m.id))) (
              graph_share (not (contains vector m.id) && not (contains keyword m.id))
                (place graph m.id)))
            (factor (f.power half (f.divide (days m) ranker.recency_half_life_days))))
          (factor (f.multiply m.confidence m.importance));
    relevance = nought;
    rerank_score = none;
    match_detail = record {
      vector_rank = place vector m.id;
      bm25_rank = place keyword m.id;
      graph_rank = place graph m.id;
      rerank_rank = none;
    };
  }

  abbrev pub in_a_leg : Memory → Bool
  in_a_leg m = contains vector m.id || contains keyword m.id || contains graph m.id

  abbrev pub fused_rows : List Memory → List ScoredMemory
  fused_rows candidates = map fused_row (keep in_a_leg candidates)

  share_lem : (o : Option ℕ) → reciprocal_rank f o ≡ share o
  unfolding reciprocal_rank
  share_lem none = refl
  share_lem (some n) = refl

  graph_lem :
      (detail : MatchDetail) (o : Option ℕ)
      → graph_term f ranker detail o ≡ graph_share (is_unanchored f detail) o
  unfolding graph_term reciprocal_rank
  graph_lem detail none = refl
  graph_lem detail (some n) = refl

  is_some-place : (xs : List ℕ) (id : ℕ) → is_some (place xs id) ≡ contains xs id
  unfolding place
  is_some-place xs id = ground arith

  legs_lem :
      (detail : MatchDetail) (v k g : Option ℕ)
      → f.add (f.add (reciprocal_rank f v) (reciprocal_rank f k)) (graph_term f ranker detail g)
        ≡ f.add (f.add (share v) (share k)) (graph_share (is_unanchored f detail) g)
  legs_lem detail v k g = rw (share_lem v, share_lem k, graph_lem detail g) refl

  aged : Memory → F32 → F32
  aged m x =
      f.multiply
        (f.multiply x (factor (f.power half (f.divide (days m) ranker.recency_half_life_days))))
        (factor (f.multiply m.confidence m.importance))

  score_lem :
      (m : Memory) (detail : MatchDetail)
      → score f ranker m detail now
        ≡ aged m (
            f.add
              (f.add (share detail.vector_rank) (share detail.bm25_rank))
              (graph_share (is_unanchored f detail) detail.graph_rank))
  unfolding aged score leg_sum graph_relevance recency_multiplier age_days quality floored
  score_lem m detail =
      ap (aged m) (legs_lem detail detail.vector_rank detail.bm25_rank detail.graph_rank)

  only_lem :
      (v k : List ℕ) (id : ℕ)
      → (not (is_some (place v id)) && not (is_some (place k id)))
        ≡ (not (contains v id) && not (contains k id))
  only_lem v k id = rw (is_some-place v id, is_some-place k id) refl

  row_of : Memory → MatchDetail → F32 → ScoredMemory
  row_of m detail x = record {
    memory = m;
    score = x;
    relevance = nought;
    rerank_score = none;
    match_detail = detail;
  }

  detail_lem : (m : Memory) → detail_of vector keyword graph m.id ≡ (fused_row m).match_detail
  unfolding detail_of
  detail_lem m = rw (rank_of_lem vector m.id, rank_of_lem keyword m.id, rank_of_lem graph m.id) refl

  row_lem : (m : Memory) → scored_by f ranker vector keyword graph now m ≡ fused_row m
  unfolding scored_by row_of aged is_unanchored
  row_lem m =
      ap (λ detail. row_of m detail (score f ranker m detail now)) (detail_lem m)
      ∙ ap (row_of m (fused_row m).match_detail) (
          score_lem m (fused_row m).match_detail
          ∙ ap
              (λ only. aged m (
                f.add (f.add (share (place vector m.id)) (share (place keyword m.id)))
                  (graph_share only (place graph m.id))))
              (only_lem vector keyword m.id))

  found_lem : (m : Memory) → is_found (fused_row m) ≡ in_a_leg m
  unfolding is_found
  found_lem m =
      rw (is_some-place vector m.id, is_some-place keyword m.id, is_some-place graph m.id) refl

  rows_lem : (ms : List Memory) → found_rows ms ≡ fused_rows ms
  unfolding keep
  rows_lem [] = refl
  rows_lem (m ∷ ms) = elim (Bool-cases (in_a_leg m)) [
    | inl e ↦ rw (row_lem m, found_lem m, e, rows_lem ms) refl
    | inr e ↦ rw (row_lem m, found_lem m, e) (rows_lem ms)
  ]

  -- For candidates with different identifiers, the fused list holds exactly those that stand in some leg,
  -- each once: with its place in each leg, and with the score that its places, its age, its confidence
  -- and its importance give. What stands first does not score less, and scores that are no numbers
  -- stand last; of equal scores the newer memory stands first, then the lesser identifier. The list does not depend on the order in which the
  -- candidates came from the store.
  pub rank_with_graph_lem :
      (candidates others : List Memory)
      → OwnIds candidates
      → Shuffle candidates others
      → Shuffle
          (fused_rows candidates)
          (rank_with_graph f ranker vector keyword graph candidates now)
        × AllBestFirst (rank_with_graph f ranker vector keyword graph candidates now)
        × (rank_with_graph f ranker vector keyword graph candidates now
            ≡ rank_with_graph f ranker vector keyword graph others now)
  unfolding rank_with_graph sort_ranked
  rank_with_graph_lem candidates others own s = (
    subst (λ rows. Shuffle rows (sort_by by_score (found_rows candidates))) (rows_lem candidates)
        (sort_by-Shuffle by_score (found_rows candidates)),
    AllBestFirst-of _ (sort_by-IsOrdered by_score by_score-IsConsistent (found_rows candidates)),
    sort_by-Shuffled by_score by_score-IsConsistent (rows-Shuffle s)
        (found_rows-NoTies candidates own),
  )
