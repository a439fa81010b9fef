-- ===== src/Recall/Recaller/Stages.antt =====
-- memories/application/memory_recaller.rs: what each stage keeps of its rows.
use recuerdos_ai.Prelude.{
  ℕ, ◌≡◌, refl, Bool, true, false, Option, none, some, is_some, List, [], ◌∷◌, map, keep, take, All,
  All-keep, All-map, if◌then◌else◌, Bool-cases, inl, inr, length, min, ltb,
}
use recuerdos_ai.Identity.UserContext.{UserContext}
use recuerdos_ai.Memories.Memory.{Memory}
use recuerdos_ai.Memories.Memory.Confidence.{F32}
use recuerdos_ai.Recall.Sorting.{All-Shuffle, sort_by-Shuffle}
use recuerdos_ai.Recall.Floats.{Arithmetic, less, at_most, nought}
use recuerdos_ai.Recall.Query.{RecallQuery, candidate_depth}
use recuerdos_ai.Recall.Ranker.{
  ScoredMemory, RecallRanker, rank, rank_with_graph, apply_relevance, scored_by, sort_ranked,
  by_score, is_found,
}
use recuerdos_ai.Recall.Ranker.Relevance.{reweighed, apply_relevance_lem, apply_relevance_off}
use recuerdos_ai.Recall.Ranker.Rerank.{Leg, apply_rerank}
use recuerdos_ai.Recall.Ranker.Rerank.Kept.{unjudged, apply_rerank_lem}
use recuerdos_ai.Recall.RerankLeg.{
  Stage, RerankMode, off, shadow, on, Reranker, LegResult, leg, failure, use_leg, judge,
  judge_unless_off, rerank_leg, rerank_scores, judge_head,
}
use recuerdos_ai.Recall.Recaller.{
  Settings, RecallPorts, Legs, fused, first_stage, with_relevance, above_floor, ranked_ids,
}

All-unmap {ℓ κ μ} :
    {A : Type ℓ} {B : Type κ} (P : B → Type μ) (g : A → B) (xs : List A)
    → All P (map g xs)
    → All (λ x. P (g x)) xs
All-unmap P g [] h = tt
All-unmap P g (x ∷ xs) h = (h.0, All-unmap P g xs h.1)

-- What a row says of its memory and its relevance alone.
module _ (P : Memory → F32 → Type 0) where
  abbrev pub Of : ScoredMemory → Type 0
  Of s = P s.memory s.relevance

  module _ (f : Arithmetic) (ranker : RecallRanker) where
    pub apply_relevance-All :
        (ranked : List ScoredMemory) → All Of ranked → All Of (apply_relevance f ranker ranked)
    apply_relevance-All ranked h = elim (Bool-cases (less nought ranker.relevance_weight)) [
      | inl e ↦
          All-Shuffle Of (apply_relevance_lem f ranker ranked e).0
            (All-map Of (reweighed f ranker.relevance_weight) ranked h)
      | inr e ↦ rw (apply_relevance_off f ranker ranked e) h
    ]

    apply_rerank-All :
        (l : Leg) (now : ℕ) (ranked : List ScoredMemory)
        → All Of ranked
        → All Of (apply_rerank f ranker l now ranked)
    apply_rerank-All l now ranked h =
        All-unmap Of unjudged (apply_rerank f ranker l now ranked)
          (All-Shuffle Of (apply_rerank_lem f ranker l now ranked).1 (All-map Of unjudged ranked h))

    use_leg-All :
        (mode : RerankMode) (reranker : Reranker) (depth now : ℕ) (ranked : List ScoredMemory)
        (l : LegResult)
        → All Of ranked
        → All Of (use_leg f ranker mode reranker depth now ranked l).0
    unfolding use_leg
    use_leg-All mode reranker depth now ranked (failure e) h = h
    use_leg-All shadow reranker depth now ranked (leg l) h = h
    use_leg-All off reranker depth now ranked (leg l) h = apply_rerank-All l.scores now ranked h
    use_leg-All on reranker depth now ranked (leg l) h = apply_rerank-All l.scores now ranked h

    judge_head-All :
        (stage : Stage) (reranker : Reranker) (query : RecallQuery) (now : ℕ)
        (ranked : List ScoredMemory) (depth : ℕ)
        → All Of ranked
        → All Of (judge_head f ranker stage reranker query now ranked depth).0
    unfolding judge_head
    judge_head-All stage reranker query now ranked depth h = elim (Bool-cases (ltb depth 2)) [
      | inl e ↦ rw e h
      | inr e ↦ rw e (
          use_leg-All stage.rerank_mode reranker depth now ranked
            (rerank_scores stage.rerank_timeout reranker query.text (take depth ranked)) h)
    ]

    judge-All :
        (stage : Stage) (reranker : Reranker) (query : RecallQuery) (now : ℕ)
        (ranked : List ScoredMemory)
        → All Of ranked
        → All Of (judge f ranker stage reranker query now ranked).0
    unfolding judge
    judge-All stage reranker query now ranked h = elim (Bool-cases (ltb (length ranked) 2)) [
      | inl e ↦ rw e h
      | inr e ↦ rw e (
          judge_head-All stage reranker query now ranked
            (min (min stage.rerank_depth (length ranked)) (candidate_depth query)) h)
    ]

    pub rerank_leg-All :
        (o : Option Reranker) (stage : Stage) (query : RecallQuery) (now : ℕ)
        (ranked : List ScoredMemory)
        → All Of ranked
        → All Of (rerank_leg f ranker o stage query now ranked).0
    unfolding rerank_leg judge_unless_off
    rerank_leg-All none stage query now ranked h = h
    rerank_leg-All (some reranker) stage query now ranked h = by_mode stage.rerank_mode
      where
        by_mode :
            (mode : RerankMode)
            → All Of (judge_unless_off f ranker mode stage reranker query now ranked).0
        by_mode off = h
        by_mode shadow = judge-All stage reranker query now ranked h
        by_mode on = judge-All stage reranker query now ranked h

  module _ {E : Type 0} (settings : Settings) (ports : RecallPorts E) (context : UserContext)
      (query : RecallQuery) (now : ℕ) where
    -- What holds of a memory whatever its relevance holds of the fused rows.
    abbrev Whatever : Memory → Type 0
    Whatever m = (x : F32) → P m x

    rank-All :
        (vector keyword graph : List ℕ) (candidates : List Memory)
        → All Whatever candidates
        → All
            (λ (s : ScoredMemory). Whatever s.memory)
            (rank_with_graph settings.arithmetic settings.ranker vector keyword graph candidates
              now)
    unfolding rank_with_graph sort_ranked scored_by
    rank-All vector keyword graph candidates h = All-Shuffle _ (sort_by-Shuffle by_score _) (
        All-keep _ is_found _ (
          All-map (λ (s : ScoredMemory). Whatever s.memory)
            (scored_by settings.arithmetic settings.ranker vector keyword graph now) candidates h))

    fused-All :
        (legs : Legs) (candidates : List Memory)
        → All Whatever candidates
        → All
            (λ (s : ScoredMemory). Whatever s.memory)
            (fused settings ports context query now legs candidates)
    unfolding fused rank
    fused-All legs candidates h = elim (Bool-cases (is_some ports.graph)) [
      | inl e ↦ rw e (rank-All _ _ _ candidates h)
      | inr e ↦ rw e (rank-All (ranked_ids legs.vector) (ranked_ids legs.keyword) [] candidates h)
    ]

    -- The floor adds what the test of the relevance says.
    abbrev pub AtFloor : ScoredMemory → Type 0
    AtFloor s =
        less nought query.min_relevance ≡ true → at_most query.min_relevance s.relevance ≡ true

    kept-AtFloor :
        (ranked : List ScoredMemory)
        → All Of ranked
        → All (λ s. Of s × AtFloor s) (keep (λ s. at_most query.min_relevance s.relevance) ranked)
    unfolding keep
    kept-AtFloor [] h = tt
    kept-AtFloor (s ∷ ranked) h = elim (Bool-cases (at_most query.min_relevance s.relevance)) [
      | inl e ↦ rw e ((h.0, λ _. e), kept-AtFloor ranked h.1)
      | inr e ↦ rw e (kept-AtFloor ranked h.1)
    ]

    no_floor :
        (ranked : List ScoredMemory)
        → less nought query.min_relevance ≡ false
        → All Of ranked
        → All (λ s. Of s × AtFloor s) ranked
    no_floor [] e h = tt
    no_floor (s ∷ ranked) e h = ((h.0, λ k. cc), no_floor ranked e h.1)

    above_floor-All :
        (ranked : List ScoredMemory)
        → All Of ranked
        → All (λ s. Of s × AtFloor s) (above_floor query.min_relevance ranked)
    unfolding above_floor
    above_floor-All ranked h = either_way (less nought query.min_relevance) refl
      where
        either_way :
            (b : Bool)
            → less nought query.min_relevance ≡ b
            → All
                (λ s. Of s × AtFloor s)
                (if b then keep (λ s. at_most query.min_relevance s.relevance) ranked else ranked)
        either_way true e = kept-AtFloor ranked h
        either_way false e = no_floor ranked e h

    measured-All :
        (legs : Legs) (ranked : List ScoredMemory)
        → All (λ (s : ScoredMemory). Whatever s.memory) ranked
        → All Of (map (with_relevance settings ports context query now legs) ranked)
    unfolding with_relevance
    measured-All legs [] h = tt
    measured-All legs (s ∷ ranked) h = (h.0 _, measured-All legs ranked h.1)

    pub first_stage-All :
        (legs : Legs) (candidates : List Memory)
        → All Whatever candidates
        → All (λ s. Of s × AtFloor s) (first_stage settings ports context query now legs candidates)
    unfolding first_stage
    first_stage-All legs candidates h = above_floor-All _ (
        apply_relevance-All settings.arithmetic settings.ranker _
          (measured-All legs _ (fused-All legs candidates h)))
