-- ===== src/Recall/Ranker/Rerank/Kept.antt =====
-- memories/domain/recall_ranker.rs: the second stage orders rows, and neither drops nor adds one.
use Prim.Native.Nat.{Ordering}
use mathlib.Core.List.{map-append}
use recuerdos_ai.Prelude.{
  ℕ, suc, ◌≡◌, refl, sym, ap, ◌∙◌, subst, Option, none, some, List, [], ◌∷◌, ◌++◌, map, ◌==◌, inl,
  inr, Bool-cases,
}
use recuerdos_ai.Memories.Memory.Confidence.{F32}
use recuerdos_ai.Recall.Sorting.{
  Shuffle, none_left, keep_first, and_then, sort_by, sort_by-Shuffle, Shuffle-refl, map-Shuffle,
  Shuffle-middle, Shuffle-append,
}
use recuerdos_ai.Recall.Floats.{Arithmetic, less, nought, partial_or_equal}
use recuerdos_ai.Recall.Ranker.{
  ScoredMemory, RecallRanker, RerankStrategy, rrf, replace, leg_sum, sort_ranked, by_score,
}
use recuerdos_ai.Recall.Ranker.Rerank.{
  Leg, update_first, judgement_of, judged, keep_judged, keep_unseen, fuse_one, fuse, replaced,
  head_of, tail_of, apply_strategy, apply_rerank,
}

-- A row without what the second stage writes: its score, and the stage's place and number.
abbrev pub unjudged : ScoredMemory → ScoredMemory
unjudged s = record s {
  score = nought;
  rerank_score = none;
  match_detail = record {
    vector_rank = s.match_detail.vector_rank;
    bm25_rank = s.match_detail.bm25_rank;
    graph_rank = s.match_detail.graph_rank;
    rerank_rank = none;
  };
}

module _ (f : Arithmetic) (ranker : RecallRanker) where
  fuse_one-unjudged :
      (weight raw : F32) (place : ℕ) (s : ScoredMemory)
      → unjudged (fuse_one f ranker weight place raw s) ≡ unjudged s
  unfolding fuse_one judged
  fuse_one-unjudged weight raw place s =
      elim (Bool-cases (less nought (leg_sum f ranker s.match_detail))) [
        | inl e ↦ rw e refl
        | inr e ↦ rw e refl
      ]

  update_first-unjudged :
      (id : ℕ) (g : ScoredMemory → ScoredMemory) (ranked : List ScoredMemory)
      → ((s : ScoredMemory) → unjudged (g s) ≡ unjudged s)
      → map unjudged (update_first id g ranked) ≡ map unjudged ranked
  unfolding update_first
  update_first-unjudged id g [] h = refl
  update_first-unjudged id g (s ∷ rest) h = elim (Bool-cases (s.memory.id == id)) [
    | inl e ↦ rw e (ap (λ x. x ∷ map unjudged rest) (h s))
    | inr e ↦ rw e (ap (◌∷◌ (unjudged s)) (update_first-unjudged id g rest h))
  ]

  fuse-unjudged :
      (weight : F32) (index : ℕ) (leg : Leg) (ranked : List ScoredMemory)
      → map unjudged (fuse f ranker weight index leg ranked) ≡ map unjudged ranked
  unfolding fuse
  fuse-unjudged weight index [] ranked = refl
  fuse-unjudged weight index ((id, raw) ∷ rest) ranked =
      fuse-unjudged weight (suc index) rest _
      ∙ update_first-unjudged id _ ranked (fuse_one-unjudged weight raw (suc index))

  part_lem :
      (now : ℕ) (s : ScoredMemory) (o : Option (ℕ × F32)) (head tail rest : List ScoredMemory)
      → Shuffle (map unjudged rest) (map unjudged head ++ map unjudged tail)
      → Shuffle
          (unjudged s ∷ map unjudged rest)
          (map unjudged (keep_judged f ranker now s o head) ++ map unjudged (keep_unseen s o tail))
  unfolding keep_judged keep_unseen replaced judged
  part_lem now s none head tail rest h =
      and_then (keep_first (unjudged s) h) (Shuffle-middle (unjudged s) (map unjudged head) _)
  part_lem now s (some j) head tail rest h = keep_first (unjudged s) h

  -- A row goes to the judged ones or to the others.
  parts_lem :
      (now : ℕ) (leg : Leg) (ranked : List ScoredMemory)
      → Shuffle
          (map unjudged ranked)
          (map unjudged (head_of f ranker now leg ranked) ++ map unjudged (tail_of leg ranked))
  unfolding head_of tail_of
  parts_lem now leg [] = none_left
  parts_lem now leg (s ∷ rest) =
      part_lem now s (judgement_of 0 s.memory.id leg) _ _ _ (parts_lem now leg rest)

  strategy_lem :
      (strategy : RerankStrategy) (leg : Leg) (now : ℕ) (ranked : List ScoredMemory)
      → Shuffle
          (map unjudged ranked)
          (map unjudged (apply_strategy f ranker strategy leg now ranked))
  unfolding apply_strategy sort_ranked
  strategy_lem (rrf weight) leg now ranked =
      subst (λ rows. Shuffle rows (map unjudged (sort_by by_score fused)))
        (fuse-unjudged weight 0 leg ranked) (map-Shuffle unjudged (sort_by-Shuffle by_score fused))
    where
      fused : List ScoredMemory
      fused = fuse f ranker weight 0 leg ranked
  strategy_lem replace leg now ranked = and_then (parts_lem now leg ranked) (
      subst (Shuffle (map unjudged head ++ map unjudged tail))
        (sym (map-append unjudged (sort_by best head) tail))
        (Shuffle-append _ (map-Shuffle unjudged (sort_by-Shuffle best head))))
    where
      best : ScoredMemory → ScoredMemory → Ordering
      best a b = partial_or_equal b.score a.score

      head : List ScoredMemory
      head = head_of f ranker now leg ranked

      tail : List ScoredMemory
      tail = tail_of leg ranked

  -- Without a judgement, apply_rerank leaves the list as it is; otherwise, by either strategy, it
  -- re-orders the same rows: none is lost, added or doubled, and each keeps its memory, its
  -- relevance and its places in the three legs.
  pub apply_rerank_lem :
      (leg : Leg) (now : ℕ) (ranked : List ScoredMemory)
      → (apply_rerank f ranker [] now ranked ≡ ranked)
        × Shuffle (map unjudged ranked) (map unjudged (apply_rerank f ranker leg now ranked))
  unfolding apply_rerank
  apply_rerank_lem [] now ranked = (refl, Shuffle-refl _)
  apply_rerank_lem (first ∷ rest) now ranked =
      (refl, strategy_lem ranker.rerank_strategy (first ∷ rest) now ranked)
