-- ===== src/Recall/Ranker/Rerank.antt =====
-- memories/domain/recall_ranker.rs: `apply_rerank`, by which a second stage re-orders the list.
pub mod Kept
use recuerdos_ai.Prelude.{
  ℕ, suc, ◌+◌, Bool, true, false, Option, none, some, List, [], ◌∷◌, ◌++◌, keep, not, ◌==◌,
  if◌then◌else◌, is_some,
}
use recuerdos_ai.Memories.Memory.{Memory}
use recuerdos_ai.Memories.Memory.Confidence.{F32}
use recuerdos_ai.Recall.Sorting.{sort_by}
use recuerdos_ai.Recall.Floats.{Arithmetic, less, partial_or_equal, nought}
use recuerdos_ai.Recall.Ranker.{
  ScoredMemory, MatchDetail, RecallRanker, RerankStrategy, rrf, replace, reciprocal_rank, leg_sum,
  quality, recency_multiplier, sort_ranked, rank_with_graph,
}

-- A leg of the second stage, best first.
abbrev pub Leg : Type 0
Leg = List (ℕ × F32)

-- `iter_mut().find(..)`
unfoldable pub update_first :
    ℕ → (ScoredMemory → ScoredMemory) → List ScoredMemory → List ScoredMemory
update_first id g [] = []
update_first id g (s ∷ rest) =
    let later = update_first id g rest in if s.memory.id == id then g s ∷ rest else s ∷ later

-- The place and the number that the second stage gave, from place `index + 1`.
unfoldable pub judgement_of : ℕ → ℕ → Leg → Option (ℕ × F32)
judgement_of index id [] = none
judgement_of index id ((other, raw) ∷ rest) =
    let later = judgement_of (suc index) id rest in
    if other == id then some (suc index, raw) else later

unfoldable pub judged : ℕ → F32 → ScoredMemory → ScoredMemory
judged place raw s = record s {
  rerank_score = some raw;
  match_detail = record {
    vector_rank = s.match_detail.vector_rank;
    bm25_rank = s.match_detail.bm25_rank;
    graph_rank = s.match_detail.graph_rank;
    rerank_rank = some place;
  };
}

-- The rows that the second stage did not see.
unfoldable pub keep_unseen : ScoredMemory → Option (ℕ × F32) → List ScoredMemory → List ScoredMemory
keep_unseen s none later = s ∷ later
keep_unseen s (some j) later = later

unfoldable pub tail_of : Leg → List ScoredMemory → List ScoredMemory
unfolding judgement_of keep_unseen
tail_of leg [] = []
tail_of leg (s ∷ rest) = keep_unseen s (judgement_of 0 s.memory.id leg) (tail_of leg rest)

module _ (f : Arithmetic) (ranker : RecallRanker) where
  -- The new term joins the sum inside the band that the score shows.
  unfoldable pub fuse_one : F32 → ℕ → F32 → ScoredMemory → ScoredMemory
  unfolding leg_sum less judged reciprocal_rank
  fuse_one weight place raw s =
      let base = leg_sum f ranker s.match_detail in
      let term = f.multiply weight (reciprocal_rank f (some place)) in
      if less nought base
      then record (judged place raw s) {
        score = f.multiply (f.add base term) (f.divide s.score base);
      }
      else judged place raw s

  unfoldable pub fuse : F32 → ℕ → Leg → List ScoredMemory → List ScoredMemory
  unfolding update_first fuse_one
  fuse weight index [] ranked = ranked
  fuse weight index ((id, raw) ∷ rest) ranked =
      fuse weight (suc index) rest (update_first id (fuse_one weight (suc index) raw) ranked)

  unfoldable pub replaced : ℕ → ℕ × F32 → ScoredMemory → ScoredMemory
  unfolding judged recency_multiplier quality
  replaced now (place, raw) s = record (judged place raw s) {
    score =
        f.multiply (f.multiply raw (recency_multiplier f ranker s.memory.created_at now))
          (quality f s.memory);
  }

  -- The rows that the second stage judged.
  unfoldable pub keep_judged :
      ℕ → ScoredMemory → Option (ℕ × F32) → List ScoredMemory → List ScoredMemory
  unfolding replaced
  keep_judged now s none later = later
  keep_judged now s (some j) later = replaced now j s ∷ later

  unfoldable pub head_of : ℕ → Leg → List ScoredMemory → List ScoredMemory
  unfolding judgement_of keep_judged
  head_of now leg [] = []
  head_of now leg (s ∷ rest) =
      keep_judged now s (judgement_of 0 s.memory.id leg) (head_of now leg rest)

  unfoldable pub apply_strategy : RerankStrategy → Leg → ℕ → List ScoredMemory → List ScoredMemory
  unfolding fuse sort_ranked head_of tail_of partial_or_equal
  apply_strategy (rrf weight) leg now ranked = sort_ranked (fuse weight 0 leg ranked)
  apply_strategy replace leg now ranked =
      sort_by (λ a b. partial_or_equal b.score a.score) (head_of now leg ranked)
      ++ tail_of leg ranked

  unfoldable pub apply_rerank : Leg → ℕ → List ScoredMemory → List ScoredMemory
  unfolding apply_strategy
  apply_rerank [] now ranked = ranked
  apply_rerank (first ∷ rest) now ranked =
      apply_strategy ranker.rerank_strategy (first ∷ rest) now ranked

  -- Both steps at once.
  unfoldable pub rank_with_legs :
      List ℕ → List ℕ → List ℕ → Leg → List Memory → ℕ → List ScoredMemory
  unfolding apply_rerank rank_with_graph
  rank_with_legs vector keyword graph leg candidates now =
      apply_rerank leg now (rank_with_graph f ranker vector keyword graph candidates now)
