-- ===== src/Recall/Ranker/Relevance.antt =====
-- memories/domain/recall_ranker.rs: the weight on relevance.
use Prim.Native.Nat.Ordering.{gt}
use recuerdos_ai.Memories.Memory.Confidence.{F32, clamp_unit}
use recuerdos_ai.Prelude.{
  refl, ap, subst, false, ◌≡◌, ◌≢◌, true, false, ◌||◌, List, [], ◌∷◌, map, All, arith, All-of,
}
use recuerdos_ai.Recall.Sorting.{Shuffle, sort_by-Shuffle, sort_by-IsOrdered, IsOrdered}
use recuerdos_ai.Recall.Floats.{Arithmetic, is_nan, at_most, less, nought, unit}
use recuerdos_ai.Recall.Ranker.{
  ScoredMemory, RecallRanker, highest_first, by_score_and_relevance, apply_relevance, weighed,
  affinity, sort_ranked_with_relevance,
}
use recuerdos_ai.Recall.Ranker.Order.{highest_lem, by_score_and_relevance-IsConsistent}

-- What stands first does not score less, and a score that is no number stands after those that are.
abbrev pub ScoresFirst : ScoredMemory → ScoredMemory → Type 0
ScoresFirst a b = is_nan b.score ≡ false → at_most b.score a.score ≡ true

abbrev pub AllScoresFirst : List ScoredMemory → Type 0
AllScoresFirst [] = Unit
AllScoresFirst (x ∷ xs) = All (ScoresFirst x) xs × AllScoresFirst xs

-- The score of a row, times 1 less the weight's share of what its relevance lacks to 1.
abbrev pub reweighed : Arithmetic → F32 → ScoredMemory → ScoredMemory
reweighed f weight s = record s {
  score =
      f.multiply s.score
        (f.subtract unit (f.multiply weight (f.subtract unit (clamp_unit s.relevance))));
}

highest_of :
    (a b : ScoredMemory) → by_score_and_relevance a b ≢ gt → highest_first a.score b.score ≢ gt
unfolding by_score_and_relevance
highest_of a b h e = h (rw e refl)

scores_first : (a b : ScoredMemory) → by_score_and_relevance a b ≢ gt → ScoresFirst a b
scores_first a b h = highest_lem a.score b.score (highest_of a b h)

AllScoresFirst-of :
    (xs : List ScoredMemory) → IsOrdered by_score_and_relevance xs → AllScoresFirst xs
AllScoresFirst-of [] h = tt
AllScoresFirst-of (x ∷ xs) h = (All-of _ _ xs (scores_first x) h.0, AllScoresFirst-of xs h.1)

reweighed_lem :
    (f : Arithmetic) (ranker : RecallRanker) (xs : List ScoredMemory)
    → map (weighed f ranker) xs ≡ map (reweighed f ranker.relevance_weight) xs
unfolding weighed affinity
reweighed_lem f ranker [] = refl
reweighed_lem f ranker (x ∷ xs) =
    ap (λ rows. reweighed f ranker.relevance_weight x ∷ rows) (reweighed_lem f ranker xs)

-- A weight that is zero, negative or no number turns the stage off.
pub apply_relevance_off :
    (f : Arithmetic) (ranker : RecallRanker) (ranked : List ScoredMemory)
    → less nought ranker.relevance_weight ≡ false
    → apply_relevance f ranker ranked ≡ ranked
unfolding apply_relevance less
apply_relevance_off f ranker ranked h = ground arith

-- The rows in order, each once.
weighed_lem :
    (f : Arithmetic) (ranker : RecallRanker) (ranked : List ScoredMemory)
    → less nought ranker.relevance_weight ≡ true
    → Shuffle (map (weighed f ranker) ranked) (apply_relevance f ranker ranked)
      × IsOrdered by_score_and_relevance (apply_relevance f ranker ranked)
unfolding apply_relevance sort_ranked_with_relevance less
weighed_lem f ranker ranked h = rw off (
  sort_by-Shuffle by_score_and_relevance rows,
  sort_by-IsOrdered by_score_and_relevance by_score_and_relevance-IsConsistent rows,
)
  where
    off : (at_most ranker.relevance_weight nought || is_nan ranker.relevance_weight) ≡ false
    off = ground arith

    rows : List ScoredMemory
    rows = map (weighed f ranker) ranked

-- With a positive weight, the result of apply_relevance holds each row once, with nothing changed but its
-- score, which is multiplied by 1 less the weight's share of what its relevance, kept between 0 and 1,
-- lacks to 1. What stands first does not score less, and scores that are no numbers stand last.
pub apply_relevance_lem :
    (f : Arithmetic) (ranker : RecallRanker) (ranked : List ScoredMemory)
    → less nought ranker.relevance_weight ≡ true
    → Shuffle (map (reweighed f ranker.relevance_weight) ranked) (apply_relevance f ranker ranked)
      × AllScoresFirst (apply_relevance f ranker ranked)
apply_relevance_lem f ranker ranked h =
    let (rows, ordered) = weighed_lem f ranker ranked h in
    (
      subst (λ x. Shuffle x (apply_relevance f ranker ranked)) (reweighed_lem f ranker ranked) rows,
      AllScoresFirst-of _ ordered,
    )
