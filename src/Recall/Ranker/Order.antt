-- ===== src/Recall/Ranker/Order.antt =====
-- memories/domain/recall_ranker.rs: the order of ranked rows.
use Prim.Native.Nat.{compare}
use Prim.Native.Nat.Ordering.{lt, eq, gt}
use recuerdos_ai.Prelude.{
  ◌≡◌, ◌≢◌, List, [], ◌∷◌, All, All-of, arith, ◌<◌, ◌≤◌, ◌⊎◌, nat_eq, refl, false, true,
}
use recuerdos_ai.Memories.Memory.Confidence.{F32}
use recuerdos_ai.Recall.Sorting.{IsOrdered}
use recuerdos_ai.Recall.Comparison.{
  IsConsistent, reverse, compare-IsConsistent, then_with-IsConsistent, reverse-IsConsistent,
  on-IsConsistent,
}
use recuerdos_ai.Recall.Floats.{is_nan, at_most, total_cmp, total_cmp-IsConsistent}
use recuerdos_ai.Recall.Ranker.{
  ScoredMemory, highest_first, by_age_and_id, by_score, by_score_and_relevance,
}

pub highest_first-IsConsistent : IsConsistent highest_first
unfolding highest_first
highest_first-IsConsistent = record { flip = flip_lem; chain = chain_lem; alike = alike_lem }
  where
    c : IsConsistent total_cmp
    c = total_cmp-IsConsistent

    flip_lem : (a b : F32) → highest_first b a ≡ reverse (highest_first a b)
    flip_lem a b = ground (arith, c.flip b a)

    chain_lem :
        (x y z : F32) → highest_first x y ≡ lt → highest_first y z ≡ lt → highest_first x z ≡ lt
    chain_lem x y z h k = ground (arith, c.chain z y x)

    alike_lem : (x y z : F32) → highest_first x y ≡ eq → highest_first x z ≡ highest_first y z
    alike_lem x y z h =
        ground (arith, c.alike y x z, c.flip x z, c.flip y z, c.flip z x, c.flip z y)

by_age_and_id-IsConsistent : IsConsistent by_age_and_id
unfolding by_age_and_id
by_age_and_id-IsConsistent =
    then_with-IsConsistent _ _
      (on-IsConsistent (λ (s : ScoredMemory). s.memory.created_at) (λ x y. compare y x)
        (reverse-IsConsistent compare compare-IsConsistent))
      (on-IsConsistent (λ (s : ScoredMemory). s.memory.id) compare compare-IsConsistent)

pub by_score-IsConsistent : IsConsistent by_score
unfolding by_score
by_score-IsConsistent =
    then_with-IsConsistent _ _
      (on-IsConsistent (λ (s : ScoredMemory). s.score) highest_first highest_first-IsConsistent)
      by_age_and_id-IsConsistent

pub by_score_and_relevance-IsConsistent : IsConsistent by_score_and_relevance
unfolding by_score_and_relevance
by_score_and_relevance-IsConsistent =
    then_with-IsConsistent _ _
      (on-IsConsistent (λ (s : ScoredMemory). s.score) highest_first highest_first-IsConsistent)
      (then_with-IsConsistent _ _
        (on-IsConsistent (λ (s : ScoredMemory). s.relevance) (λ x y. highest_first y x)
          (reverse-IsConsistent highest_first highest_first-IsConsistent))
        by_age_and_id-IsConsistent)

-- What stands first does not score less, a score that is no number stands after those that are, and of
-- two equal scores the memory created later stands first, or at one instant that of the lesser id.
abbrev pub BestFirst : ScoredMemory → ScoredMemory → Type 0
BestFirst a b =
    (is_nan b.score ≡ false → at_most b.score a.score ≡ true)
    × (a.score ≡ b.score
        → (b.memory.created_at < a.memory.created_at)
          ⊎ ((a.memory.created_at ≡ b.memory.created_at) × (a.memory.id ≤ b.memory.id)))

abbrev pub AllBestFirst : List ScoredMemory → Type 0
AllBestFirst [] = Unit
AllBestFirst (x ∷ xs) = All (BestFirst x) xs × AllBestFirst xs

pub highest_lem : (a b : F32) → highest_first a b ≢ gt → is_nan b ≡ false → at_most b a ≡ true
unfolding highest_first at_most is_nan
highest_lem a b h k = ground arith

same_highest : (a : F32) → highest_first a a ≡ eq
unfolding highest_first total_cmp is_nan
same_highest a = ground arith

highest_of : (a b : ScoredMemory) → by_score a b ≢ gt → highest_first a.score b.score ≢ gt
unfolding by_score
highest_of a b h e = h (rw e refl)

tied_of : (a b : ScoredMemory) → by_score a b ≢ gt → a.score ≡ b.score → by_age_and_id a b ≢ gt
unfolding by_score
tied_of a b h e =
    let tied : highest_first a.score b.score ≡ eq = rw e (same_highest b.score) in
    λ k. h (rw (tied, k) refl)

age_lem :
    (a b : ScoredMemory)
    → by_age_and_id a b ≢ gt
    → (b.memory.created_at < a.memory.created_at)
      ⊎ ((a.memory.created_at ≡ b.memory.created_at) × (a.memory.id ≤ b.memory.id))
unfolding by_age_and_id
age_lem a b h = ground arith

best_first : (a b : ScoredMemory) → by_score a b ≢ gt → BestFirst a b
best_first a b h =
    (highest_lem a.score b.score (highest_of a b h), λ e. age_lem a b (tied_of a b h e))

pub AllBestFirst-of : (xs : List ScoredMemory) → IsOrdered by_score xs → AllBestFirst xs
AllBestFirst-of [] h = tt
AllBestFirst-of (x ∷ xs) h = (All-of _ _ xs (best_first x) h.0, AllBestFirst-of xs h.1)
