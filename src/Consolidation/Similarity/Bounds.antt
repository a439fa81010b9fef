-- ===== src/Consolidation/Similarity/Bounds.antt =====
-- The range and the symmetry of the similarity of two embeddings.
use recuerdos_ai.Prelude.{
  ℕ, ◌-◌, ◌≡◌, refl, true, not, ◌||◌, List, [], ◌∷◌, ◌==◌, arith, if-cases, length, is_empty,
}
use recuerdos_ai.Memories.Memory.Confidence.{F32, nan, neg_inf, pos_inf, neg, num, one}
use recuerdos_ai.Recall.Floats.{Arithmetic, total_cmp, is_nan, at_most, less, clamp, unit, nought}
use recuerdos_ai.Consolidation.Similarity.{
  Sums, minus_one, is_finite, is_nought, sums_from, similarity, of_sums, cosine,
}

-- From one number to another.
abbrev pub Within : F32 → F32 → F32 → Type 0
Within low high x = (at_most low x ≡ true) × (at_most x high ≡ true)

clamp-Within :
    (k o : ℕ) (x : F32) → is_finite x ≡ true → Within (neg k) (num o) (clamp (neg k) (num o) x)
unfolding clamp less at_most total_cmp is_nan is_finite
clamp-Within k o (neg n) e = ground arith
clamp-Within k o (num n) e = ground arith
clamp-Within k o nan e = cc
clamp-Within k o neg_inf e = cc
clamp-Within k o pos_inf e = cc

nought-Within : (k o : ℕ) → Within (neg k) (num o) nought
unfolding at_most total_cmp is_nan
nought-Within k o = ground arith

similarity-Within : (x : F32) → Within minus_one unit (similarity x)
unfolding similarity
similarity-Within x =
    if-cases (Within minus_one unit) (is_finite x) (λ e. clamp-Within (one - 1) one x e)
      (λ _. nought-Within (one - 1) one)

module _ (f : Arithmetic) (sqrt : F32 → F32) where
  of_sums-Within : (s : Sums) → Within minus_one unit (of_sums f sqrt s)
  unfolding of_sums
  of_sums-Within s =
      let magnitude = f.multiply (sqrt s.norm_a) (sqrt s.norm_b) in
      if-cases (Within minus_one unit) (is_nought magnitude || not (is_finite magnitude))
        (λ _. nought-Within (one - 1) one) (λ _. similarity-Within (f.divide s.dot magnitude))

  cosine-Within : (a b : List F32) → Within minus_one unit (cosine f sqrt a b)
  unfolding cosine
  cosine-Within a b =
      if-cases (Within minus_one unit) (not (length a == length b) || is_empty a)
        (λ _. nought-Within (one - 1) one) (λ _. of_sums-Within _)

  abbrev swap : Sums → Sums
  swap s = record { dot = s.dot; norm_a = s.norm_b; norm_b = s.norm_a }

  module _ (multiply_comm : (x y : F32) → f.multiply x y ≡ f.multiply y x) where
    sums_from-swap :
        (s : Sums) (a b : List F32) → sums_from f sqrt (swap s) b a ≡ swap (sums_from f sqrt s a b)
    unfolding sums_from
    sums_from-swap s [] [] = refl
    sums_from-swap s [] (y ∷ b) = refl
    sums_from-swap s (x ∷ a) [] = refl
    sums_from-swap s (x ∷ a) (y ∷ b) = rw (multiply_comm y x) (
        sums_from-swap
          (record {
            dot = f.add s.dot (f.multiply x y);
            norm_a = f.add s.norm_a (f.multiply x x);
            norm_b = f.add s.norm_b (f.multiply y y);
          })
          a b)

    of_sums-swap : (s : Sums) → of_sums f sqrt (swap s) ≡ of_sums f sqrt s
    unfolding of_sums
    of_sums-swap s = rw (multiply_comm (sqrt s.norm_b) (sqrt s.norm_a)) refl

    same_guard :
        (a b : List F32)
        → (not (length b == length a) || is_empty b) ≡ (not (length a == length b) || is_empty a)
    same_guard [] [] = refl
    same_guard [] (y ∷ b) = ground arith
    same_guard (x ∷ a) [] = ground arith
    same_guard (x ∷ a) (y ∷ b) = ground arith

    cosine_comm : (a b : List F32) → cosine f sqrt b a ≡ cosine f sqrt a b
    unfolding cosine
    cosine_comm a b =
        rw
          (
            same_guard a b,
            sums_from-swap (record { dot = nought; norm_a = nought; norm_b = nought }) a b,
            of_sums-swap _,
          )
          refl

-- Whatever the processor's sums, roots and quotients are, the similarity of two embeddings is a number
-- from -1 to 1. Where its product does not depend on the order of the factors, neither does the
-- similarity depend on the order of the embeddings: which of two memories comes first does not matter.
pub cosine_lem :
    (f : Arithmetic) (sqrt : F32 → F32)
    → ((x y : F32) → f.multiply x y ≡ f.multiply y x)
    → (a b : List F32)
    → Within minus_one unit (cosine f sqrt a b) × (cosine f sqrt b a ≡ cosine f sqrt a b)
cosine_lem f sqrt multiply_comm a b =
    (cosine-Within f sqrt a b, cosine_comm f sqrt multiply_comm a b)
