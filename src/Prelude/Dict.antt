-- ===== src/Prelude/Dict.antt =====
-- Rust's `HashMap` as an association list. The program never relies on its order.
use recuerdos_ai.Prelude.Tests.{if◌then◌else◌, Eq, Bool-cases}
use recuerdos_ai.Prelude.Lists.{length}
use Prim.Native.Nat.{◌≤◌}
use mathlib.Core.Path.{◌≡◌}
use mathlib.Core.Logic.{inl, inr}
use mathlib.Core.Bool.{Bool, true}
use mathlib.Core.Option.{Option, none, some}
use mathlib.Core.List.{List, [], ◌∷◌}
use native.Mathlib.Omega.{arith}

module _ {ℓ κ} {K : Type ℓ} {V : Type κ} ⦃e : Eq K⦄ where
  -- `get`
  unfoldable pub get : K → List (K × V) → Option V
  get k [] = none
  get k ((j, v) ∷ m) = if e.beq j k then some v else get k m

  -- `remove`, without its result
  unfoldable pub remove : K → List (K × V) → List (K × V)
  remove k [] = []
  remove k ((j, v) ∷ m) = let rest = remove k m in if e.beq j k then rest else (j, v) ∷ rest

  -- `insert`, without its result
  unfoldable pub insert : K → V → List (K × V) → List (K × V)
  unfolding remove
  insert k v m = (k, v) ∷ remove k m

  -- `retain`, by a test on the value
  unfoldable pub retain : (V → Bool) → List (K × V) → List (K × V)
  retain p [] = []
  retain p ((j, v) ∷ m) = let rest = retain p m in if p v then (j, v) ∷ rest else rest

  pub length-remove_le : (k : K) (m : List (K × V)) → length (remove k m) ≤ length m
  unfolding remove
  length-remove_le k [] = omega arith
  length-remove_le k ((j, v) ∷ m) = elim (Bool-cases (e.beq j k)) [
    | inl p ↦ rw p (omega (arith, length-remove_le k m))
    | inr p ↦ rw p (omega (arith, length-remove_le k m))
  ]

  pub get-remove :
      (k j : K) (m : List (K × V)) → get j (remove k m) ≡ (if e.beq k j then none else get j m)
  unfolding get remove
  get-remove k j [] = ground arith
  get-remove k j ((i, v) ∷ m) =
      ground (arith, get-remove k j m, e.beq_iff i k, e.beq_iff i j, e.beq_iff k j)

  pub get-insert :
      (k j : K) (v : V) (m : List (K × V))
      → get j (insert k v m) ≡ (if e.beq k j then some v else get j m)
  unfolding get insert
  get-insert k j v m = ground (arith, get-remove k j m)

  -- What is left after `retain` stood there before, if no key stands twice.
  abbrev pub AllValues : (K → V → Type 0) → List (K × V) → Type 0
  AllValues P [] = Unit
  AllValues P ((k, v) ∷ m) = P k v × AllValues P m

  pub AllValues-remove :
      (P : K → V → Type 0) (k : K) (m : List (K × V)) → AllValues P m → AllValues P (remove k m)
  unfolding remove
  AllValues-remove P k [] h = tt
  AllValues-remove P k ((j, v) ∷ m) h = elim (Bool-cases (e.beq j k)) [
    | inl p ↦ rw p (AllValues-remove P k m h.1)
    | inr p ↦ rw p (h.0, AllValues-remove P k m h.1)
  ]

  pub AllValues-retain :
      (P : K → V → Type 0) (p : V → Bool) (m : List (K × V))
      → AllValues P m
      → AllValues P (retain p m)
  unfolding retain
  AllValues-retain P p [] h = tt
  AllValues-retain P p ((j, v) ∷ m) h = elim (Bool-cases (p v)) [
    | inl q ↦ rw q (h.0, AllValues-retain P p m h.1)
    | inr q ↦ rw q (AllValues-retain P p m h.1)
  ]

  pub AllValues-get :
      (P : K → V → Type 0) (k : K) (v : V) (m : List (K × V))
      → AllValues P m
      → get k m ≡ some v
      → P k v
  unfolding get
  AllValues-get P k v [] h g = cc
  AllValues-get P k v ((j, w) ∷ m) h g = elim (Bool-cases (e.beq j k)) [
    | inl p ↦ found P k v j w m h.0 p g
    | inr p ↦ AllValues-get P k v m h.1 (rw p at g)
  ]
    where
      found :
          (P : K → V → Type 0) (k : K) (v : V) (j : K) (w : V) (m : List (K × V))
          → P j w
          → e.beq j k ≡ true
          → (if e.beq j k then some w else get k m) ≡ some v
          → P k v
      found P k v j w m h p g = rw (← (e.beq_iff j k).0 p, ← same w v (rw p at g)) h
        where
          same : (w v : V) → some w ≡ some v → w ≡ v
          same w v h = cc
