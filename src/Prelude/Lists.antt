-- ===== src/Prelude/Lists.antt =====
-- Lists measured by native numbers, predicates over lists, and updates of the rows of a table.
use Prim.Native.Nat.{ℕ, zero, suc, ◌+◌, ◌≤◌, ◌<◌}
use mathlib.Core.Path.{◌≡◌, refl, ap}
use mathlib.Core.Logic.{◌⊎◌, inl, inr}
use mathlib.Core.Bool.{Bool, true, false, ◌||◌}
use mathlib.Core.List.{List, [], ◌∷◌, ◌++◌, map}
use native.Mathlib.Omega.{arith}
use recuerdos_ai.Prelude.Tests.{if◌then◌else◌, Eq, Bool-cases}

module _ {ℓ} {A : Type ℓ} where
  abbrev pub length : List A → ℕ
  length [] = 0
  length (x ∷ xs) = suc (length xs)

  abbrev pub take : ℕ → List A → List A
  take zero xs = []
  take (suc n) [] = []
  take (suc n) (x ∷ xs) = x ∷ take n xs

  abbrev pub drop : ℕ → List A → List A
  drop zero xs = xs
  drop (suc n) [] = []
  drop (suc n) (x ∷ xs) = drop n xs

  abbrev pub is_empty : List A → Bool
  is_empty [] = true
  is_empty (x ∷ xs) = false

  pub length-append : (xs ys : List A) → length (xs ++ ys) ≡ length xs + length ys
  length-append [] ys = omega arith
  length-append (x ∷ xs) ys = omega (arith, length-append xs ys)

  pub length-take_le : (n : ℕ) (xs : List A) → length (take n xs) ≤ n
  length-take_le zero xs = omega arith
  length-take_le (suc n) [] = omega arith
  length-take_le (suc n) (x ∷ xs) = omega (arith, length-take_le n xs)

  -- The rows that pass a test, and how many they are.
  unfoldable pub keep : (A → Bool) → List A → List A
  keep p [] = []
  keep p (x ∷ xs) = let rest = keep p xs in if p x then x ∷ rest else rest

  unfoldable pub count_where : (A → Bool) → List A → ℕ
  count_where p [] = 0
  count_where p (x ∷ xs) = let rest = count_where p xs in if p x then suc rest else rest

  unfoldable pub any_where : (A → Bool) → List A → Bool
  any_where p [] = false
  any_where p (x ∷ xs) = p x || any_where p xs

  -- `UPDATE … SET f WHERE p`
  unfoldable pub update_where : (A → Bool) → (A → A) → List A → List A
  update_where p f [] = []
  update_where p f (x ∷ xs) = (if p x then f x else x) ∷ update_where p f xs

  -- What holds of every element, by recursion, so that tactics read it.
  abbrev pub All {κ} : (A → Type κ) → List A → Type κ
  All P [] = Unit
  All P (x ∷ xs) = P x × All P xs

  -- Some element satisfies `P`.
  abbrev pub Some : (A → Type 0) → List A → Type 0
  Some P [] = ⊥
  Some P (x ∷ xs) = P x ⊎ Some P xs

module _ {ℓ} {A : Type ℓ} (P : A → Type 0) where
  pub All-append : (xs ys : List A) → All P xs → All P ys → All P (xs ++ ys)
  All-append [] ys h k = k
  All-append (x ∷ xs) ys h k = (h.0, All-append xs ys h.1 k)

  pub All-keep : (p : A → Bool) (xs : List A) → All P xs → All P (keep p xs)
  unfolding keep
  All-keep p [] h = tt
  All-keep p (x ∷ xs) h = elim (Bool-cases (p x)) [
    | inl e ↦ rw e (h.0, All-keep p xs h.1)
    | inr e ↦ rw e (All-keep p xs h.1)
  ]

  pub All-update_where :
      (p : A → Bool) (f : A → A) (xs : List A)
      → ((x : A) → p x ≡ true → P x → P (f x))
      → All P xs
      → All P (update_where p f xs)
  unfolding update_where
  All-update_where p f [] k h = tt
  All-update_where p f (x ∷ xs) k h = elim (Bool-cases (p x)) [
    | inl e ↦ rw e (k x e h.0, All-update_where p f xs k h.1)
    | inr e ↦ rw e (h.0, All-update_where p f xs k h.1)
  ]

  pub All-of : (Q : A → Type 0) (xs : List A) → ((x : A) → P x → Q x) → All P xs → All Q xs
  All-of Q [] k h = tt
  All-of Q (x ∷ xs) k h = (k x h.0, All-of Q xs k h.1)

  pub Some_of_All :
      (Q : A → Type 0) {R : Type 0} (xs : List A)
      → ((x : A) → P x → Q x → R)
      → All P xs
      → Some Q xs
      → R
  Some_of_All Q [] k h s = absurd s
  Some_of_All Q (x ∷ xs) k h (inl q) = k x h.0 q
  Some_of_All Q (x ∷ xs) k h (inr s) = Some_of_All Q xs k h.1 s

  pub Some-map : (Q : A → Type 0) (xs : List A) → ((x : A) → P x → Q x) → Some P xs → Some Q xs
  Some-map Q [] k s = absurd s
  Some-map Q (x ∷ xs) k (inl p) = inl (k x p)
  Some-map Q (x ∷ xs) k (inr s) = inr (Some-map Q xs k s)

  -- What is kept passes the test.
  pub All-kept : (p : A → Bool) (xs : List A) → All P xs → All (λ x. P x × (p x ≡ true)) (keep p xs)
  unfolding keep
  All-kept p [] h = tt
  All-kept p (x ∷ xs) h = elim (Bool-cases (p x)) [
    | inl e ↦ rw e ((h.0, e), All-kept p xs h.1)
    | inr e ↦ rw e (All-kept p xs h.1)
  ]

pub All-map {ℓ κ μ} :
    {A : Type ℓ} {B : Type κ} (P : B → Type μ) (g : A → B) (xs : List A)
    → All (λ x. P (g x)) xs
    → All P (map g xs)
All-map P g [] h = tt
All-map P g (x ∷ xs) h = (h.0, All-map P g xs h.1)

pub All-take {ℓ κ} :
    {A : Type ℓ} (P : A → Type κ) (n : ℕ) (xs : List A) → All P xs → All P (take n xs)
All-take P zero xs h = tt
All-take P (suc n) [] h = tt
All-take P (suc n) (x ∷ xs) h = (h.0, All-take P n xs h.1)

module _ {ℓ} {A : Type ℓ} where
  pub map-update_where {κ} :
      {B : Type κ} (g : A → B) (p : A → Bool) (f : A → A) (xs : List A)
      → ((x : A) → g (f x) ≡ g x)
      → map g (update_where p f xs) ≡ map g xs
  unfolding update_where
  map-update_where g p f [] k = refl
  map-update_where g p f (x ∷ xs) k = elim (Bool-cases (p x)) [
    | inl e ↦ rw (e, k x, map-update_where g p f xs k) refl
    | inr e ↦ rw (e, map-update_where g p f xs k) refl
  ]

  -- A second selection that no updated row meets is not changed by the update.
  pub keep-update_where :
      (q p : A → Bool) (f : A → A) (xs : List A)
      → ((x : A) → p x ≡ true → (q x ≡ false) × (q (f x) ≡ false))
      → keep q (update_where p f xs) ≡ keep q xs
  unfolding keep update_where
  keep-update_where q p f [] k = refl
  keep-update_where q p f (x ∷ xs) k = elim (Bool-cases (p x)) [
    | inl e ↦ rw (e, (k x e).0, (k x e).1) (keep-update_where q p f xs k)
    | inr e ↦ rw (e, keep-update_where q p f xs k) refl
  ]

  pub keep-append : (q : A → Bool) (xs ys : List A) → keep q (xs ++ ys) ≡ keep q xs ++ keep q ys
  unfolding keep
  keep-append q [] ys = refl
  keep-append q (x ∷ xs) ys = elim (Bool-cases (q x)) [
    | inl e ↦ rw (e, keep-append q xs ys) refl
    | inr e ↦ rw (e, keep-append q xs ys) refl
  ]

  pub length-update_where :
      (p : A → Bool) (f : A → A) (xs : List A) → length (update_where p f xs) ≡ length xs
  unfolding update_where
  length-update_where p f [] = refl
  length-update_where p f (x ∷ xs) = ap suc (length-update_where p f xs)

module _ {ℓ} {A : Type ℓ} ⦃e : Eq A⦄ where
  unfoldable pub contains : List A → A → Bool
  contains [] a = false
  contains (x ∷ xs) a = e.beq x a || contains xs a

  -- No element stands twice.
  abbrev pub Distinct : List A → Type 0
  Distinct [] = Unit
  Distinct (x ∷ xs) = (contains xs x ≡ false) × Distinct xs

module _ {ℓ} {A : Type ℓ} ⦃e : Eq A⦄ where
  pub contains-append :
      (xs : List A) (a x : A) → contains (xs ++ a ∷ []) x ≡ (contains xs x || e.beq a x)
  unfolding contains
  contains-append [] a x = ground arith
  contains-append (y ∷ xs) a x = ground (arith, contains-append xs a x)

  pub Distinct-append :
      (xs : List A) (a : A) → contains xs a ≡ false → Distinct xs → Distinct (xs ++ a ∷ [])
  unfolding contains
  Distinct-append [] a n d = (refl, tt)
  Distinct-append (x ∷ xs) a n d = (
    ground (arith, contains-append xs a x, e.beq_iff x a, e.beq_iff a x),
    Distinct-append xs a (ground arith) d.1,
  )

module _ {ℓ} {A : Type ℓ} (q p : A → Bool) (f : A → A)
    (k : (x : A) → p x ≡ true → q (f x) ≡ false) where
  pub count_where-update_le : (xs : List A) → count_where q (update_where p f xs) ≤ count_where q xs
  unfolding count_where update_where
  count_where-update_le [] = omega arith
  count_where-update_le (x ∷ xs) = elim (Bool-cases (p x)) [
    | inl e ↦
        rw (e, k x e)
          (elim (Bool-cases (q x)) [
            | inl d ↦ rw d (omega (arith, count_where-update_le xs))
            | inr d ↦ rw d (count_where-update_le xs)
          ])
    | inr e ↦ rw e (elim (Bool-cases (q x)) [
      | inl d ↦ rw d (omega (arith, count_where-update_le xs))
      | inr d ↦ rw d (count_where-update_le xs)
    ])
  ]

  pub count_where-update_lt :
      (xs : List A)
      → Some (λ x. (p x ≡ true) × (q x ≡ true)) xs
      → count_where q (update_where p f xs) < count_where q xs
  unfolding count_where update_where
  count_where-update_lt [] s = absurd s
  count_where-update_lt (x ∷ xs) (inl (hit, was)) =
      rw (hit, k x hit, was) (omega (arith, count_where-update_le xs))
  count_where-update_lt (x ∷ xs) (inr s) = elim (Bool-cases (p x)) [
    | inl e ↦
        rw (e, k x e)
          (elim (Bool-cases (q x)) [
            | inl d ↦ rw d (omega (arith, count_where-update_lt xs s))
            | inr d ↦ rw d (count_where-update_lt xs s)
          ])
    | inr e ↦ rw e (elim (Bool-cases (q x)) [
      | inl d ↦ rw d (omega (arith, count_where-update_lt xs s))
      | inr d ↦ rw d (count_where-update_lt xs s)
    ])
  ]
