-- ===== src/Recall/Sorting.antt =====
-- `slice::sort_by` of the standard library, which is stable, and comparisons.
use Prim.Native.Nat.{Ordering}
use Prim.Native.Nat.Ordering.{eq, gt}
use recuerdos_ai.Prelude.{
  ◌≡◌, ◌≢◌, refl, ap, ◌∙◌, Bool, true, false, List, [], ◌∷◌, ◌++◌, map, keep, All, if◌then◌else◌,
  Bool-cases, inl, inr, arith,
}
use recuerdos_ai.Recall.Comparison.{may_precede, IsConsistent}

-- Rows that stand in another order.
pub data Shuffle {ℓ} {A : Type ℓ} : List A → List A → Type ℓ where
  none_left : Shuffle [] []
  keep_first : (x : A) {xs ys : List A} → Shuffle xs ys → Shuffle (x ∷ xs) (x ∷ ys)
  swap_first : (x y : A) (xs : List A) → Shuffle (x ∷ y ∷ xs) (y ∷ x ∷ xs)
  and_then : {xs ys zs : List A} → Shuffle xs ys → Shuffle ys zs → Shuffle xs zs

module _ {ℓ} {A : Type ℓ} where
  pub Shuffle-refl : (xs : List A) → Shuffle xs xs
  Shuffle-refl [] = none_left
  Shuffle-refl (x ∷ xs) = keep_first x (Shuffle-refl xs)

  pub All-Shuffle {κ} : (P : A → Type κ) {xs ys : List A} → Shuffle xs ys → All P xs → All P ys
  All-Shuffle P none_left h = h
  All-Shuffle P (keep_first x s) h = (h.0, All-Shuffle P s h.1)
  All-Shuffle P (swap_first x y xs) h = (h.1.0, (h.0, h.1.1))
  All-Shuffle P (and_then s t) h = All-Shuffle P t (All-Shuffle P s h)

  -- The first item may stand further back.
  pub Shuffle-middle : (x : A) (xs ys : List A) → Shuffle (x ∷ xs ++ ys) (xs ++ x ∷ ys)
  Shuffle-middle x [] ys = Shuffle-refl (x ∷ ys)
  Shuffle-middle x (z ∷ zs) ys =
      and_then (swap_first x z (zs ++ ys)) (keep_first z (Shuffle-middle x zs ys))

  pub Shuffle-append :
      {xs ys : List A} (zs : List A) → Shuffle xs ys → Shuffle (xs ++ zs) (ys ++ zs)
  Shuffle-append zs none_left = Shuffle-refl zs
  Shuffle-append zs (keep_first x s) = keep_first x (Shuffle-append zs s)
  Shuffle-append zs (swap_first x y xs) = swap_first x y (xs ++ zs)
  Shuffle-append zs (and_then s t) = and_then (Shuffle-append zs s) (Shuffle-append zs t)

  pub map-Shuffle {κ} :
      {B : Type κ} (g : A → B) {xs ys : List A} → Shuffle xs ys → Shuffle (map g xs) (map g ys)
  map-Shuffle g none_left = none_left
  map-Shuffle g (keep_first x s) = keep_first (g x) (map-Shuffle g s)
  map-Shuffle g (swap_first x y xs) = swap_first (g x) (g y) (map g xs)
  map-Shuffle g (and_then s t) = and_then (map-Shuffle g s) (map-Shuffle g t)

  pub keep-Shuffle :
      (p : A → Bool) {xs ys : List A} → Shuffle xs ys → Shuffle (keep p xs) (keep p ys)
  unfolding keep
  keep-Shuffle p none_left = none_left
  keep-Shuffle p (keep_first x s) = elim (Bool-cases (p x)) [
    | inl e ↦ rw e (keep_first x (keep-Shuffle p s))
    | inr e ↦ rw e (keep-Shuffle p s)
  ]
  keep-Shuffle p (swap_first x y xs) = elim (Bool-cases (p x)) [
    | inl e ↦ elim (Bool-cases (p y)) [
      | inl k ↦ rw (e, k) (swap_first x y (keep p xs))
      | inr k ↦ rw (e, k) (Shuffle-refl _)
    ]
    | inr e ↦ rw e (Shuffle-refl _)
  ]
  keep-Shuffle p (and_then s t) = and_then (keep-Shuffle p s) (keep-Shuffle p t)

  module _ (cmp : A → A → Ordering) where
    unfoldable pub insert : A → List A → List A
    insert x [] = x ∷ []
    insert x (y ∷ ys) =
        let rest = insert x ys in if may_precede (cmp x y) then x ∷ y ∷ ys else y ∷ rest

    -- What stands first among items that compare equal stays first.
    unfoldable pub sort_by : List A → List A
    unfolding insert
    sort_by [] = []
    sort_by (x ∷ xs) = insert x (sort_by xs)

    -- Each item may stand before all that follow it.
    abbrev pub IsOrdered : List A → Type ℓ
    IsOrdered [] = Unit
    IsOrdered (x ∷ xs) = All (λ y. cmp x y ≢ gt) xs × IsOrdered xs

    -- No two items compare equal.
    abbrev pub NoTies : List A → Type ℓ
    NoTies [] = Unit
    NoTies (x ∷ xs) = All (λ y. cmp x y ≢ eq) xs × NoTies xs

    pub insert-Shuffle : (x : A) (xs : List A) → Shuffle (x ∷ xs) (insert x xs)
    unfolding insert
    insert-Shuffle x [] = keep_first x none_left
    insert-Shuffle x (y ∷ ys) = elim (Bool-cases (may_precede (cmp x y))) [
      | inl e ↦ rw e (Shuffle-refl _)
      | inr e ↦ rw e (and_then (swap_first x y ys) (keep_first y (insert-Shuffle x ys)))
    ]

    pub sort_by-Shuffle : (xs : List A) → Shuffle xs (sort_by xs)
    unfolding sort_by
    sort_by-Shuffle [] = none_left
    sort_by-Shuffle (x ∷ xs) =
        and_then (keep_first x (sort_by-Shuffle xs)) (insert-Shuffle x (sort_by xs))

    module _ (c : IsConsistent cmp) where
      not_gt_chain : (x y z : A) → cmp x y ≢ gt → cmp y z ≢ gt → cmp x z ≢ gt
      not_gt_chain x y z h k g = ground (
        arith,
        h,
        k,
        c.chain x y z,
        c.alike x y z,
        c.alike z y x,
        c.flip x y,
        c.flip y z,
        c.flip x z,
      )

      before-All :
          (x y : A) (ys : List A)
          → cmp x y ≢ gt
          → All (λ z. cmp y z ≢ gt) ys
          → All (λ z. cmp x z ≢ gt) ys
      before-All x y [] h a = tt
      before-All x y (z ∷ zs) h a = (not_gt_chain x y z h a.0, before-All x y zs h a.1)

      not_gt : (x y : A) → may_precede (cmp x y) ≡ true → cmp x y ≢ gt
      not_gt x y e g = ground arith

      precedes : (x y : A) → may_precede (cmp x y) ≡ false → cmp y x ≢ gt
      precedes x y e g = ground (arith, c.flip x y)

      insert-IsOrdered : (x : A) (xs : List A) → IsOrdered xs → IsOrdered (insert x xs)
      unfolding insert
      insert-IsOrdered x [] h = (tt, tt)
      insert-IsOrdered x (y ∷ ys) h = elim (Bool-cases (may_precede (cmp x y))) [
        | inl e ↦ rw e ((not_gt x y e, before-All x y ys (not_gt x y e) h.0), h)
        | inr e ↦
            rw e
              (All-Shuffle _ (insert-Shuffle x ys) (precedes x y e, h.0), insert-IsOrdered x ys h.1)
      ]

      pub sort_by-IsOrdered : (xs : List A) → IsOrdered (sort_by xs)
      unfolding sort_by
      sort_by-IsOrdered [] = tt
      sort_by-IsOrdered (x ∷ xs) = insert-IsOrdered x (sort_by xs) (sort_by-IsOrdered xs)

      NoTies-Shuffle : {xs ys : List A} → Shuffle xs ys → NoTies xs → NoTies ys
      NoTies-Shuffle none_left h = h
      NoTies-Shuffle (keep_first x s) h = (All-Shuffle _ s h.0, NoTies-Shuffle s h.1)
      NoTies-Shuffle (swap_first x y xs) h = (((λ e. h.0.0 (untied x y e)), h.1.0), (h.0.1, h.1.1))
        where
          untied : (x y : A) → cmp y x ≡ eq → cmp x y ≡ eq
          untied x y e = ground (arith, c.flip x y)
      NoTies-Shuffle (and_then s t) h = NoTies-Shuffle t (NoTies-Shuffle s h)

      insert_comm :
          (x y : A) (zs : List A) → cmp x y ≢ eq → insert x (insert y zs) ≡ insert y (insert x zs)
      unfolding insert
      insert_comm x y [] d = ground (arith, c.flip x y)
      insert_comm x y (z ∷ zs) d = ground (
        arith,
        insert_comm x y zs d,
        d,
        c.flip x y,
        c.flip x z,
        c.flip y z,
        not_gt_chain x y z,
        not_gt_chain y x z,
        not_gt_chain x z y,
        not_gt_chain y z x,
        c.alike x y z,
      )

      -- Where nothing ties, the sorted list does not depend on the order of the rows.
      pub sort_by-Shuffled : {xs ys : List A} → Shuffle xs ys → NoTies xs → sort_by xs ≡ sort_by ys
      unfolding sort_by
      sort_by-Shuffled none_left h = refl
      sort_by-Shuffled (keep_first x s) h = ap (insert x) (sort_by-Shuffled s h.1)
      sort_by-Shuffled (swap_first x y xs) h = insert_comm x y (sort_by xs) h.0.0
      sort_by-Shuffled (and_then s t) h =
          sort_by-Shuffled s h ∙ sort_by-Shuffled t (NoTies-Shuffle s h)
