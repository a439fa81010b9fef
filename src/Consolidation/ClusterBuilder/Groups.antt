-- ===== src/Consolidation/ClusterBuilder/Groups.antt =====
-- Groups of memories by their roots, told without a map: what `clusters` is compared with.
use recuerdos_ai.Prelude.{
  ℕ, suc, ◌+◌, ◌≡◌, refl, sym, subst, true, false, Option, none, some, List, [], ◌∷◌, ◌++◌, map,
  arith, ◌==◌, if◌then◌else◌, Bool-cases, Option-cases, inl, inr, length, contains, nat_eq,
  Distinct,
}
use recuerdos_ai.Consolidation.ClusterBuilder.{push_at}
use recuerdos_ai.Consolidation.ClusterBuilder.Forest.{rep}

-- The memories from a position on, each with its root.
unfoldable pub tagged : (ℕ → ℕ) → ℕ → List ℕ → List (ℕ × ℕ)
tagged f position [] = []
tagged f position (id ∷ order) = (id, rep f position) ∷ tagged f (position + 1) order

-- The memories with the root `r`, in order.
unfoldable pub members : ℕ → List (ℕ × ℕ) → List ℕ
members r [] = []
members r ((id, s) ∷ rest) = let others = members r rest in if s == r then id ∷ others else others

-- The roots in the order in which they are first seen.
unfoldable pub seen : List ℕ → ℕ → List ℕ
seen roots r = if contains roots r then roots else roots ++ r ∷ []

unfoldable pub roots_from : List ℕ → List (ℕ × ℕ) → List ℕ
unfolding seen
roots_from roots [] = roots
roots_from roots ((id, r) ∷ rest) = roots_from (seen roots r) rest

abbrev pub next : Option ℕ → Option ℕ
next none = none
next (some i) = some (suc i)

-- Where a root stands in a list.
unfoldable pub index_of : ℕ → List ℕ → Option ℕ
index_of r [] = none
index_of r (s ∷ roots) = let rest = next (index_of r roots) in if s == r then some 0 else rest

pub some_eq : {p q : ℕ} → some p ≡ some q → p ≡ q
some_eq h = cc

pub members-append :
    (r : ℕ) (done : List (ℕ × ℕ)) (id s : ℕ)
    → members r (done ++ (id, s) ∷ [])
      ≡ (if s == r then members r done ++ id ∷ [] else members r done)
unfolding members
members-append r [] id s = ground arith
members-append r ((j, t) ∷ done) id s = elim (Bool-cases (t == r)) [
  | inl e ↦ elim (Bool-cases (s == r)) [
    | inl k ↦ rw (e, members-append r done id s, k) refl
    | inr k ↦ rw (e, members-append r done id s, k) refl
  ]
  | inr e ↦ rw (e, members-append r done id s) refl
]

pub contains-index_of :
    (r : ℕ) (roots : List ℕ) → contains roots r ≡ false → index_of r roots ≡ none
unfolding contains index_of
contains-index_of r [] h = refl
contains-index_of r (s ∷ roots) h = elim (Bool-cases (s == r)) [
  | inl e ↦ cc (rw e at h)
  | inr e ↦ rw (e, contains-index_of r roots (rw e at h)) refl
]

pub index_of-contains :
    (r : ℕ) (roots : List ℕ) → index_of r roots ≡ none → contains roots r ≡ false
unfolding contains index_of
index_of-contains r [] h = refl
index_of-contains r (s ∷ roots) h = elim (Bool-cases (s == r)) [
  | inl e ↦ cc (rw e at h)
  | inr e ↦ elim (Option-cases (index_of r roots)) [
    | inl k ↦ rw e (index_of-contains r roots k)
    | inr (i, k) ↦ cc (rw (e, k) at h)
  ]
]

abbrev pub or_last : Option ℕ → ℕ → ℕ → ℕ → Option ℕ
or_last (some i) r s n = some i
or_last none r s n = if s == r then some n else none

pub index_of-append :
    (r s : ℕ) (roots : List ℕ)
    → index_of r (roots ++ s ∷ []) ≡ or_last (index_of r roots) r s (length roots)
unfolding index_of
index_of-append r s [] = refl
index_of-append r s (t ∷ roots) = elim (Bool-cases (t == r)) [
  | inl e ↦ rw e refl
  | inr e ↦ elim (Option-cases (index_of r roots)) [
    | inl k ↦ elim (Bool-cases (s == r)) [
      | inl l ↦ rw (e, index_of-append r s roots, k, l) refl
      | inr l ↦ rw (e, index_of-append r s roots, k, l) refl
    ]
    | inr (i, k) ↦ rw (e, index_of-append r s roots, k) refl
  ]
]

-- A memory whose root is not among them adds to none of their groups.
pub groups_same :
    (done : List (ℕ × ℕ)) (id r : ℕ) (roots : List ℕ)
    → contains roots r ≡ false
    → map (λ q. members q (done ++ (id, r) ∷ [])) roots ≡ map (λ q. members q done) roots
unfolding contains
groups_same done id r [] h = refl
groups_same done id r (q ∷ roots) h = elim (Bool-cases (q == r)) [
  | inl e ↦ cc (rw e at h)
  | inr e ↦
      let other : (r == q) ≡ false = ground arith in
      rw (members-append q done id r, other, groups_same done id r roots (rw e at h)) refl
]

pub push_members :
    (done : List (ℕ × ℕ)) (id r i : ℕ) (roots : List ℕ)
    → Distinct roots
    → index_of r roots ≡ some i
    → push_at i id (map (λ q. members q done) roots)
      ≡ map (λ q. members q (done ++ (id, r) ∷ [])) roots
unfolding push_at index_of
push_members done id r i [] d h = cc
push_members done id r i (q ∷ roots) d h = elim (Bool-cases (q == r)) [
  | inl e ↦
      let same : r ≡ q = ground arith in
      let first : 0 ≡ i = some_eq (rw e at h) in
      let apart : contains roots r ≡ false = subst (λ z. contains roots z ≡ false) (sym same) d.0 in
      let own : (r == q) ≡ true = ground arith in
      rw (← first, members-append q done id r, own, groups_same done id r roots apart) refl
  | inr e ↦ elim (Option-cases (index_of r roots)) [
    | inl k ↦ cc (rw (e, k) at h)
    | inr (j, k) ↦
        let after : suc j ≡ i = some_eq (rw (e, k) at h) in
        let other : (r == q) ≡ false = ground arith in
        rw (← after, members-append q done id r, other, ← push_members done id r j roots d.1 k) refl
  ]
]
