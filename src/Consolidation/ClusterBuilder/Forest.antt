-- ===== src/Consolidation/ClusterBuilder/Forest.antt =====
-- The root of a position, told without any halving, and what keeps it.
use recuerdos_ai.Prelude.{
  ℕ, zero, suc, ◌≤◌, ◌<◌, ◌≡◌, refl, sym, ap, subst, ◌∙◌, false, ◌||◌, arith, ltb, ◌==◌,
  if◌then◌else◌, Bool-cases, inl, inr,
}
use recuerdos_ai.Consolidation.ClusterBuilder.{set, root, join, link_slots}

-- Follows parents, at most so many times.
unfoldable pub follow : ℕ → (ℕ → ℕ) → ℕ → ℕ
follow zero f p = p
follow (suc n) f p = let rest = follow n f (f p) in if f p == p then p else rest

unfoldable pub rep : (ℕ → ℕ) → ℕ → ℕ
unfolding follow
rep f p = follow (suc p) f p

-- No parent stands after its child.
abbrev pub IsForest : (ℕ → ℕ) → Type 0
IsForest f = (i : ℕ) → f i ≤ i

pub follow_enough :
    (f : ℕ → ℕ) (n m p : ℕ) → IsForest f → p < n → p < m → follow n f p ≡ follow m f p
unfolding follow
follow_enough f zero m p low h k = omega arith
follow_enough f (suc n) zero p low h k = omega arith
follow_enough f (suc n) (suc m) p low h k = elim (Bool-cases (f p == p)) [
  | inl e ↦ rw e refl
  | inr e ↦
      let le = low p in
      let lt : f p < p = ground arith in
      rw e (follow_enough f n m (f p) low (omega arith) (omega arith))
]

follow_unique :
    (f h : ℕ → ℕ) (n q : ℕ)
    → IsForest f
    → ((q : ℕ) → h (f q) ≡ h q)
    → ((q : ℕ) → f q ≡ q → h q ≡ q)
    → q < n
    → follow n f q ≡ h q
unfolding follow
follow_unique f h zero q low along at_root k = omega arith
follow_unique f h (suc n) q low along at_root k = elim (Bool-cases (f q == q)) [
  | inl e ↦ let same : f q ≡ q = ground arith in rw e (sym (at_root q same))
  | inr e ↦
      let le = low q in
      let lt : f q < q = ground arith in
      rw e (follow_unique f h n (f q) low along at_root (omega arith) ∙ along q)
]

-- A function that is constant along each path, and the position itself at its root, is the root.
pub rep_unique :
    (f h : ℕ → ℕ) (p : ℕ)
    → IsForest f
    → ((q : ℕ) → h (f q) ≡ h q)
    → ((q : ℕ) → f q ≡ q → h q ≡ q)
    → rep f p ≡ h p
unfolding rep
rep_unique f h p low along at_root = follow_unique f h (suc p) p low along at_root (omega arith)

pub rep_at_root : (f : ℕ → ℕ) (p : ℕ) → f p ≡ p → rep f p ≡ p
unfolding rep follow
rep_at_root f p h = ground (arith, h)

follow_step : (f : ℕ → ℕ) (p : ℕ) → (f p == p) ≡ false → follow p f (f p) ≡ follow (suc p) f p
unfolding follow
follow_step f p e = rw e refl

pub rep_along : (f : ℕ → ℕ) (p : ℕ) → IsForest f → rep f (f p) ≡ rep f p
unfolding rep
rep_along f p low = elim (Bool-cases (f p == p)) [
  | inl e ↦ let same : f p ≡ p = ground arith in ap (λ q. follow (suc q) f q) same
  | inr e ↦
      let le = low p in
      let lt : f p < p = ground arith in
      follow_enough f (suc (f p)) p (f p) low (omega arith) lt ∙ follow_step f p e
]

follow_root : (f : ℕ → ℕ) (n p : ℕ) → IsForest f → p < n → f (follow n f p) ≡ follow n f p
unfolding follow
follow_root f zero p low k = omega arith
follow_root f (suc n) p low k = elim (Bool-cases (f p == p)) [
  | inl e ↦ rw e (ground arith)
  | inr e ↦
      let le = low p in
      let lt : f p < p = ground arith in rw e (follow_root f n (f p) low (omega arith))
]

pub rep_root : (f : ℕ → ℕ) (p : ℕ) → IsForest f → f (rep f p) ≡ rep f p
unfolding rep
rep_root f p low = follow_root f (suc p) p low (omega arith)

follow_le : (f : ℕ → ℕ) (n p : ℕ) → IsForest f → follow n f p ≤ p
unfolding follow
follow_le f zero p low = omega arith
follow_le f (suc n) p low = elim (Bool-cases (f p == p)) [
  | inl e ↦ rw e (omega arith)
  | inr e ↦ let le = low p in let rest = follow_le f n (f p) low in rw e (omega arith)
]

pub rep_le : (f : ℕ → ℕ) (p : ℕ) → IsForest f → rep f p ≤ p
unfolding rep
rep_le f p low = follow_le f (suc p) p low

-- One forest with the roots of another.
pub record SameRoots (f g : ℕ → ℕ) : Type 0 where
  pub forest : IsForest g
  pub roots : (q : ℕ) → rep g q ≡ rep f q

pub SameRoots-trans : (f g h : ℕ → ℕ) → SameRoots f g → SameRoots g h → SameRoots f h
SameRoots-trans f g h j k = record { forest = k.forest; roots = λ q. k.roots q ∙ j.roots q }

-- Pointing a position at its grandparent keeps every root.
halve-SameRoots : (f : ℕ → ℕ) (p : ℕ) → IsForest f → SameRoots f (set p (f (f p)) f)
unfolding set
halve-SameRoots f p low = record {
  forest = λ i. (let a = low p in let b = low (f p) in let c = low i in ground arith);
  roots = λ q.
      rep_unique (set p (f (f p)) f) (rep f) q
        (λ i. (let a = low p in let b = low (f p) in let c = low i in ground arith))
        (λ i. halve_along i) (λ i h. rep_at_root f i (halve_root i h));
}
  where
    halve_along : (i : ℕ) → rep f (set p (f (f p)) f i) ≡ rep f i
    halve_along i = elim (Bool-cases (i == p)) [
      | inl e ↦
          let same : i ≡ p = ground arith in
          rw e (rep_along f (f p) low ∙ rep_along f p low ∙ ap (rep f) (sym same))
      | inr e ↦ rw e (rep_along f i low)
    ]

    halve_root : (i : ℕ) → set p (f (f p)) f i ≡ i → f i ≡ i
    halve_root i h = let a = low p in let b = low (f p) in ground arith

set_self : (p x : ℕ) (f : ℕ → ℕ) → set p x f p ≡ x
unfolding set
set_self p x f = ground arith

-- The walk finds the root, and keeps the root of every position.
pub root_lem :
    (n : ℕ) (f : ℕ → ℕ) (p : ℕ)
    → IsForest f
    → p < n
    → ((root n f p).0 ≡ rep f p) × SameRoots f (root n f p).1
unfolding root
root_lem zero f p low k = omega arith
root_lem (suc n) f p low k = elim (Bool-cases (f p == p)) [
  | inl e ↦
      let same : f p ≡ p = ground arith in
      rw e (sym (rep_at_root f p same), record { forest = low; roots = λ q. refl })
  | inr e ↦
      let halved = halve-SameRoots f p low in
      let a = low p in
      let b = low (f p) in
      let lt : f p < p = ground arith in
      let at : set p (f (f p)) f p ≡ f (f p) = set_self p (f (f p)) f in
      let small : set p (f (f p)) f p < n = omega arith in
      let (found, kept) =
        root_lem n (set p (f (f p)) f) (set p (f (f p)) f p) halved.forest small in
      rw e (
        found ∙ rep_along (set p (f (f p)) f) p halved.forest ∙ halved.roots p,
        SameRoots-trans f (set p (f (f p)) f) _ halved kept,
      )
]

-- What becomes of the root `r` when `late` goes under `early`.
abbrev moved : ℕ → ℕ → ℕ → ℕ
moved early late r = if r == late then early else r

attach-IsForest :
    (f : ℕ → ℕ) (early late : ℕ) → IsForest f → early < late → IsForest (set late early f)
unfolding set
attach-IsForest f early late low lt i = let c = low i in ground arith

attach_along :
    (f : ℕ → ℕ) (early late : ℕ)
    → IsForest f
    → early < late
    → f early ≡ early
    → f late ≡ late
    → (i : ℕ) → moved early late (rep f (set late early f i)) ≡ moved early late (rep f i)
unfolding set
attach_along f early late low lt h k i = elim (Bool-cases (i == late)) [
  | inl e ↦
      let same : i ≡ late = ground arith in
      rw (e, same, rep_at_root f early h, rep_at_root f late k) (ground arith)
  | inr e ↦ rw (e, rep_along f i low) refl
]

attach_root :
    (f : ℕ → ℕ) (early late : ℕ)
    → early < late
    → (i : ℕ) → set late early f i ≡ i
    → moved early late (rep f i) ≡ i
unfolding set
attach_root f early late lt i at = elim (Bool-cases (i == late)) [
  | inl e ↦ ground arith
  | inr e ↦ let same : f i ≡ i = ground arith in rw (rep_at_root f i same) (ground arith)
]

attach_rep :
    (f : ℕ → ℕ) (early late : ℕ)
    → IsForest f
    → early < late
    → f early ≡ early
    → f late ≡ late
    → (q : ℕ) → rep (set late early f) q ≡ moved early late (rep f q)
attach_rep f early late low lt h k q =
    rep_unique (set late early f) (λ i. moved early late (rep f i)) q
      (attach-IsForest f early late low lt) (attach_along f early late low lt h k)
      (attach_root f early late lt)

-- What becomes of the root `r` when the trees of `a` and `b` are joined: the earlier root stays.
abbrev pub joined : ℕ → ℕ → ℕ → ℕ
joined a b r = if r == a || r == b then (if ltb a b then a else b) else r

pub join_lem :
    (f : ℕ → ℕ) (a b : ℕ)
    → IsForest f
    → f a ≡ a
    → f b ≡ b
    → IsForest (join a b f) × ((q : ℕ) → rep (join a b f) q ≡ joined a b (rep f q))
unfolding join
join_lem f a b low h k = elim (Bool-cases (a == b)) [
  | inl e ↦ rw e (low, λ q. ground arith)
  | inr e ↦ elim (Bool-cases (ltb a b)) [
    | inl l ↦
        let lt : a < b = ground arith in
        rw (e, l) (attach-IsForest f a b low lt, λ q. attach_rep f a b low lt h k q ∙ ground arith)
    | inr l ↦
        let lt : b < a = ground arith in
        rw (e, l) (attach-IsForest f b a low lt, λ q. attach_rep f b a low lt k h q ∙ ground arith)
  ]
]

SameRoots-root : (f g : ℕ → ℕ) (p a : ℕ) → SameRoots f g → a ≡ rep f p → g a ≡ a
SameRoots-root f g p a same e =
    let here : rep g p ≡ a = same.roots p ∙ sym e in
    subst (λ x. g x ≡ x) here (rep_root g p same.forest)

join_at :
    (f g : ℕ → ℕ) (p q a b : ℕ)
    → SameRoots f g
    → a ≡ rep f p
    → b ≡ rep f q
    → IsForest (join a b g) × ((i : ℕ) → rep (join a b g) i ≡ joined (rep f p) (rep f q) (rep f i))
join_at f g p q a b same e k =
    let (forest, roots) =
      join_lem g a b same.forest (SameRoots-root f g p a same e) (SameRoots-root f g q b same k) in
    (forest, λ i. roots i ∙ ap (joined a b) (same.roots i) ∙ rw (e, k) refl)

-- The two walks and the join: every root is kept but those of the two positions, which become one.
pub link_slots_lem :
    (f : ℕ → ℕ) (p q : ℕ)
    → IsForest f
    → IsForest (link_slots p q f)
      × ((i : ℕ) → rep (link_slots p q f) i ≡ joined (rep f p) (rep f q) (rep f i))
unfolding link_slots
link_slots_lem f p q low =
    let (a_is, one) = root_lem (suc p) f p low (omega arith) in
    let (b_is, two) = root_lem (suc q) (root (suc p) f p).1 q one.forest (omega arith) in
    join_at f (root (suc q) (root (suc p) f p).1 q).1 p q (root (suc p) f p).0
      (root (suc q) (root (suc p) f p).1 q).0
      (SameRoots-trans f (root (suc p) f p).1 (root (suc q) (root (suc p) f p).1 q).1 one two) a_is
      (b_is ∙ one.roots q)
