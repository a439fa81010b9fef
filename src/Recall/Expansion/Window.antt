-- ===== src/Recall/Expansion/Window.antt =====
-- memories/domain/recall_ranker.rs: what the reserved slots cost.
use recuerdos_ai.Prelude.{
  ℕ, zero, suc, ◌+◌, ◌≤◌, ◌<◌, ◌≡◌, refl, ◌||◌, Option, none, some, List, [], ◌∷◌, arith, take,
  subst, ◌∙◌, Bool-cases, inl, inr, ◌==◌, is_empty,
}
use recuerdos_ai.Recall.Sorting.{Shuffle, and_then, Shuffle-refl}
use recuerdos_ai.Recall.Ranker.{ScoredMemory}
use recuerdos_ai.Recall.Expansion.{
  move_to, promote, fill_slots, apply_expansion, find_hop, when_below, is_below, edge_of, position,
}
use recuerdos_ai.Recall.Expansion.Moves.{Among, move_to-Shuffle, move_to-Among, move_to-take_one}

-- What is left of the list `rows` when some rows have been promoted.
abbrev pub IsExpanded : List ScoredMemory → List ScoredMemory × ℕ → Type 0
IsExpanded rows (ranked, promoted) =
    Shuffle rows ranked
    × (take 1 ranked ≡ take 1 rows)
    × ((n : ℕ) (s : ScoredMemory) → Among s (take n rows) → Among s (take (n + promoted) ranked))

-- A hop that is found stands below the slot.
abbrev IsBelow : ℕ → Option ℕ → Type 0
IsBelow slot none = Unit
IsBelow slot (some p) = slot < p

when_below-IsBelow : (slot edge : ℕ) (o : Option ℕ) → IsBelow slot (when_below slot edge o)
unfolding when_below is_below
when_below-IsBelow slot edge none = tt
when_below-IsBelow slot edge (some p) = ground arith

find_hop-IsBelow :
    (slot edge : ℕ) (ranked : List ScoredMemory) (graph : List ℕ)
    → IsBelow slot (find_hop slot edge ranked graph)
unfolding find_hop
find_hop-IsBelow slot edge ranked [] = tt
find_hop-IsBelow slot edge ranked (id ∷ graph) =
    found (when_below slot edge (position id ranked)) (find_hop slot edge ranked graph)
      (when_below-IsBelow slot edge (position id ranked)) (find_hop-IsBelow slot edge ranked graph)
  where
    found :
        (o later : Option ℕ)
        → IsBelow slot o
        → IsBelow slot later
        → IsBelow slot (elim o as (λ _. Option ℕ) [ none ↦ later | some p ↦ some p ])
    found none later h k = k
    found (some p) later h k = h

one_more : (n promoted : ℕ) → suc (n + promoted) ≡ n + (promoted + 1)
one_more n promoted = omega arith

promote-IsExpanded :
    (rows : List ScoredMemory) (slot : ℕ) (o : Option ℕ) (state : List ScoredMemory × ℕ)
    → 0 < slot
    → IsBelow slot o
    → IsExpanded rows state
    → IsExpanded rows (promote slot o state) × ((promote slot o state).1 ≤ state.1 + 1)
unfolding promote
promote-IsExpanded rows slot none (ranked, promoted) z h e = (e, omega arith)
promote-IsExpanded rows slot (some p) (ranked, promoted) z h e = (
  (
    and_then e.0 (move_to-Shuffle slot p ranked),
    move_to-take_one slot p ranked z h ∙ e.1,
    λ n s a.
        subst (λ k. Among s (take k (move_to slot p ranked))) (one_more n promoted)
          (move_to-Among (n + promoted) slot p s ranked (omega arith) (e.2 n s a)),
  ),
  omega arith,
)

fill_slots-IsExpanded :
    (rows : List ScoredMemory) (graph : List ℕ) (limit left slot : ℕ)
    (state : List ScoredMemory × ℕ)
    → 0 < slot
    → IsExpanded rows state
    → IsExpanded rows (fill_slots graph limit left slot state)
      × ((fill_slots graph limit left slot state).1 ≤ state.1 + left)
unfolding fill_slots
fill_slots-IsExpanded rows graph limit zero slot state z e = (e, omega arith)
fill_slots-IsExpanded rows graph limit (suc left) slot state z e =
    let (k, b) =
      promote-IsExpanded rows slot (find_hop slot (edge_of limit slot) state.0 graph) state z
        (find_hop-IsBelow slot (edge_of limit slot) state.0 graph) e in
    let (m, c) = fill_slots-IsExpanded rows graph limit left (suc slot) _ (omega arith) k in
    (m, omega (arith, b, c))

-- The reserved slots re-order the list: no row is lost, added or doubled, the first row stays
-- the first, at most `slots` rows are promoted, and each promotion costs at most one
-- place: what stood among the first `n` stands among the first `n` and as many more as were promoted.
pub apply_expansion_lem :
    (ranked : List ScoredMemory) (graph : List ℕ) (limit slots : ℕ)
    → IsExpanded ranked (apply_expansion ranked graph limit slots)
      × ((apply_expansion ranked graph limit slots).1 ≤ slots)
unfolding apply_expansion
apply_expansion_lem ranked graph limit slots = elim (Bool-cases (slots == 0 || is_empty graph)) [
  | inl e ↦ rw e (start, omega arith)
  | inr e ↦
      let (k, b) =
        fill_slots-IsExpanded ranked graph limit slots 1 (ranked, 0) (omega arith) start in
      rw e (k, omega (arith, b))
]
  where
    start : IsExpanded ranked (ranked, 0)
    start =
        (Shuffle-refl ranked, refl, λ n s a. subst (λ k. Among s (take k ranked)) (omega arith) a)
