-- ===== src/Recall/Expansion.antt =====
-- memories/domain/recall_ranker.rs: `apply_expansion`, which gives hops of the graph reserved slots.
pub mod Moves
pub mod Window
use recuerdos_ai.Prelude.{
  ℕ, zero, suc, ◌+◌, ◌-◌, Bool, true, false, ◌&&◌, Option, none, some, List, [], ◌∷◌, ltb, leb,
  ◌==◌, max, if◌then◌else◌, is_empty, ◌||◌,
}
use recuerdos_ai.Recall.Ranker.{ScoredMemory}

-- `iter().position(..)` by identifier, from 0.
unfoldable pub position : ℕ → List ScoredMemory → Option ℕ
position id [] = none
position id (s ∷ rest) =
    let later = position id rest in
    if s.memory.id == id then some 0 else elim later [ none ↦ none | some n ↦ some (suc n) ]

-- `Vec::remove`, at a position that the list has.
unfoldable pub remove_at : ℕ → List ScoredMemory → List ScoredMemory
remove_at n [] = []
remove_at zero (s ∷ rest) = rest
remove_at (suc n) (s ∷ rest) = s ∷ remove_at n rest

unfoldable pub row_at : ℕ → List ScoredMemory → Option ScoredMemory
row_at n [] = none
row_at zero (s ∷ rest) = some s
row_at (suc n) (s ∷ rest) = row_at n rest

-- `Vec::insert`, at a position up to the list's length.
unfoldable pub insert_at : ℕ → ScoredMemory → List ScoredMemory → List ScoredMemory
insert_at zero hit rows = hit ∷ rows
insert_at (suc n) hit [] = hit ∷ []
insert_at (suc n) hit (s ∷ rest) = s ∷ insert_at n hit rest

-- Below the slot, and at the edge of the window at the earliest.
unfoldable pub is_below : ℕ → ℕ → ℕ → Bool
is_below slot edge position = ltb slot position && leb edge position

unfoldable pub when_below : ℕ → ℕ → Option ℕ → Option ℕ
unfolding is_below
when_below slot edge none = none
when_below slot edge (some p) = if is_below slot edge p then some p else none

-- The first hop of the graph that stands there.
unfoldable pub find_hop : ℕ → ℕ → List ScoredMemory → List ℕ → Option ℕ
unfolding position when_below
find_hop slot edge ranked [] = none
find_hop slot edge ranked (id ∷ graph) =
    let later = find_hop slot edge ranked graph in
    elim (when_below slot edge (position id ranked)) [ none ↦ later | some p ↦ some p ]

unfoldable pub move_hit : ℕ → ℕ → Option ScoredMemory → List ScoredMemory → List ScoredMemory
unfolding remove_at insert_at
move_hit slot p none ranked = ranked
move_hit slot p (some hit) ranked = insert_at slot hit (remove_at p ranked)

-- `let hit = ranked.remove(position); ranked.insert(slot, hit)`
unfoldable pub move_to : ℕ → ℕ → List ScoredMemory → List ScoredMemory
unfolding row_at move_hit
move_to slot p ranked = move_hit slot p (row_at p ranked) ranked

unfoldable pub edge_of : ℕ → ℕ → ℕ
edge_of limit slot = max (limit - slot) 1

-- What one slot makes of the list and of the number of promoted rows.
unfoldable pub promote : ℕ → Option ℕ → List ScoredMemory × ℕ → List ScoredMemory × ℕ
unfolding move_to
promote slot none (ranked, promoted) = (ranked, promoted)
promote slot (some p) (ranked, promoted) = (move_to slot p ranked, promoted + 1)

-- The slots from `slot` on, `left` of them.
unfoldable pub fill_slots : List ℕ → ℕ → ℕ → ℕ → List ScoredMemory × ℕ → List ScoredMemory × ℕ
unfolding promote find_hop edge_of
fill_slots graph limit zero slot state = state
fill_slots graph limit (suc left) slot state =
    fill_slots graph limit left (suc slot)
      (promote slot (find_hop slot (edge_of limit slot) state.0 graph) state)

unfoldable pub apply_expansion : List ScoredMemory → List ℕ → ℕ → ℕ → List ScoredMemory × ℕ
unfolding fill_slots
apply_expansion ranked graph limit slots =
    if slots == 0 || is_empty graph then (ranked, 0) else fill_slots graph limit slots 1 (ranked, 0)
