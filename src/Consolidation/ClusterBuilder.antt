-- ===== src/Consolidation/ClusterBuilder.antt =====
-- consolidation/domain/cluster_builder.rs: union-find with path halving. The vector `parent` is a
-- function, whose values from the length of `order` on nothing reads.
pub mod Forest
pub mod Slots
pub mod Links
pub mod Groups
pub mod Clusters
use recuerdos_ai.Prelude.{
  ℕ, zero, suc, ◌+◌, Bool, Option, none, some, List, [], ◌∷◌, ◌++◌, ltb, ◌==◌, if◌then◌else◌,
  length, nat_eq, keep,
}
use recuerdos_ai.Prelude.Dict

-- `parent[i] = x`
unfoldable pub set : ℕ → ℕ → (ℕ → ℕ) → ℕ → ℕ
set i x f j = if j == i then x else f j

pub record ClusterBuilder : Type 0 where
  pub order : List ℕ
  pub index : List (ℕ × ℕ)
  pub parent : ℕ → ℕ

unfoldable pub new : ClusterBuilder
new = record { order = []; index = []; parent = λ i. i }

unfoldable pub slot_of : ℕ → Option ℕ → ClusterBuilder → ℕ × ClusterBuilder
unfolding set
slot_of id (some position) b = (position, b)
slot_of id none b =
    let position = length b.order in
    (
      position,
      record {
        order = b.order ++ id ∷ [];
        index = Dict.insert id position b.index;
        parent = set position position b.parent;
      },
    )

unfoldable pub slot : ℕ → ClusterBuilder → ℕ × ClusterBuilder
unfolding slot_of
slot id b = slot_of id (Dict.get id b.index) b

-- The loop of `root`, which halves the path that it walks; fuel bounds its turns.
unfoldable pub root : ℕ → (ℕ → ℕ) → ℕ → ℕ × (ℕ → ℕ)
unfolding set
root zero parent position = (position, parent)
root (suc fuel) parent position =
    let halved = set position (parent (parent position)) parent in
    let rest = root fuel halved (halved position) in
    if parent position == position then (position, parent) else rest

-- Attaches the later of two roots under the earlier one.
unfoldable pub join : ℕ → ℕ → (ℕ → ℕ) → ℕ → ℕ
unfolding set
join a b parent = if a == b then parent else if ltb a b then set b a parent else set a b parent

-- The two walks of `link`; a position is at most its own number of steps away from its root.
unfoldable pub link_slots : ℕ → ℕ → (ℕ → ℕ) → ℕ → ℕ
unfolding root join
link_slots p q parent =
    let (a, parent₁) = root (suc p) parent p in
    let (b, parent₂) = root (suc q) parent₁ q in join a b parent₂

unfoldable pub link : ℕ → ℕ → ClusterBuilder → ClusterBuilder
unfolding slot link_slots
link a b builder =
    let (p, builder₁) = slot a builder in
    let (q, builder₂) = slot b builder₁ in
    if a == b then builder else record builder₂ { parent = link_slots p q builder₂.parent }

unfoldable pub link_all : List (ℕ × ℕ) → ClusterBuilder → ClusterBuilder
unfolding link
link_all [] builder = builder
link_all ((a, b) ∷ links) builder = link_all links (link a b builder)

-- `groups[i].push(id)`
unfoldable pub push_at : ℕ → ℕ → List (List ℕ) → List (List ℕ)
push_at i id [] = []
push_at zero id (group ∷ groups) = (group ++ id ∷ []) ∷ groups
push_at (suc i) id (group ∷ groups) = group ∷ push_at i id groups

pub record Grouping : Type 0 where
  pub groups : List (List ℕ)
  pub group_of : List (ℕ × ℕ)
  pub parent : ℕ → ℕ

unfoldable pub put : Option ℕ → ℕ → ℕ → Grouping → Grouping
unfolding push_at
put (some group) r id g = record g { groups = push_at group id g.groups }
put none r id g = record g {
  groups = g.groups ++ (id ∷ []) ∷ [];
  group_of = Dict.insert r (length g.groups) g.group_of;
}

-- The loop of `clusters`, from a position on.
unfoldable pub group_from : List ℕ → ℕ → Grouping → Grouping
unfolding put root
group_from [] position g = g
group_from (id ∷ order) position g =
    let (r, parent) = root (suc position) g.parent position in
    group_from order (position + 1)
      (put (Dict.get r g.group_of) r id (record g { parent = parent }))

unfoldable pub clusters : ClusterBuilder → List (List ℕ)
unfolding group_from keep
clusters b =
    keep (λ group. ltb 1 (length group))
      (group_from b.order 0 (record { groups = []; group_of = []; parent = b.parent })).groups
