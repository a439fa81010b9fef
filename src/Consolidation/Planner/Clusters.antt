-- ===== src/Consolidation/Planner/Clusters.antt =====
-- What the clusters of one group hold.
use recuerdos_ai.Prelude.{
  ℕ, zero, suc, ◌+◌, ◌≤◌, ◌≡◌, refl, true, Option, none, some, is_some, List, [], ◌∷◌, arith, All,
  All-append, All-of, All-kept, All-map, if-cases, Bool-cases, ◌==◌, length, ltb, nat_eq,
  Option-cases, inl, inr,
}
use recuerdos_ai.Prelude.Dict
use recuerdos_ai.Memories.Memory.{Memory}
use recuerdos_ai.Memories.Memory.Confidence.{F32}
use recuerdos_ai.Recall.Floats.{Arithmetic}
use recuerdos_ai.Consolidation.ClusterBuilder.{
  ClusterBuilder, Grouping, slot, slot_of, link, push_at, put, group_from, clusters,
}
use recuerdos_ai.Consolidation.ClusterBuilder
use recuerdos_ai.Consolidation.Planner.{
  by_id, push_found, found_among, zip, link_similar, link_pairs, cluster_embedded,
}

module _ (P : Memory → Type 0) where
  by_id-All :
      (found : List (ℕ × Memory)) (group : List Memory)
      → Dict.AllValues (λ _. P) found
      → All P group
      → Dict.AllValues (λ _. P) (by_id found group)
  unfolding by_id Dict.insert
  by_id-All found [] h k = h
  by_id-All found (memory ∷ group) h k =
      by_id-All (Dict.insert memory.id memory found) group
        (k.0, Dict.AllValues-remove (λ _. P) memory.id found h) k.1

  push_found-All :
      (o : Option Memory) (rest : List Memory)
      → ((m : Memory) → o ≡ some m → P m)
      → All P rest
      → All P (push_found o rest)
  unfolding push_found
  push_found-All none rest h k = k
  push_found-All (some memory) rest h k = (h memory refl, k)

  found_among-All :
      (found : List (ℕ × Memory)) (ids : List ℕ)
      → Dict.AllValues (λ _. P) found
      → All P (found_among found ids)
  unfolding found_among
  found_among-All found [] h = tt
  found_among-All found (id ∷ ids) h =
      push_found-All (Dict.get id found) (found_among found ids)
        (λ m e. Dict.AllValues-get (λ _. P) id m found h e) (found_among-All found ids h)

-- An identifier that a map knows.
abbrev pub Known : List (ℕ × Memory) → ℕ → Type 0
Known found id = is_some (Dict.get id found) ≡ true

length-found_among :
    (found : List (ℕ × Memory)) (ids : List ℕ)
    → All (Known found) ids
    → length (found_among found ids) ≡ length ids
unfolding found_among push_found
length-found_among found [] h = refl
length-found_among found (id ∷ ids) h = elim (Option-cases (Dict.get id found)) [
  | inl e ↦ let known = rw e at h.0 in cc
  | inr (m, e) ↦ rw (e, length-found_among found ids h.1) refl
]

by_id-Known :
    (found : List (ℕ × Memory)) (group : List Memory) (id : ℕ)
    → Known found id
    → Known (by_id found group) id
unfolding by_id
by_id-Known found [] id h = h
by_id-Known found (memory ∷ group) id h =
    by_id-Known (Dict.insert memory.id memory found) group id
      (ground (arith, Dict.get-insert memory.id id memory found))

by_id-All-Known :
    (found : List (ℕ × Memory)) (group : List Memory)
    → All (λ (m : Memory). Known (by_id found group) m.id) group
unfolding by_id
by_id-All-Known found [] = tt
by_id-All-Known found (memory ∷ group) = (
  by_id-Known (Dict.insert memory.id memory found) group memory.id
      (ground (arith, Dict.get-insert memory.id memory.id memory found)),
  by_id-All-Known (Dict.insert memory.id memory found) group,
)

-- What holds of every identifier that is linked holds of every one in a cluster.
module _ (Q : ℕ → Type 0) where
  slot_of-All :
      (id : ℕ) (position : Option ℕ) (b : ClusterBuilder)
      → Q id
      → All Q b.order
      → All Q (slot_of id position b).1.order
  unfolding slot_of
  slot_of-All id none b q h = All-append Q b.order (id ∷ []) h (q, tt)
  slot_of-All id (some position) b q h = h

  link-All : (a c : ℕ) (b : ClusterBuilder) → Q a → Q c → All Q b.order → All Q (link a c b).order
  unfolding link slot
  link-All a c b q r h =
      let first = slot_of-All a (Dict.get a b.index) b q h in
      let both = slot_of-All c (Dict.get c (slot a b).1.index) (slot a b).1 r first in
      elim (Bool-cases (a == c)) [ inl e ↦ rw e h | inr e ↦ rw e both ]

  push_at-All :
      (i id : ℕ) (groups : List (List ℕ))
      → Q id
      → All (All Q) groups
      → All (All Q) (push_at i id groups)
  unfolding push_at
  push_at-All i id [] q h = tt
  push_at-All zero id (group ∷ groups) q h = (All-append Q group (id ∷ []) h.0 (q, tt), h.1)
  push_at-All (suc i) id (group ∷ groups) q h = (h.0, push_at-All i id groups q h.1)

  put-All :
      (o : Option ℕ) (r id : ℕ) (g : Grouping)
      → Q id
      → All (All Q) g.groups
      → All (All Q) (put o r id g).groups
  unfolding put
  put-All none r id g q h = All-append (All Q) g.groups ((id ∷ []) ∷ []) h ((q, tt), tt)
  put-All (some i) r id g q h = push_at-All i id g.groups q h

  group_from-All :
      (order : List ℕ) (position : ℕ) (g : Grouping)
      → All Q order
      → All (All Q) g.groups
      → All (All Q) (group_from order position g).groups
  unfolding group_from
  group_from-All [] position g q h = h
  group_from-All (id ∷ order) position g q h =
      group_from-All order (position + 1) _ q.1 (put-All _ _ id _ q.0 h)

  clusters-All :
      (b : ClusterBuilder)
      → All Q b.order
      → All (λ ids. All Q ids × (ltb 1 (length ids) ≡ true)) (clusters b)
  unfolding clusters
  clusters-All b h = All-kept (All Q) _ _ (group_from-All b.order 0 _ h tt)

  module _ (f : Arithmetic) (sqrt : F32 → F32) (threshold : F32) where
    abbrev Linked : Memory × List F32 → Type 0
    Linked pair = Q pair.0.id

    link_similar-All :
        (left : Memory × List F32) (rest : List (Memory × List F32)) (b : ClusterBuilder)
        → Linked left
        → All Linked rest
        → All Q b.order
        → All Q (link_similar f sqrt threshold left rest b).order
    unfolding link_similar
    link_similar-All left [] b q qs h = h
    link_similar-All left (right ∷ rest) b q qs h = link_similar-All left rest _ q qs.1 (
        if-cases (λ (z : ClusterBuilder). All Q z.order) _
          (λ _. link-All left.0.id right.0.id b q qs.0 h) (λ _. h))

    link_pairs-All :
        (pairs : List (Memory × List F32)) (b : ClusterBuilder)
        → All Linked pairs
        → All Q b.order
        → All Q (link_pairs f sqrt threshold pairs b).order
    unfolding link_pairs
    link_pairs-All [] b qs h = h
    link_pairs-All (left ∷ rest) b qs h =
        link_pairs-All rest _ qs.1 (link_similar-All left rest b qs.0 qs.1 h)

  zip-All :
      (group : List Memory) (vectors : List (List F32))
      → All (λ (m : Memory). Q m.id) group
      → All (λ (pair : Memory × List F32). Q pair.0.id) (zip group vectors)
  unfolding zip
  zip-All [] vectors h = tt
  zip-All (memory ∷ group) [] h = tt
  zip-All (memory ∷ group) (vector ∷ vectors) h = (h.0, zip-All group vectors h.1)

-- Two memories or more, all of which satisfy `P`.
abbrev pub ClusterOf : (Memory → Type 0) → List Memory → Type 0
ClusterOf P cluster = (2 ≤ length cluster) × All P cluster

module _ (f : Arithmetic) (sqrt : F32 → F32) (threshold : F32) (P : Memory → Type 0) where
  pub cluster_embedded-All :
      (group : List Memory) (vectors : List (List F32))
      → All P group
      → All (ClusterOf P) (cluster_embedded f sqrt threshold group vectors)
  unfolding cluster_embedded ClusterBuilder.new
  cluster_embedded-All group vectors h =
      let found = by_id [] group in
      let linked = zip-All (Known found) group vectors (by_id-All-Known [] group) in
      All-map _ (found_among found) _ (
        All-of _ _ _
          (λ ids k.
            let same = length-found_among found ids k.0 in
            let many = k.1 in
            (ground arith, found_among-All P found ids (by_id-All P [] group tt h)))
          (clusters-All (Known found)
            (link_pairs f sqrt threshold (zip group vectors) ClusterBuilder.new)
            (link_pairs-All (Known found) f sqrt threshold _ ClusterBuilder.new linked tt)))
