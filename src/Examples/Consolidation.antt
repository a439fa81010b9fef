-- ===== src/Examples/Consolidation.antt =====
-- Links and their trees at concrete inputs.
use recuerdos_ai.Prelude.Dict
use recuerdos_ai.Prelude.{ℕ, ◌≡◌, refl, ◌↔◌, some, List, [], keep, ltb, length, map, ◌∷◌, nat_eq}
use recuerdos_ai.Consolidation.ClusterBuilder.{new, root, link_all}
use recuerdos_ai.Consolidation.ClusterBuilder.{clusters}
use recuerdos_ai.Consolidation.ClusterBuilder.Groups.{tagged, members, roots_from}
use recuerdos_ai.Consolidation.ClusterBuilder.Clusters.{clusters_lem}
use recuerdos_ai.Consolidation.ClusterBuilder.Slots.{at}
use recuerdos_ai.Consolidation.ClusterBuilder.Links.{Connected, link_all_lem}

-- 50 and 20 are joined through 10, and later by 40.
abbrev links : List (ℕ × ℕ)
links = (50, 10) ∷ (30, 40) ∷ (20, 10) ∷ (60, 60) ∷ (40, 20) ∷ []

slot_of_20 : at (link_all links new) 20 ≡ some 4
unfolding link_all new Dict.get Dict.insert
slot_of_20 = refl

slot_of_30 : at (link_all links new) 30 ≡ some 2
unfolding link_all new Dict.get Dict.insert
slot_of_30 = refl

link_all_lem_example :
    ((root 5 (link_all links new).parent 4).0 ≡ (root 3 (link_all links new).parent 2).0)
    ↔ Connected links 20 30
link_all_lem_example = link_all_lem links 20 30 4 2 slot_of_20 slot_of_30

-- All of them are one tree, under the memory that was seen first.
one_tree : (root 3 (link_all links new).parent 2).0 ≡ 0
unfolding root link_all new Dict.get Dict.insert
one_tree = refl

clusters_lem_example : clusters (link_all links new) ≡ (
    let built = link_all links new in
    let tags = tagged built.parent 0 built.order in
    keep (λ group. ltb 1 (length group)) (map (λ r. members r tags) (roots_from [] tags)))
clusters_lem_example = clusters_lem links

abbrev pairs : List (ℕ × ℕ)
pairs = (5, 1) ∷ (8, 9) ∷ (3, 1) ∷ (8, 8) ∷ []

two_clusters : clusters (link_all pairs new) ≡ (5 ∷ 1 ∷ 3 ∷ []) ∷ (8 ∷ 9 ∷ []) ∷ []
unfolding clusters link_all new Dict.get Dict.insert
two_clusters = refl
