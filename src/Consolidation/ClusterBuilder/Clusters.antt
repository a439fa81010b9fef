-- ===== src/Consolidation/ClusterBuilder/Clusters.antt =====
-- What `clusters` reads out.
use recuerdos_ai.Prelude.{
  ℕ, suc, ◌+◌, ◌≡◌, refl, sym, ap, subst, ◌∙◌, true, false, Option, none, some, List, [], ◌∷◌, ◌++◌,
  map, arith, ltb, ◌==◌, ==_refl, if◌then◌else◌, Bool-cases, inl, inr, ◌⊎◌, length, keep, contains,
  nat_eq, Distinct, Distinct-append,
}
use mathlib.Core.List.{append-nil, append_assoc, map-append}
use recuerdos_ai.Prelude.Dict
use recuerdos_ai.Prelude.Dict.{get-insert}
use recuerdos_ai.Consolidation.ClusterBuilder.{
  Grouping, new, root, link_all, push_at, put, group_from, clusters,
}
use recuerdos_ai.Consolidation.ClusterBuilder.Forest.{SameRoots, SameRoots-trans, rep, root_lem}
use recuerdos_ai.Consolidation.ClusterBuilder.Slots.{new-Agrees}
use recuerdos_ai.Consolidation.ClusterBuilder.Links.{link_all-Agrees}
use recuerdos_ai.Consolidation.ClusterBuilder.Groups.{
  tagged, members, seen, roots_from, index_of, or_last, members-append, contains-index_of,
  index_of-contains, index_of-append, groups_same, push_members,
}

-- The state of the loop after the memories `done`, whose roots are `roots`.
record Grouped (done : List (ℕ × ℕ)) (roots : List ℕ) (g : Grouping) : Type 0 where
  groups : g.groups ≡ map (λ r. members r done) roots
  index : (r : ℕ) → Dict.get r g.group_of ≡ index_of r roots
  distinct : Distinct roots
  absent : (r : ℕ) → index_of r roots ≡ none → members r done ≡ []

length-map : (f : ℕ → List ℕ) (xs : List ℕ) → length (map f xs) ≡ length xs
length-map f [] = refl
length-map f (x ∷ xs) = ap suc (length-map f xs)

seen_index :
    (r s : ℕ) (roots : List ℕ)
    → index_of r (seen roots s) ≡ none
    → (index_of r roots ≡ none) × ((s == r) ≡ false)
unfolding seen
seen_index r s roots h = elim (Bool-cases (contains roots s)) [
  | inl e ↦ (
    rw e at h,
    elim (Bool-cases (s == r)) [
      | inl k ↦
          let same : s ≡ r = ground arith in
          cc (
            e,
            subst (λ z. contains roots z ≡ false) (sym same)
                (index_of-contains r roots (rw e at h)),
          )
      | inr k ↦ k
    ],
  )
  | inr e ↦ appended (index_of r roots) refl (sym (index_of-append r s roots) ∙ (rw e at h))
]
  where
    appended :
        (o : Option ℕ)
        → index_of r roots ≡ o
        → or_last o r s (length roots) ≡ none
        → (index_of r roots ≡ none) × ((s == r) ≡ false)
    appended (some i) e k = cc
    appended none e k = (e, ground arith)

put-Grouped :
    (done : List (ℕ × ℕ)) (roots : List ℕ) (g : Grouping) (id r : ℕ) (o : Option ℕ)
    → Grouped done roots g
    → index_of r roots ≡ o
    → Grouped (done ++ (id, r) ∷ []) (seen roots r) (put o r id g)
unfolding put
put-Grouped done roots g id r (some i) h e =
    let known : seen roots r ≡ roots = already (Bool-cases (contains roots r)) in
    subst (λ z. Grouped (done ++ (id, r) ∷ []) z (record g { groups = push_at i id g.groups }))
      (sym known)
      (record {
        groups = ap (push_at i id) h.groups ∙ push_members done id r i roots h.distinct e;
        index = h.index;
        distinct = h.distinct;
        absent = λ q k. members-append q done id r ∙ other q k (Bool-cases (r == q));
      })
  where
    already : (contains roots r ≡ true) ⊎ (contains roots r ≡ false) → seen roots r ≡ roots
    already (inl k) = unfold seen in rw k refl
    already (inr k) = cc (contains-index_of r roots k, e)

    other :
        (q : ℕ)
        → index_of q roots ≡ none
        → ((r == q) ≡ true) ⊎ ((r == q) ≡ false)
        → (if r == q then members q done ++ id ∷ [] else members q done) ≡ []
    other q k (inl l) =
        let same : q ≡ r = ground arith in cc (subst (λ z. index_of z roots ≡ none) same k, e)
    other q k (inr l) = rw l (h.absent q k)
put-Grouped done roots g id r none h e =
    let apart = index_of-contains r roots e in
    let fresh : seen roots r ≡ roots ++ r ∷ [] = unfold seen in rw apart refl in
    subst (λ z. Grouped (done ++ (id, r) ∷ []) z (put none r id g)) (sym fresh)
      (unfold put in
        record {
          groups = ap (λ gs. gs ++ (id ∷ []) ∷ []) h.groups ∙ sym (split_last apart);
          index =
              λ q. get-insert r q (length g.groups) g.group_of ∙ found q (index_of q roots) refl;
          distinct = Distinct-append roots r apart h.distinct;
          absent = λ q k. members-append q done id r ∙ gone q (seen_index q r roots (rw fresh k));
        })
  where
    split_last :
        contains roots r ≡ false
        → map (λ q. members q (done ++ (id, r) ∷ [])) (roots ++ r ∷ [])
          ≡ map (λ q. members q done) roots ++ (id ∷ []) ∷ []
    split_last apart =
        rw
          (
            map-append,
            groups_same done id r roots apart,
            members-append r done id r,
            ==_refl r,
            h.absent r e,
          )
          refl

    found :
        (q : ℕ) (o : Option ℕ)
        → index_of q roots ≡ o
        → (if r == q then some (length g.groups) else Dict.get q g.group_of)
          ≡ index_of q (roots ++ r ∷ [])
    found q none k =
        rw
          (
            h.index q,
            index_of-append q r roots,
            k,
            h.groups,
            length-map (λ z. members z done) roots,
          )
          refl
    found q (some i) k = elim (Bool-cases (r == q)) [
      | inl l ↦
          let same : q ≡ r = ground arith in cc (subst (λ z. index_of z roots ≡ some i) same k, e)
      | inr l ↦ rw (l, h.index q, index_of-append q r roots, k) refl
    ]

    gone :
        (q : ℕ)
        → (index_of q roots ≡ none) × ((r == q) ≡ false)
        → (if r == q then members q done ++ id ∷ [] else members q done) ≡ []
    gone q k = rw k.1 (h.absent q k.0)

put-SameRoots :
    (f : ℕ → ℕ) (o : Option ℕ) (r id : ℕ) (g : Grouping)
    → SameRoots f g.parent
    → SameRoots f (put o r id g).parent
unfolding put
put-SameRoots f (some i) r id g h = h
put-SameRoots f none r id g h = h

-- One turn of the loop, whatever the walk has done to the parents.
turn-Grouped :
    (done : List (ℕ × ℕ)) (roots : List ℕ) (g : Grouping) (id r s : ℕ) (parent : ℕ → ℕ)
    → Grouped done roots g
    → r ≡ s
    → Grouped
        (done ++ (id, s) ∷ [])
        (seen roots s)
        (put (Dict.get r g.group_of) r id (record g { parent = parent }))
turn-Grouped done roots g id r s parent h same =
    subst
      (λ z.
        Grouped (done ++ (id, z) ∷ []) (seen roots z)
          (put (Dict.get r g.group_of) r id (record g { parent = parent })))
      same
      (put-Grouped done roots (record g { parent = parent }) id r (Dict.get r g.group_of)
        (record { groups = h.groups; index = h.index; distinct = h.distinct; absent = h.absent })
        (sym (h.index r)))

group_from-Grouped :
    (f : ℕ → ℕ) (order : List ℕ) (position : ℕ) (done : List (ℕ × ℕ)) (roots : List ℕ)
    (g : Grouping)
    → SameRoots f g.parent
    → Grouped done roots g
    → Grouped
        (done ++ tagged f position order)
        (roots_from roots (tagged f position order))
        (group_from order position g)
unfolding group_from tagged roots_from
group_from-Grouped f [] position done roots g same h =
    subst (λ z. Grouped z roots g) (sym (append-nil done)) h
group_from-Grouped f (id ∷ order) position done roots g same h =
    let (walked, kept) = root_lem (suc position) g.parent position same.forest (omega arith) in
    let found = root (suc position) g.parent position in
    subst
      (λ z. Grouped z (roots_from (seen roots (rep f position)) (tagged f (position + 1) order)) (
        group_from order (position + 1)
          (put (Dict.get found.0 g.group_of) found.0 id (record g { parent = found.1 }))))
      (append_assoc done ((id, rep f position) ∷ []) (tagged f (position + 1) order))
      (group_from-Grouped f order (position + 1) (done ++ (id, rep f position) ∷ [])
        (seen roots (rep f position))
        (put (Dict.get found.0 g.group_of) found.0 id (record g { parent = found.1 }))
        (put-SameRoots f (Dict.get found.0 g.group_of) found.0 id (record g { parent = found.1 })
          (SameRoots-trans f g.parent found.1 same kept))
        (turn-Grouped done roots g id found.0 (rep f position) found.1 h
          (walked ∙ same.roots position)))

-- After any links, the clusters are, for each root in the order in which the roots are first seen, the
-- memories under that root in the order in which they were first linked, of two memories or more: what
-- the loop finds with a map of group numbers and with walks that still move parents.
pub clusters_lem :
    (links : List (ℕ × ℕ))
    → clusters (link_all links new) ≡ (
        let built = link_all links new in
        let tags = tagged built.parent 0 built.order in
        keep (λ group. ltb 1 (length group)) (map (λ r. members r tags) (roots_from [] tags)))
unfolding clusters
clusters_lem links =
    let f = (link_all links new).parent in
    let agrees = link_all-Agrees links (λ z. z) new new-Agrees in
    ap (keep (λ group. ltb 1 (length group)))
      (group_from-Grouped f (link_all links new).order 0 [] []
        (record { groups = []; group_of = []; parent = f })
        (record { forest = agrees.forest; roots = λ q. refl })
        (unfold Dict.get members index_of in
          record { groups = refl; index = λ r. refl; distinct = tt; absent = λ r _. refl })).groups
