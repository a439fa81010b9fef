-- ===== src/Consolidation/ClusterBuilder/Links.antt =====
-- Two memories are in one tree exactly when links connect them.
use recuerdos_ai.Prelude.{
  Some, ℕ, suc, ◌<◌, ◌≤◌, ◌≡◌, ◌≢◌, refl, sym, ap, subst, ◌∙◌, none, some, List, [], ◌∷◌, arith,
  ◌==◌, if◌then◌else◌, Bool-cases, inl, inr, ◌↔◌, length,
}
use recuerdos_ai.Consolidation.ClusterBuilder.{
  ClusterBuilder, new, slot, root, link_slots, link, link_all,
}
use recuerdos_ai.Consolidation.ClusterBuilder.Forest.{rep, rep_le, joined, link_slots_lem, root_lem}
use recuerdos_ai.Consolidation.ClusterBuilder.Slots.{
  Agrees, at, repaint, colour_all, slot-Slotted, new-Agrees,
}

-- The roots after a join and the colours after a repainting tell the same memories apart.
same_joined :
    (r s t u : ℕ) (a b x y : ℕ)
    → (r ≡ s) ↔ (a ≡ b)
    → (t ≡ u) ↔ (x ≡ y)
    → (t ≡ r) ↔ (x ≡ a)
    → (t ≡ s) ↔ (x ≡ b)
    → (u ≡ r) ↔ (y ≡ a)
    → (u ≡ s) ↔ (y ≡ b)
    → (joined r s t ≡ joined r s u) ↔ ((if x == b then a else x) ≡ (if y == b then a else y))
same_joined r s t u a b x y rs tu tr ts ur us = ground arith

joined_above : (r s i : ℕ) → r < i → s < i → joined r s i ≡ i
joined_above r s i h k = ground arith

module _ (s : ClusterBuilder) (c : ℕ → ℕ) (a b p q : ℕ) (h : Agrees s c) (at_a : at s a ≡ some p)
    (at_b : at s b ≡ some q) where
  fresh_apart : (x y r : ℕ) → at s x ≡ none → at s y ≡ some r → y ≢ x
  fresh_apart x y r e k same = cc (subst (λ z. at s z ≡ some r) same k, e)

  repaint_fresh :
      (x : ℕ) → at s x ≡ none → (repaint a b c x ≡ x) × ((y : ℕ) → repaint a b c y ≡ x → y ≡ x)
  unfolding repaint
  repaint_fresh x e =
      let (own, alone) = h.fresh x e in
      let not_a = fresh_apart x a p e at_a in
      let not_b = fresh_apart x b q e at_b in
      (
        elim (Bool-cases (c x == c b)) [
          | inl k ↦ let same : c b ≡ x = ground (arith, own, k) in absurd (not_b (alone b same))
          | inr k ↦ rw k own
        ],
        λ y painted. elim (Bool-cases (c y == c b)) [
          | inl k ↦ absurd (not_a (alone a (rw k at painted)))
          | inr k ↦ alone y (rw k at painted)
        ],
      )

  linked-Agrees : Agrees (record s { parent = link_slots p q s.parent }) (repaint a b c)
  linked-Agrees =
      let (forest, roots) = link_slots_lem s.parent p q h.forest in
      record {
        forest = forest;
        above = λ i le.
            roots i
            ∙ ap (joined (rep s.parent p) (rep s.parent q)) (h.above i le)
            ∙ joined_above (rep s.parent p) (rep s.parent q) i (below_end a p at_a i le)
                (below_end b q at_b i le);
        inside = h.inside;
        fresh = repaint_fresh;
        same = λ x y t u e k.
            rw (roots t, roots u)
              (unfold repaint in
                same_joined (rep s.parent p) (rep s.parent q) (rep s.parent t) (rep s.parent u)
                  (c a) (c b) (c x) (c y) (h.same a b p q at_a at_b) (h.same x y t u e k)
                  (h.same x a t p e at_a) (h.same x b t q e at_b) (h.same y a u p k at_a)
                  (h.same y b u q k at_b));
      }
    where
      below_end : (x r : ℕ) → at s x ≡ some r → (i : ℕ) → length s.order ≤ i → rep s.parent r < i
      below_end x r e i le =
          let lt = h.inside x r e in let down = rep_le s.parent r h.forest in omega arith

repaint_self : (a : ℕ) (c : ℕ → ℕ) (x : ℕ) → c x ≡ repaint a a c x
unfolding repaint
repaint_self a c x = ground arith

link-Agrees :
    (a b : ℕ) (c : ℕ → ℕ) (s : ClusterBuilder) → Agrees s c → Agrees (link a b s) (repaint a b c)
unfolding link
link-Agrees a b c s h = elim (Bool-cases (a == b)) [
  | inl e ↦
      let same : a ≡ b = ground arith in
      rw e (
        subst (λ z. Agrees s (repaint a z c)) same
          (subst (Agrees s) (λ i x. repaint_self a c x i) h))
  | inr e ↦
      let one = slot-Slotted a c s h in
      let two = slot-Slotted b c (slot a s).1 one.agrees in
      rw e (
        linked-Agrees (slot b (slot a s).1).1 c a b (slot a s).0 (slot b (slot a s).1).0 two.agrees
          (two.kept a (slot a s).0 one.own) two.own)
]

pub link_all-Agrees :
    (links : List (ℕ × ℕ)) (c : ℕ → ℕ) (s : ClusterBuilder)
    → Agrees s c
    → Agrees (link_all links s) (colour_all links c)
unfolding link_all colour_all
link_all-Agrees [] c s h = h
link_all-Agrees ((a, b) ∷ links) c s h =
    link_all-Agrees links (repaint a b c) (link a b s) (link-Agrees a b c s h)

-- Joined by links, however indirectly.
pub data Connected (links : List (ℕ × ℕ)) : ℕ → ℕ → Type 0 where
  direct : (a b : ℕ) → Some (λ l. l ≡ (a, b)) links → Connected links a b
  itself : (a : ℕ) → Connected links a a
  back : (a b : ℕ) → Connected links a b → Connected links b a
  chain : (a b c : ℕ) → Connected links a b → Connected links b c → Connected links a c

colour_keeps :
    (links : List (ℕ × ℕ)) (c : ℕ → ℕ) (x y : ℕ)
    → c x ≡ c y
    → colour_all links c x ≡ colour_all links c y
unfolding colour_all
colour_keeps [] c x y h = h
colour_keeps ((a, b) ∷ links) c x y h =
    colour_keeps links (repaint a b c) x y (unfold repaint in rw h refl)

painted_alike : (a b : ℕ) (c : ℕ → ℕ) → repaint a b c a ≡ repaint a b c b
unfolding repaint
painted_alike a b c = ground arith

colour_direct :
    (links : List (ℕ × ℕ)) (c : ℕ → ℕ) (a b : ℕ)
    → Some (λ l. l ≡ (a, b)) links
    → colour_all links c a ≡ colour_all links c b
unfolding colour_all
colour_direct [] c a b h = absurd h
colour_direct ((a', b') ∷ links) c a b (inl e) =
    subst
      (λ (l : ℕ × ℕ).
        colour_all links (repaint l.0 l.1 c) a ≡ colour_all links (repaint l.0 l.1 c) b)
      (sym e) (colour_keeps links (repaint a b c) a b (painted_alike a b c))
colour_direct ((a', b') ∷ links) c a b (inr h) = colour_direct links (repaint a' b' c) a b h

Connected-colour :
    (links : List (ℕ × ℕ)) (c : ℕ → ℕ) {x y : ℕ}
    → Connected links x y
    → colour_all links c x ≡ colour_all links c y
Connected-colour links c (direct a b h) = colour_direct links c a b h
Connected-colour links c (itself a) = refl
Connected-colour links c (back a b h) = sym (Connected-colour links c h)
Connected-colour links c (chain a b d h k) = Connected-colour links c h ∙ Connected-colour links c k

module _ (all : List (ℕ × ℕ)) where
  -- Memories of one colour are connected.
  abbrev IsSound : (ℕ → ℕ) → Type 0
  IsSound c = (x y : ℕ) → c x ≡ c y → Connected all x y

  repaint-IsSound : (a b : ℕ) (c : ℕ → ℕ) → Connected all a b → IsSound c → IsSound (repaint a b c)
  unfolding repaint
  repaint-IsSound a b c ab h x y e = elim (Bool-cases (c x == c b)) [
    | inl k ↦ elim (Bool-cases (c y == c b)) [
      | inl l ↦ h x y (ground arith)
      | inr l ↦
          let xb : c x ≡ c b = ground arith in
          let ay : c a ≡ c y = rw (k, l) at e in
          chain x b y (h x b xb) (chain b a y (back a b ab) (h a y ay))
    ]
    | inr k ↦ elim (Bool-cases (c y == c b)) [
      | inl l ↦
          let yb : c b ≡ c y = ground arith in
          let xa : c x ≡ c a = rw (k, l) at e in chain x a y (h x a xa) (chain a b y ab (h b y yb))
      | inr l ↦ h x y (rw (k, l) at e)
    ]
  ]

  colour_all-IsSound :
      (links : List (ℕ × ℕ)) (c : ℕ → ℕ)
      → ((a b : ℕ) → Some (λ l. l ≡ (a, b)) links → Connected all a b)
      → IsSound c
      → IsSound (colour_all links c)
  unfolding colour_all
  colour_all-IsSound [] c k h = h
  colour_all-IsSound ((a, b) ∷ links) c k h =
      colour_all-IsSound links (repaint a b c) (λ x y m. k x y (inr m))
        (repaint-IsSound a b c (k a b (inl refl)) h)

-- After any links, two memories that were linked to anything have the same root exactly when links
-- connect them, however indirectly: the walks that halve paths and the joins compute the connected
-- components of the links, and the fuel of the walks is enough.
pub link_all_lem :
    (links : List (ℕ × ℕ)) (x y p q : ℕ)
    → at (link_all links new) x ≡ some p
    → at (link_all links new) y ≡ some q
    → ((root (suc p) (link_all links new).parent p).0
        ≡ (root (suc q) (link_all links new).parent q).0)
      ↔ Connected links x y
link_all_lem links x y p q e k =
    let agrees = link_all-Agrees links (λ z. z) new new-Agrees in
    let f = (link_all links new).parent in
    let p_root = (root_lem (suc p) f p agrees.forest (omega arith)).0 in
    let q_root = (root_lem (suc q) f q agrees.forest (omega arith)).0 in
    let same = agrees.same x y p q e k in
    (
      (λ r.
          colour_all-IsSound links links (λ z. z) (λ a b m. direct a b m)
            (λ u v t. subst (Connected links u) t (itself u)) x y
            (same.0 (sym p_root ∙ r ∙ q_root))),
      (λ c. p_root ∙ same.1 (Connected-colour links (λ z. z) c) ∙ sym q_root),
    )
