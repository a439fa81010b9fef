-- ===== src/Consolidation/ClusterBuilder/Slots.antt =====
-- The state of the builder against a colouring of the memories, and what a new slot does to it.
use recuerdos_ai.Prelude.{
  ℕ, ◌+◌, ◌≤◌, ◌<◌, ◌≡◌, ◌≢◌, refl, sym, ap, subst, ◌∙◌, Option, none, some, List, [], ◌∷◌, arith,
  ◌==◌, ==_refl, if◌then◌else◌, Bool-cases, inl, inr, ◌↔◌, length, length-append, nat_eq,
}
use recuerdos_ai.Prelude.Dict
use recuerdos_ai.Prelude.Dict.{get-insert}
use recuerdos_ai.Consolidation.ClusterBuilder.{ClusterBuilder, new, set, slot_of, slot}
use recuerdos_ai.Consolidation.ClusterBuilder.Forest.{
  IsForest, rep, rep_unique, rep_at_root, rep_along, rep_le,
}

-- The reference: every memory has a colour, and a link repaints one colour as another.
unfoldable pub repaint : ℕ → ℕ → (ℕ → ℕ) → ℕ → ℕ
repaint a b c x = if c x == c b then c a else c x

unfoldable pub colour_all : List (ℕ × ℕ) → (ℕ → ℕ) → ℕ → ℕ
unfolding repaint
colour_all [] c = c
colour_all ((a, b) ∷ links) c = colour_all links (repaint a b c)

abbrev pub at : ClusterBuilder → ℕ → Option ℕ
at s x = Dict.get x s.index

-- The state of the builder against a colouring.
pub record Agrees (s : ClusterBuilder) (c : ℕ → ℕ) : Type 0 where
  pub forest : IsForest s.parent
  pub above : (i : ℕ) → length s.order ≤ i → rep s.parent i ≡ i
  pub inside : (x p : ℕ) → at s x ≡ some p → p < length s.order
  pub fresh : (x : ℕ) → at s x ≡ none → (c x ≡ x) × ((y : ℕ) → c y ≡ x → y ≡ x)
  pub same :
      (x y p q : ℕ)
      → at s x ≡ some p
      → at s y ≡ some q
      → (rep s.parent p ≡ rep s.parent q) ↔ (c x ≡ c y)

pub new-Agrees : Agrees new (λ x. x)
unfolding new
new-Agrees = record {
  forest = λ i. omega arith;
  above = λ i _. rep_at_root (λ j. j) i refl;
  inside = λ x p h. unfold Dict.get in cc (h);
  fresh = λ x _. (refl, λ y h. h);
  same = λ x y p q h k. unfold Dict.get in cc (h);
}

push-IsForest : (f : ℕ → ℕ) (k : ℕ) → IsForest f → IsForest (set k k f)
unfolding set
push-IsForest f k low i = let a = low i in ground arith

push_along : (f : ℕ → ℕ) (k : ℕ) → IsForest f → (i : ℕ) → rep f (set k k f i) ≡ rep f i
unfolding set
push_along f k low i = elim (Bool-cases (i == k)) [
  | inl e ↦ let same : k ≡ i = ground arith in rw e (ap (rep f) same)
  | inr e ↦ rw e (rep_along f i low)
]

push_root : (f : ℕ → ℕ) (k : ℕ) → rep f k ≡ k → (i : ℕ) → set k k f i ≡ i → rep f i ≡ i
unfolding set
push_root f k h i at_root = elim (Bool-cases (i == k)) [
  | inl e ↦ let same : k ≡ i = ground arith in subst (λ j. rep f j ≡ j) same h
  | inr e ↦ rep_at_root f i (rw e at at_root)
]

-- A new slot at the end changes no root.
push_rep : (f : ℕ → ℕ) (k : ℕ) → IsForest f → rep f k ≡ k → (i : ℕ) → rep (set k k f) i ≡ rep f i
push_rep f k low h i =
    rep_unique (set k k f) (rep f) i (push-IsForest f k low) (push_along f k low) (push_root f k h)

abbrev at_new : ℕ → ℕ → ClusterBuilder → ℕ → Option ℕ
at_new a k s x = if a == x then some k else at s x

pub some_eq : {p q : ℕ} → some p ≡ some q → p ≡ q
some_eq h = cc

module _ (s : ClusterBuilder) (c : ℕ → ℕ) (a : ℕ) (h : Agrees s c) (new_one : at s a ≡ none) where
  -- A memory that has a slot is apart from one that has none yet.
  apart_rep : (y q : ℕ) → at s y ≡ some q → rep s.parent q ≢ length s.order
  apart_rep y q e same =
      let le = rep_le s.parent q h.forest in let lt = h.inside y q e in omega arith

  apart_colour : (y q : ℕ) → at s y ≡ some q → c y ≢ c a
  apart_colour y q e same =
      let (own, alone) = h.fresh a new_one in
      let is_a : y ≡ a = alone y (same ∙ own) in cc (subst (λ x. at s x ≡ some q) is_a e, new_one)

  new_inside : (x p : ℕ) → at_new a (length s.order) s x ≡ some p → p < length s.order + 1
  new_inside x p e = elim (Bool-cases (a == x)) [
    | inl k ↦ let is : length s.order ≡ p = some_eq (rw k at e) in omega arith
    | inr k ↦ let lt = h.inside x p (rw k at e) in omega arith
  ]

  new_fresh :
      (x : ℕ) → at_new a (length s.order) s x ≡ none → (c x ≡ x) × ((y : ℕ) → c y ≡ x → y ≡ x)
  new_fresh x e = elim (Bool-cases (a == x)) [
    | inl k ↦ cc (rw k at e)
    | inr k ↦ h.fresh x (rw k at e)
  ]

  new_same :
      (x y p q : ℕ)
      → at_new a (length s.order) s x ≡ some p
      → at_new a (length s.order) s y ≡ some q
      → (rep s.parent p ≡ rep s.parent q) ↔ (c x ≡ c y)
  new_same x y p q e k = elim (Bool-cases (a == x)) [
    | inl i ↦ elim (Bool-cases (a == y)) [
      | inl j ↦
          let is_p : length s.order ≡ p = some_eq (rw i at e) in
          let is_q : length s.order ≡ q = some_eq (rw j at k) in
          let one : x ≡ y = ground arith in
          ((λ _. ap c one), (λ _. ap (rep s.parent) (sym is_p ∙ is_q)))
      | inr j ↦
          let is_p : length s.order ≡ p = some_eq (rw i at e) in
          let is_x : a ≡ x = ground arith in
          let top : rep s.parent p ≡ length s.order =
            subst (λ z. rep s.parent z ≡ length s.order) is_p
              (h.above (length s.order) (omega arith)) in
          (
            (λ r. absurd (apart_rep y q (rw j at k) (sym r ∙ top))),
            (λ r. absurd (apart_colour y q (rw j at k) (sym r ∙ ap c (sym is_x)))),
          )
    ]
    | inr i ↦ elim (Bool-cases (a == y)) [
      | inl j ↦
          let is_q : length s.order ≡ q = some_eq (rw j at k) in
          let is_y : a ≡ y = ground arith in
          let top : rep s.parent q ≡ length s.order =
            subst (λ z. rep s.parent z ≡ length s.order) is_q
              (h.above (length s.order) (omega arith)) in
          (
            (λ r. absurd (apart_rep x p (rw i at e) (r ∙ top))),
            (λ r. absurd (apart_colour x p (rw i at e) (r ∙ ap c (sym is_y)))),
          )
      | inr j ↦ h.same x y p q (rw i at e) (rw j at k)
    ]
  ]

-- What `slot` gives for the memory `a`.
pub record Slotted (a : ℕ) (c : ℕ → ℕ) (s : ClusterBuilder) (p : ℕ) (s' : ClusterBuilder)
    : Type 0 where
  pub agrees : Agrees s' c
  pub own : at s' a ≡ some p
  pub kept : (x q : ℕ) → at s x ≡ some q → at s' x ≡ some q

kept_new :
    (s : ClusterBuilder) (a x q : ℕ)
    → at s a ≡ none
    → at s x ≡ some q
    → at_new a (length s.order) s x ≡ some q
kept_new s a x q new_one e = elim (Bool-cases (a == x)) [
  | inl k ↦ let same : a ≡ x = ground arith in cc (subst (λ z. at s z ≡ none) same new_one, e)
  | inr k ↦ rw k e
]

slot_of-Slotted :
    (a : ℕ) (c : ℕ → ℕ) (s : ClusterBuilder) (o : Option ℕ)
    → Agrees s c
    → at s a ≡ o
    → Slotted a c s (slot_of a o s).0 (slot_of a o s).1
unfolding slot_of
slot_of-Slotted a c s (some p) h e = record { agrees = h; own = e; kept = λ x q k. k }
slot_of-Slotted a c s none h e = record {
  agrees = record {
    forest = push-IsForest s.parent (length s.order) h.forest;
    above = λ i le.
        (let longer = length-append s.order (a ∷ []) in
          push_rep s.parent (length s.order) h.forest (h.above _ (omega arith)) i
          ∙ h.above i (omega arith));
    inside = λ x p k.
        (let longer = length-append s.order (a ∷ []) in
          let lt = new_inside s c a h e x p (sym (get-insert a x (length s.order) s.index) ∙ k) in
          omega arith);
    fresh = λ x k. new_fresh s c a h e x (sym (get-insert a x (length s.order) s.index) ∙ k);
    same = λ x y p q k l.
        rw
          (
            push_rep s.parent (length s.order) h.forest (h.above _ (omega arith)) p,
            push_rep s.parent (length s.order) h.forest (h.above _ (omega arith)) q,
          )
          (new_same s c a h e x y p q (sym (get-insert a x (length s.order) s.index) ∙ k)
            (sym (get-insert a y (length s.order) s.index) ∙ l));
  };
  own = get-insert a a (length s.order) s.index ∙ rw (==_refl a) refl;
  kept = λ x q k. get-insert a x (length s.order) s.index ∙ kept_new s a x q e k;
}

pub slot-Slotted :
    (a : ℕ) (c : ℕ → ℕ) (s : ClusterBuilder) → Agrees s c → Slotted a c s (slot a s).0 (slot a s).1
unfolding slot
slot-Slotted a c s h = slot_of-Slotted a c s (Dict.get a s.index) h refl
