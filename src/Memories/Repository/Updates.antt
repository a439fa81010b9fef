-- ===== src/Memories/Repository/Updates.antt =====
-- What updates of the rows that pass a test make of a table.
use recuerdos_ai.Prelude.{
  ◌≡◌, refl, Bool, true, false, not, ◌&&◌, ◌||◌, List, [], ◌∷◌, arith, any_where, count_where,
  update_where, Bool-cases, inl, inr, ◌==◌, suc,
}

module _ {A : Type 0} (f : A → A) where
  pub update_where-same :
      (p q : A → Bool) (xs : List A)
      → ((x : A) → p x ≡ q x)
      → update_where p f xs ≡ update_where q f xs
  unfolding update_where
  update_where-same p q [] h = refl
  update_where-same p q (x ∷ xs) h = rw (h x, update_where-same p q xs h) refl

  -- A second update that meets only rows that the first has passed over.
  pub update_where-twice :
      (p q : A → Bool) (xs : List A)
      → ((x : A) → p (f x) ≡ false)
      → update_where p f (update_where q f xs) ≡ update_where (λ x. q x || p x) f xs
  unfolding update_where
  update_where-twice p q [] h = refl
  update_where-twice p q (x ∷ xs) h = elim (Bool-cases (q x)) [
    | inl e ↦ rw (e, h x, update_where-twice p q xs h) refl
    | inr e ↦ rw (e, update_where-twice p q xs h) refl
  ]

  pub any_where-updated :
      (p q : A → Bool) (xs : List A)
      → ((x : A) → p (f x) ≡ false)
      → any_where p (update_where q f xs) ≡ any_where (λ x. not (q x) && p x) xs
  unfolding any_where update_where
  any_where-updated p q [] h = refl
  any_where-updated p q (x ∷ xs) h = elim (Bool-cases (q x)) [
    | inl e ↦ rw (e, h x, any_where-updated p q xs h) refl
    | inr e ↦ rw (e, any_where-updated p q xs h) refl
  ]

pub update_where-never :
    {A : Type 0} (p : A → Bool) (f : A → A) (xs : List A)
    → (count_where p xs == 0) ≡ true
    → update_where p f xs ≡ xs
unfolding count_where update_where
update_where-never p f [] e = refl
update_where-never p f (x ∷ xs) e = elim (Bool-cases (p x)) [
  | inl h ↦ let more : (suc (count_where p xs) == 0) ≡ true = rw h at e in ground arith
  | inr h ↦ rw (h, update_where-never p f xs (rw h at e)) refl
]

pub count_where-any_where :
    {A : Type 0} (p : A → Bool) (xs : List A) → (count_where p xs == 0) ≡ not (any_where p xs)
unfolding count_where any_where
count_where-any_where p [] = refl
count_where-any_where p (x ∷ xs) = elim (Bool-cases (p x)) [
  | inl e ↦ rw e (ground arith)
  | inr e ↦ rw e (count_where-any_where p xs)
]

module _ {A : Type 0} where
  pub any_where-same :
      (p q : A → Bool) (xs : List A) → ((x : A) → p x ≡ q x) → any_where p xs ≡ any_where q xs
  unfolding any_where
  any_where-same p q [] h = refl
  any_where-same p q (x ∷ xs) h = rw (h x, any_where-same p q xs h) refl

  pub any_where-and :
      (b : Bool) (p : A → Bool) (xs : List A) → any_where (λ x. b && p x) xs ≡ (b && any_where p xs)
  unfolding any_where
  any_where-and true p xs = refl
  any_where-and false p [] = refl
  any_where-and false p (x ∷ xs) = any_where-and false p xs
