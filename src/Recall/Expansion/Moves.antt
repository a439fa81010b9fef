-- ===== src/Recall/Expansion/Moves.antt =====
-- memories/domain/recall_ranker.rs: one row moves up to a slot.
use recuerdos_ai.Prelude.{
  ℕ, zero, suc, ◌≤◌, ◌<◌, ◌≡◌, refl, Option, none, some, List, [], ◌∷◌, arith, sym, ap, ◌∙◌, subst,
  take, Some, ◌⊎◌, inl, inr, Option-cases, Bool-cases, ltb,
}
use recuerdos_ai.Recall.Sorting.{Shuffle, keep_first, swap_first, and_then, Shuffle-refl}
use recuerdos_ai.Recall.Ranker.{ScoredMemory}
use recuerdos_ai.Recall.Expansion.{row_at, remove_at, insert_at, move_to, move_hit}

some-injective {ℓ} : {A : Type ℓ} {a b : A} → some a ≡ some b → a ≡ b
some-injective h = cc

remove_at-Shuffle :
    (p : ℕ) (rows : List ScoredMemory) (hit : ScoredMemory)
    → row_at p rows ≡ some hit
    → Shuffle rows (hit ∷ remove_at p rows)
unfolding row_at remove_at
remove_at-Shuffle p [] hit h = cc
remove_at-Shuffle zero (s ∷ rest) hit h =
    subst (λ x. Shuffle (s ∷ rest) (x ∷ rest)) (some-injective h) (Shuffle-refl (s ∷ rest))
remove_at-Shuffle (suc p) (s ∷ rest) hit h =
    and_then (keep_first s (remove_at-Shuffle p rest hit h)) (swap_first s hit (remove_at p rest))

insert_at-Shuffle :
    (slot : ℕ) (hit : ScoredMemory) (rows : List ScoredMemory)
    → Shuffle (hit ∷ rows) (insert_at slot hit rows)
unfolding insert_at
insert_at-Shuffle zero hit rows = Shuffle-refl (hit ∷ rows)
insert_at-Shuffle (suc slot) hit [] = Shuffle-refl (hit ∷ [])
insert_at-Shuffle (suc slot) hit (s ∷ rest) =
    and_then (swap_first hit s rest) (keep_first s (insert_at-Shuffle slot hit rest))

pub move_to-Shuffle : (slot p : ℕ) (rows : List ScoredMemory) → Shuffle rows (move_to slot p rows)
unfolding move_to move_hit
move_to-Shuffle slot p rows = elim (Option-cases (row_at p rows)) [
  | inl e ↦ rw e (Shuffle-refl rows)
  | inr (hit, e) ↦
      rw e
        (and_then (remove_at-Shuffle p rows hit e) (insert_at-Shuffle slot hit (remove_at p rows)))
]

-- The first `n` rows.
abbrev pub Among : ScoredMemory → List ScoredMemory → Type 0
Among s = Some (λ t. t ≡ s)

remove_at-take :
    (n p : ℕ) (rows : List ScoredMemory) → n ≤ p → take n (remove_at p rows) ≡ take n rows
unfolding remove_at
remove_at-take zero p rows h = refl
remove_at-take (suc n) p [] h = refl
remove_at-take (suc n) zero (s ∷ rest) h = absurd (omega arith)
remove_at-take (suc n) (suc p) (s ∷ rest) h = ap (◌∷◌ s) (remove_at-take n p rest (omega arith))

Among-take_more :
    (n : ℕ) (s : ScoredMemory) (rows : List ScoredMemory)
    → Among s (take n rows)
    → Among s (take (suc n) rows)
Among-take_more zero s rows a = absurd a
Among-take_more (suc n) s [] a = a
Among-take_more (suc n) s (t ∷ rest) (inl k) = inl k
Among-take_more (suc n) s (t ∷ rest) (inr a) = inr (Among-take_more n s rest a)

remove_at-Among :
    (n p : ℕ) (rows : List ScoredMemory) (hit s : ScoredMemory)
    → row_at p rows ≡ some hit
    → Among s (take n rows)
    → (hit ≡ s) ⊎ Among s (take n (remove_at p rows))
unfolding remove_at row_at
remove_at-Among zero p rows hit s e a = inr a
remove_at-Among (suc n) p [] hit s e a = inr a
remove_at-Among (suc n) zero (t ∷ rest) hit s e (inl k) = inl (sym (some-injective e) ∙ k)
remove_at-Among (suc n) zero (t ∷ rest) hit s e (inr a) = inr (Among-take_more n s rest a)
remove_at-Among (suc n) (suc p) (t ∷ rest) hit s e (inl k) = inr (inl k)
remove_at-Among (suc n) (suc p) (t ∷ rest) hit s e (inr a) =
    elim (remove_at-Among n p rest hit s e a) [ inl k ↦ inl k | inr b ↦ inr (inr b) ]

insert_at-Among :
    (n slot : ℕ) (hit s : ScoredMemory) (rows : List ScoredMemory)
    → Among s (take n rows)
    → Among s (take (suc n) (insert_at slot hit rows))
unfolding insert_at
insert_at-Among n zero hit s rows a = inr a
insert_at-Among zero (suc slot) hit s rows a = absurd a
insert_at-Among (suc n) (suc slot) hit s [] a = absurd a
insert_at-Among (suc n) (suc slot) hit s (t ∷ rest) (inl k) = inl k
insert_at-Among (suc n) (suc slot) hit s (t ∷ rest) (inr a) =
    inr (insert_at-Among n slot hit s rest a)

inserted-Among :
    (n slot : ℕ) (hit : ScoredMemory) (rows : List ScoredMemory)
    → slot ≤ n
    → Among hit (take (suc n) (insert_at slot hit rows))
unfolding insert_at
inserted-Among n zero hit rows h = inl refl
inserted-Among n (suc slot) hit [] h = inl refl
inserted-Among zero (suc slot) hit (t ∷ rest) h = absurd (omega arith)
inserted-Among (suc n) (suc slot) hit (t ∷ rest) h =
    inr (inserted-Among n slot hit rest (omega arith))

-- A row among the first `n` is among the first `n + 1` when one moves up.
pub move_to-Among :
    (n slot p : ℕ) (s : ScoredMemory) (rows : List ScoredMemory)
    → slot ≤ p
    → Among s (take n rows)
    → Among s (take (suc n) (move_to slot p rows))
unfolding move_to move_hit
move_to-Among n slot p s rows g a = moved (row_at p rows) refl
  where
    hit_or_other :
        (hit : ScoredMemory)
        → slot ≤ n
        → (hit ≡ s) ⊎ Among s (take n (remove_at p rows))
        → Among s (take (suc n) (insert_at slot hit (remove_at p rows)))
    hit_or_other hit h (inl k) =
        subst (λ x. Among x (take (suc n) (insert_at slot hit (remove_at p rows)))) k
          (inserted-Among n slot hit (remove_at p rows) h)
    hit_or_other hit h (inr b) = insert_at-Among n slot hit s (remove_at p rows) b

    moved :
        (o : Option ScoredMemory)
        → row_at p rows ≡ o
        → Among s (take (suc n) (move_hit slot p o rows))
    moved none e = Among-take_more n s rows a
    moved (some hit) e = elim (Bool-cases (ltb p n)) [
      | inl b ↦ hit_or_other hit (ground arith) (remove_at-Among n p rows hit s e a)
      | inr b ↦
          insert_at-Among n slot hit s (remove_at p rows)
            (subst (Among s) (sym (remove_at-take n p rows (ground arith))) a)
    ]

-- The first row stays.
pub move_to-take_one :
    (slot p : ℕ) (rows : List ScoredMemory)
    → 0 < slot
    → slot < p
    → take 1 (move_to slot p rows) ≡ take 1 rows
unfolding move_to move_hit insert_at remove_at row_at
move_to-take_one zero p rows h g = absurd (omega arith)
move_to-take_one (suc slot) zero rows h g = absurd (omega arith)
move_to-take_one (suc slot) (suc p) [] h g = refl
move_to-take_one (suc slot) (suc p) (s ∷ rest) h g = elim (Option-cases (row_at p rest)) [
  | inl e ↦ rw e refl
  | inr (hit, e) ↦ rw e refl
]
