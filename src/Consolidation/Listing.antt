-- ===== src/Consolidation/Listing.antt =====
-- What the list of a user's memories, sqlite_memory_repository.rs, `list`, says of the rows.
use recuerdos_ai.Prelude.{
  ◌≡◌, refl, ap, ◌∙◌, Bool, true, false, ◌&&◌, ◌||◌, List, [], ◌∷◌, map, arith, keep, All, All-of,
  All-kept, All-map, if-cases, Bool-cases, inl, inr, any_where, leb,
}
use recuerdos_ai.Identity.UserContext.{UserContext}
use recuerdos_ai.Memories.Memory.{Memory}
use recuerdos_ai.Memories.Repository.{
  Store, Row, list_memories, newest_first, insert_newest, is_listed, owned_by,
}

module _ (P : Memory → Type 0) where
  insert_newest-All : (m : Memory) (ms : List Memory) → P m → All P ms → All P (insert_newest m ms)
  unfolding insert_newest
  insert_newest-All m [] p h = (p, tt)
  insert_newest-All m (n ∷ ns) p h =
      if-cases (All P) (leb n.created_at m.created_at) (λ _. (p, h))
        (λ _. (h.0, insert_newest-All m ns p h.1))

  newest_first-All : (ms : List Memory) → All P ms → All P (newest_first ms)
  unfolding newest_first
  newest_first-All [] h = tt
  newest_first-All (m ∷ ms) h = insert_newest-All m (newest_first ms) h.0 (newest_first-All ms h.1)

  -- What holds of the memory of each listed row holds of each memory of the list.
  pub list_memories-All :
      (context : UserContext) (store : Store)
      → All (λ (row : Row). is_listed context false row ≡ true → P row.memory) store.rows
      → All P (list_memories context false store)
  unfolding list_memories
  list_memories-All context store h =
      newest_first-All _ (All-map P (λ (r : Row). r.memory) _ (kept store.rows h))
    where
      kept :
          (rows : List Row)
          → All (λ (row : Row). is_listed context false row ≡ true → P row.memory) rows
          → All (λ (row : Row). P row.memory) (keep (is_listed context false) rows)
      kept rows h = All-of _ _ _ (λ row k. k.0 k.1) (All-kept _ (is_listed context false) rows h)

pub All-any {ℓ} : {A : Type ℓ} (P : A → Type 0) (xs : List A) → ((x : A) → P x) → All P xs
All-any P [] h = tt
All-any P (x ∷ xs) h = (h x, All-any P xs h)

pub is_listed-mine :
    (context : UserContext) (row : Row)
    → is_listed context false row ≡ true
    → row.memory.user_id ≡ context.user_id
unfolding is_listed owned_by
is_listed-mine context row e = ground arith

module _ (p : Memory → Bool) where
  any_where-insert_newest :
      (m : Memory) (ms : List Memory) → any_where p (insert_newest m ms) ≡ (p m || any_where p ms)
  unfolding insert_newest any_where
  any_where-insert_newest m [] = refl
  any_where-insert_newest m (n ∷ ns) = elim (Bool-cases (leb n.created_at m.created_at)) [
    | inl e ↦ rw e refl
    | inr e ↦ let rest = any_where-insert_newest m ns in rw e (ground arith)
  ]

  any_where-newest_first : (ms : List Memory) → any_where p (newest_first ms) ≡ any_where p ms
  unfolding newest_first any_where
  any_where-newest_first [] = refl
  any_where-newest_first (m ∷ ms) =
      any_where-insert_newest m (newest_first ms) ∙ ap (λ b. p m || b) (any_where-newest_first ms)

pub any_where-keep {ℓ} :
    {A : Type ℓ} (p q : A → Bool) (xs : List A)
    → any_where p (keep q xs) ≡ any_where (λ x. q x && p x) xs
unfolding keep any_where
any_where-keep p q [] = refl
any_where-keep p q (x ∷ xs) = elim (Bool-cases (q x)) [
  | inl e ↦ rw (e, any_where-keep p q xs) refl
  | inr e ↦ rw (e, any_where-keep p q xs) refl
]

any_where-map {ℓ κ} :
    {A : Type ℓ} {B : Type κ} (p : B → Bool) (g : A → B) (xs : List A)
    → any_where p (map g xs) ≡ any_where (λ x. p (g x)) xs
unfolding any_where
any_where-map p g [] = refl
any_where-map p g (x ∷ xs) = ap (λ b. p (g x) || b) (any_where-map p g xs)

pub any_where-list_memories :
    (p : Memory → Bool) (context : UserContext) (store : Store)
    → any_where p (list_memories context false store)
      ≡ any_where (λ (row : Row). is_listed context false row && p row.memory) store.rows
unfolding list_memories
any_where-list_memories p context store =
    any_where-newest_first p _
    ∙ any_where-map p (λ (r : Row). r.memory) _
    ∙ any_where-keep (λ (r : Row). p r.memory) (is_listed context false) store.rows

-- Each element is found in the list by a test that it passes itself.
pub any_where_self {ℓ} :
    {A : Type ℓ} (C : A → Type 0) (g : A → A → Bool) (xs : List A)
    → ((x : A) → C x → g x x ≡ true)
    → All (λ x. C x → any_where (g x) xs ≡ true) xs
unfolding any_where
any_where_self C g [] h = tt
any_where_self C g (x ∷ xs) h = (
  (λ c. let own = h x c in ground arith),
  All-of _ _ xs (λ y k c. let later = k c in ground arith) (any_where_self C g xs h),
)
