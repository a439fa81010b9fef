-- ===== src/Recall/RerankLeg/Scores.antt =====
-- memories/application/memory_recaller.rs: what the second stage has judged when it ends.
use recuerdos_ai.Prelude.{
  ℕ, zero, suc, ◌+◌, ◌-◌, ◌*◌, ◌/◌, ◌≤◌, ◌<◌, ◌≡◌, refl, sym, ap, ◌∙◌, subst, true, Option, none,
  some, List, [], ◌∷◌, map, arith, length, take, ◌==◌, ltb, Bool-cases, inl, inr,
}
use mathlib.Core.Logic.{◌↔◌}
use native.Mathlib.Nat.{div-lt_iff_lt-mul}
use recuerdos_ai.Shared.Error.{Result, ok, err, ◌>>=◌, >>=-eq-ok}
use recuerdos_ai.Text.{Text}
use recuerdos_ai.Recall.Sorting.{
  Shuffle, none_left, keep_first, swap_first, and_then, map-Shuffle, sort_by-Shuffle,
}
use recuerdos_ai.Recall.Ranker.{ScoredMemory}
use recuerdos_ai.Recall.Ranker.Rerank.{Leg}
use recuerdos_ai.Recall.RerankLeg.{
  RerankLeg, LegResult, leg, failure, leg_of, partial_leg, finish, Reranker, ids_of, chunk_of,
  div_ceil, unhurried, rerank_scores, candidates_of,
}
use recuerdos_ai.Recall.Receiver.{
  Received, RerankSkip, model, deadline, align_positions, order_best_first,
}
use recuerdos_ai.Recall.RerankLeg.Runs.{judged_ids, align-judged_ids, take_nil, Ends, receive-Ends}

take-length-take : (n : ℕ) (ids : List ℕ) → take (length (take n ids)) ids ≡ take n ids
take-length-take zero ids = refl
take-length-take (suc n) [] = refl
take-length-take (suc n) (id ∷ ids) = ap (◌∷◌ id) (take-length-take n ids)

take_all : (n : ℕ) (ids : List ℕ) → length ids ≤ n → take n ids ≡ ids
take_all n [] h = take_nil n
take_all zero (id ∷ ids) h = absurd (omega arith)
take_all (suc n) (id ∷ ids) h = ap (◌∷◌ id) (take_all n ids (omega arith))

length-map : {A B : Type 0} (g : A → B) (xs : List A) → length (map g xs) ≡ length xs
length-map g [] = refl
length-map g (x ∷ xs) = ap suc (length-map g xs)

length-Shuffle : {A : Type 0} {xs ys : List A} → Shuffle xs ys → length xs ≡ length ys
length-Shuffle none_left = refl
length-Shuffle (keep_first x s) = ap suc (length-Shuffle s)
length-Shuffle (swap_first x y xs) = refl
length-Shuffle (and_then s t) = length-Shuffle s ∙ length-Shuffle t

-- The best-first order of pairs that judge the first rows of the head.
abbrev pub IsLegOf : List ℕ → RerankLeg → Type 0
IsLegOf ids l =
    (2 ≤ length l.scores)
    × Shuffle (take (length l.scores) ids) (judged_ids l.scores)
    × (l.complete ≡ true → length l.scores ≡ length ids)

abbrev pub IsSound : List ℕ → LegResult → Type 0
IsSound ids (leg l) = IsLegOf ids l
IsSound ids (failure e) = Unit

-- The judged pairs, in whichever order they are served.
ordered_lem :
    (ids : List ℕ) (n : ℕ) (judged : Leg)
    → judged_ids judged ≡ take n ids
    → Shuffle (take (length (order_best_first judged)) ids) (judged_ids (order_best_first judged))
      × (length (order_best_first judged) ≡ length (take n ids))
unfolding order_best_first
ordered_lem ids n judged h = (
  subst (λ xs. Shuffle xs (judged_ids (order_best_first judged)))
      (sym (ap (λ k. take k ids) long ∙ take-length-take n ids))
      (subst (λ xs. Shuffle xs (judged_ids (order_best_first judged))) h
        (map-Shuffle (λ p. p.0) reordered)),
  long,
)
  where
    reordered : Shuffle judged (order_best_first judged)
    reordered = sort_by-Shuffle _ judged

    long : length (order_best_first judged) ≡ length (take n ids)
    long = sym (length-Shuffle reordered) ∙ sym (length-map (λ p. p.0) judged) ∙ ap length h

finish-IsSound :
    (ids : List ℕ) (chunk runs : ℕ) (received : Received)
    → 2 ≤ length ids
    → length ids ≤ runs * chunk
    → Ends ids chunk runs received
    → IsSound ids (finish received)
unfolding finish partial_leg leg_of
finish-IsSound ids chunk runs (r, none) t f h =
    let (s, l) = ordered_lem ids (r.next_run * chunk) r.judged h.0 in
    let all =
      take_all (r.next_run * chunk) ids (subst (λ k. length ids ≤ k * chunk) (sym (h.1 refl)) f) in
    (omega (arith, l, ap length all), s, λ _. omega (arith, l, ap length all))
finish-IsSound ids chunk runs (r, some e) t f h =
    partial_lem e.skip (ordered_lem ids (r.next_run * chunk) r.judged h.0)
  where
    partial_lem :
        (skip : RerankSkip)
        → Shuffle
            (take (length (order_best_first r.judged)) ids)
            (judged_ids (order_best_first r.judged))
          × (length (order_best_first r.judged) ≡ length (take (r.next_run * chunk) ids))
        → IsSound ids (partial_leg skip e r)
    partial_lem model k = tt
    partial_lem deadline k = elim (Bool-cases (ltb (length (order_best_first r.judged)) 2)) [
      | inl b ↦ rw b tt
      | inr b ↦ rw b (ground arith, k.0, λ c. cc)
    ]

nothing_yet : (chunk : ℕ) → 0 ≡ 0 * chunk
nothing_yet chunk = omega arith

chunk_of_pos : (preferred : Option ℕ) (len : ℕ) → 0 < chunk_of preferred len
unfolding chunk_of
chunk_of_pos none len = omega arith
chunk_of_pos (some n) len = omega arith

div_ceil-mul : (len chunk : ℕ) → 0 < chunk → len ≤ div_ceil len chunk * chunk
unfolding div_ceil
div_ceil-mul len chunk h = covered ((len + (chunk - 1)) / chunk) (div-lt_iff_lt-mul h) (omega arith)
  where
    covered :
        (q : ℕ)
        → ((len + (chunk - 1)) / chunk < q + 1) ↔ (len + (chunk - 1) < (q + 1) * chunk)
        → (len + (chunk - 1)) / chunk < q + 1
        → len ≤ q * chunk
    covered q e l = grind (arith, e.0 l)

unhurried-IsSound :
    (ids : List ℕ) (took : ℕ) (o : Result Leg)
    → 2 ≤ length ids
    → ((pairs : Leg) → o ≡ ok pairs → judged_ids pairs ≡ ids)
    → IsSound ids (unhurried took o)
unfolding unhurried
unhurried-IsSound ids took (err e) t h = tt
unhurried-IsSound ids took (ok pairs) t h =
    let all = take_all (length ids) ids (omega arith) in
    let (s, l) = ordered_lem ids (length ids) pairs (h pairs refl ∙ sym all) in
    (omega (arith, l, ap length all), s, λ _. omega (arith, l, ap length all))

-- Whatever the reranker answers and whenever the deadline passes, a head of two rows or more is
-- judged in this way: either the stage fails, or it gives a leg of at least two scores, which are
-- those of the first rows of the head, each once; and of all of them, if the leg calls itself complete.
pub rerank_scores_lem :
    (timeout : ℕ) (reranker : Reranker) (query : Text) (head : List ScoredMemory)
    → 2 ≤ length head
    → IsSound (ids_of head) (rerank_scores timeout reranker query head)
unfolding rerank_scores
rerank_scores_lem timeout reranker query head t = elim (Bool-cases (timeout == 0)) [
  | inl e ↦ rw e (unhurried-IsSound (ids_of head) reranker.took_ms _ long one_call)
  | inr e ↦ rw e (
      finish-IsSound (ids_of head) chunk runs _ long
        (subst (λ n. n ≤ runs * chunk) (sym (length-map _ head))
          (div_ceil-mul (length head) chunk (chunk_of_pos reranker.preferred_chunk (length head))))
        (receive-Ends (ids_of head) chunk runs _ _
          (subst (λ n. [] ≡ take n (ids_of head)) (nothing_yet chunk) refl)))
]
  where
    chunk : ℕ
    chunk = chunk_of reranker.preferred_chunk (length head)

    runs : ℕ
    runs = div_ceil (length head) chunk

    long : 2 ≤ length (ids_of head)
    long = omega (arith, length-map (λ (s : ScoredMemory). s.memory.id) head)

    one_call :
        (pairs : Leg)
        → (reranker.score query (candidates_of head) >>= align_positions (ids_of head)) ≡ ok pairs
        → judged_ids pairs ≡ ids_of head
    one_call pairs h =
        let (scores, e, k) = >>=-eq-ok (reranker.score query (candidates_of head)) _ h in
        align-judged_ids (ids_of head) scores pairs k
