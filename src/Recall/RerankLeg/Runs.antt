-- ===== src/Recall/RerankLeg/Runs.antt =====
-- memories/application/memory_recaller.rs: the runs that the second stage has judged when it ends.
use recuerdos_ai.Prelude.{
  ℕ, zero, suc, ◌+◌, ◌*◌, ◌≡◌, refl, ap, ◌∙◌, none, List, [], ◌∷◌, ◌++◌, map, arith, length, take,
  drop, ◌==◌, Bool-cases, inl, inr,
}
use mathlib.Core.List.{map-append}
use recuerdos_ai.Shared.Error.{Result, ok, err}
use recuerdos_ai.Memories.Memory.Confidence.{F32}
use recuerdos_ai.Recall.Ranker.Rerank.{Leg}
use recuerdos_ai.Recall.Receiver.{
  Event, answered, failed, timed_out, disconnected, RerankScored, Receiving, Received, zip,
  align_positions, batch_of, with_times, after_answer, receive,
}

abbrev pub judged_ids : Leg → List ℕ
judged_ids = map (λ p. p.0)

zip-judged_ids :
    (ids : List ℕ) (scores : List F32)
    → length scores ≡ length ids
    → judged_ids (zip ids scores) ≡ ids
unfolding zip
zip-judged_ids [] scores h = refl
zip-judged_ids (id ∷ ids) [] h = absurd (omega arith)
zip-judged_ids (id ∷ ids) (x ∷ scores) h = ap (◌∷◌ id) (zip-judged_ids ids scores (omega arith))

pub align-judged_ids :
    (ids : List ℕ) (scores : List F32) (pairs : Leg)
    → align_positions ids scores ≡ ok pairs
    → judged_ids pairs ≡ ids
unfolding align_positions
align-judged_ids ids scores pairs h = ground (arith, zip-judged_ids ids scores)

pub take_nil : (n : ℕ) → take {A = ℕ} n [] ≡ []
take_nil zero = refl
take_nil (suc n) = refl

take-batch :
    (n chunk m : ℕ) (ids : List ℕ)
    → n + chunk ≡ m
    → take n ids ++ take chunk (drop n ids) ≡ take m ids
take-batch zero chunk m ids h = ap (λ k. take k ids) (omega arith)
take-batch (suc n) chunk zero ids h = absurd (omega arith)
take-batch (suc n) chunk (suc m) [] h = take_nil chunk
take-batch (suc n) chunk (suc m) (id ∷ ids) h = ap (◌∷◌ id) (take-batch n chunk m ids (omega arith))

next_end : (n chunk : ℕ) → n * chunk + chunk ≡ suc n * chunk
next_end n chunk = grind arith

module _ (ids : List ℕ) (chunk runs : ℕ) where
  -- Whole runs from the top of the head.
  abbrev pub IsPrefix : Receiving → Type 0
  IsPrefix r = judged_ids r.judged ≡ take (r.next_run * chunk) ids

  abbrev pub Ends : Received → Type 0
  Ends (r, o) = IsPrefix r × (o ≡ none → r.next_run ≡ runs)

  after_answer-Ends :
      (answer : RerankScored) (r : Receiving) (continue : Receiving → Received) (o : Result Leg)
      → IsPrefix r
      → ((pairs : Leg) → o ≡ ok pairs → judged_ids pairs ≡ batch_of ids chunk r.next_run)
      → ((s : Receiving) → IsPrefix s → Ends (continue s))
      → Ends (after_answer runs answer r continue o)
  unfolding after_answer with_times batch_of
  after_answer-Ends answer r continue (err e) h b c = (h, λ k. cc)
  after_answer-Ends answer r continue (ok pairs) h b c =
      elim (Bool-cases (suc r.next_run == runs)) [
        | inl e ↦ rw e (longer, λ k. ground arith)
        | inr e ↦ rw e (c _ longer)
      ]
    where
      longer : judged_ids (r.judged ++ pairs) ≡ take (suc r.next_run * chunk) ids
      longer =
          map-append (λ p. p.0) r.judged pairs
          ∙ ap (λ xs. xs ++ judged_ids pairs) h
          ∙ ap (◌++◌ (take (r.next_run * chunk) ids)) (b pairs refl)
          ∙ take-batch (r.next_run * chunk) chunk (suc r.next_run * chunk) ids
              (next_end r.next_run chunk)

  pub receive-Ends :
      (events : List Event) (r : Receiving) → IsPrefix r → Ends (receive ids chunk runs events r)
  unfolding receive
  receive-Ends [] r h = (h, λ e. cc)
  receive-Ends (timed_out ∷ events) r h = (h, λ e. cc)
  receive-Ends (disconnected ∷ events) r h = (h, λ e. cc)
  receive-Ends (failed error ∷ events) r h = (h, λ e. cc)
  receive-Ends (answered answer ∷ events) r h =
      after_answer-Ends answer r (λ s. receive ids chunk runs events s)
        (align_positions (batch_of ids chunk r.next_run) answer.scores) h
        (align-judged_ids (batch_of ids chunk r.next_run) answer.scores)
        (λ s k. receive-Ends events s k)
