-- ===== src/Recall/Recaller/Served.antt =====
-- memories/application/memory_recaller.rs: what a recall may serve.
use recuerdos_ai.Prelude.{
  All-take, ℕ, ◌≤◌, ◌≡◌, refl, Bool, true, false, Option, none, some, is_some, List, [], ◌∷◌, map,
  keep, All, All-of, Some, Bool-cases, inl, inr, arith, is_empty, length, length-take_le,
}
use recuerdos_ai.Shared.Error.{RaError, Result, ok, err}
use recuerdos_ai.Identity.UserContext.{UserContext}
use recuerdos_ai.Memories.Memory.{Memory}
use recuerdos_ai.Memories.Memory.Confidence.{F32}
use recuerdos_ai.Memories.Repository.{Store, Row, find_many, is_among, owned_by}
use recuerdos_ai.Recall.Sorting.{All-Shuffle}
use recuerdos_ai.Recall.Floats.{less, at_most, nought}
use recuerdos_ai.Recall.Query.{RecallQuery}
use recuerdos_ai.Recall.Ranker.{ScoredMemory}
use recuerdos_ai.Recall.Expansion.Window.{apply_expansion_lem}
use recuerdos_ai.Recall.RerankLeg.{rerank_leg}
use recuerdos_ai.Recall.Recaller.{
  Settings, RecallPorts, RecallReport, Legs, first_stage, report_of, nothing_found, served,
  served_unless, served_read, candidates_of, legs_of, with_vectors, with_embedding, execute_with,
  candidate_ids, Hits,
}
use recuerdos_ai.Recall.Filters.{matches}
use recuerdos_ai.Recall.Recaller.Stages.{rerank_leg-All, first_stage-All}

-- A memory that stands in a row of the caller that is not deleted.
abbrev pub IsHeld : UserContext → Store → Memory → Type 0
IsHeld context store m =
    (m.user_id ≡ context.user_id)
    × Some (λ (row : Row). (row.memory ≡ m) × (row.deleted_at ≡ none)) store.rows

module _ {E : Type 0} (settings : Settings) (ports : RecallPorts E) (context : UserContext)
    (query : RecallQuery) (now : ℕ) where
  -- What a recall may say of a row, by its memory and its relevance.
  abbrev Served : Store → Memory → F32 → Type 0
  Served store m x =
      IsHeld context store m
      × (matches query now m ≡ true)
      × (less nought query.min_relevance ≡ true → at_most query.min_relevance x ≡ true)

  abbrev pub IsServable : Store → ScoredMemory → Type 0
  IsServable store s = Served store s.memory s.relevance

  mine :
      (ids : List ℕ) (row : Row)
      → is_among context ids row ≡ true
      → row.memory.user_id ≡ context.user_id
  unfolding is_among owned_by
  mine ids row e = ground arith

  present : (ids : List ℕ) (row : Row) → is_among context ids row ≡ true → row.deleted_at ≡ none
  unfolding is_among owned_by
  present ids row e = of_none row.deleted_at (ground arith)
    where
      of_none : (o : Option ℕ) → is_some o ≡ false → o ≡ none
      of_none none h = refl
      of_none (some at) h = cc

  abbrev HeldIn : List Row → Memory → Type 0
  HeldIn rows m =
      (m.user_id ≡ context.user_id)
      × Some (λ (row : Row). (row.memory ≡ m) × (row.deleted_at ≡ none)) rows

  held_rows :
      (ids : List ℕ) (rows : List Row)
      → All (HeldIn rows) (map (λ (r : Row). r.memory) (keep (is_among context ids) rows))
  unfolding keep
  held_rows ids [] = tt
  held_rows ids (row ∷ rows) =
      let later : All (HeldIn (row ∷ rows))
          (map (λ (r : Row). r.memory) (keep (is_among context ids) rows)) =
        All-of _ _ _ (λ m h. (h.0, inr h.1)) (held_rows ids rows) in
      elim (Bool-cases (is_among context ids row)) [
        | inl e ↦ rw e ((mine ids row e, inl (refl, present ids row e)), later)
        | inr e ↦ rw e later
      ]

  found-All :
      (ids : List ℕ) (store : Store) → All (IsHeld context store) (find_many context ids store)
  unfolding find_many
  found-All ids store = elim (Bool-cases (is_empty ids)) [
    | inl e ↦ rw e tt
    | inr e ↦ rw e (held_rows ids store.rows)
  ]

  matching :
      (store : Store) (ms : List Memory)
      → All (IsHeld context store) ms
      → All
          (λ m. (x : F32) → IsHeld context store m × (matches query now m ≡ true))
          (keep (matches query now) ms)
  unfolding keep
  matching store [] h = tt
  matching store (m ∷ ms) h = elim (Bool-cases (matches query now m)) [
    | inl e ↦ rw e ((λ x. (h.0, e)), matching store ms h.1)
    | inr e ↦ rw e (matching store ms h.1)
  ]

  report-Servable :
      (legs : Legs) (store : Store) (candidates : List Memory)
      → All (λ m. (x : F32) → IsHeld context store m × (matches query now m ≡ true)) candidates
      → All (IsServable store) (report_of settings ports context query now legs candidates).results
        × (length (report_of settings ports context query now legs candidates).results
            ≤ query.limit)
  unfolding report_of
  report-Servable legs store candidates h = (
    All-take (IsServable store) query.limit _ (
        All-Shuffle (IsServable store)
          (apply_expansion_lem judged legs.graph query.limit settings.expansion_slots).0.0
          (rerank_leg-All (Served store) settings.arithmetic settings.ranker settings.stage.reranker
            settings.stage query now (first_stage settings ports context query now legs candidates)
            (All-of _ _ _ (λ s k. (k.0.0, k.0.1, k.1))
              (first_stage-All (λ m x. IsHeld context store m × (matches query now m ≡ true))
                settings ports context query now legs candidates h)))),
    length-take_le query.limit _,
  )
    where
      judged : List ScoredMemory
      judged =
          (rerank_leg settings.arithmetic settings.ranker settings.stage.reranker settings.stage
            query now (first_stage settings ports context query now legs candidates)).0

  -- What the outcome of a recall has to be for the store that it reads.
  abbrev pub Recalled : Store → Result RecallReport → Type 0
  Recalled store (err e) = Unit
  Recalled store (ok report) =
      All (IsServable store) report.results × (length report.results ≤ query.limit)

  read-Recalled :
      (fault : Option RaError) (track_access : Bool) (legs : Legs) (store : Store)
      → Recalled store
          (served_read settings ports context query now fault track_access legs store).0
  unfolding served_read candidates_of
  read-Recalled (some e) track_access legs store = tt
  read-Recalled none track_access legs store =
      report-Servable legs store _ (matching store _ (found-All (candidate_ids legs) store))

  served-Recalled :
      (nothing track_access : Bool) (legs : Legs) (store : Store)
      → Recalled store
          (served_unless settings ports context query now nothing track_access legs store).0
  unfolding served_unless nothing_found
  served-Recalled true track_access legs store = (tt, omega arith)
  served-Recalled false track_access legs store =
      read-Recalled (ports.read_fault (candidate_ids legs)) track_access legs store

  vectors-Recalled :
      (track_access : Bool) (o : Result Hits) (store : Store)
      → Recalled store (with_vectors settings ports context query now track_access o store).0
  unfolding with_vectors served
  vectors-Recalled track_access (err e) store = tt
  vectors-Recalled track_access (ok hits) store =
      served-Recalled _ track_access (legs_of settings ports context query now hits) store

  embedding-Recalled :
      (track_access : Bool) (o : Result E) (store : Store)
      → Recalled store (with_embedding settings ports context query now track_access o store).0
  unfolding with_embedding
  embedding-Recalled track_access (err e) store = tt
  embedding-Recalled track_access (ok embedding) store = vectors-Recalled track_access _ store

  -- Whatever the embedder, the indexes, the graph and the reranker answer, a recall that succeeds
  -- serves at most `limit` rows, and each is a memory of the caller that stands in the store and
  -- is not deleted, passes every filter of the query, and, where the query has a floor, is at
  -- least that relevant.
  pub recall_lem :
      (track_access : Bool) (store : Store)
      → Recalled store (execute_with settings ports context query now track_access store).0
  unfolding execute_with
  recall_lem track_access store =
      embedding-Recalled track_access (ports.embed_query query.text) store
