-- ===== src/Recall/Recaller.antt =====
-- memories/application/memory_recaller.rs: one recall, from the query to the rows that are served.
-- The embedder, the two indexes and the graph are the ports that it is built over.
pub mod Stages
pub mod Served
use recuerdos_ai.Prelude.{
  ℕ, zero, suc, Bool, true, false, not, ◌&&◌, ◌||◌, Option, none, some, is_some, List, [], ◌∷◌,
  ◌++◌, map, keep, take, drop, ltb, leb, ◌==◌, if◌then◌else◌, contains, is_empty, any_where, min,
  length, nat_eq,
}
use recuerdos_ai.Prelude.Dict
use recuerdos_ai.Text.{Text, same_text, text_eq}
use recuerdos_ai.Shared.Error.{RaError, Result, ok, err}
use recuerdos_ai.Identity.UserContext.{UserContext}
use recuerdos_ai.Memories.Category.{
  Category, preference_coding, preference_personal, decision, fact_project, fact_person, experience,
  skill, reference, custom,
}
use recuerdos_ai.Memories.Memory.{Memory, is_active_at}
use recuerdos_ai.Memories.Memory.Confidence.{F32}
use recuerdos_ai.Memories.Repository.{Store, find_many, touch_accessed}
use recuerdos_ai.Recall.Floats.{Arithmetic, less, at_most, nought}
use recuerdos_ai.Recall.Query.{RecallQuery, candidate_depth}
use recuerdos_ai.Recall.EntityKey.{canonicalize, split_whitespace, join}
use recuerdos_ai.Recall.Ranker.{
  ScoredMemory, RecallRanker, rank, rank_with_graph, relevance, apply_relevance,
}
use recuerdos_ai.Recall.Expansion.{apply_expansion}
use recuerdos_ai.Recall.RerankLeg.{
  Stage, RerankMode, RerankTrace, not_needed, off, rerank_leg, ids_of,
}
use recuerdos_ai.Recall.Seeds.{seed_candidates}
use recuerdos_ai.Recall.Filters.{matches}

abbrev pub Hits : Type 0
Hits = List (ℕ × F32)

-- `EntityGraph`, as far as a recall asks it.
pub record Graph : Type 0 where
  pub seeds : UserContext → List Text → Result (List Text)
  pub neighbours : UserContext → List Text → ℕ → Option ℕ → ℕ → Result (List ℕ)

-- `read_fault` is the error, if any, of the database on the read of the candidates, and
-- `touch_fails` whether it fails to record accesses, which is only logged.
pub record RecallPorts (Embedding : Type 0) : Type 0 where
  pub embed_query : Text → Result Embedding
  pub vector_search : UserContext → Embedding → ℕ → Result Hits
  pub text_search : UserContext → Text → ℕ → Result Hits
  pub graph : Option Graph
  pub read_fault : List ℕ → Option RaError
  pub touch_fails : List ℕ → Bool

-- What the recaller is built with.
pub record Settings : Type 0 where
  pub arithmetic : Arithmetic
  pub to_lowercase : Text → Text
  pub ranker : RecallRanker
  pub stage : Stage
  pub max_hops : ℕ
  pub hop_limit : ℕ
  pub expansion_slots : ℕ

unfoldable pub with_second_stage : Stage → Settings → Settings
with_second_stage stage settings = record settings { stage = stage }

pub record RecallReport : Type 0 where
  pub results : List ScoredMemory
  pub rerank : Option RerankTrace

unfoldable pub or_empty : Result Hits → Hits
or_empty (ok hits) = hits
or_empty (err e) = []

unfoldable pub ranked_ids : Hits → List ℕ
ranked_ids = map (λ h. h.0)

-- `contains` before each `push`.
unfoldable pub push_new : List ℕ → List ℕ → List ℕ
unfolding contains
push_new ids [] = ids
push_new ids (id ∷ more) = push_new (if contains ids id then ids else ids ++ id ∷ []) more

-- A map that is collected from pairs has the last of those with one key.
unfoldable pub collect : List (ℕ × F32) → Hits → List (ℕ × F32)
unfolding Dict.insert
collect m [] = m
collect m ((id, score) ∷ rest) = collect (Dict.insert id score m) rest

-- `copied().unwrap_or_default()`
unfoldable pub or_nought : Option F32 → F32
or_nought none = nought
or_nought (some x) = x

unfoldable pub is_graph_only : ScoredMemory → Bool
is_graph_only s =
    is_some s.match_detail.graph_rank
    && not (is_some s.match_detail.vector_rank)
    && not (is_some s.match_detail.bm25_rank)

abbrev pub results_of : Result RecallReport → Result (List ScoredMemory)
results_of (ok report) = ok report.results
results_of (err e) = err e

-- What the three legs found.
pub record Legs : Type 0 where
  pub vector : Hits
  pub keyword : Hits
  pub graph : List ℕ

unfoldable pub candidate_ids : Legs → List ℕ
unfolding ranked_ids push_new
candidate_ids legs = push_new (ranked_ids legs.vector) (ranked_ids legs.keyword ++ legs.graph)

unfoldable pub above_floor : F32 → List ScoredMemory → List ScoredMemory
unfolding less at_most keep
above_floor floor ranked =
    if less nought floor then keep (λ s. at_most floor s.relevance) ranked else ranked

unfoldable pub stage_configured : Stage → Bool
stage_configured stage = is_some stage.reranker && is_on stage.rerank_mode
  where
    is_on : RerankMode → Bool
    is_on off = false
    is_on _ = true

module _ {E : Type 0} (settings : Settings) (ports : RecallPorts E) (context : UserContext)
    (query : RecallQuery) (now : ℕ) where
  unfoldable pub hop_from : Graph → Result (List Text) → Result (List ℕ)
  hop_from graph (err e) = err e
  hop_from graph (ok []) = ok []
  hop_from graph (ok (seed ∷ seeds)) =
      graph.neighbours context (seed ∷ seeds) settings.max_hops query.as_of settings.hop_limit

  unfoldable pub hop : Graph → Result (List ℕ)
  unfolding hop_from seed_candidates
  hop graph =
      hop_from graph (graph.seeds context (seed_candidates settings.to_lowercase query.text))

  unfoldable pub hop_or_empty : Result (List ℕ) → List ℕ
  hop_or_empty (ok ids) = ids
  hop_or_empty (err e) = []

  unfoldable pub graph_leg : Option Graph → List ℕ
  unfolding hop hop_or_empty
  graph_leg none = []
  graph_leg (some graph) = hop_or_empty (hop graph)

  unfoldable pub with_relevance : Legs → ScoredMemory → ScoredMemory
  unfolding relevance collect or_nought is_graph_only Dict.get
  with_relevance legs s = record s {
    relevance =
        relevance settings.arithmetic settings.ranker
          (Dict.get s.memory.id (collect [] legs.vector))
          (or_nought (Dict.get s.memory.id (collect [] legs.keyword))) (is_graph_only s);
  }

  unfoldable pub fused : Legs → List Memory → List ScoredMemory
  unfolding rank_with_graph rank ranked_ids
  fused legs candidates =
      if is_some ports.graph
      then rank_with_graph settings.arithmetic settings.ranker (ranked_ids legs.vector)
          (ranked_ids legs.keyword) legs.graph candidates now
      else rank settings.arithmetic settings.ranker (ranked_ids legs.vector)
          (ranked_ids legs.keyword) candidates now

  -- Fused, measured, weighed, and cut at the floor.
  unfoldable pub first_stage : Legs → List Memory → List ScoredMemory
  unfolding fused with_relevance apply_relevance above_floor
  first_stage legs candidates = above_floor query.min_relevance (
      apply_relevance settings.arithmetic settings.ranker
        (map (with_relevance legs) (fused legs candidates)))

  -- The second stage, the reserved slots, and the limit.
  unfoldable pub report_of : Legs → List Memory → RecallReport
  unfolding first_stage rerank_leg apply_expansion
  report_of legs candidates =
      let (ranked, trace) =
        rerank_leg settings.arithmetic settings.ranker settings.stage.reranker settings.stage query
          now (first_stage legs candidates) in
      record {
        results =
            take query.limit
              (apply_expansion ranked legs.graph query.limit settings.expansion_slots).0;
        rerank = trace;
      }

  unfoldable pub nothing_found : RecallReport
  unfolding stage_configured
  nothing_found = record {
    results = [];
    rerank = if stage_configured settings.stage then some (not_needed 0) else none;
  }

  unfoldable pub tracked : Bool → RecallReport → Store → Store
  unfolding touch_accessed
  tracked track_access report store =
      if track_access && not (ports.touch_fails (ids_of report.results))
      then touch_accessed context (ids_of report.results) now store
      else store

  -- The candidates of the store that pass the filters.
  unfoldable pub candidates_of : Legs → Store → List Memory
  unfolding candidate_ids find_many matches keep
  candidates_of legs store = keep (matches query now) (find_many context (candidate_ids legs) store)

  unfoldable pub served_read : Option RaError → Bool → Legs → Store → Result RecallReport × Store
  unfolding report_of candidates_of tracked
  served_read (some e) track_access legs store = (err e, store)
  served_read none track_access legs store = (
    ok (report_of legs (candidates_of legs store)),
    tracked track_access (report_of legs (candidates_of legs store)) store,
  )

  unfoldable pub served_unless : Bool → Bool → Legs → Store → Result RecallReport × Store
  unfolding nothing_found served_read candidate_ids
  served_unless true track_access legs store = (ok nothing_found, store)
  served_unless false track_access legs store =
      served_read (ports.read_fault (candidate_ids legs)) track_access legs store

  unfoldable pub served : Bool → Legs → Store → Result RecallReport × Store
  unfolding served_unless candidate_ids
  served track_access legs store =
      served_unless (is_empty (candidate_ids legs)) track_access legs store

  unfoldable pub legs_of : Hits → Legs
  unfolding or_empty graph_leg candidate_depth
  legs_of hits = record {
    vector = hits;
    keyword = or_empty (ports.text_search context query.text (candidate_depth query));
    graph = graph_leg ports.graph;
  }

  unfoldable pub with_vectors : Bool → Result Hits → Store → Result RecallReport × Store
  unfolding served legs_of
  with_vectors track_access (err e) store = (err e, store)
  with_vectors track_access (ok hits) store = served track_access (legs_of hits) store

  unfoldable pub with_embedding : Bool → Result E → Store → Result RecallReport × Store
  unfolding with_vectors candidate_depth
  with_embedding track_access (err e) store = (err e, store)
  with_embedding track_access (ok embedding) store =
      with_vectors track_access (ports.vector_search context embedding (candidate_depth query))
        store

  unfoldable pub execute_with : Bool → Store → Result RecallReport × Store
  unfolding with_embedding
  execute_with track_access store = with_embedding track_access (ports.embed_query query.text) store

  -- What a client asks for, and the same without a trace in the store.
  unfoldable pub execute : Store → Result (List ScoredMemory) × Store
  unfolding execute_with
  execute store = (results_of (execute_with true store).0, (execute_with true store).1)

  unfoldable pub execute_untracked : Store → Result (List ScoredMemory) × Store
  unfolding execute_with
  execute_untracked store = (results_of (execute_with false store).0, (execute_with false store).1)
