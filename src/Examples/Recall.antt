-- ===== src/Examples/Recall.antt =====
-- A recall at concrete inputs, with an arithmetic that does not round.
use recuerdos_ai.Prelude.{
  ℕ, ◌+◌, ◌-◌, ◌*◌, ◌/◌, ◌≤◌, ◌≡◌, refl, true, false, none, some, List, [], ◌∷◌, map, arith,
}
use recuerdos_ai.Text.{Text, codes}
use recuerdos_ai.Shared.Error.{ok, err, internal}
use recuerdos_ai.Identity.Scope.{read, write}
use recuerdos_ai.Identity.UserContext.{UserContext}
use recuerdos_ai.Memories.Category.{decision}
use recuerdos_ai.Memories.Memory.{Memory}
use recuerdos_ai.Memories.Memory.Confidence.{F32, nan, num, one}
use recuerdos_ai.Memories.Repository.{Store}
use recuerdos_ai.Recall.Sorting.{Shuffle, swap_first, sort_by}
use recuerdos_ai.Recall.Floats.{Arithmetic, half, unit, nought, whole, less}
use recuerdos_ai.Recall.Ranker.{
  RecallRanker, ScoredMemory, MatchDetail, rank_with_graph, by_score, by_score_and_relevance,
  apply_relevance, weighed, new,
}
use recuerdos_ai.Recall.Ranker.Order.{AllBestFirst}
use recuerdos_ai.Recall.Ranker.Fusion.{fused_rows, rank_with_graph_lem}
use recuerdos_ai.Recall.Ranker.Relevance.{AllScoresFirst, reweighed, apply_relevance_lem}
use recuerdos_ai.Recall.Ranker.Rerank.{apply_rerank}
use recuerdos_ai.Recall.Ranker.Rerank.Kept.{unjudged, apply_rerank_lem}
use recuerdos_ai.Recall.Expansion.{apply_expansion}
use recuerdos_ai.Recall.Expansion.Window.{IsExpanded, apply_expansion_lem}
use recuerdos_ai.Recall.Query.{RecallQuery}
use recuerdos_ai.Recall.Receiver.{answered, timed_out}
use recuerdos_ai.Recall.RerankLeg.{Reranker, on, rerank_scores, ids_of}
use recuerdos_ai.Recall.RerankLeg.Scores.{IsSound, rerank_scores_lem}
use recuerdos_ai.Recall.Recaller.{Settings, RecallPorts, Graph, execute_with}
use recuerdos_ai.Recall.Recaller.Served.{Recalled, recall_lem}

abbrev on_numbers : (ℕ → ℕ → ℕ) → F32 → F32 → F32
on_numbers g (num a) (num b) = num (g a b)
on_numbers g _ _ = nan

abbrev pub exact : Arithmetic
exact = record {
  add = on_numbers (λ a b. a + b);
  subtract = on_numbers (λ a b. a - b);
  multiply = on_numbers (λ a b. a * b / one);
  divide = on_numbers (λ a b. a * one / b);
  power = λ a b. a;
  of_integer = whole;
}

abbrev pub memory : ℕ → Memory
memory id = record {
  id = id;
  user_id = 7;
  content = codes "tabs";
  category = decision;
  subcategory = none;
  tags = codes "rust" ∷ [];
  entities = [];
  confidence = num one;
  source = record { client = none; session_id = none };
  created_at = 5;
  updated_at = 5;
  last_accessed_at = none;
  access_count = 0;
  importance = num one;
  expires_at = none;
  superseded_by = none;
}

abbrev ranker : RecallRanker
ranker = record {
  recency_half_life_days = whole 30;
  graph_rank_weight = unit;
  graph_unanchored_floor = 0;
  rerank_strategy = recuerdos_ai.Recall.Ranker.replace;
  similarity_baseline = half;
  relevance_weight = half;
}

-- The second of two memories that both indexes found.
rank_with_graph_lem_example :
    Shuffle
      (fused_rows exact ranker (1 ∷ 2 ∷ []) (2 ∷ []) [] 9 (memory 1 ∷ memory 2 ∷ []))
      (rank_with_graph exact ranker (1 ∷ 2 ∷ []) (2 ∷ []) [] (memory 1 ∷ memory 2 ∷ []) 9)
    × AllBestFirst
        (rank_with_graph exact ranker (1 ∷ 2 ∷ []) (2 ∷ []) [] (memory 1 ∷ memory 2 ∷ []) 9)
    × (rank_with_graph exact ranker (1 ∷ 2 ∷ []) (2 ∷ []) [] (memory 1 ∷ memory 2 ∷ []) 9
        ≡ rank_with_graph exact ranker (1 ∷ 2 ∷ []) (2 ∷ []) [] (memory 2 ∷ memory 1 ∷ []) 9)
rank_with_graph_lem_example =
    rank_with_graph_lem exact ranker (1 ∷ 2 ∷ []) (2 ∷ []) [] 9 (memory 1 ∷ memory 2 ∷ [])
      (memory 2 ∷ memory 1 ∷ []) (((λ h. omega arith), tt), (tt, tt))
      (swap_first (memory 1) (memory 2) [])

abbrev row : ℕ → F32 → F32 → ScoredMemory
row id score relevance = record {
  memory = memory id;
  score = score;
  relevance = relevance;
  rerank_score = none;
  match_detail = record {
    vector_rank = some id;
    bm25_rank = none;
    graph_rank = none;
    rerank_rank = none;
  };
}

-- Two rows whose weighed scores are equal: 2 at relevance 1, and 4 at relevance 0.
abbrev tied : List ScoredMemory
tied = row 1 (whole 2) unit ∷ row 2 (whole 4) nought ∷ []

weight_test : less nought ranker.relevance_weight ≡ true
unfolding less
weight_test = refl

apply_relevance_lem_example :
    Shuffle (map (reweighed exact ranker.relevance_weight) tied) (apply_relevance exact ranker tied)
    × AllScoresFirst (apply_relevance exact ranker tied)
apply_relevance_lem_example = apply_relevance_lem exact ranker tied weight_test

-- Both score 2 then, and the row of relevance 0 comes before the row of relevance 1.
same_scores_test :
    map (λ (s : ScoredMemory). s.score) (apply_relevance exact ranker tied) ≡ whole 2 ∷ whole 2 ∷ []
unfolding apply_relevance sort_by
same_scores_test = refl

less_relevant_first_test :
    map (λ (s : ScoredMemory). s.memory.id) (apply_relevance exact ranker tied) ≡ 2 ∷ 1 ∷ []
unfolding apply_relevance sort_by
less_relevant_first_test = refl

apply_rerank_lem_example :
    (apply_rerank exact ranker [] 9 tied ≡ tied)
    × Shuffle
        (map unjudged tied)
        (map unjudged (apply_rerank exact ranker ((2, half) ∷ (1, unit) ∷ []) 9 tied))
apply_rerank_lem_example = apply_rerank_lem exact ranker ((2, half) ∷ (1, unit) ∷ []) 9 tied

abbrev five : List ScoredMemory
five =
    row 1 (whole 5) unit
    ∷ row 2 (whole 4) unit
    ∷ row 3 (whole 3) unit
    ∷ row 4 (whole 2) unit
    ∷ row 5 unit unit
    ∷ []

slot_test :
    map (λ (s : ScoredMemory). s.memory.id) (apply_expansion five (5 ∷ []) 3 1).0
    ≡ 1 ∷ 5 ∷ 2 ∷ 3 ∷ 4 ∷ []
unfolding apply_expansion
slot_test = refl

apply_expansion_lem_example :
    IsExpanded five (apply_expansion five (5 ∷ []) 3 1)
    × ((apply_expansion five (5 ∷ []) 3 1).1 ≤ 1)
apply_expansion_lem_example = apply_expansion_lem five (5 ∷ []) 3 1

-- A reranker that judges two rows in a run and misses its deadline in the third run.
abbrev slow : Reranker
slow = record {
  score = λ _ candidates. ok (map (λ _. half) candidates);
  preferred_chunk = some 2;
  delivered = λ _ _.
      answered (record { scores = half ∷ unit ∷ []; queued = 1; inferred = 2 })
      ∷ answered (record { scores = unit ∷ half ∷ []; queued = 1; inferred = 2 })
      ∷ timed_out
      ∷ [];
  took_ms = 400;
}

rerank_scores_lem_example : IsSound (ids_of five) (rerank_scores 400 slow (codes "tabs") five)
rerank_scores_lem_example = rerank_scores_lem 400 slow (codes "tabs") five (omega arith)

abbrev settings : Settings
settings = record {
  arithmetic = exact;
  to_lowercase = λ s. s;
  ranker = ranker;
  stage = record {
    reranker = some slow;
    rerank_mode = on;
    rerank_depth = 30;
    rerank_timeout = 400;
  };
  max_hops = 1;
  hop_limit = 10;
  expansion_slots = 1;
}

abbrev graph : Graph
graph = record { seeds = λ _ _. err internal; neighbours = λ _ _ _ _ _. ok [] }

abbrev ports : RecallPorts Text
ports = record {
  embed_query = ok;
  vector_search = λ _ _ _. ok ((1, unit) ∷ (2, half) ∷ []);
  text_search = λ _ _ _. err internal;
  graph = some graph;
  read_fault = λ _. none;
  touch_fails = λ _. false;
}

abbrev alex : UserContext
alex = record { user_id = 7; handle = codes "alex"; key_id = none; scopes = read ∷ write ∷ [] }

abbrev query : RecallQuery
query = record {
  text = codes "tabs";
  categories = [];
  subcategories = [];
  tags = codes "rust" ∷ [];
  since = none;
  as_of = none;
  limit = 1;
  include_superseded = false;
  min_relevance = half;
}

abbrev store : Store
store = record {
  collections = [];
  rows =
      record { memory = memory 1; deleted_at = none }
      ∷ record { memory = memory 2; deleted_at = some 6 }
      ∷ [];
  audit = [];
}

recall_lem_example :
    Recalled settings ports alex query 9 store
      (execute_with settings ports alex query 9 true store).0
recall_lem_example = recall_lem settings ports alex query 9 true store
