-- ===== src/Recall/RerankLeg.antt =====
-- memories/application/memory_recaller.rs: the second stage of a recall, on the head of the list.
pub mod Runs
pub mod Scores
use Prim.Native.Nat.{Ordering}
use recuerdos_ai.Prelude.{
  ℕ, zero, suc, ◌+◌, ◌-◌, ◌*◌, ◌/◌, ◌%◌, ◌^◌, Bool, true, false, not, Option, none, some, List, [],
  ◌∷◌, ◌++◌, map, ltb, leb, ◌==◌, min, max, length, take, drop, if◌then◌else◌,
}
use recuerdos_ai.Text.{Text}
use recuerdos_ai.Shared.Error.{RaError, Result, ok, err, internal, rerank_busy, ◌>>=◌}
use recuerdos_ai.Memories.Memory.Confidence.{F32}
use recuerdos_ai.Recall.Sorting.{sort_by}
use recuerdos_ai.Recall.Floats.{Arithmetic, partial_or_equal}
use recuerdos_ai.Recall.Query.{RecallQuery, candidate_depth}
use recuerdos_ai.Recall.Ranker.{RecallRanker, ScoredMemory}
use recuerdos_ai.Recall.Ranker.Rerank.{Leg, apply_rerank}
use recuerdos_ai.Recall.Receiver.{
  RerankSkip, RerankScored, Event, RerankFailure, model_failure, busy_failure, from_error,
  deadline_failure, timed, zip, align_positions, order_best_first, Receiving, batch_of, Received,
  with_times, after_answer, receive, deadline, model, answered, failed, timed_out, disconnected,
}

pub data RerankMode : Type 0 where
  off shadow on : RerankMode

pub data RerankTrace : Type 0 where
  not_needed : ℕ → RerankTrace
  applied : ℕ → ℕ → RerankTrace
  shadowed : ℕ → Bool → ℕ → RerankTrace
  skipped : RerankSkip → ℕ → ℕ → Bool → RerankTrace

pub record RerankLeg : Type 0 where
  pub scores : Leg
  pub complete : Bool
  pub queued : ℕ
  pub inferred : ℕ

-- A `Result` whose error is a failure of the stage.
pub data LegResult : Type 0 where
  leg : RerankLeg → LegResult
  failure : RerankFailure → LegResult

unfoldable pub leg_of : Bool → Receiving → LegResult
unfolding order_best_first
leg_of complete r = leg (record {
  scores = order_best_first r.judged;
  complete = complete;
  queued = r.queued;
  inferred = r.inferred;
})

-- A leg that cannot reorder anything is a failure.
unfoldable pub partial_leg : RerankSkip → RerankFailure → Receiving → LegResult
unfolding timed leg_of order_best_first
partial_leg model f r = failure (timed f r.queued r.inferred)
partial_leg deadline f r =
    if ltb (length (order_best_first r.judged)) 2
    then failure (timed f r.queued r.inferred)
    else leg_of false r

unfoldable pub finish : Received → LegResult
unfolding partial_leg leg_of
finish (r, none) = leg_of true r
finish (r, some f) = partial_leg f.skip f r

-- The reranker: its scores, the size of a run that it prefers, and what the channel delivers of
-- the runs before the deadline; and how long the stage takes, in milliseconds.
pub record Reranker : Type 0 where
  pub score : Text → List (ℕ × Text) → Result (List F32)
  pub preferred_chunk : Option ℕ
  pub delivered : Text → List (List (ℕ × Text)) → List Event
  pub took_ms : ℕ

abbrev pub candidates_of : List ScoredMemory → List (ℕ × Text)
candidates_of = map (λ (s : ScoredMemory). (s.memory.id, s.memory.content))

abbrev pub ids_of : List ScoredMemory → List ℕ
ids_of = map (λ (s : ScoredMemory). s.memory.id)

-- `chunks(chunk)`, the first `runs` of them.
unfoldable pub chunks : ℕ → ℕ → List (ℕ × Text) → List (List (ℕ × Text))
chunks chunk zero candidates = []
chunks chunk (suc runs) candidates =
    take chunk candidates ∷ chunks chunk runs (drop chunk candidates)

unfoldable pub chunk_of : Option ℕ → ℕ → ℕ
chunk_of none len = max len 1
chunk_of (some preferred) len = max preferred 1

-- `div_ceil`
unfoldable pub div_ceil : ℕ → ℕ → ℕ
div_ceil len chunk = (len + (chunk - 1)) / chunk

-- Without a deadline the whole head is one call, made on the request's thread.
unfoldable pub unhurried : ℕ → Result Leg → LegResult
unfolding model_failure timed order_best_first
unhurried took (err e) = failure (timed (model_failure e) 0 took)
unhurried took (ok pairs) =
    leg (record { scores = order_best_first pairs; complete = true; queued = 0; inferred = took })

unfoldable pub rerank_scores : ℕ → Reranker → Text → List ScoredMemory → LegResult
unfolding unhurried align_positions chunk_of div_ceil chunks receive finish
rerank_scores timeout reranker query head =
    let ids = ids_of head in
    let candidates = candidates_of head in
    let chunk = chunk_of reranker.preferred_chunk (length head) in
    let runs = div_ceil (length head) chunk in
    if timeout == 0
    then unhurried reranker.took_ms (reranker.score query candidates >>= align_positions ids)
    else finish (
        receive ids chunk runs (reranker.delivered query (chunks chunk runs candidates))
          (record { judged = []; queued = 0; inferred = 0; next_run = 0 }))

-- The last eight hexadecimal digits of an identifier.
abbrev pub short : ℕ → ℕ
short id = id % 2 ^ 32

-- Whether the stage would put another memory first.
unfoldable pub is_changed : List ScoredMemory → Leg → Bool
is_changed (s ∷ _) ((id, _) ∷ _) = not (short s.memory.id == short id)
is_changed _ _ = false

pub record Stage : Type 0 where
  pub reranker : Option Reranker
  pub rerank_mode : RerankMode
  pub rerank_depth : ℕ
  pub rerank_timeout : ℕ

abbrev pub Reranked : Type 0
Reranked = List ScoredMemory × Option RerankTrace

module _ (f : Arithmetic) (ranker : RecallRanker) where
  unfoldable pub use_leg : RerankMode → Reranker → ℕ → ℕ → List ScoredMemory → LegResult → Reranked
  unfolding is_changed apply_rerank
  use_leg mode reranker depth now ranked (failure e) =
      (ranked, some (skipped e.skip depth reranker.took_ms e.busy))
  use_leg shadow reranker depth now ranked (leg l) = (
    ranked,
    some (shadowed (length l.scores) (is_changed (take depth ranked) l.scores) reranker.took_ms),
  )
  use_leg _ reranker depth now ranked (leg l) =
      (apply_rerank f ranker l.scores now ranked, some (applied (length l.scores) reranker.took_ms))

  unfoldable pub judge_head : Stage → Reranker → RecallQuery → ℕ → List ScoredMemory → ℕ → Reranked
  unfolding rerank_scores use_leg
  judge_head stage reranker query now ranked depth =
      if ltb depth 2
      then (ranked, some (not_needed (length ranked)))
      else use_leg stage.rerank_mode reranker depth now ranked
          (rerank_scores stage.rerank_timeout reranker query.text (take depth ranked))

  unfoldable pub judge : Stage → Reranker → RecallQuery → ℕ → List ScoredMemory → Reranked
  unfolding candidate_depth judge_head
  judge stage reranker query now ranked =
      if ltb (length ranked) 2
      then (ranked, some (not_needed (length ranked)))
      else judge_head stage reranker query now ranked
          (min (min stage.rerank_depth (length ranked)) (candidate_depth query))

  unfoldable pub judge_unless_off :
      RerankMode → Stage → Reranker → RecallQuery → ℕ → List ScoredMemory → Reranked
  unfolding judge
  judge_unless_off off stage reranker query now ranked = (ranked, none)
  judge_unless_off _ stage reranker query now ranked = judge stage reranker query now ranked

  unfoldable pub rerank_leg :
      Option Reranker → Stage → RecallQuery → ℕ → List ScoredMemory → Reranked
  unfolding judge_unless_off
  rerank_leg none stage query now ranked = (ranked, none)
  rerank_leg (some reranker) stage query now ranked =
      judge_unless_off stage.rerank_mode stage reranker query now ranked
