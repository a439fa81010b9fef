-- ===== src/Recall/Receiver.antt =====
-- memories/application/memory_recaller.rs: the receiver of the second stage. A thread scores the head of
-- the list in runs and sends its answers over a channel; what the receiver gets until its deadline is
-- a sequence of events, and after the last of them the deadline passes.
use recuerdos_ai.Prelude.{
  ℕ, suc, ◌+◌, ◌*◌, Bool, true, false, Option, none, some, List, [], ◌∷◌, ◌++◌, ◌==◌, length, take,
  drop, if◌then◌else◌,
}
use recuerdos_ai.Shared.Error.{RaError, Result, ok, err, internal, rerank_busy}
use recuerdos_ai.Memories.Memory.Confidence.{F32}
use recuerdos_ai.Recall.Sorting.{sort_by}
use recuerdos_ai.Recall.Floats.{partial_or_equal}
use recuerdos_ai.Recall.Ranker.Rerank.{Leg}

pub data RerankSkip : Type 0 where
  deadline model : RerankSkip

pub record RerankScored : Type 0 where
  pub scores : List F32
  pub queued : ℕ
  pub inferred : ℕ

-- What `recv_timeout` gives.
pub data Event : Type 0 where
  answered : RerankScored → Event
  failed : RaError → Event
  timed_out disconnected : Event

pub record RerankFailure : Type 0 where
  pub skip : RerankSkip
  pub busy : Bool
  pub error : RaError
  pub queued : ℕ
  pub inferred : ℕ

unfoldable pub model_failure : RaError → RerankFailure
model_failure error = record { skip = model; busy = false; error = error; queued = 0; inferred = 0 }

unfoldable pub busy_failure : RaError → RerankFailure
busy_failure error = record {
  skip = deadline;
  busy = true;
  error = error;
  queued = 0;
  inferred = 0;
}

unfoldable pub from_error : RaError → RerankFailure
unfolding busy_failure model_failure
from_error rerank_busy = busy_failure rerank_busy
from_error error = model_failure error

unfoldable pub deadline_failure : RaError → RerankFailure
deadline_failure error = record {
  skip = deadline;
  busy = false;
  error = error;
  queued = 0;
  inferred = 0;
}

unfoldable pub timed : RerankFailure → ℕ → ℕ → RerankFailure
timed failure queued inferred = record failure { queued = queued; inferred = inferred }

unfoldable pub zip : List ℕ → List F32 → Leg
zip (id ∷ ids) (score ∷ scores) = (id, score) ∷ zip ids scores
zip _ _ = []

unfoldable pub align_positions : List ℕ → List F32 → Result Leg
unfolding zip
align_positions head scores =
    if length scores == length head then ok (zip head scores) else err internal

unfoldable pub order_best_first : Leg → Leg
unfolding partial_or_equal
order_best_first = sort_by (λ a b. partial_or_equal b.1 a.1)

-- The receiver's variables.
pub record Receiving : Type 0 where
  pub judged : Leg
  pub queued : ℕ
  pub inferred : ℕ
  pub next_run : ℕ

-- The ids of one run: `ids[next_run * chunk .. min(len, (next_run + 1) * chunk)]`.
unfoldable pub batch_of : List ℕ → ℕ → ℕ → List ℕ
batch_of ids chunk next_run = take chunk (drop (next_run * chunk) ids)

abbrev pub Received : Type 0
Received = Receiving × Option RerankFailure

-- The times of an answer count, whether or not it can be used.
unfoldable pub with_times : RerankScored → Receiving → Receiving
with_times answer r = record r {
  queued = r.queued + answer.queued;
  inferred = r.inferred + answer.inferred;
}

-- After an answer: the next run, unless it cannot be used or was the last.
unfoldable pub after_answer :
    ℕ → RerankScored → Receiving → (Receiving → Received) → Result Leg → Received
unfolding model_failure
after_answer runs answer r continue (err e) = (with_times answer r, some (model_failure e))
after_answer runs answer r continue (ok pairs) =
    let s : Receiving = record {
      judged = r.judged ++ pairs;
      queued = r.queued + answer.queued;
      inferred = r.inferred + answer.inferred;
      next_run = suc r.next_run;
    } in
    let rest = continue s in if suc r.next_run == runs then (s, none) else rest

module _ (ids : List ℕ) (chunk runs : ℕ) where
  -- The loop over what the receiver gets.
  unfoldable pub receive : List Event → Receiving → Received
  unfolding deadline_failure model_failure from_error after_answer align_positions batch_of
  receive [] r = (r, some (deadline_failure internal))
  receive (timed_out ∷ events) r = (r, some (deadline_failure internal))
  receive (disconnected ∷ events) r = (r, some (model_failure internal))
  receive (failed error ∷ events) r = (r, some (from_error error))
  receive (answered answer ∷ events) r =
      after_answer runs answer r (λ s. receive events s)
        (align_positions (batch_of ids chunk r.next_run) answer.scores)
