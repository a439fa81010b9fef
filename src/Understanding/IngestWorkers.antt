-- ===== src/Understanding/IngestWorkers.antt =====
-- understanding/infrastructure/ingest_workers.rs, and the error rule of
-- understanding/domain/ingest_pipeline.rs. One pass of a worker is a claim and, if there is a job,
-- `process`; sleeping and waking are left out. `clock.now()` gives one value within a pass.
pub mod Outcome
pub mod Drain
use recuerdos_ai.Prelude.{
  ℕ, zero, suc, ◌+◌, ◌-◌, ◌*◌, ◌^◌, Bool, true, false, not, ◌&&◌, Option, none, some, List, [], ◌∷◌,
  ltb, leb, min, is_empty, if◌then◌else◌, ◌++◌,
}
use recuerdos_ai.Text.{Text, codes}
use recuerdos_ai.Shared.Error.{
  RaError, not_found, validation, unauthorized, forbidden, conflict, rerank_busy, internal, Result,
  ok, err,
}
use recuerdos_ai.Identity.UserContext.{UserContext}
use recuerdos_ai.Understanding.JobQueue.{
  Codec, IngestPayload, ClaimedJob, Queue, claim_next, succeed, fail, reclaim_stale,
}

-- Nanoseconds in a second.
abbrev pub second : ℕ
second = 10 ^ 9

abbrev pub stale_after : ℕ
stale_after = 15 * 60 * second

abbrev pub base_backoff_seconds : ℕ
base_backoff_seconds = 5

-- understanding/domain/ingest_pipeline.rs
pub data IngestStatus : Type 0 where
  stored nothing_durable already_known changed_without_storing : IngestStatus

pub record IngestOutcome : Type 0 where
  pub memory_ids : List ℕ
  pub status : IngestStatus

unfoldable pub from_reconciled : List ℕ → ℕ → IngestOutcome
from_reconciled memory_ids superseded_or_deleted =
    if not (is_empty memory_ids)
    then record { memory_ids = memory_ids; status = stored }
    else if ltb 0 superseded_or_deleted
    then record { memory_ids = []; status = changed_without_storing }
    else record { memory_ids = []; status = already_known }

unfoldable pub is_retryable : RaError → Bool
is_retryable internal = true
is_retryable conflict = true
is_retryable _ = false

-- What a task that was spawned leaves: its result, or a panic.
pub data Joined {ℓ} (A : Type ℓ) : Type ℓ where
  finished : A → Joined A
  panicked : Text → Joined A

-- The other parts that a worker runs: the resolver of users, the pipeline, the texts of errors, and
-- whether at an instant the database fails to write how a job ended, which is only logged.
pub record Workers : Type 0 where
  pub codec : Codec
  pub resolve : ℕ → Joined (Result UserContext)
  pub pipeline : UserContext → IngestPayload → Result IngestOutcome
  pub describe : RaError → Text
  pub write_fault : ℕ → ClaimedJob → Bool
  pub max_attempts : ℕ

unfoldable pub backoff_from : ℕ → ℕ → ℕ
backoff_from now attempts =
    let exponent = min (attempts - 1) 6 in now + base_backoff_seconds * 2 ^ exponent * second

unfoldable pub retry_after : Workers → ℕ → ClaimedJob → Bool → Option ℕ
unfolding backoff_from
retry_after w now job retryable =
    if retryable && ltb job.attempts w.max_attempts
    then some (backoff_from now job.attempts)
    else none

unfoldable pub record_failure : Workers → ℕ → ClaimedJob → Text → Bool → Queue → Queue
unfolding retry_after
record_failure w now job message retryable queue =
    if w.write_fault now job
    then queue
    else fail job.id message (retry_after w now job retryable) now queue

-- The queue after the job, and the context for which the observer is told of changed memories.
unfoldable pub settle :
    Workers
    → ℕ
    → ClaimedJob
    → UserContext
    → Result IngestOutcome
    → Queue
    → Queue × Option UserContext
unfolding record_failure
settle w now job context (ok outcome) queue = (
  if w.write_fault now job then queue else succeed job.id outcome.memory_ids now queue,
  if is_empty outcome.memory_ids then none else some context,
)
settle w now job context (err error) queue =
    (record_failure w now job (w.describe error) (is_retryable error) queue, none)

unfoldable pub process_as :
    Workers → ℕ → ClaimedJob → Joined (Result UserContext) → Queue → Queue × Option UserContext
unfolding settle record_failure
process_as w now job (finished (ok context)) queue =
    settle w now job context (w.pipeline context job.payload) queue
process_as w now job (finished (err error)) queue =
    (record_failure w now job (w.describe error) false queue, none)
process_as w now job (panicked error) queue =
    (record_failure w now job (codes "resolver task panicked: " ++ error) true queue, none)

unfoldable pub process : Workers → ℕ → ClaimedJob → Queue → Queue × Option UserContext
unfolding process_as
process w now job queue = process_as w now job (w.resolve job.user_id) queue

-- `start` returns what a previous process left running.
unfoldable pub reclaim_at_start : ℕ → Queue → ℕ × Queue
reclaim_at_start now queue = reclaim_stale (now - stale_after) now queue

-- The loop of `run` at one moment, until no job is due: then the worker waits.
unfoldable pub work :
    Workers → ℕ → Result (Option ClaimedJob) × Queue → (Queue → Option Queue) → Option Queue
work w now (ok none, queue) again = some queue
work w now (ok (some job), queue) again = again (process w now job queue).0
work w now (err error, queue) again = again queue

-- Fuel bounds the number of passes; `none` means that it ran out.
unfoldable pub drain : Workers → ℕ → ℕ → Queue → Option Queue
unfolding work
drain w now zero queue = none
drain w now (suc fuel) queue = work w now (claim_next w.codec now queue) (drain w now fuel)
