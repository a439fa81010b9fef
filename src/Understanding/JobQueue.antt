-- ===== src/Understanding/JobQueue.antt =====
-- understanding/domain/ingest_job.rs and understanding/infrastructure/sqlite_job_queue.rs: the jobs
-- are the rows of the table `ingest_jobs`, in the order of their insertion. Each method is one SQL
-- statement, so it is one step. Instants are numbers; SQLite compares their RFC 3339 texts, which
-- stand in the same order.
pub mod Claims
pub mod Validity
pub mod Status
use recuerdos_ai.Prelude.{
  ℕ, suc, ◌+◌, ◌%◌, ◌^◌, Bool, true, false, ◌&&◌, ◌||◌, Option, none, some, List, [], ◌∷◌, ◌++◌,
  ltb, leb, ◌==◌, if◌then◌else◌, update_where, count_where,
}
use recuerdos_ai.Text.{Text, codes, same_text}
use recuerdos_ai.Shared.Error.{Result, ok, err, internal}
use recuerdos_ai.Identity.UserContext.{UserContext}

pub record IngestPayload : Type 0 where
  pub content : Text
  pub category : Option Text
  pub tags : List Text
  pub client : Option Text
  pub session_id : Option Text

pub data JobStatus : Type 0 where
  pending running succeeded dead_letter : JobStatus

unfoldable pub from_stored : Text → JobStatus
from_stored raw =
    if same_text raw (codes "pending")
    then pending
    else if same_text raw (codes "succeeded")
    then succeeded
    else if same_text raw (codes "dead_letter")
    then dead_letter
    else running

-- A row. `payload` is the JSON text; `memory_ids` stands for the JSON array of their texts.
pub record JobRow : Type 0 where
  pub id : ℕ
  pub user_id : ℕ
  pub payload : Text
  pub status : Text
  pub attempts : ℕ
  pub error : Option Text
  pub memory_ids : List ℕ
  pub created_at : ℕ
  pub updated_at : ℕ
  pub run_after : ℕ
  pub claimed_at : Option ℕ

pub record JobRecord : Type 0 where
  pub id : ℕ
  pub status : JobStatus
  pub attempts : ℕ
  pub error : Option Text
  pub memory_ids : List ℕ
  pub created_at : ℕ
  pub updated_at : ℕ

pub record ClaimedJob : Type 0 where
  pub id : ℕ
  pub user_id : ℕ
  pub payload : IngestPayload
  pub attempts : ℕ

abbrev pub Queue : Type 0
Queue = List JobRow

-- `serde_json` on payloads.
pub record Codec : Type 0 where
  pub encode : IngestPayload → Text
  pub decode : Text → Option IngestPayload

unfoldable pub has_status : Text → JobRow → Bool
has_status status row = same_text row.status status

unfoldable pub has_id : ℕ → JobRow → Bool
has_id id row = row.id == id

-- `INSERT INTO ingest_jobs`; the fresh identifier is the argument `id`.
unfoldable pub enqueue : Codec → ℕ → UserContext → IngestPayload → ℕ → Queue → Result ℕ × Queue
enqueue codec id context payload now queue = (
  ok id,
  queue
      ++ record {
        id = id;
        user_id = context.user_id;
        payload = codec.encode payload;
        status = codes "pending";
        attempts = 0;
        error = none;
        memory_ids = [];
        created_at = now;
        updated_at = now;
        run_after = now;
        claimed_at = none;
      }
        ∷ [],
)

-- `WHERE status = 'pending' AND run_after <= ?1`
unfoldable pub is_due : ℕ → JobRow → Bool
unfolding has_status
is_due now row = has_status (codes "pending") row && leb row.run_after now

-- `ORDER BY run_after, created_at`
unfoldable pub comes_before : JobRow → JobRow → Bool
comes_before a b =
    ltb a.run_after b.run_after || (a.run_after == b.run_after && ltb a.created_at b.created_at)

unfoldable pub earlier : JobRow → Option JobRow → JobRow
earlier row none = row
earlier row (some other) = if comes_before other row then other else row

-- The subquery with `LIMIT 1`; of equals, the row that was inserted first.
unfoldable pub next_due : ℕ → Queue → Option JobRow
unfolding is_due earlier
next_due now [] = none
next_due now (row ∷ rows) =
    let rest = next_due now rows in if is_due now row then some (earlier row rest) else rest

unfoldable pub mark_claimed : ℕ → JobRow → JobRow
mark_claimed now row = record row {
  status = codes "running";
  attempts = row.attempts + 1;
  claimed_at = some now;
  updated_at = now;
}

-- `claimed_from_row`: a payload that cannot be read is an error, after the update.
unfoldable pub claimed_from_row : Codec → JobRow → Result (Option ClaimedJob)
claimed_from_row codec row = elim (codec.decode row.payload) [
  | none ↦ err internal
  | some payload ↦ ok (
      some (record {
        id = row.id;
        user_id = row.user_id;
        payload = payload;
        attempts = row.attempts % 2 ^ 32;
      }))
]

-- The update of the row that the subquery gave, and what it returns.
unfoldable pub claim : Codec → ℕ → Option JobRow → Queue → Result (Option ClaimedJob) × Queue
unfolding claimed_from_row mark_claimed has_id
claim codec now none queue = (ok none, queue)
claim codec now (some row) queue = (
  claimed_from_row codec (mark_claimed now row),
  update_where (has_id row.id) (mark_claimed now) queue,
)

unfoldable pub claim_next : Codec → ℕ → Queue → Result (Option ClaimedJob) × Queue
unfolding next_due claim
claim_next codec now queue = claim codec now (next_due now queue) queue

unfoldable pub mark_succeeded : List ℕ → ℕ → JobRow → JobRow
mark_succeeded memory_ids now row = record row {
  status = codes "succeeded";
  memory_ids = memory_ids;
  claimed_at = none;
  updated_at = now;
}

unfoldable pub succeed : ℕ → List ℕ → ℕ → Queue → Queue
unfolding mark_succeeded has_id
succeed id memory_ids now queue = update_where (has_id id) (mark_succeeded memory_ids now) queue

unfoldable pub mark_failed : Text → Option ℕ → ℕ → JobRow → JobRow
mark_failed error (some when) now row = record row {
  status = codes "pending";
  error = some error;
  run_after = when;
  claimed_at = none;
  updated_at = now;
}
mark_failed error none now row = record row {
  status = codes "dead_letter";
  error = some error;
  claimed_at = none;
  updated_at = now;
}

unfoldable pub fail : ℕ → Text → Option ℕ → ℕ → Queue → Queue
unfolding mark_failed has_id
fail id error retry_after now queue =
    update_where (has_id id) (mark_failed error retry_after now) queue

-- `WHERE status = 'running' AND claimed_at <= ?1`; NULL compares as false.
unfoldable pub is_stale : ℕ → JobRow → Bool
unfolding has_status
is_stale stale_before row = elim row.claimed_at [
  | none ↦ false
  | some at ↦ has_status (codes "running") row && leb at stale_before
]

unfoldable pub or_stopped : Option Text → Text
or_stopped none = codes "the worker holding this job stopped"
or_stopped (some error) = error

unfoldable pub mark_reclaimed : ℕ → JobRow → JobRow
unfolding or_stopped
mark_reclaimed now row = record row {
  status = codes "pending";
  claimed_at = none;
  run_after = now;
  updated_at = now;
  error = some (or_stopped row.error);
}

unfoldable pub reclaim_stale : ℕ → ℕ → Queue → ℕ × Queue
unfolding is_stale mark_reclaimed
reclaim_stale stale_before now queue = (
  count_where (is_stale stale_before) queue,
  update_where (is_stale stale_before) (mark_reclaimed now) queue,
)

unfoldable pub record_from_row : JobRow → JobRecord
unfolding from_stored
record_from_row row = record {
  id = row.id;
  status = from_stored row.status;
  attempts = row.attempts % 2 ^ 32;
  error = row.error;
  memory_ids = row.memory_ids;
  created_at = row.created_at;
  updated_at = row.updated_at;
}

-- `WHERE id = ?1 AND user_id = ?2`
unfoldable pub find : UserContext → ℕ → Queue → Option JobRecord
unfolding record_from_row
find context id [] = none
find context id (row ∷ rows) =
    let rest = find context id rows in
    if row.id == id && row.user_id == context.user_id then some (record_from_row row) else rest
