-- ===== src/Examples/Understanding.antt =====
-- The queue of jobs and its workers at concrete inputs.
use recuerdos_ai.Prelude.{
  ℕ, ◌+◌, ◌*◌, ◌≡◌, refl, true, none, some, [], ◌∷◌, arith, Some, count_where, update_where,
  contains, ◌<◌, false,
}
use recuerdos_ai.Text.{codes, same_text}
use recuerdos_ai.Shared.Error.{ok, err, internal}
use recuerdos_ai.Identity.Scope.{read, write}
use recuerdos_ai.Identity.UserContext.{UserContext}
use recuerdos_ai.Understanding.JobQueue.{
  IngestPayload, JobRow, ClaimedJob, Queue, Codec, has_id, is_due, mark_claimed, enqueue,
  claim_next, reclaim_stale, record_from_row, find, comes_before,
}
use recuerdos_ai.Understanding.JobQueue.Claims.{IsFirst, claim_next-IsFirst}
use recuerdos_ai.Understanding.JobQueue.Validity.{
  IsValid, Reach-IsValid, start, next, enqueued, claimed,
}
use recuerdos_ai.Understanding.JobQueue.Status.{reclaim_stale_lem, Reclaimed}
use recuerdos_ai.Understanding.IngestWorkers.{
  Workers, finished, second, process, drain, backoff_from,
}
use recuerdos_ai.Understanding.IngestWorkers.Outcome.{Passed, verdict, process_lem}
use recuerdos_ai.Understanding.IngestWorkers.Drain.{due_count, drain_lem}

abbrev alex : UserContext
alex = record { user_id = 7; handle = codes "alex"; key_id = none; scopes = read ∷ write ∷ [] }

abbrev payload : IngestPayload
payload = record {
  content = codes "x";
  category = none;
  tags = [];
  client = none;
  session_id = none;
}

abbrev codec : Codec
codec = record { encode = λ p. p.content; decode = λ t. some (record payload { content = t }) }

abbrev row : ℕ → ℕ → ℕ → JobRow
row id run_after created_at = record {
  id = id;
  user_id = 7;
  payload = codes "x";
  status = codes "pending";
  attempts = 0;
  error = none;
  memory_ids = [];
  created_at = created_at;
  updated_at = created_at;
  run_after = run_after;
  claimed_at = none;
}

abbrev queue : Queue
queue = row 1 5 5 ∷ row 2 3 4 ∷ row 3 3 3 ∷ row 4 99 1 ∷ []

abbrev job : ℕ → ClaimedJob
job id = record { id = id; user_id = 7; payload = payload; attempts = 1 }

abbrev claimed_once : Queue
claimed_once = update_where (has_id 3) (mark_claimed 10) queue

abbrev claimed_twice : Queue
claimed_twice = update_where (has_id 2) (mark_claimed 11) claimed_once

first_claim : claim_next codec 10 queue ≡ (ok (some (job 3)), claimed_once)
unfolding claim_next same_text comes_before
first_claim = refl

second_claim : claim_next codec 11 claimed_once ≡ (ok (some (job 2)), claimed_twice)
unfolding claim_next update_where same_text comes_before
second_claim = refl

no_claim : claim_next codec 1 queue ≡ (ok none, queue)
unfolding claim_next same_text
no_claim = refl

claim_next-IsFirst_example :
    (r : JobRow) × Some (λ x. x ≡ r) queue
    × (r.id ≡ 3)
    × (is_due 10 r ≡ true)
    × IsFirst 10 r queue
    × (claimed_once ≡ update_where (has_id 3) (mark_claimed 10) queue)
claim_next-IsFirst_example = claim_next-IsFirst codec 10 queue claimed_once (job 3) first_claim

Reach-IsValid_example : IsValid (claim_next codec 9 (enqueue codec 1 alex payload 8 []).1).1
unfolding contains
Reach-IsValid_example =
    Reach-IsValid (next (next start (enqueued [] 1 alex payload 8 refl)) (claimed _ 9))

-- A pipeline that fails on every job, in a way that may pass.
abbrev workers : Workers
workers = record {
  codec = codec;
  resolve = λ _. finished (ok alex);
  pipeline = λ _ _. err internal;
  describe = λ _. codes "e";
  write_fault = λ _ _. false;
  max_attempts = 3;
}

process_lem_example :
    Passed workers 12
      (job 3)
      (verdict workers (job 3) (workers.resolve 7))
      claimed_once
      (process workers 12 (job 3) claimed_once).0
process_lem_example = process_lem workers 12 (job 3) claimed_once

three_due : due_count 10 queue < 4
unfolding count_where is_due same_text
three_due = omega arith

drain_lem_example :
    (queue' : Queue) × (drain workers 10 4 queue ≡ some queue') × (due_count 10 queue' ≡ 0)
drain_lem_example = drain_lem workers 10 4 queue three_due

third_backoff : backoff_from 100 3 ≡ 100 + 20 * second
unfolding backoff_from
third_backoff = refl

found : find alex 2 queue ≡ some (record_from_row (row 2 3 4))
unfolding find
found = refl

reclaim_stale_lem_example :
    Reclaimed 10 20 claimed_twice
      (reclaim_stale 10 20 claimed_twice).1
      (reclaim_stale 10 20 claimed_twice).0
reclaim_stale_lem_example = reclaim_stale_lem 10 20 claimed_twice
