-- ===== src/Understanding/IngestWorkers/Drain.antt =====
-- A worker that takes jobs until none is due comes to an end, and leaves none that is due.
use native.Mathlib.Nat.{one-le-pow, pow-le-pow_right}
use recuerdos_ai.Prelude.{
  ◌++◌, ℕ, zero, suc, ◌+◌, ◌-◌, ◌*◌, ◌^◌, ◌≤◌, ◌<◌, min, ◌≡◌, ◌≢◌, refl, Bool, true, false, ◌&&◌,
  Option, none, some, List, [], ◌∷◌, arith, All, Some-map, count_where, update_where, Bool-cases,
  inl, inr, ltb, ==_refl, count_where-update_le, count_where-update_lt,
}
use recuerdos_ai.Text.{Text, codes, same_text}
use recuerdos_ai.Shared.Error.{Result, ok, err}
use recuerdos_ai.Identity.UserContext.{UserContext}
use recuerdos_ai.Understanding.JobQueue.{
  JobRow, ClaimedJob, Queue, has_id, is_due, next_due, mark_claimed, mark_succeeded, mark_failed,
  claimed_from_row, claim, claim_next, succeed, fail,
}
use recuerdos_ai.Understanding.JobQueue.Claims.{
  next_due-none, next_due-Chosen, claimed_from_row-some,
}
use recuerdos_ai.Understanding.IngestWorkers.{
  Workers, Joined, finished, panicked, IngestOutcome, second, backoff_from, retry_after,
  record_failure, settle, process_as, process, work, drain, is_retryable,
}

abbrev pub due_count : ℕ → Queue → ℕ
due_count now queue = count_where (is_due now) queue

-- The delay after a failure lies between the first delay and sixty-four times it.
pub backoff_bounds :
    (now attempts : ℕ)
    → (now + 5 * second ≤ backoff_from now attempts)
      × (backoff_from now attempts ≤ now + 320 * second)
unfolding backoff_from
backoff_bounds now attempts =
    let e = min (attempts - 1) 6 in
    let low : 1 ≤ 2 ^ e = one-le-pow e 2 (omega arith) in
    let high : 2 ^ e ≤ 2 ^ 6 =
      pow-le-pow_right {n = 2} (omega arith) {i = e} {j = 6} (omega arith) in
    (omega arith, omega arith)

claimed_not_due_now : (now : ℕ) (r : JobRow) → is_due now (mark_claimed now r) ≡ false
unfolding is_due mark_claimed same_text
claimed_not_due_now now r = refl

succeeded_not_due :
    (ids : List ℕ) (now : ℕ) (r : JobRow) → is_due now (mark_succeeded ids now r) ≡ false
unfolding is_due mark_succeeded same_text
succeeded_not_due ids now r = refl

failed_not_due :
    (w : Workers) (now : ℕ) (job : ClaimedJob) (message : Text) (retryable : Bool) (r : JobRow)
    → is_due now (mark_failed message (retry_after w now job retryable) now r) ≡ false
unfolding retry_after
failed_not_due w now job message retryable r =
    elim (Bool-cases (retryable && ltb job.attempts w.max_attempts)) [
      | inl again ↦
          rw again
            (unfold mark_failed is_due in ground (arith, (backoff_bounds now job.attempts).0))
      | inr over ↦ rw over (unfold mark_failed is_due same_text in refl)
    ]

claim-due_lt :
    (now : ℕ) (queue : Queue) (row : JobRow)
    → next_due now queue ≡ some row
    → due_count now (update_where (has_id row.id) (mark_claimed now) queue) < due_count now queue
claim-due_lt now queue row e =
    let (due, at, _) = next_due-Chosen now queue row e in
    count_where-update_lt (is_due now) (has_id row.id) (mark_claimed now)
      (λ r _. claimed_not_due_now now r) queue
      (Some-map (λ r. r ≡ row) (λ r. (has_id row.id r ≡ true) × (is_due now r ≡ true)) queue
        (λ r same. (unfold has_id in rw same (==_refl row.id), rw same due)) at)

failure-due_le :
    (w : Workers) (now : ℕ) (job : ClaimedJob) (message : Text) (retryable : Bool) (queue : Queue)
    → due_count now (record_failure w now job message retryable queue) ≤ due_count now queue
unfolding record_failure fail
failure-due_le w now job message retryable queue = elim (Bool-cases (w.write_fault now job)) [
  | inl e ↦ rw e (omega arith)
  | inr e ↦ rw e (
      count_where-update_le (is_due now) (has_id job.id) _
        (λ r _. failed_not_due w now job message retryable r) queue)
]

settle-due_le :
    (w : Workers) (now : ℕ) (job : ClaimedJob) (context : UserContext) (r : Result IngestOutcome)
    (queue : Queue)
    → due_count now (settle w now job context r queue).0 ≤ due_count now queue
unfolding settle succeed
settle-due_le w now job context (ok outcome) queue = elim (Bool-cases (w.write_fault now job)) [
  | inl e ↦ rw e (omega arith)
  | inr e ↦ rw e (
      count_where-update_le (is_due now) (has_id job.id) (mark_succeeded outcome.memory_ids now)
        (λ r _. succeeded_not_due outcome.memory_ids now r) queue)
]
settle-due_le w now job context (err error) queue =
    failure-due_le w now job (w.describe error) (is_retryable error) queue

process-due_le :
    (w : Workers) (now : ℕ) (job : ClaimedJob) (who : Joined (Result UserContext)) (queue : Queue)
    → due_count now (process_as w now job who queue).0 ≤ due_count now queue
unfolding process_as
process-due_le w now job (finished (ok context)) queue =
    settle-due_le w now job context (w.pipeline context job.payload) queue
process-due_le w now job (finished (err error)) queue =
    failure-due_le w now job (w.describe error) false queue
process-due_le w now job (panicked error) queue =
    failure-due_le w now job (codes "resolver task panicked: " ++ error) true queue

count_none_due :
    (now : ℕ) (queue : Queue) → All (λ r. is_due now r ≡ false) queue → due_count now queue ≡ 0
unfolding count_where
count_none_due now [] h = refl
count_none_due now (r ∷ rs) h = rw h.0 (count_none_due now rs h.1)

abbrev Ends : Workers → ℕ → ℕ → Queue → Type 0
Ends w now fuel queue =
    (queue' : Queue) × (drain w now fuel queue ≡ some queue') × (due_count now queue' ≡ 0)

-- One pass, whatever the claim gave.
work-Ends :
    (w : Workers) (now fuel : ℕ) (queue : Queue) (row : JobRow) (r : Result (Option ClaimedJob))
    → r ≢ ok none
    → ((q : Queue) → due_count now q ≤ due_count now queue → Ends w now fuel q)
    → (queue' : Queue) × (work w now (r, queue) (drain w now fuel) ≡ some queue')
      × (due_count now queue' ≡ 0)
unfolding work
work-Ends w now fuel queue row (ok none) given ih = absurd (given refl)
work-Ends w now fuel queue row (ok (some job)) given ih =
    ih (process w now job queue).0
      (unfold process in process-due_le w now job (w.resolve job.user_id) queue)
work-Ends w now fuel queue row (err error) given ih = ih queue (omega arith)

claim-Ends :
    (w : Workers) (now fuel : ℕ) (queue : Queue) (o : Option JobRow)
    → next_due now queue ≡ o
    → due_count now queue ≤ fuel
    → ((q : Queue) → due_count now q < fuel → Ends w now fuel q)
    → (queue' : Queue) × (work w now (claim w.codec now o queue) (drain w now fuel) ≡ some queue')
      × (due_count now queue' ≡ 0)
unfolding claim
claim-Ends w now fuel queue none e enough ih =
    (queue, unfold work in refl, count_none_due now queue (next_due-none now queue e))
claim-Ends w now fuel queue (some row) e enough ih =
    let fewer = claim-due_lt now queue row e in
    work-Ends w now fuel (update_where (has_id row.id) (mark_claimed now) queue) row
      (claimed_from_row w.codec (mark_claimed now row))
      (claimed_from_row-some w.codec (mark_claimed now row)) (λ q less. ih q (omega arith))

-- With more fuel than there are due jobs, a worker at one moment takes jobs until none is due, and
-- stops: a failure is put off past that moment, a success or a dead letter is final, and a job whose
-- ending could not be written still reads as running.
pub drain_lem :
    (w : Workers) (now fuel : ℕ) (queue : Queue)
    → due_count now queue < fuel
    → (queue' : Queue) × (drain w now fuel queue ≡ some queue') × (due_count now queue' ≡ 0)
unfolding drain claim_next
drain_lem w now zero queue enough = absurd (omega arith)
drain_lem w now (suc fuel) queue enough =
    claim-Ends w now fuel queue (next_due now queue) refl (omega arith) (drain_lem w now fuel)
