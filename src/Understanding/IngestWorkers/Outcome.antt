-- ===== src/Understanding/IngestWorkers/Outcome.antt =====
-- What one pass does to the job that it took, and to all other jobs.
use recuerdos_ai.Prelude.{
  zero, suc, ◌+◌, ◌-◌, ◌*◌, ◌^◌, ◌≤◌, min, ◌⊎◌, ℕ, ◌<◌, ◌≡◌, refl, Bool, true, false, none, is_some,
  List, [], ◌∷◌, arith, All, update_where, Bool-cases, inl, inr, ltb, ◌==◌, if◌then◌else◌, not,
  keep, keep-update_where, ◌++◌, ◌++◌,
}
use recuerdos_ai.Text.{Text, codes}
use recuerdos_ai.Shared.Error.{
  RaError, not_found, validation, unauthorized, forbidden, conflict, rerank_busy, internal, Result,
  ok, err,
}
use recuerdos_ai.Identity.UserContext.{UserContext}
use recuerdos_ai.Understanding.JobQueue.Validity.{id-mark_failed}
use recuerdos_ai.Understanding.JobQueue.{
  succeed, fail, JobRow, ClaimedJob, Queue, has_id, mark_failed, mark_succeeded,
}
use recuerdos_ai.Understanding.IngestWorkers.{
  Workers, Joined, finished, panicked, IngestOutcome, backoff_from, retry_after, is_retryable,
  record_failure, settle, process_as, process, fail, succeed,
}

-- How a pass ends, told from its parts alone: the job is done, or it may be tried again, or not.
pub data Verdict : Type 0 where
  done : List ℕ → Verdict
  again : Verdict
  never : Verdict

-- Only an internal error and a conflict may pass.
abbrev pub failure_verdict : RaError → Verdict
failure_verdict internal = again
failure_verdict conflict = again
failure_verdict not_found = never
failure_verdict validation = never
failure_verdict unauthorized = never
failure_verdict forbidden = never
failure_verdict rerank_busy = never

abbrev pub verdict_of : Result IngestOutcome → Verdict
verdict_of (ok outcome) = done outcome.memory_ids
verdict_of (err error) = failure_verdict error

-- A user who is gone is never tried again, a resolver that panics is; else the pipeline decides.
abbrev pub verdict : Workers → ClaimedJob → Joined (Result UserContext) → Verdict
verdict w job (finished (ok context)) = verdict_of (w.pipeline context job.payload)
verdict w job (finished (err error)) = never
verdict w job (panicked error) = again

-- The seconds that a job waits after each of its attempts.
abbrev pub delay : ℕ → ℕ
delay zero = 5
delay (suc zero) = 5
delay (suc (suc zero)) = 10
delay (suc (suc (suc zero))) = 20
delay (suc (suc (suc (suc zero)))) = 40
delay (suc (suc (suc (suc (suc zero))))) = 80
delay (suc (suc (suc (suc (suc (suc zero)))))) = 160
delay (suc (suc (suc (suc (suc (suc (suc n))))))) = 320

backoff_lem : (now attempts : ℕ) → backoff_from now attempts ≡ now + delay attempts * 10 ^ 9
unfolding backoff_from
backoff_lem now zero = refl
backoff_lem now (suc zero) = refl
backoff_lem now (suc (suc zero)) = refl
backoff_lem now (suc (suc (suc zero))) = refl
backoff_lem now (suc (suc (suc (suc zero)))) = refl
backoff_lem now (suc (suc (suc (suc (suc zero))))) = refl
backoff_lem now (suc (suc (suc (suc (suc (suc zero)))))) = refl
backoff_lem now (suc (suc (suc (suc (suc (suc (suc n))))))) =
    let most : min (suc (suc (suc (suc (suc (suc (suc n)))))) - 1) 6 ≡ 6 = omega arith in
    rw most refl

-- The row that a verdict leaves: attempts are spent only by claims.
abbrev pub Left : Workers → ℕ → ClaimedJob → Verdict → JobRow → Type 0
Left w now job (done ids) r =
    (r.status ≡ codes "succeeded") × (r.memory_ids ≡ ids) × (r.claimed_at ≡ none)
Left w now job again r =
    (((job.attempts < w.max_attempts)
        × (r.status ≡ codes "pending")
        × (r.run_after ≡ now + delay job.attempts * 10 ^ 9))
      ⊎ ((w.max_attempts ≤ job.attempts) × (r.status ≡ codes "dead_letter")))
    × (r.claimed_at ≡ none)
    × (is_some r.error ≡ true)
Left w now job never r =
    (r.status ≡ codes "dead_letter") × (r.claimed_at ≡ none) × (is_some r.error ≡ true)

update-Left :
    (P : JobRow → Type 0) (id : ℕ) (f : JobRow → JobRow) (queue : Queue)
    → ((r : JobRow) → P (f r))
    → ((r : JobRow) → (f r).id ≡ r.id)
    → All (λ r. r.id ≡ id → P r) (update_where (has_id id) f queue)
unfolding update_where has_id
update-Left P id f [] left same = tt
update-Left P id f (r ∷ rs) left same = elim (Bool-cases (r.id == id)) [
  | inl e ↦ rw e ((λ _. left r), update-Left P id f rs left same)
  | inr e ↦ rw e ((λ hit. absurd (ground arith)), update-Left P id f rs left same)
]

module _ (w : Workers) (now : ℕ) (job : ClaimedJob) where
  again-Left :
      (message : Text) (r : JobRow)
      → Left w now job again (mark_failed message (retry_after w now job true) now r)
  unfolding retry_after
  again-Left message r = elim (Bool-cases (ltb job.attempts w.max_attempts)) [
    | inl e ↦
        rw e (
          unfold mark_failed in
          (inl (ground arith, refl, backoff_lem now job.attempts), refl, refl))
    | inr e ↦ rw e (unfold mark_failed in (inr (ground arith, refl), refl, refl))
  ]

  never-Left :
      (message : Text) (r : JobRow)
      → Left w now job never (mark_failed message (retry_after w now job false) now r)
  unfolding retry_after
  never-Left message r = unfold mark_failed in (refl, refl, refl)

  failed-Left :
      (message : Text) (error : RaError) (r : JobRow)
      → Left w now job
          (failure_verdict error)
          (mark_failed message (retry_after w now job (is_retryable error)) now r)
  unfolding is_retryable
  failed-Left message internal r = again-Left message r
  failed-Left message conflict r = again-Left message r
  failed-Left message not_found r = never-Left message r
  failed-Left message validation r = never-Left message r
  failed-Left message unauthorized r = never-Left message r
  failed-Left message forbidden r = never-Left message r
  failed-Left message rerank_busy r = never-Left message r

  abbrev is_other : JobRow → Bool
  is_other r = not (r.id == job.id)

  -- What a pass with a verdict makes of the queue.
  abbrev pub Passed : Verdict → Queue → Queue → Type 0
  Passed v before after =
      (((w.write_fault now job ≡ true) × (after ≡ before))
        ⊎ ((w.write_fault now job ≡ false) × All (λ r. r.id ≡ job.id → Left w now job v r) after))
      × (keep (λ r. not (r.id == job.id)) after ≡ keep (λ r. not (r.id == job.id)) before)

  -- One update of the job's rows, unless it cannot be written.
  written-Passed :
      (v : Verdict) (f : JobRow → JobRow) (queue : Queue)
      → ((r : JobRow) → Left w now job v (f r))
      → ((r : JobRow) → (f r).id ≡ r.id)
      → Passed v queue
          (if w.write_fault now job then queue else update_where (has_id job.id) f queue)
  unfolding has_id
  written-Passed v f queue left same = elim (Bool-cases (w.write_fault now job)) [
    | inl e ↦ rw e (inl (refl, refl), refl)
    | inr e ↦ rw e (
      inr (refl, update-Left (Left w now job v) job.id f queue left same),
      keep-update_where is_other (has_id job.id) f queue
          (λ r hit. (rw hit refl, rw (same r, hit) refl)),
    )
  ]

  record_failure-Passed :
      (v : Verdict) (message : Text) (retryable : Bool) (queue : Queue)
      → ((r : JobRow)
          → Left w now job v (mark_failed message (retry_after w now job retryable) now r))
      → Passed v queue (record_failure w now job message retryable queue)
  unfolding record_failure fail
  record_failure-Passed v message retryable queue left =
      written-Passed v (mark_failed message (retry_after w now job retryable) now) queue left
        (id-mark_failed message (retry_after w now job retryable) now)

  settle-Passed :
      (context : UserContext) (r : Result IngestOutcome) (queue : Queue)
      → Passed (verdict_of r) queue (settle w now job context r queue).0
  unfolding settle succeed
  settle-Passed context (ok outcome) queue =
      written-Passed (done outcome.memory_ids) (mark_succeeded outcome.memory_ids now) queue
        (λ r. unfold mark_succeeded in (refl, refl, refl)) (λ r. unfold mark_succeeded in refl)
  settle-Passed context (err error) queue =
      record_failure-Passed (failure_verdict error) (w.describe error) (is_retryable error) queue
        (failed-Left (w.describe error) error)

  process_as-Passed :
      (who : Joined (Result UserContext)) (queue : Queue)
      → Passed (verdict w job who) queue (process_as w now job who queue).0
  unfolding process_as
  process_as-Passed (finished (ok context)) queue =
      settle-Passed context (w.pipeline context job.payload) queue
  process_as-Passed (finished (err error)) queue =
      record_failure-Passed never (w.describe error) false queue (never-Left (w.describe error))
  process_as-Passed (panicked error) queue =
      record_failure-Passed again (codes "resolver task panicked: " ++ error) true queue
        (again-Left (codes "resolver task panicked: " ++ error))

-- A pass whose ending cannot be written leaves the queue as it was, so the job still reads as running.
-- Any other leaves every row of its job unclaimed: succeeded with its memories; or, after an internal
-- error, a conflict or a resolver that panicked, waiting for 5, 10, 20, 40, 80, 160 or at most 320
-- seconds by its attempt, or a dead letter when its attempts are spent; or a dead letter after any other
-- error. The rows of all other jobs are as they were.
pub process_lem :
    (w : Workers) (now : ℕ) (job : ClaimedJob) (queue : Queue)
    → Passed w now job (verdict w job (w.resolve job.user_id)) queue (process w now job queue).0
unfolding process
process_lem w now job queue = process_as-Passed w now job (w.resolve job.user_id) queue
