-- ===== src/Understanding/JobQueue/Status.antt =====
-- Lookups by tenant, the return of stale jobs, and the names of the statuses.
use recuerdos_ai.Prelude.{
  leb, ◌≤◌, ◌⊎◌, suc, none, Option, ℕ, ◌≡◌, ◌≢◌, refl, true, false, ◌&&◌, some, [], ◌∷◌, arith,
  count_where, update_where, Bool-cases, inl, inr, ◌==◌, Some,
}
use recuerdos_ai.Text.{Text, codes, same_text, same_text_iff}
use recuerdos_ai.Identity.UserContext.{UserContext}
use recuerdos_ai.Understanding.JobQueue.{
  or_stopped, JobRow, Queue, JobRecord, has_status, is_stale, mark_reclaimed, reclaim_stale, find,
  JobStatus, pending, running, succeeded, dead_letter, from_stored, record_from_row,
}

-- The names that the statements of the queue write, by status.
abbrev pub stored_name : JobStatus → Text
stored_name pending = codes "pending"
stored_name running = codes "running"
stored_name succeeded = codes "succeeded"
stored_name dead_letter = codes "dead_letter"

-- Each stored name is read back as its status, and any other text as `running`.
pub from_stored_lem :
    (raw : Text)
    → ((s : JobStatus) → from_stored (stored_name s) ≡ s)
      × (((s : JobStatus) → raw ≢ stored_name s) → from_stored raw ≡ running)
unfolding from_stored same_text
from_stored_lem raw = (known, other)
  where
    known : (s : JobStatus) → from_stored (stored_name s) ≡ s
    known pending = refl
    known running = refl
    known succeeded = refl
    known dead_letter = refl

    other : ((s : JobStatus) → raw ≢ stored_name s) → from_stored raw ≡ running
    other h = ground (
      arith,
      same_text_iff raw (codes "pending"),
      same_text_iff raw (codes "succeeded"),
      same_text_iff raw (codes "dead_letter"),
      h pending,
      h succeeded,
      h dead_letter,
    )

-- A job that a lookup returns is that of a row of the queue with the identifier that was asked for,
-- and whose owner is the user who asks.
pub find-owner :
    (context : UserContext) (id : ℕ) (queue : Queue) (job : JobRecord)
    → find context id queue ≡ some job
    → Some (λ r. (r.id ≡ id) × (r.user_id ≡ context.user_id) × (job ≡ record_from_row r)) queue
unfolding find
find-owner context id [] job h = cc
find-owner context id (r ∷ rs) job h =
    elim (Bool-cases (r.id == id && r.user_id == context.user_id)) [
      | inl e ↦ inl (ground arith, ground arith, some_eq (rw e at h))
      | inr e ↦ inr (find-owner context id rs job (rw e at h))
    ]
  where
    some_eq : {a b : JobRecord} → some a ≡ some b → b ≡ a
    some_eq h = cc

module _ (stale_before now : ℕ) where
  -- A job that runs and was claimed no later than `stale_before`.
  abbrev pub IsAbandoned : JobRow → Type 0
  IsAbandoned r =
      (at : ℕ) × (r.status ≡ codes "running") × (r.claimed_at ≡ some at) × (at ≤ stale_before)

  -- A row that waits again from now on, free and with its reason.
  abbrev pub waiting : JobRow → JobRow
  waiting r = record r {
    status = codes "pending";
    claimed_at = none;
    run_after = now;
    updated_at = now;
    error = some (elim r.error [
      | none ↦ codes "the worker holding this job stopped"
      | some reason ↦ reason
    ]);
  }

  -- Row by row, with the number of those that wait again.
  abbrev pub Reclaimed : Queue → Queue → ℕ → Type 0
  Reclaimed [] [] n = n ≡ 0
  Reclaimed [] (_ ∷ _) n = ⊥
  Reclaimed (_ ∷ _) [] n = ⊥
  Reclaimed (r ∷ rs) (s ∷ ss) n =
      (IsAbandoned r × (s ≡ waiting r) × ((m : ℕ) × (n ≡ suc m) × Reclaimed rs ss m))
      ⊎ (¬ IsAbandoned r × (s ≡ r) × Reclaimed rs ss n)

  stopped_lem : (r : JobRow) → mark_reclaimed now r ≡ waiting r
  unfolding mark_reclaimed or_stopped
  stopped_lem r = by_error r.error
    where
      by_error :
          (e : Option Text)
          → record r {
            status = codes "pending";
            claimed_at = none;
            run_after = now;
            updated_at = now;
            error = some (or_stopped e);
          }
            ≡ record r {
              status = codes "pending";
              claimed_at = none;
              run_after = now;
              updated_at = now;
              error = some (elim e [
                | none ↦ codes "the worker holding this job stopped"
                | some reason ↦ reason
              ]);
            }
      by_error none = refl
      by_error (some reason) = refl

  stale_lem : (r : JobRow) → is_stale stale_before r ≡ true → IsAbandoned r
  unfolding is_stale has_status
  stale_lem r h = by_claim r.claimed_at refl
    where
      by_claim : (c : Option ℕ) → r.claimed_at ≡ c → IsAbandoned r
      by_claim none e = cc (rw e at h)
      by_claim (some at) e =
          let both : (same_text r.status (codes "running") && leb at stale_before) ≡ true =
            rw e at h in
          (at, (same_text_iff r.status (codes "running")).0 (ground arith), e, ground arith)

  fresh_lem : (r : JobRow) → is_stale stale_before r ≡ false → ¬ IsAbandoned r
  unfolding is_stale has_status
  fresh_lem r h (at, ran, claimed, early) =
      let more : (same_text r.status (codes "running") && leb at stale_before) ≡ false =
        rw claimed at h in
      let same : same_text r.status (codes "running") ≡ true =
        (same_text_iff r.status (codes "running")).1 ran in
      ground arith

  -- A reclaim goes through the queue row by row. A job that runs and was claimed no later than
  -- `stale_before` waits again: pending, unclaimed, due now, with the error that it had or else a note
  -- that its worker stopped, and otherwise as it was. Every other job is left as it was, one that runs
  -- and was claimed after `stale_before` among them. The number reported is that of the jobs that wait
  -- again.
  pub reclaim_stale_lem :
      (queue : Queue)
      → Reclaimed queue
          (reclaim_stale stale_before now queue).1
          (reclaim_stale stale_before now queue).0
  unfolding reclaim_stale count_where update_where
  reclaim_stale_lem [] = refl
  reclaim_stale_lem (r ∷ rs) = elim (Bool-cases (is_stale stale_before r)) [
    | inl e ↦ rw e (inl (stale_lem r e, stopped_lem r, (_, refl, reclaim_stale_lem rs)))
    | inr e ↦ rw e (inr (fresh_lem r e, refl, reclaim_stale_lem rs))
  ]
