-- ===== src/Understanding/JobQueue/Claims.antt =====
-- What a claim takes, and that no two claims take the same job.
use recuerdos_ai.Prelude.{
  ℕ, ◌<◌, ◌≤◌, ◌⊎◌, ◌≡◌, ◌≢◌, refl, sym, ap, ◌∙◌, true, false, Option, none, some, [], ◌∷◌, arith,
  All, All-of, Some, update_where, Bool-cases, inl, inr, ◌==◌, subst, Some_of_All,
}
use recuerdos_ai.Text.{same_text}
use recuerdos_ai.Shared.Error.{Result, ok}
use recuerdos_ai.Understanding.JobQueue.{
  JobRow, ClaimedJob, Queue, Codec, has_id, is_due, comes_before, earlier, next_due, mark_claimed,
  claimed_from_row, claim_next, claim,
}

comes_before_total :
    (a b c : JobRow)
    → comes_before a b ≡ false
    → comes_before b c ≡ false
    → comes_before a c ≡ false
unfolding comes_before
comes_before_total a b c h k = ground arith

comes_before_refl : (a : JobRow) → comes_before a a ≡ false
unfolding comes_before
comes_before_refl a = ground arith

comes_before_asym : (a b : JobRow) → comes_before a b ≡ true → comes_before b a ≡ false
unfolding comes_before
comes_before_asym a b h = ground arith

pub next_due-none :
    (now : ℕ) (queue : Queue) → next_due now queue ≡ none → All (λ r. is_due now r ≡ false) queue
unfolding next_due
next_due-none now [] h = tt
next_due-none now (r ∷ rs) h = elim (Bool-cases (is_due now r)) [
  | inl e ↦ cc (rw e at h)
  | inr e ↦ (e, next_due-none now rs (rw e at h))
]

-- `row` is no later than any row that is due, by `run_after` and then by `created_at`.
abbrev pub IsFirst : ℕ → JobRow → Queue → Type 0
IsFirst now row = All (λ r.
    is_due now r ≡ true
    → (row.run_after < r.run_after)
      ⊎ ((row.run_after ≡ r.run_after) × (row.created_at ≤ r.created_at)))

in_order :
    (a b : JobRow)
    → comes_before b a ≡ false
    → (a.run_after < b.run_after) ⊎ ((a.run_after ≡ b.run_after) × (a.created_at ≤ b.created_at))
unfolding comes_before
in_order a b h = ground arith

-- No due row comes before `row`.
abbrev pub IsUnbeaten : ℕ → JobRow → Queue → Type 0
IsUnbeaten now row = All (λ r. is_due now r ≡ true → comes_before r row ≡ false)

abbrev pub Chosen : ℕ → JobRow → Queue → Type 0
Chosen now row queue =
    (is_due now row ≡ true) × Some (λ r. r ≡ row) queue × IsUnbeaten now row queue

earlier_lem :
    (now : ℕ) (r : JobRow) (rs : Queue) (o : Option JobRow)
    → is_due now r ≡ true
    → next_due now rs ≡ o
    → ((s : JobRow) → o ≡ some s → Chosen now s rs)
    → Chosen now (earlier r o) (r ∷ rs)
unfolding earlier
earlier_lem now r rs none due e later = (
  due,
  inl refl,
  ((λ _. comes_before_refl r), All-of _ _ rs (λ x never d. cc) (next_due-none now rs e)),
)
earlier_lem now r rs (some s) due e later =
    let (s_due, s_in, s_first) = later s refl in
    elim (Bool-cases (comes_before s r)) [
      | inl h ↦
          subst (λ x. Chosen now x (r ∷ rs)) (sym (pick h))
            (s_due, inr s_in, ((λ _. comes_before_asym s r h), s_first))
      | inr h ↦
          subst (λ x. Chosen now x (r ∷ rs)) (sym (keep_own h))
            (
              due,
              inl refl,
              (
                (λ _. comes_before_refl r),
                All-of _ _ rs (λ x first d. comes_before_total x s r (first d) h) s_first,
              ),
            )
    ]
  where
    pick : comes_before s r ≡ true → earlier r (some s) ≡ s
    pick h = rw h refl

    keep_own : comes_before s r ≡ false → earlier r (some s) ≡ r
    keep_own h = rw h refl

some_eq : {a b : JobRow} → some a ≡ some b → a ≡ b
some_eq h = cc

pub next_due-Chosen :
    (now : ℕ) (queue : Queue) (row : JobRow) → next_due now queue ≡ some row → Chosen now row queue
unfolding next_due
next_due-Chosen now [] row h = cc
next_due-Chosen now (r ∷ rs) row h = elim (Bool-cases (is_due now r)) [
  | inl e ↦
      let same : earlier r (next_due now rs) ≡ row = some_eq (rw e at h) in
      subst (λ x. Chosen now x (r ∷ rs)) same
        (earlier_lem now r rs (next_due now rs) e refl (λ s p. next_due-Chosen now rs s p))
  | inr e ↦
      let (due, at, first) = next_due-Chosen now rs row (rw e at h) in
      (due, inr at, ((λ d. cc), first))
]

claimed_from_row-id :
    (codec : Codec) (row : JobRow) (job : ClaimedJob)
    → claimed_from_row codec row ≡ ok (some job)
    → row.id ≡ job.id
unfolding claimed_from_row
claimed_from_row-id codec row job h = ground arith

pub claimed_from_row-some : (codec : Codec) (row : JobRow) → claimed_from_row codec row ≢ ok none
unfolding claimed_from_row
claimed_from_row-some codec row h = ground arith

claim-some :
    (codec : Codec) (now : ℕ) (o : Option JobRow) (queue queue' : Queue) (job : ClaimedJob)
    → claim codec now o queue ≡ (ok (some job), queue')
    → (row : JobRow) × (o ≡ some row)
      × (row.id ≡ job.id)
      × (queue' ≡ update_where (has_id job.id) (mark_claimed now) queue)
unfolding claim
claim-some codec now none queue queue' job h =
    cc (ap (λ (x : Result (Option ClaimedJob) × Queue). x.0) h)
claim-some codec now (some row) queue queue' job h =
    let same : row.id ≡ job.id =
      unfold mark_claimed in
      claimed_from_row-id codec (mark_claimed now row) job
        (ap (λ (x : Result (Option ClaimedJob) × Queue). x.0) h) in
    (row, refl, same, rw (← same) (sym (ap (λ (x : Result (Option ClaimedJob) × Queue). x.1) h)))

claim-none :
    (codec : Codec) (now : ℕ) (o : Option JobRow) (queue queue' : Queue)
    → claim codec now o queue ≡ (ok none, queue')
    → (o ≡ none) × (queue' ≡ queue)
unfolding claim
claim-none codec now none queue queue' h =
    (refl, sym (ap (λ (x : Result (Option ClaimedJob) × Queue). x.1) h))
claim-none codec now (some row) queue queue' h = absurd (
    claimed_from_row-some codec (mark_claimed now row)
      (ap (λ (x : Result (Option ClaimedJob) × Queue). x.0) h))

-- No row of a job that was just claimed is due.
claimed_not_due :
    (id now later : ℕ) (queue : Queue)
    → All
        (λ r. r.id ≡ id → is_due later r ≡ false)
        (update_where (has_id id) (mark_claimed now) queue)
unfolding update_where has_id mark_claimed is_due same_text
claimed_not_due id now later [] = tt
claimed_not_due id now later (r ∷ rs) = elim (Bool-cases (r.id == id)) [
  | inl e ↦ rw e ((λ _. refl), claimed_not_due id now later rs)
  | inr e ↦ rw e ((λ same. ground arith), claimed_not_due id now later rs)
]

-- A claim that returns a job returns a due one of the queue, and no due job has an earlier
-- `run_after`, or the same one and an earlier `created_at`; it marks the rows of that job as
-- running since `now`, with one more attempt, and changes nothing else.
pub claim_next-IsFirst :
    (codec : Codec) (now : ℕ) (queue queue' : Queue) (job : ClaimedJob)
    → claim_next codec now queue ≡ (ok (some job), queue')
    → (row : JobRow) × Some (λ r. r ≡ row) queue
      × (row.id ≡ job.id)
      × (is_due now row ≡ true)
      × IsFirst now row queue
      × (queue' ≡ update_where (has_id job.id) (mark_claimed now) queue)
unfolding claim_next
claim_next-IsFirst codec now queue queue' job h =
    let (row, e, same, after) = claim-some codec now (next_due now queue) queue queue' job h in
    let (due, at, first) = next_due-Chosen now queue row e in
    (
      row,
      at,
      same,
      due,
      All-of _ _ queue (λ r unbeaten d. in_order row r (unbeaten d)) first,
      after,
    )

-- A claim that returns no job found none that is due, and changes nothing.
pub claim_next-none :
    (codec : Codec) (now : ℕ) (queue queue' : Queue)
    → claim_next codec now queue ≡ (ok none, queue')
    → All (λ r. is_due now r ≡ false) queue × (queue' ≡ queue)
unfolding claim_next
claim_next-none codec now queue queue' h =
    let (e, same) = claim-none codec now (next_due now queue) queue queue' h in
    (next_due-none now queue e, same)

-- Two claims in a row, by whichever workers and at whatever moments, take different jobs.
pub claim_next_twice :
    (codec : Codec) (now later : ℕ) (queue queue' queue'' : Queue) (first second : ClaimedJob)
    → claim_next codec now queue ≡ (ok (some first), queue')
    → claim_next codec later queue' ≡ (ok (some second), queue'')
    → first.id ≢ second.id
claim_next_twice codec now later queue queue' queue'' first second h k same =
    let (row, _, _, _, _, after) = claim_next-IsFirst codec now queue queue' first h in
    let (taken, at, its_id, due, _, _) = claim_next-IsFirst codec later queue' queue'' second k in
    Some_of_All (λ r. r.id ≡ first.id → is_due later r ≡ false) (λ r. r ≡ taken) queue'
      (λ r not_due is_taken. cc (
        not_due (ap (λ (x : JobRow). x.id) is_taken ∙ its_id ∙ sym same),
        ap (is_due later) is_taken,
        due,
      ))
      (rw after (claimed_not_due first.id now later queue)) at
