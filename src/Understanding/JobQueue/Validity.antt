-- ===== src/Understanding/JobQueue/Validity.antt =====
-- The life of a job as a step relation: any number of handlers and workers, in any order, may call
-- the methods of the queue.
use mathlib.Core.List.{map-append}
use recuerdos_ai.Prelude.{
  nat_eq, none, some, ℕ, ◌≡◌, refl, false, Option, is_some, List, [], inl, inr, ◌⊎◌, contains, All,
  Bool, All-append, map, some, Distinct, update_where, All-update_where, map-update_where,
  Distinct-append,
}
use recuerdos_ai.Text.{Text, codes, same_text}
use recuerdos_ai.Identity.UserContext.{UserContext}
use recuerdos_ai.Understanding.JobQueue.{
  JobRow, Queue, Codec, IngestPayload, has_id, mark_claimed, enqueue, claim_next, succeed, fail,
  reclaim_stale, mark_succeeded, mark_failed, mark_reclaimed, claim, next_due, is_stale,
}

-- One call of a method of the queue. Identifiers of new jobs are fresh, as UUIDs are.
pub data Step (codec : Codec) : Queue → Queue → Type 0 where
  enqueued :
      (queue : Queue) (id : ℕ) (context : UserContext) (payload : IngestPayload) (now : ℕ)
      → contains (map (λ r. r.id) queue) id ≡ false
      → Step codec queue (enqueue codec id context payload now queue).1
  claimed : (queue : Queue) (now : ℕ) → Step codec queue (claim_next codec now queue).1
  finished :
      (queue : Queue) (id : ℕ) (memory_ids : List ℕ) (now : ℕ)
      → Step codec queue (succeed id memory_ids now queue)
  failed :
      (queue : Queue) (id : ℕ) (error : Text) (retry_after : Option ℕ) (now : ℕ)
      → Step codec queue (fail id error retry_after now queue)
  reclaimed :
      (queue : Queue) (stale_before now : ℕ)
      → Step codec queue (reclaim_stale stale_before now queue).1

pub data Reach (codec : Codec) : Queue → Type 0 where
  start : Reach codec []
  next : {queue queue' : Queue} → Reach codec queue → Step codec queue queue' → Reach codec queue'

-- A row is claimed exactly while its job runs, and its status is one that the program writes.
pub record IsValidRow (r : JobRow) : Type 0 where
  pub claim : is_some r.claimed_at ≡ same_text r.status (codes "running")
  pub known :
      (r.status ≡ codes "pending")
      ⊎ (r.status ≡ codes "running")
      ⊎ (r.status ≡ codes "succeeded")
      ⊎ (r.status ≡ codes "dead_letter")

mark_claimed-IsValidRow : (now : ℕ) (r : JobRow) → IsValidRow (mark_claimed now r)
unfolding mark_claimed same_text
mark_claimed-IsValidRow now r = record { claim = refl; known = inr (inl refl) }

mark_succeeded-IsValidRow :
    (memory_ids : List ℕ) (now : ℕ) (r : JobRow) → IsValidRow (mark_succeeded memory_ids now r)
unfolding mark_succeeded same_text
mark_succeeded-IsValidRow memory_ids now r = record { claim = refl; known = inr (inr (inl refl)) }

mark_failed-IsValidRow :
    (error : Text) (retry_after : Option ℕ) (now : ℕ) (r : JobRow)
    → IsValidRow (mark_failed error retry_after now r)
unfolding mark_failed same_text
mark_failed-IsValidRow error none now r = record { claim = refl; known = inr (inr (inr refl)) }
mark_failed-IsValidRow error (some when) now r = record { claim = refl; known = inl refl }

mark_reclaimed-IsValidRow : (now : ℕ) (r : JobRow) → IsValidRow (mark_reclaimed now r)
unfolding mark_reclaimed same_text
mark_reclaimed-IsValidRow now r = record { claim = refl; known = inl refl }

-- Every row is valid, and no two rows have one identifier.
pub record IsValid (queue : Queue) : Type 0 where
  pub rows : All IsValidRow queue
  pub ids : Distinct (map (λ r. r.id) queue)

update-IsValid :
    (p : JobRow → Bool) (f : JobRow → JobRow) (queue : Queue)
    → ((r : JobRow) → IsValidRow (f r))
    → ((r : JobRow) → (f r).id ≡ r.id)
    → IsValid queue
    → IsValid (update_where p f queue)
update-IsValid p f queue valid same h = record {
  rows = All-update_where IsValidRow p f queue (λ r _ _. valid r) h.rows;
  ids = rw (map-update_where (λ r. r.id) p f queue same) h.ids;
}

pub id-mark_failed :
    (error : Text) (retry_after : Option ℕ) (now : ℕ) (r : JobRow)
    → (mark_failed error retry_after now r).id ≡ r.id
unfolding mark_failed
id-mark_failed error none now r = refl
id-mark_failed error (some when) now r = refl

claim-IsValid :
    (codec : Codec) (now : ℕ) (o : Option JobRow) (queue : Queue)
    → IsValid queue
    → IsValid (claim codec now o queue).1
unfolding claim
claim-IsValid codec now none queue h = h
claim-IsValid codec now (some row) queue h =
    update-IsValid (has_id row.id) (mark_claimed now) queue (mark_claimed-IsValidRow now)
      (λ r. unfold mark_claimed in refl) h

Step-IsValid :
    {codec : Codec} {queue queue' : Queue}
    → Step codec queue queue'
    → IsValid queue
    → IsValid queue'
unfolding enqueue claim_next succeed fail reclaim_stale
Step-IsValid (enqueued queue id context payload now fresh) h = record {
  rows =
      All-append IsValidRow queue _ h.rows
        (unfold same_text in (record { claim = refl; known = inl refl }, tt));
  ids = rw map-append (Distinct-append (map (λ r. r.id) queue) id fresh h.ids);
}
Step-IsValid {codec} (claimed queue now) h = claim-IsValid codec now (next_due now queue) queue h
Step-IsValid (finished queue id memory_ids now) h =
    update-IsValid (has_id id) (mark_succeeded memory_ids now) queue
      (mark_succeeded-IsValidRow memory_ids now) (λ r. unfold mark_succeeded in refl) h
Step-IsValid (failed queue id error retry_after now) h =
    update-IsValid (has_id id) (mark_failed error retry_after now) queue
      (mark_failed-IsValidRow error retry_after now) (id-mark_failed error retry_after now) h
Step-IsValid (reclaimed queue stale_before now) h =
    update-IsValid (is_stale stale_before) (mark_reclaimed now) queue
      (mark_reclaimed-IsValidRow now) (λ r. unfold mark_reclaimed in refl) h

-- Whatever calls were made, in whatever order: a job is claimed exactly while it runs, its status is
-- one of the four that the program writes, and no two jobs have one identifier.
pub Reach-IsValid : {codec : Codec} {queue : Queue} → Reach codec queue → IsValid queue
Reach-IsValid start = record { rows = tt; ids = tt }
Reach-IsValid (next r s) = Step-IsValid s (Reach-IsValid r)
