-- ===== src/Memories/Repository/Trail.antt =====
-- `audit_trail` of memories/infrastructure/sqlite_memory_repository.rs.
use recuerdos_ai.Prelude.{
  All-take, ℕ, zero, suc, ◌≤◌, ◌≡◌, inl, inr, Bool, List, [], ◌∷◌, arith, ltb, ◌==◌, if◌then◌else◌,
  keep, take, length, length-take_le, Bool-cases, All,
}
use recuerdos_ai.Identity.UserContext.{UserContext}
use recuerdos_ai.Memories.Repository.{AuditEntry, Store}

-- `ORDER BY at DESC, rowid DESC`: the entry `e` was written before all of the list.
unfoldable pub insert_latest : AuditEntry → List AuditEntry → List AuditEntry
insert_latest e [] = e ∷ []
insert_latest e (f ∷ entries) =
    let rest = insert_latest e entries in if ltb f.at e.at then e ∷ f ∷ entries else f ∷ rest

unfoldable pub latest_first : List AuditEntry → List AuditEntry
unfolding insert_latest
latest_first [] = []
latest_first (e ∷ entries) = insert_latest e (latest_first entries)

-- `WHERE user_id = ?1`
unfoldable pub is_own : UserContext → AuditEntry → Bool
is_own context e = e.user_id == context.user_id

unfoldable pub audit_trail : UserContext → ℕ → Store → List AuditEntry
unfolding latest_first is_own keep
audit_trail context limit store = take limit (latest_first (keep (is_own context) store.audit))

-- No entry is later than one that stands before it.
abbrev pub Descending : List AuditEntry → Type 0
Descending [] = Unit
Descending (e ∷ entries) = All (λ f. f.at ≤ e.at) entries × Descending entries

module _ (P : AuditEntry → Type 0) where
  All-insert_latest :
      (e : AuditEntry) (entries : List AuditEntry)
      → P e
      → All P entries
      → All P (insert_latest e entries)
  unfolding insert_latest
  All-insert_latest e [] h k = (h, tt)
  All-insert_latest e (f ∷ entries) h k = elim (Bool-cases (ltb f.at e.at)) [
    | inl l ↦ rw l (h, k)
    | inr l ↦ rw l (k.0, All-insert_latest e entries h k.1)
  ]

  All-latest_first : (entries : List AuditEntry) → All P entries → All P (latest_first entries)
  unfolding latest_first
  All-latest_first [] h = tt
  All-latest_first (e ∷ entries) h =
      All-insert_latest e (latest_first entries) h.0 (All-latest_first entries h.1)

All-le :
    (a b : ℕ) (entries : List AuditEntry)
    → a ≤ b
    → All (λ f. f.at ≤ a) entries
    → All (λ f. f.at ≤ b) entries
All-le a b [] le h = tt
All-le a b (e ∷ entries) le h = let x = h.0 in (omega arith, All-le a b entries le h.1)

insert_latest-Descending :
    (e : AuditEntry) (entries : List AuditEntry)
    → Descending entries
    → Descending (insert_latest e entries)
unfolding insert_latest
insert_latest-Descending e [] d = (tt, tt)
insert_latest-Descending e (f ∷ entries) d = elim (Bool-cases (ltb f.at e.at)) [
  | inl l ↦ let le : f.at ≤ e.at = ground arith in rw l ((le, All-le f.at e.at entries le d.0), d)
  | inr l ↦
      let le : e.at ≤ f.at = ground arith in
      rw l (
        All-insert_latest (λ g. g.at ≤ f.at) e entries le d.0,
        insert_latest-Descending e entries d.1,
      )
]

latest_first-Descending : (entries : List AuditEntry) → Descending (latest_first entries)
unfolding latest_first
latest_first-Descending [] = tt
latest_first-Descending (e ∷ entries) =
    insert_latest-Descending e (latest_first entries) (latest_first-Descending entries)

take-Descending :
    (n : ℕ) (entries : List AuditEntry) → Descending entries → Descending (take n entries)
take-Descending zero entries d = tt
take-Descending (suc n) [] d = tt
take-Descending (suc n) (e ∷ entries) d =
    (All-take (λ (f : AuditEntry). f.at ≤ e.at) n entries d.0, take-Descending n entries d.1)

own_kept :
    (context : UserContext) (entries : List AuditEntry)
    → All (λ e. e.user_id ≡ context.user_id) (keep (is_own context) entries)
unfolding keep is_own
own_kept context [] = tt
own_kept context (e ∷ entries) = elim (Bool-cases (e.user_id == context.user_id)) [
  | inl k ↦ rw k (ground arith, own_kept context entries)
  | inr k ↦ rw k (own_kept context entries)
]

-- An audit trail holds entries of the caller only, the latest first, and no more than were asked for.
pub audit_trail_lem :
    (context : UserContext) (limit : ℕ) (store : Store)
    → All (λ e. e.user_id ≡ context.user_id) (audit_trail context limit store)
      × Descending (audit_trail context limit store)
      × (length (audit_trail context limit store) ≤ limit)
unfolding audit_trail
audit_trail_lem context limit store = (
  All-take (λ e. e.user_id ≡ context.user_id) limit
      (latest_first (keep (is_own context) store.audit))
      (All-latest_first (λ e. e.user_id ≡ context.user_id) (keep (is_own context) store.audit)
        (own_kept context store.audit)),
  take-Descending limit _ (latest_first-Descending (keep (is_own context) store.audit)),
  length-take_le limit _,
)
