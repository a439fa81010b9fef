-- ===== src/Consolidation/Groups/Partition.antt =====
-- The groups, described by their keys.
use mathlib.Core.List.{append-nil, append_assoc}
use recuerdos_ai.Prelude.{
  ◌≡◌, refl, sym, ap, ◌∙◌, Bool, true, false, List, [], ◌∷◌, ◌++◌, map, arith, keep, contains,
  Distinct, All, All-append, All-of, contains-append, Distinct-append, keep-append, inl, inr,
  Bool-cases, if◌then◌else◌, if-cases, ◌||◌,
}
use recuerdos_ai.Memories.Memory.{Memory}
use recuerdos_ai.Consolidation.Groups.{
  GroupKey, Group, same_key, key_of, file_under, file_all, by_category_and_subcategory,
}
use recuerdos_ai.Consolidation.Groups.Keys.{same_key_iff, same_key_comm, key_eq}

-- The memories of a key, in their order.
unfoldable pub members_of : List Memory → GroupKey → List Memory
unfolding keep key_of
members_of memories key = keep (λ memory. same_key (key_of memory) key) memories

abbrev pub group_of : List Memory → GroupKey → Group
group_of memories key = record { key = key; members = members_of memories key }

-- One more key, unless it was seen.
unfoldable pub seen_with : List GroupKey → GroupKey → List GroupKey
unfolding contains
seen_with keys key = if contains keys key then keys else keys ++ key ∷ []

-- The keys of memories, in the order in which they first appear.
unfoldable pub keys_from : List GroupKey → List Memory → List GroupKey
unfolding seen_with key_of
keys_from keys [] = keys
keys_from keys (memory ∷ memories) = keys_from (seen_with keys (key_of memory)) memories

members_of-append_same :
    (done : List Memory) (memory : Memory)
    → members_of (done ++ memory ∷ []) (key_of memory)
      ≡ members_of done (key_of memory) ++ memory ∷ []
unfolding members_of
members_of-append_same done memory =
    let same = (same_key_iff (key_of memory) (key_of memory)).1 refl in
    keep-append _ done (memory ∷ [])
    ∙ ap (λ xs. members_of done (key_of memory) ++ xs) (rw same refl)

members_of-append_other :
    (done : List Memory) (memory : Memory) (key : GroupKey)
    → same_key (key_of memory) key ≡ false
    → members_of (done ++ memory ∷ []) key ≡ members_of done key
unfolding members_of
members_of-append_other done memory key other =
    keep-append _ done (memory ∷ []) ∙ rw other (append-nil _)

map-append_other :
    (done : List Memory) (memory : Memory) (keys : List GroupKey)
    → contains keys (key_of memory) ≡ false
    → map (group_of (done ++ memory ∷ [])) keys ≡ map (group_of done) keys
unfolding contains
map-append_other done memory [] absent = refl
map-append_other done memory (key ∷ keys) absent =
    let other = same_key_comm key (key_of memory) in
    let head = members_of-append_other done memory key (ground arith) in
    rw (head, map-append_other done memory keys (ground arith)) refl

first :
    (done : List Memory) (memory : Memory) (key : GroupKey) (keys : List GroupKey)
    → key ≡ key_of memory
    → contains keys key ≡ false
    → record { key = key; members = members_of done key ++ memory ∷ [] } ∷ map (group_of done) keys
      ≡ group_of (done ++ memory ∷ []) key ∷ map (group_of (done ++ memory ∷ [])) keys
first done memory key keys e absent =
    rw (e, members_of-append_same done memory, map-append_other done memory keys (rw e at absent))
      refl

file_under-group_of :
    (done : List Memory) (memory : Memory) (keys : List GroupKey)
    → Distinct keys
    → (contains keys (key_of memory) ≡ false → members_of done (key_of memory) ≡ [])
    → file_under (key_of memory) memory (map (group_of done) keys)
      ≡ map (group_of (done ++ memory ∷ [])) (seen_with keys (key_of memory))
unfolding file_under seen_with contains
file_under-group_of done memory [] distinct absent =
    rw (members_of-append_same done memory, absent refl) refl
file_under-group_of done memory (key ∷ keys) distinct absent =
    elim (Bool-cases (same_key key (key_of memory))) [
      | inl e ↦
          rw e (first done memory key keys ((same_key_iff key (key_of memory)).0 e) distinct.0)
      | inr e ↦ rw e (
          rw
            (
              push_if (contains keys (key_of memory)),
              members_of-append_other done memory key (sym (same_key_comm key (key_of memory)) ∙ e),
              ← file_under-group_of done memory keys distinct.1 (λ n. absent (rw e n)),
            )
            refl)
    ]
  where
    push_if :
        (c : Bool)
        → map
            (group_of (done ++ memory ∷ []))
            (if c then key ∷ keys else key ∷ (keys ++ key_of memory ∷ []))
          ≡ group_of (done ++ memory ∷ []) key
            ∷ map (group_of (done ++ memory ∷ [])) (if c then keys else keys ++ key_of memory ∷ [])
    push_if true = refl
    push_if false = refl

-- The key of each memory so far has been seen.
abbrev pub Covered : List GroupKey → List Memory → Type 0
Covered keys done = All (λ memory. contains keys (key_of memory) ≡ true) done

members_of-unseen :
    (keys : List GroupKey) (key : GroupKey) (done : List Memory)
    → Covered keys done
    → contains keys key ≡ false
    → members_of done key ≡ []
unfolding members_of keep
members_of-unseen keys key [] covered absent = refl
members_of-unseen keys key (memory ∷ done) covered absent =
    let rest = members_of-unseen keys key done covered.1 absent in
    elim (Bool-cases (same_key (key_of memory) key)) [
      | inl e ↦ let seen = rw ((same_key_iff (key_of memory) key).0 e) at covered.0 in cc
      | inr e ↦ rw e rest
    ]

contains-seen_with :
    (keys : List GroupKey) (key j : GroupKey)
    → contains (seen_with keys key) j ≡ (contains keys j || same_key key j)
unfolding seen_with
contains-seen_with keys key j =
    if-cases (λ ks. contains ks j ≡ (contains keys j || same_key key j)) (contains keys key)
      (λ e. elim (Bool-cases (same_key key j)) [
        | inl s ↦ let seen = rw ((same_key_iff key j).0 s) at e in ground arith
        | inr s ↦ ground arith
      ])
      (λ _. contains-append keys key j)

seen_with-Distinct :
    (keys : List GroupKey) (key : GroupKey) → Distinct keys → Distinct (seen_with keys key)
unfolding seen_with
seen_with-Distinct keys key distinct =
    if-cases Distinct (contains keys key) (λ _. distinct) (λ e. Distinct-append keys key e distinct)

seen_with-Covered :
    (keys : List GroupKey) (done : List Memory) (memory : Memory)
    → Covered keys done
    → Covered (seen_with keys (key_of memory)) (done ++ memory ∷ [])
seen_with-Covered keys done memory covered =
    let same = (same_key_iff (key_of memory) (key_of memory)).1 refl in
    All-append _ done (memory ∷ [])
      (All-of _ _ done (λ m h. rw (contains-seen_with keys (key_of memory) (key_of m), h) refl)
        covered)
      (rw (contains-seen_with keys (key_of memory) (key_of memory), same) (ground arith), tt)

file_all-group_of :
    (memories done : List Memory) (keys : List GroupKey)
    → Distinct keys
    → Covered keys done
    → (file_all (map (group_of done) keys) memories
        ≡ map (group_of (done ++ memories)) (keys_from keys memories))
      × Distinct (keys_from keys memories)
unfolding file_all keys_from
file_all-group_of [] done keys distinct covered = (rw (append-nil done) refl, distinct)
file_all-group_of (memory ∷ memories) done keys distinct covered =
    rw
      (
        file_under-group_of done memory keys distinct
            (members_of-unseen keys (key_of memory) done covered),
        ← append_assoc done (memory ∷ []) memories,
      )
      (file_all-group_of memories (done ++ memory ∷ []) (seen_with keys (key_of memory))
        (seen_with-Distinct keys (key_of memory) distinct)
        (seen_with-Covered keys done memory covered))

-- The groups are, for each pair of a category and a subcategory that occurs, in the order in which they
-- first occur, all the memories with that pair, in their order; and no pair has two groups.
pub by_category_and_subcategory_lem :
    (memories : List Memory)
    → (by_category_and_subcategory memories ≡ map (group_of memories) (keys_from [] memories))
      × Distinct (keys_from [] memories)
unfolding by_category_and_subcategory
by_category_and_subcategory_lem memories = file_all-group_of memories [] [] tt tt
