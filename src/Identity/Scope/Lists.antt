-- ===== src/Identity/Scope/Lists.antt =====
-- What `parse_list` accepts, and that `join` writes what it reads.
use recuerdos_ai.Prelude.{
  ◌<◌, ◌≤◌, ◌≡◌, refl, true, false, List, [], ◌∷◌, ◌||◌, arith, leb, is_empty, contains, All,
  Distinct, Bool-cases, inl, inr, All-of, Distinct-append,
}
use recuerdos_ai.Text.{Text, trim, is_whitespace}
use recuerdos_ai.Shared.Error.{ok, ok-injective, >>=-eq-ok}
use recuerdos_ai.Identity.Scope.{
  Scope, read, write, admin, rank, same_scope, scope_eq, from_str, split, collect, insert_sorted,
  sort, parse_list, join, push_new,
}

-- Each scope at most once, in the order of the variants.
abbrev pub Increasing : List Scope → Type 0
Increasing [] = Unit
Increasing (s ∷ ss) = All (λ t. rank s < rank t) ss × Increasing ss

push_new-Distinct :
    (scopes : List Scope) (s : Scope) → Distinct scopes → Distinct (push_new scopes s)
unfolding push_new
push_new-Distinct scopes s d = elim (Bool-cases (contains scopes s)) [
  | inl e ↦ rw e d
  | inr e ↦ rw e (Distinct-append scopes s e d)
]

-- The loop keeps what it holds free of repetitions.
collect-Distinct :
    (scopes : List Scope) (parts : List Text) (out : List Scope)
    → Distinct scopes
    → collect scopes parts ≡ ok out
    → Distinct out
unfolding collect
collect-Distinct scopes [] out d h = rw (← ok-injective h) d
collect-Distinct scopes (part ∷ parts) out d h = elim (Bool-cases (is_empty (trim part))) [
  | inl e ↦ collect-Distinct scopes parts out d (rw e at h)
  | inr e ↦
      let (s, _, rest) = >>=-eq-ok (from_str (trim part)) _ (rw e at h) in
      collect-Distinct (push_new scopes s) parts out (push_new-Distinct scopes s d) rest
]

All-insert_sorted :
    (P : Scope → Type 0) (s : Scope) (ts : List Scope) → P s → All P ts → All P (insert_sorted s ts)
unfolding insert_sorted
All-insert_sorted P s [] p h = (p, tt)
All-insert_sorted P s (t ∷ ts) p h = elim (Bool-cases (leb (rank s) (rank t))) [
  | inl e ↦ rw e (p, h)
  | inr e ↦ rw e (h.0, All-insert_sorted P s ts p h.1)
]

contains-insert_sorted :
    (s : Scope) (ts : List Scope) (x : Scope)
    → contains (insert_sorted s ts) x ≡ (same_scope s x || contains ts x)
unfolding insert_sorted contains
contains-insert_sorted s [] x = refl
contains-insert_sorted s (t ∷ ts) x = ground (arith, contains-insert_sorted s ts x)

contains-sort : (ts : List Scope) (x : Scope) → contains (sort ts) x ≡ contains ts x
unfolding sort contains
contains-sort [] x = refl
contains-sort (t ∷ ts) x = rw (contains-insert_sorted t (sort ts) x, contains-sort ts x) refl

rank-injective :
    (a b : Scope) → leb (rank a) (rank b) ≡ true → same_scope b a ≡ false → rank a < rank b
unfolding rank same_scope
rank-injective a b h k = ground arith

insert_sorted-Increasing :
    (s : Scope) (ts : List Scope)
    → contains ts s ≡ false
    → Increasing ts
    → Increasing (insert_sorted s ts)
unfolding insert_sorted contains
insert_sorted-Increasing s [] n h = (tt, tt)
insert_sorted-Increasing s (t ∷ ts) n h = elim (Bool-cases (leb (rank s) (rank t))) [
  | inl e ↦
      let below : rank s < rank t = rank-injective s t e (ground arith) in
      rw e ((below, All-of _ _ ts (λ x r. omega arith) h.0), h)
  | inr e ↦ rw e (
    All-insert_sorted _ s ts (ground arith) h.0,
    insert_sorted-Increasing s ts (ground arith) h.1,
  )
]

sort-Increasing : (ts : List Scope) → Distinct ts → Increasing (sort ts)
unfolding sort
sort-Increasing [] d = tt
sort-Increasing (t ∷ ts) d =
    insert_sorted-Increasing t (sort ts) (rw (contains-sort ts t) d.0) (sort-Increasing ts d.1)

is_empty-insert_sorted : (s : Scope) (ts : List Scope) → is_empty (insert_sorted s ts) ≡ false
unfolding insert_sorted
is_empty-insert_sorted s [] = refl
is_empty-insert_sorted s (t ∷ ts) = ground arith

is_empty-sort : (ts : List Scope) → is_empty (sort ts) ≡ is_empty ts
unfolding sort
is_empty-sort [] = refl
is_empty-sort (t ∷ ts) = is_empty-insert_sorted t (sort ts)

-- A list of scopes that parses is not empty, and holds each scope at most once, in the order of the
-- variants.
pub parse_list-Increasing :
    (raw : Text) (scopes : List Scope)
    → parse_list raw ≡ ok scopes
    → Increasing scopes × (is_empty scopes ≡ false)
unfolding parse_list
parse_list-Increasing raw scopes h =
    let (out, e, k) = >>=-eq-ok (collect [] (split b',' raw)) _ h in
    elim (Bool-cases (is_empty out)) [
      | inl none_given ↦ cc (rw none_given at k)
      | inr given ↦
          let same : sort out ≡ scopes = ok-injective (rw given at k) in
          rw (← same) (
            sort-Increasing out (collect-Distinct [] (split b',' raw) out tt e),
            rw (is_empty-sort out) given,
          )
    ]

rank_le : (s : Scope) → rank s ≤ 2
unfolding rank
rank_le s = ground arith

-- What `join` writes for scopes in that order, `parse_list` reads back.
pub parse_list-join :
    (scopes : List Scope)
    → Increasing scopes
    → is_empty scopes ≡ false
    → parse_list (join scopes) ≡ ok scopes
unfolding parse_list join rank is_whitespace
parse_list-join [] h n = cc
parse_list-join (read ∷ []) h n = refl
parse_list-join (write ∷ []) h n = refl
parse_list-join (admin ∷ []) h n = refl
parse_list-join (read ∷ write ∷ []) h n = refl
parse_list-join (read ∷ admin ∷ []) h n = refl
parse_list-join (write ∷ admin ∷ []) h n = refl
parse_list-join (read ∷ write ∷ admin ∷ []) h n = refl
parse_list-join (_ ∷ b ∷ []) h n = absurd (omega (arith, rank_le b))
parse_list-join (_ ∷ _ ∷ c ∷ []) h n = absurd (omega (arith, rank_le c))
parse_list-join (_ ∷ _ ∷ _ ∷ d ∷ _) h n = absurd (omega (arith, rank_le d))
