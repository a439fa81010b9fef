-- ===== src/Identity/Scope.antt =====
-- identity/domain/scope.rs: the scopes of an API key, and their list in text form.
pub mod Lists
use recuerdos_ai.Prelude.{
  ℕ, ◌≡◌, refl, ◌↔◌, Bool, true, false, List, [], ◌∷◌, ◌++◌, map, arith, leb, ltb, ◌==◌,
  if◌then◌else◌, is_empty, Eq, contains,
}
use recuerdos_ai.Text.{Text, codes, same_text, text_eq, trim, to_ascii_lowercase}
use recuerdos_ai.Shared.Error.{RaError, Result, ok, err, validation, ◌>>=◌}

pub data Scope : Type 0 where
  read write admin : Scope

-- The order of the variants, which `derive(Ord)` compares.
unfoldable pub rank : Scope → ℕ
rank read = 0
rank write = 1
rank admin = 2

unfoldable pub same_scope : Scope → Scope → Bool
same_scope read read = true
same_scope write write = true
same_scope admin admin = true
same_scope _ _ = false

pub same_scope_iff : (a b : Scope) → (same_scope a b ≡ true) ↔ (a ≡ b)
unfolding same_scope
same_scope_iff a b = ground arith

instance abbrev pub scope_eq : Eq Scope
scope_eq = record { beq = same_scope; beq_iff = same_scope_iff }

unfoldable pub as_str : Scope → Text
as_str read = codes "read"
as_str write = codes "write"
as_str admin = codes "admin"

unfoldable pub from_str : Text → Result Scope
unfolding trim to_ascii_lowercase same_text
from_str s =
    let name = to_ascii_lowercase (trim s) in
    if same_text name (codes "read")
    then ok read
    else if same_text name (codes "write")
    then ok write
    else if same_text name (codes "admin")
    then ok admin
    else err validation

-- `str::split` at a character
unfoldable pub split : ℕ → Text → List Text
split sep [] = [] ∷ []
split sep (c ∷ s) = elim (split sep s) [
  | [] ↦ []
  | first ∷ rest ↦ if c == sep then [] ∷ first ∷ rest else (c ∷ first) ∷ rest
]

-- A scope that is named twice is kept once.
unfoldable pub push_new : List Scope → Scope → List Scope
unfolding contains same_scope
push_new scopes scope = if contains scopes scope then scopes else scopes ++ scope ∷ []

-- The loop of `parse_list`.
unfoldable pub collect : List Scope → List Text → Result (List Scope)
unfolding push_new from_str
collect scopes [] = ok scopes
collect scopes (part ∷ parts) =
    let skip = collect scopes parts in
    if is_empty (trim part)
    then skip
    else do scope ← from_str (trim part); collect (push_new scopes scope) parts

-- `Vec::sort` by the order of the variants: stable, so insertion sort gives the same list.
unfoldable pub insert_sorted : Scope → List Scope → List Scope
unfolding rank
insert_sorted s [] = s ∷ []
insert_sorted s (t ∷ ts) = if leb (rank s) (rank t) then s ∷ t ∷ ts else t ∷ insert_sorted s ts

unfoldable pub sort : List Scope → List Scope
unfolding insert_sorted
sort [] = []
sort (s ∷ ss) = insert_sorted s (sort ss)

unfoldable pub parse_list : Text → Result (List Scope)
unfolding collect split sort
parse_list raw = do
  scopes ← collect [] (split b',' raw)
  if is_empty scopes then err validation else ok (sort scopes)

-- `[&str]::join`
unfoldable pub join_with : Text → List Text → Text
join_with sep [] = []
join_with sep (s ∷ []) = s
join_with sep (s ∷ t ∷ ts) = s ++ sep ++ join_with sep (t ∷ ts)

unfoldable pub join : List Scope → Text
unfolding join_with as_str
join scopes = join_with (codes ",") (map as_str scopes)
