-- ===== src/Understanding/Taxonomy.antt =====
-- understanding/domain/taxonomy.rs: which category a name stands for that a model has given.
use recuerdos_ai.Prelude.{
  Bool, true, false, Option, none, some, List, [], ◌∷◌, ◌==◌, if◌then◌else◌, is_empty,
}
use recuerdos_ai.Text.{Text, same_text, trim, to_ascii_lowercase}
use recuerdos_ai.Shared.Error.{Result, ok, err}
use recuerdos_ai.Memories.Category.{
  Category, fact_project, as_str, default_categories, parse_with_extras,
}

abbrev pub fallback : Category
fallback = fact_project

pub record Taxonomy : Type 0 where
  pub extras : List Text

pub record ResolvedCategory : Type 0 where
  pub category : Category
  pub exact : Bool

unfoldable pub normalized : List Text → List Text
normalized [] = []
normalized (extra ∷ extras) =
    let rest = normalized extras in
    let name = to_ascii_lowercase (trim extra) in if is_empty name then rest else name ∷ rest

unfoldable pub new : List Text → Taxonomy
unfolding normalized
new extras = record { extras = normalized extras }

-- `split('.').next()`: what stands before the first dot.
unfoldable pub family : Text → Text
family [] = []
family (c ∷ s) = let rest = family s in if c == b'.' then [] else c ∷ rest

-- `iter().find(…)`, by the family.
unfoldable pub find_in_family : Text → List Category → Option Category
unfolding family
find_in_family name [] = none
find_in_family name (c ∷ cs) =
    let rest = find_in_family name cs in if same_text (family (as_str c)) name then some c else rest

unfoldable pub or_fallback : Option Category → Category
or_fallback none = fallback
or_fallback (some category) = category

unfoldable pub nearest : Text → Category
unfolding find_in_family or_fallback
nearest name =
    if is_empty name then fallback else or_fallback (find_in_family name default_categories)

unfoldable pub resolve_parsed : Text → Result Category → ResolvedCategory
unfolding nearest family
resolve_parsed raw (ok category) = record { category = category; exact = true }
resolve_parsed raw (err e) = record {
  category = nearest (family (to_ascii_lowercase (trim raw)));
  exact = false;
}

unfoldable pub resolve : Taxonomy → Text → ResolvedCategory
unfolding resolve_parsed
resolve taxonomy raw = resolve_parsed raw (parse_with_extras raw taxonomy.extras)
