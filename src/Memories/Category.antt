-- ===== src/Memories/Category.antt =====
-- memories/domain/category.rs: the taxonomy of memories, and its names.
pub mod Names
use recuerdos_ai.Prelude.{
  ℕ, ◌≡◌, refl, ◌↔◌, Bool, true, false, ◌&&◌, ◌||◌, Option, none, some, List, [], ◌∷◌, arith,
  if◌then◌else◌, is_empty, any_where, Eq,
}
use recuerdos_ai.Text.{Text, codes, same_text, same_text_iff, text_eq, trim, to_ascii_lowercase}
use recuerdos_ai.Shared.Error.{RaError, Result, ok, err, validation}

pub data Category : Type 0 where
  preference_coding preference_personal decision fact_project fact_person experience skill
        reference :
      Category
  custom : Text → Category

abbrev pub default_categories : List Category
default_categories =
    preference_coding ∷ preference_personal ∷ decision ∷ fact_project ∷ fact_person ∷ experience
    ∷ skill ∷ reference ∷ []

unfoldable pub as_str : Category → Text
as_str preference_coding = codes "preference.coding"
as_str preference_personal = codes "preference.personal"
as_str decision = codes "decision"
as_str fact_project = codes "fact.project"
as_str fact_person = codes "fact.person"
as_str experience = codes "experience"
as_str skill = codes "skill"
as_str reference = codes "reference"
as_str (custom name) = name

-- `iter().find(|category| category.as_str() == name)`
unfoldable pub find_named : Text → List Category → Option Category
unfolding as_str
find_named name [] = none
find_named name (c ∷ cs) =
    let rest = find_named name cs in if same_text (as_str c) name then some c else rest

-- `str::eq_ignore_ascii_case`
unfoldable pub eq_ignore_ascii_case : Text → Text → Bool
eq_ignore_ascii_case s t = same_text (to_ascii_lowercase s) (to_ascii_lowercase t)

-- What a name that is not a default one stands for.
unfoldable pub extra_or : List Text → Text → Option Category → Result Category
unfolding eq_ignore_ascii_case
extra_or extras name (some known) = ok known
extra_or extras name none =
    if any_where (λ extra. eq_ignore_ascii_case extra name) extras
    then ok (custom name)
    else err validation

unfoldable pub parse_with_extras : Text → List Text → Result Category
unfolding find_named extra_or
parse_with_extras raw extras =
    let name = to_ascii_lowercase (trim raw) in
    if is_empty name
    then err validation
    else extra_or extras name (find_named name default_categories)

unfoldable pub parse : Text → Result Category
unfolding parse_with_extras
parse raw = parse_with_extras raw []

-- `unwrap_or_else`
unfoldable pub or_custom : Text → Result Category → Category
or_custom raw (ok c) = c
or_custom raw (err e) = custom raw

unfoldable pub from_stored : Text → Category
unfolding parse or_custom
from_stored raw = or_custom raw (parse raw)
