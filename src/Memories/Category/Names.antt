-- ===== src/Memories/Category/Names.antt =====
-- A category that a caller may name survives the database, which stores its name.
use recuerdos_ai.Prelude.{
  ◌≡◌, refl, false, Option, none, some, List, arith, is_empty, any_where, Bool-cases, inl, inr,
}
use recuerdos_ai.Text.{Text, same_text, trim, to_ascii_lowercase, is_whitespace}
use recuerdos_ai.Text.Trim.{normal, normal_idem}
use recuerdos_ai.Shared.Error.{ok, ok-injective}
use recuerdos_ai.Memories.Category.{
  Category, preference_coding, preference_personal, decision, fact_project, fact_person, experience,
  skill, reference, custom, default_categories, as_str, find_named, extra_or, parse_with_extras,
  from_stored,
}

find_named-custom :
    (name other : Text) → find_named name default_categories ≡ some (custom other) → ⊥
unfolding find_named
find_named-custom name other h = ground arith

-- A default category is stored and read as itself.
default_round :
    (name : Text) (c : Category)
    → find_named name default_categories ≡ some c
    → from_stored (as_str c) ≡ c
unfolding find_named from_stored trim is_whitespace same_text to_ascii_lowercase
default_round name preference_coding h = refl
default_round name preference_personal h = refl
default_round name decision h = refl
default_round name fact_project h = refl
default_round name fact_person h = refl
default_round name experience h = refl
default_round name skill h = refl
default_round name reference h = refl
default_round name (custom other) h = absurd (find_named-custom name other h)

-- A name that is no default one is read as an extra category.
custom_round :
    (raw : Text)
    → is_empty (normal raw) ≡ false
    → find_named (normal raw) default_categories ≡ none
    → from_stored (normal raw) ≡ custom (normal raw)
custom_round raw full unknown =
    unfold from_stored in rw (normal_idem raw, full, unknown) (unfold any_where in refl)

extra_or_round :
    (raw : Text) (extras : List Text) (o : Option Category) (c : Category)
    → is_empty (normal raw) ≡ false
    → find_named (normal raw) default_categories ≡ o
    → extra_or extras (normal raw) o ≡ ok c
    → from_stored (as_str c) ≡ c
unfolding extra_or
extra_or_round raw extras (some known) c full e h =
    rw (← ok-injective h) (default_round (normal raw) known e)
extra_or_round raw extras none c full e h =
    let same : custom (normal raw) ≡ c = ground arith in
    rw (← same) (unfold as_str in custom_round raw full e)

-- Any category that parses, with whatever extras are configured, is read back from the name under
-- which it is stored.
pub from_stored-as_str :
    (raw : Text) (extras : List Text) (c : Category)
    → parse_with_extras raw extras ≡ ok c
    → from_stored (as_str c) ≡ c
unfolding parse_with_extras
from_stored-as_str raw extras c h = elim (Bool-cases (is_empty (normal raw))) [
  | inl e ↦ cc (rw e at h)
  | inr e ↦
      extra_or_round raw extras (find_named (normal raw) default_categories) c e refl (rw e at h)
]
