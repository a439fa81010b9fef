-- ===== src/Memories/DocumentText.antt =====
-- memories/domain/document_text.rs: the text that the vector of a memory is built from. `uppercase` is
-- `char::to_uppercase`, a table of Unicode.
use recuerdos_ai.Prelude.{
  ℕ, Bool, true, false, ◌||◌, not, Option, none, some, List, [], ◌∷◌, ◌++◌, map, ◌==◌,
  if◌then◌else◌, is_empty, keep,
}
use recuerdos_ai.Text.{Text, codes, same_text, trim, to_ascii_lowercase}
use recuerdos_ai.Shared.Error.{Result, ok, err, validation}
use recuerdos_ai.Identity.Scope.{join_with}
use recuerdos_ai.Memories.Category.{
  Category, preference_coding, preference_personal, decision, fact_project, fact_person, experience,
  skill, reference, custom,
}
use recuerdos_ai.Memories.Memory.{Memory}

pub data DocumentText : Type 0 where
  content enriched : DocumentText

unfoldable pub parse : Text → Result DocumentText
parse name =
    let s = to_ascii_lowercase (trim name) in
    if same_text s (codes "content")
    then ok content
    else if same_text s (codes "enriched")
    then ok enriched
    else err validation

-- `['.', '_', '-']` become spaces.
unfoldable pub spaced : ℕ → ℕ
spaced c = if c == b'.' || c == b'_' || c == b'-' then 32 else c

unfoldable pub capitalized : (ℕ → Text) → Text → Text
capitalized uppercase [] = codes "Memory"
capitalized uppercase (first ∷ chars) = uppercase first ++ chars

unfoldable pub describe : (ℕ → Text) → Category → Text
unfolding capitalized spaced
describe uppercase preference_coding = codes "Coding preference"
describe uppercase preference_personal = codes "Personal preference"
describe uppercase decision = codes "Decision"
describe uppercase fact_project = codes "Project fact"
describe uppercase fact_person = codes "Fact about a person"
describe uppercase experience = codes "Experience"
describe uppercase skill = codes "Skill"
describe uppercase reference = codes "Reference"
describe uppercase (custom name) = capitalized uppercase (trim (map spaced name))

unfoldable pub is_filled : Text → Bool
is_filled s = not (is_empty s)

-- The labels of an enriched text: the subcategory, then the tags, without what is blank.
unfoldable pub labels_of : Option Text → List Text → List Text
unfolding is_filled keep
labels_of none tags = keep is_filled (map trim tags)
labels_of (some subcategory) tags =
    keep is_filled (trim subcategory ∷ []) ++ keep is_filled (map trim tags)

unfoldable pub with_labels : Text → List Text → Text → Text
unfolding join_with
with_labels kind labels sentence =
    if is_empty labels
    then kind ++ codes ". " ++ sentence
    else kind ++ codes " (" ++ join_with (codes ", ") labels ++ codes "). " ++ sentence

unfoldable pub render : (ℕ → Text) → DocumentText → Category → Option Text → List Text → Text → Text
unfolding describe labels_of with_labels
render uppercase content category subcategory tags sentence = sentence
render uppercase enriched category subcategory tags sentence =
    with_labels (describe uppercase category) (labels_of subcategory tags) sentence

unfoldable pub of : (ℕ → Text) → DocumentText → Memory → Text
unfolding render
of uppercase format memory =
    render uppercase format memory.category memory.subcategory memory.tags memory.content

unfoldable pub embeds_labels : DocumentText → Bool
embeds_labels content = false
embeds_labels enriched = true

unfoldable pub pin : DocumentText → Text → Text
pin content model_id = model_id
pin enriched model_id = model_id ++ codes "+enriched-v1"
