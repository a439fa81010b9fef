-- ===== src/Recall/EntityKey.antt =====
-- memories/domain/entity_key.rs: the canonical form of an entity's name. The lower case of a text is
-- the standard library's, a parameter.
use recuerdos_ai.Prelude.{
  ℕ, Bool, ◌||◌, Option, none, some, List, [], ◌∷◌, ◌++◌, ◌==◌, if◌then◌else◌, is_empty,
}
use recuerdos_ai.Text.{Text, codes, is_whitespace, strip_prefix}

abbrev pub space : ℕ
space = 32

-- `str::split_whitespace`: `word` is what has been read of the word at hand.
unfoldable pub words_from : Text → Text → List Text
unfolding is_whitespace
words_from word [] = if is_empty word then [] else word ∷ []
words_from word (c ∷ s) =
    let next_word = words_from [] s in
    let longer = words_from (word ++ c ∷ []) s in
    if is_whitespace c then (if is_empty word then next_word else word ∷ next_word) else longer

unfoldable pub split_whitespace : Text → List Text
unfolding words_from
split_whitespace = words_from []

-- `join(" ")`
unfoldable pub join : List Text → Text
join [] = []
join (word ∷ []) = word
join (word ∷ next ∷ rest) = word ++ space ∷ join (next ∷ rest)

-- `strip_suffix`
unfoldable pub strip_suffix : Text → Text → Option Text
strip_suffix suffix [] = if is_empty suffix then some [] else none
strip_suffix suffix (c ∷ s) =
    let rest = strip_suffix suffix s in
    elim (strip_prefix suffix (c ∷ s)) [
      | some [] ↦ some []
      | _ ↦ elim rest [ none ↦ none | some t ↦ some (c ∷ t) ]
    ]

unfoldable pub without_possessive : Text → Text
unfolding strip_suffix strip_prefix
without_possessive s = elim (strip_suffix (codes "'s") s) [
  | some stripped ↦ stripped
  | none ↦ elim (strip_suffix (codes "’s") s) [ some stripped ↦ stripped | none ↦ s ]
]

unfoldable pub ends_sentence : ℕ → Bool
ends_sentence c =
    c == 0x2e
    || c == 0x2c
    || c == 0x3b
    || c == 0x3a
    || c == 0x21
    || c == 0x3f
    || c == 0x27
    || c == 0x2019

-- `trim_end_matches`
unfoldable pub trim_sentence_end : Text → Text
unfolding ends_sentence
trim_sentence_end [] = []
trim_sentence_end (c ∷ s) =
    let rest = trim_sentence_end s in
    if is_empty rest then (if ends_sentence c then [] else c ∷ []) else c ∷ rest

module _ (to_lowercase : Text → Text) where
  unfoldable pub canonicalize : Text → Text
  unfolding split_whitespace join without_possessive trim_sentence_end
  canonicalize raw =
      trim_sentence_end (without_possessive (join (split_whitespace (to_lowercase raw))))
