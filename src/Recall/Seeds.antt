-- ===== src/Recall/Seeds.antt =====
-- memories/application/memory_recaller.rs: the names in a query that may be entities of the graph.
use recuerdos_ai.Prelude.{
  ℕ, zero, suc, ◌||◌, List, [], ◌∷◌, ◌++◌, take, if◌then◌else◌, contains, is_empty, min, length,
  nat_eq,
}
use recuerdos_ai.Text.{Text, text_eq}
use recuerdos_ai.Recall.EntityKey.{canonicalize, split_whitespace, join}

-- The keys of the words `start .. finish` for every `finish` up to three further on.
unfoldable pub seeds_at : (Text → Text) → ℕ → ℕ → List Text → List Text
unfolding canonicalize join
seeds_at to_lowercase zero size words = []
seeds_at to_lowercase (suc left) size words =
    canonicalize to_lowercase (join (take size words)) ∷ seeds_at to_lowercase left (suc size) words

-- A key that is not empty and not there yet.
unfoldable pub push_seed : List Text → Text → List Text
unfolding contains
push_seed candidates key =
    if is_empty key || contains candidates key then candidates else candidates ++ key ∷ []

unfoldable pub push_seeds : List Text → List Text → List Text
unfolding push_seed
push_seeds candidates [] = candidates
push_seeds candidates (key ∷ keys) = push_seeds (push_seed candidates key) keys

unfoldable pub seeds_from : (Text → Text) → List Text → List Text → List Text
unfolding seeds_at push_seeds
seeds_from to_lowercase candidates [] = candidates
seeds_from to_lowercase candidates (word ∷ words) =
    seeds_from to_lowercase
      (push_seeds candidates
        (seeds_at to_lowercase (min 3 (length (word ∷ words))) 1 (word ∷ words)))
      words

unfoldable pub seed_candidates : (Text → Text) → Text → List Text
unfolding split_whitespace seeds_from
seed_candidates to_lowercase text = seeds_from to_lowercase [] (split_whitespace text)
