-- ===== src/Examples/Services.antt =====
-- The services of memories at concrete inputs.
use recuerdos_ai.Prelude.Dict
use recuerdos_ai.Prelude.{
  ◌-◌, Option, List, ◌==◌, ◌+◌, if◌then◌else◌, ℕ, ◌≡◌, refl, none, some, [], ◌∷◌, any_where,
}
use recuerdos_ai.Text.{Text, codes, trim, is_whitespace, to_ascii_lowercase, same_text}
use recuerdos_ai.Shared.Error.{ok, err, internal}
use recuerdos_ai.Identity.Scope.{read, write}
use recuerdos_ai.Identity.UserContext.{UserContext}
use recuerdos_ai.Memories.Category.{decision}
use recuerdos_ai.Memories.Memory.{NewMemory, MemoryEdit, create}
use recuerdos_ai.Memories.Memory.Confidence.{num, one}
use recuerdos_ai.Memories.DocumentText.{enriched}
use recuerdos_ai.Memories.Repository.{insert}
use recuerdos_ai.Memories.Services.{Ports, World, Setting, save, update}
use recuerdos_ai.Memories.Services.Saving.{Saved, save_lem}
use recuerdos_ai.Understanding.Reconciler.{RawDecision, Candidate, add, delete, parse_all, apply}
use recuerdos_ai.Understanding.Reconciler.Reach.{AtMostOneMore, apply-AtMostOneMore}
use recuerdos_ai.Memories.Services.Updating.{Updated, update_lem}

abbrev pub alex : UserContext
alex = record { user_id = 7; handle = codes "alex"; key_id = none; scopes = read ∷ write ∷ [] }

-- Indexes that count what they accept; a vector under the identifier 2 is refused.
abbrev ports : Ports Text ℕ ℕ
ports = record {
  embed_one = ok;
  vector_upsert = λ _ id _ n. (if id == 2 then err internal else ok tt, n);
  vector_remove = λ _ _ n. (err internal, n);
  text_upsert = λ _ _ n. (ok tt, n + 1);
  text_remove = λ _ _ n. (ok tt, n);
  delete_fault = λ _ _. none;
  score_fault = λ _. none;
}

abbrev pub setting : Setting Text ℕ ℕ
setting = record {
  pin = record { model = codes "m"; dimensions = 3 };
  ports = ports;
  document_text = enriched;
  uppercase = λ c. c ∷ [];
}

abbrev new : NewMemory
new = record {
  content = codes "tabs";
  category = decision;
  subcategory = none;
  tags = codes "a" ∷ [];
  entities = [];
  confidence = num one;
  source = record { client = none; session_id = none };
  expires_at = none;
}

abbrev empty : World ℕ ℕ
empty = record { store = record { collections = []; rows = []; audit = [] }; vectors = 0; text = 0 }

abbrev actor : Text
actor = codes "cli"

abbrev saved : World ℕ ℕ
saved = (save setting alex actor 5 1 new empty).1

save_lem_example : Saved setting alex actor 6 saved (save setting alex actor 6 2 new saved)
save_lem_example = save_lem setting alex actor 6 2 new saved

abbrev retag : MemoryEdit
retag = record {
  content = none;
  category = none;
  subcategory = none;
  tags = some (codes "b" ∷ []);
  expires_at = none;
}

update_lem_example :
    Updated setting alex actor 6 1 retag saved (update setting alex actor 6 1 retag saved)
update_lem_example = update_lem setting alex actor 6 1 retag saved

second_save_fails : (save setting alex actor 6 2 new saved).0 ≡ err internal
unfolding save create trim is_whitespace to_ascii_lowercase insert Dict.get any_where Dict.insert
    same_text
second_save_fails = refl

-- A model that was shown the memory 1 tells to delete it, and to replace the memory 9.
abbrev answer : List RawDecision
answer =
    record { action = some (codes " update"); reason = none; memory_id = some (codes "9") }
    ∷ record { action = some (codes "delete"); reason = none; memory_id = some (codes "1 ") }
    ∷ record { action = some (codes "Add"); reason = none; memory_id = none }
    ∷ []

abbrev id_from_str : Text → Option ℕ
id_from_str [] = none
id_from_str (c ∷ s) = some (c - b'0')

abbrev candidate : Candidate
candidate = record {
  content = codes "spaces";
  category = decision;
  subcategory = none;
  tags = [];
  entities = [];
  confidence = num one;
}

apply-AtMostOneMore_example :
    AtMostOneMore
      (1 ∷ [])
      setting
      alex
      actor
      6
      saved.store
      (apply setting alex actor 6 id_from_str (1 ∷ []) 3 candidate (some answer) saved).1.store
apply-AtMostOneMore_example =
    apply-AtMostOneMore (1 ∷ []) setting alex actor 6 id_from_str 3 candidate (some answer) saved

decisions_test : parse_all id_from_str (1 ∷ []) answer ≡ delete 1 [] ∷ add [] ∷ []
unfolding parse_all same_text trim is_whitespace
decisions_test = refl
