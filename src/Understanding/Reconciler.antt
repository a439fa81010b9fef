-- ===== src/Understanding/Reconciler.antt =====
-- understanding/domain/reconciliation.rs and understanding/application/memory_reconciler.rs: the
-- decisions of a model about a candidate, how they are read, and how they are applied. A decision in
-- JSON stands as the three strings that are read from it, if they are there. The entity graph, which
-- is written last and whose errors are ignored, is left out.
pub mod Shown
pub mod Reach
use recuerdos_ai.Prelude.{
  ℕ, ◌-◌, Bool, true, false, not, ◌&&◌, Option, none, some, List, [], ◌∷◌, ◌++◌, map, leb,
  if◌then◌else◌, is_empty, any_where, contains, nat_eq,
}
use recuerdos_ai.Text.{Text, codes, same_text, trim}
use recuerdos_ai.Shared.Error.{Result, ok, err}
use recuerdos_ai.Identity.UserContext.{UserContext}
use recuerdos_ai.Memories.Category.{Category}
use recuerdos_ai.Memories.Memory.{Memory, NewMemory, Entity}
use recuerdos_ai.Memories.Memory.Confidence.{F32}
use recuerdos_ai.Memories.Repository.{Store, supersede_memory}
use recuerdos_ai.Memories.Services.{World, Setting, save, forget}

pub data Decision : Type 0 where
  add noop : Text → Decision
  update delete : ℕ → Text → Decision

unfoldable pub stores_the_candidate : Decision → Bool
stores_the_candidate (add reason) = true
stores_the_candidate (update superseded reason) = true
stores_the_candidate _ = false

-- `Value::get` and `Value::as_str` for the fields of a decision.
pub record RawDecision : Type 0 where
  pub action : Option Text
  pub reason : Option Text
  pub memory_id : Option Text

abbrev pub or_default : Option Text → Text
or_default none = []
or_default (some t) = t

unfoldable pub to_ascii_uppercase : Text → Text
to_ascii_uppercase s = map (λ c. if leb b'a' c && leb c b'z' then c - 32 else c) s

-- An identifier that the model was shown, or nothing.
unfoldable pub shown_id : List ℕ → Option ℕ → Option ℕ
unfolding contains
shown_id shown none = none
shown_id shown (some id) = if contains shown id then some id else none

-- The closure `target`; `id_from_str` is the parser of UUIDs.
unfoldable pub target_of : (Text → Option ℕ) → List ℕ → Option Text → Option ℕ
unfolding shown_id
target_of id_from_str shown none = none
target_of id_from_str shown (some raw) =
    if is_empty (trim raw) then none else shown_id shown (id_from_str (trim raw))

abbrev pub with_target : Option ℕ → (ℕ → Decision) → Option Decision
with_target none f = none
with_target (some id) f = some (f id)

-- `parse_decision`; which error it is only decides what is logged.
unfoldable pub parse_decision : (Text → Option ℕ) → List ℕ → RawDecision → Option Decision
unfolding target_of to_ascii_uppercase
parse_decision id_from_str shown value =
    let action = to_ascii_uppercase (trim (or_default value.action)) in
    let reason = trim (or_default value.reason) in
    let target = target_of id_from_str shown value.memory_id in
    if same_text action (codes "ADD")
    then some (add reason)
    else if same_text action (codes "NOOP")
    then some (noop reason)
    else if same_text action (codes "UPDATE")
    then with_target target (λ id. update id reason)
    else if same_text action (codes "DELETE")
    then with_target target (λ id. delete id reason)
    else none

unfoldable pub usable : Option Decision → List Decision → List Decision
usable none rest = rest
usable (some decision) rest = decision ∷ rest

-- The first loop of `apply`: what cannot be used is dropped.
unfoldable pub parse_all : (Text → Option ℕ) → List ℕ → List RawDecision → List Decision
unfolding usable parse_decision
parse_all id_from_str shown [] = []
parse_all id_from_str shown (value ∷ raw) =
    usable (parse_decision id_from_str shown value) (parse_all id_from_str shown raw)

pub record Candidate : Type 0 where
  pub content : Text
  pub category : Category
  pub subcategory : Option Text
  pub tags : List Text
  pub entities : List Entity
  pub confidence : F32

pub record ReconcileOutcome : Type 0 where
  pub stored : List ℕ
  pub superseded : List ℕ
  pub deleted : List ℕ

abbrev pub nothing_done : ReconcileOutcome
nothing_done = record { stored = []; superseded = []; deleted = [] }

unfoldable pub new_memory : Candidate → Text → NewMemory
new_memory candidate actor = record {
  content = candidate.content;
  category = candidate.category;
  subcategory = candidate.subcategory;
  tags = candidate.tags;
  entities = candidate.entities;
  confidence = candidate.confidence;
  source = record { client = some actor; session_id = none };
  expires_at = none;
}

module _ {E V X : Type 0} (setting : Setting E V X) (context : UserContext) (actor : Text)
    (now : ℕ) where
  abbrev pub Applied : Type 0
  Applied = Result ReconcileOutcome × World V X

  -- Deletions come first.
  unfoldable pub delete_one : ℕ → Result (Unit {0}) × World V X → (World V X → Applied) → Applied
  delete_one target (err e, w) rest = (err e, w)
  delete_one target (ok _, w) rest = rest w

  unfoldable pub delete_all : List Decision → ReconcileOutcome → World V X → Applied
  unfolding delete_one
  delete_all [] outcome w = (ok outcome, w)
  delete_all (delete target reason ∷ decisions) outcome w =
      delete_one target (forget setting context actor now target reason w)
        (delete_all decisions (record outcome { deleted = outcome.deleted ++ target ∷ [] }))
  delete_all (add reason ∷ decisions) outcome w = delete_all decisions outcome w
  delete_all (noop reason ∷ decisions) outcome w = delete_all decisions outcome w
  delete_all (update old reason ∷ decisions) outcome w = delete_all decisions outcome w

  unfoldable pub supersede_one :
      World V X → Result (Unit {0}) × Store → (World V X → Applied) → Applied
  supersede_one w (err e, store) rest = (err e, record w { store = store })
  supersede_one w (ok _, store) rest = rest (record w { store = store })

  unfoldable pub supersede_all : ℕ → List Decision → ReconcileOutcome → World V X → Applied
  unfolding supersede_one
  supersede_all id [] outcome w = (ok outcome, w)
  supersede_all id (update old reason ∷ decisions) outcome w =
      supersede_one w (supersede_memory context old id actor reason now w.store) (
        supersede_all id decisions (record outcome { superseded = outcome.superseded ++ old ∷ [] }))
  supersede_all id (add reason ∷ decisions) outcome w = supersede_all id decisions outcome w
  supersede_all id (noop reason ∷ decisions) outcome w = supersede_all id decisions outcome w
  supersede_all id (delete target reason ∷ decisions) outcome w =
      supersede_all id decisions outcome w

  -- What follows the store of the candidate.
  unfoldable pub after_store :
      List Decision → ReconcileOutcome → Result Memory × World V X → Applied
  unfolding supersede_all
  after_store decisions outcome (err e, w) = (err e, w)
  after_store decisions outcome (ok memory, w) =
      supersede_all memory.id decisions
        (record outcome { stored = outcome.stored ++ memory.id ∷ [] }) w

  -- At most one memory for a candidate; `id` is fresh.
  unfoldable pub store_candidate : ℕ → Candidate → List Decision → Applied → Applied
  unfolding after_store stores_the_candidate new_memory
  store_candidate id candidate decisions (err e, w) = (err e, w)
  store_candidate id candidate decisions (ok outcome, w) =
      if any_where stores_the_candidate decisions
      then after_store decisions outcome
          (save setting context actor now id (new_memory candidate actor) w)
      else (ok outcome, w)

  unfoldable pub apply_decisions : ℕ → Candidate → List Decision → World V X → Applied
  unfolding store_candidate delete_all
  apply_decisions id candidate decisions w =
      store_candidate id candidate decisions (delete_all decisions nothing_done w)

  -- `MemoryReconciler::apply`; no array of decisions means that the candidate is stored.
  unfoldable pub apply :
      (Text → Option ℕ) → List ℕ → ℕ → Candidate → Option (List RawDecision) → World V X → Applied
  unfolding apply_decisions after_store parse_all new_memory
  apply id_from_str shown id candidate none w =
      after_store [] nothing_done (save setting context actor now id (new_memory candidate actor) w)
  apply id_from_str shown id candidate (some raw) w =
      apply_decisions id candidate (parse_all id_from_str shown raw) w
