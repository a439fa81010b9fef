-- ===== src/Shared/RateLimit/Buckets.antt =====
-- shared/rate_limit.rs: the map of buckets, in which a caller has one bucket at most.
use recuerdos_ai.Prelude.{
  ◌≡◌, refl, Bool, Option, none, some, List, [], ◌∷◌, if◌then◌else◌, Bool-cases, inl, inr, Eq,
  arith,
}
use recuerdos_ai.Prelude.Dict
use recuerdos_ai.Prelude.Dict.{get-remove, get-insert}

-- What `retain` leaves under a key.
abbrev pub kept {κ} : {V : Type κ} → (V → Bool) → Option V → Option V
kept p none = none
kept p (some v) = if p v then some v else none

module _ {ℓ κ} {K : Type ℓ} {V : Type κ} ⦃e : Eq K⦄ where
  -- No key stands twice.
  abbrev pub KeysOnce : List (K × V) → Type κ
  KeysOnce [] = Unit
  KeysOnce ((k, v) ∷ m) = (Dict.get k m ≡ none) × KeysOnce m

  get-remove-none :
      (k j : K) (m : List (K × V)) → Dict.get k m ≡ none → Dict.get k (Dict.remove j m) ≡ none
  get-remove-none k j m h = ground (arith, get-remove j k m)

  KeysOnce-remove : (k : K) (m : List (K × V)) → KeysOnce m → KeysOnce (Dict.remove k m)
  unfolding Dict.remove
  KeysOnce-remove k [] h = tt
  KeysOnce-remove k ((j, v) ∷ m) h = elim (Bool-cases (e.beq j k)) [
    | inl p ↦ rw p (KeysOnce-remove k m h.1)
    | inr p ↦ rw p (get-remove-none j k m h.0, KeysOnce-remove k m h.1)
  ]

  pub KeysOnce-insert :
      (k : K) (v : V) (m : List (K × V)) → KeysOnce m → KeysOnce (Dict.insert k v m)
  unfolding Dict.insert
  KeysOnce-insert k v m h = (ground (arith, get-remove k k m, e.beq_iff k k), KeysOnce-remove k m h)

  get-retain-none :
      (p : V → Bool) (k : K) (m : List (K × V))
      → Dict.get k m ≡ none
      → Dict.get k (Dict.retain p m) ≡ none
  unfolding Dict.get Dict.retain
  get-retain-none p k [] h = refl
  get-retain-none p k ((j, v) ∷ m) h = ground (arith, get-retain-none p k m)

  pub KeysOnce-retain : (p : V → Bool) (m : List (K × V)) → KeysOnce m → KeysOnce (Dict.retain p m)
  unfolding Dict.retain
  KeysOnce-retain p [] h = tt
  KeysOnce-retain p ((j, v) ∷ m) h = elim (Bool-cases (p v)) [
    | inl q ↦ rw q (get-retain-none p j m h.0, KeysOnce-retain p m h.1)
    | inr q ↦ rw q (KeysOnce-retain p m h.1)
  ]

  pub get-retain :
      (p : V → Bool) (k : K) (m : List (K × V))
      → KeysOnce m
      → Dict.get k (Dict.retain p m) ≡ kept p (Dict.get k m)
  unfolding Dict.get Dict.retain
  get-retain p k [] h = refl
  get-retain p k ((j, v) ∷ m) h =
      ground (arith, get-retain p k m h.1, get-retain-none p j m h.0, e.beq_iff j k)
