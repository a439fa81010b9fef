-- ===== src/Shared/Error.antt =====
-- shared/error.rs: the error type of the service, and `Result`. The messages are for people and
-- nothing in the program branches on them: a variant stands without its text.
use recuerdos_ai.Prelude.{refl, Bool, true, false, Option, none, some, ◌≡◌}

pub data RaError : Type 0 where
  not_found validation unauthorized forbidden conflict rerank_busy internal : RaError

pub data Result {ℓ} (A : Type ℓ) : Type ℓ where
  ok : A → Result A
  err : RaError → Result A

-- `Err(error)?` unless the test holds.
abbrev pub guard : Bool → RaError → Result (Unit {0})
guard false error = err error
guard true error = ok tt

-- `?`
infixl 5 ◌>>=◌ ◌>>◌
abbrev pub ◌>>=◌ {κ μ} : {V : Type κ} {W : Type μ} → Result V → (V → Result W) → Result W
err error >>= continue = err error
ok value >>= continue = continue value

abbrev pub ◌>>◌ {κ} : {W : Type κ} → Result (Unit {0}) → Result W → Result W
first >> second = first >>= λ _. second

-- `ok_or_else`
abbrev pub ok_or {ℓ} : {A : Type ℓ} → Option A → RaError → Result A
ok_or none e = err e
ok_or (some a) e = ok a

abbrev pub is_ok {ℓ} : {A : Type ℓ} → Result A → Bool
is_ok (ok a) = true
is_ok (err e) = false

pub ok-injective {ℓ} : {A : Type ℓ} {a b : A} → ok a ≡ ok b → a ≡ b
ok-injective h = cc

-- Where a chain succeeds, so does its first part.
pub >>=-eq-ok {κ μ} :
    {V : Type κ} {W : Type μ} (first : Result V) (continue : V → Result W) {w : W}
    → (first >>= continue) ≡ ok w
    → (v : V) × (first ≡ ok v) × (continue v ≡ ok w)
>>=-eq-ok (err error) continue h = cc
>>=-eq-ok (ok v) continue h = (v, refl, h)

pub guard-eq-ok : (b : Bool) (e : RaError) {u : Unit {0}} → guard b e ≡ ok u → b ≡ true
guard-eq-ok true e h = refl
guard-eq-ok false e h = cc

pub ok_or-eq-ok {ℓ} :
    {A : Type ℓ} (o : Option A) (e : RaError) {a : A} → ok_or o e ≡ ok a → o ≡ some a
ok_or-eq-ok none e h = cc
ok_or-eq-ok (some b) e h = cc
