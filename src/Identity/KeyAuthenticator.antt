-- ===== src/Identity/KeyAuthenticator.antt =====
-- identity/application/key_authenticator.rs: from the text of a key to the context of its user. The
-- repositories and the hasher are the ports that the service is built over.
pub mod Cached
pub mod Capacity
use recuerdos_ai.Prelude.{
  ℕ, Bool, true, false, not, ◌&&◌, ◌||◌, Option, none, some, List, [], ◌∷◌, if◌then◌else◌,
}
use recuerdos_ai.Text.{Text}
use recuerdos_ai.Shared.Error.{Result, ok, err, unauthorized, ok_or, guard, ◌>>=◌, ◌>>◌}
use recuerdos_ai.Identity.UserContext.{User, UserContext, authenticated}
use recuerdos_ai.Identity.ApiKey.{ApiKeyToken, ApiKey, parse, is_revoked}
use recuerdos_ai.Identity.VerifiedKeyCache.{VerifiedKeyCache, is_verified, remember, forget}

-- `UserRepository` and `ApiKeyRepository`, as they answer at one moment.
pub record Stores : Type 0 where
  pub find_user : ℕ → Result (Option User)
  pub find_key : Text → Result (Option ApiKey)

-- Argon2 and SHA-256.
pub record Hasher : Type 0 where
  pub verify : Text → Text → Result Bool
  pub digest_of : Text → Text

module _ (h : Hasher) (stores : Stores) where
  -- What the hasher confirms is remembered.
  confirm : ℕ → ApiKeyToken → Result Bool → VerifiedKeyCache → Result Bool × VerifiedKeyCache
  confirm now token (err e) cache = (err e, cache)
  confirm now token (ok true) cache = (ok true, remember h.digest_of cache now token)
  confirm now token (ok false) cache = (ok false, cache)

  -- Whether the secret is right: by the cache, or by the hasher, which is slow.
  check : ℕ → ApiKeyToken → ApiKey → VerifiedKeyCache → Result Bool × VerifiedKeyCache
  unfolding confirm
  check now token key cache =
      if is_verified h.digest_of cache now token
      then (ok true, cache)
      else confirm now token (h.verify token.secret key.secret_hash) cache

  context_of : ApiKey → Result UserContext
  context_of key = do
    found ← stores.find_user key.user_id
    user ← ok_or found unauthorized
    ok (authenticated user.id user.handle key.id key.scopes)

  settle :
      ApiKeyToken → ApiKey → Result Bool × VerifiedKeyCache → Result UserContext × VerifiedKeyCache
  settle token key (err e, cache) = (err e, cache)
  settle token key (ok matches, cache) =
      if not matches || is_revoked key
      then (err unauthorized, if is_revoked key then forget cache token.prefix else cache)
      else (context_of key, cache)

  with_key :
      ℕ → ApiKeyToken → Result ApiKey → VerifiedKeyCache → Result UserContext × VerifiedKeyCache
  with_key now token (err e) cache = (err e, cache)
  with_key now token (ok key) cache = settle token key (check now token key cache)

  find_key_of : ApiKeyToken → Result ApiKey
  find_key_of token = stores.find_key token.prefix >>= λ found. ok_or found unauthorized

  with_token : ℕ → Result ApiKeyToken → VerifiedKeyCache → Result UserContext × VerifiedKeyCache
  with_token now (err e) cache = (err e, cache)
  with_token now (ok token) cache = with_key now token (find_key_of token) cache

  -- `KeyAuthenticator::execute`; the instants that one call reads are one `now`.
  unfoldable pub execute : ℕ → Text → VerifiedKeyCache → Result UserContext × VerifiedKeyCache
  unfolding with_token find_key_of with_key settle context_of check
  execute now raw cache = with_token now (parse raw) cache

  -- The reference: the same decision with the hasher asked every time, and no cache.
  unfoldable pub execute_uncached : Text → Result UserContext
  unfolding find_key_of context_of
  execute_uncached raw = do
    token ← parse raw
    key ← find_key_of token
    matches ← h.verify token.secret key.secret_hash
    if not matches || is_revoked key then err unauthorized else context_of key

-- A series of requests, each with the moment and with what the repositories hold at that moment.
pub record Request : Type 0 where
  pub stores : Stores
  pub now : ℕ
  pub raw : Text

unfoldable pub serve : Hasher → List Request → VerifiedKeyCache → List (Result UserContext)
serve h [] cache = []
serve h (r ∷ rs) cache =
    let (reply, cache') = execute h r.stores r.now r.raw cache in reply ∷ serve h rs cache'
