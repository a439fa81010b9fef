-- ===== src/Identity/KeyAuthenticator/Capacity.antt =====
-- The cache of identity/application/verified_key_cache.rs never holds more than its bound.
use recuerdos_ai.Prelude.{
  ℕ, ◌≤◌, ◌<◌, Bool, true, false, not, ◌||◌, List, arith, length, Bool-cases, inl, inr,
}
use recuerdos_ai.Prelude.Dict
use recuerdos_ai.Prelude.Dict.{length-remove_le}
use recuerdos_ai.Text.{Text, text_eq}
use recuerdos_ai.Shared.Error.{Result, ok, err}
use recuerdos_ai.Identity.ApiKey.{ApiKeyToken, ApiKey, parse, is_revoked}
use recuerdos_ai.Identity.VerifiedKeyCache.{
  VerifiedKeyCache, Entry, is_verified, make_room, remember, forget, max_entries,
}
use recuerdos_ai.Identity.KeyAuthenticator.{
  Stores, Hasher, confirm, check, settle, with_key, with_token, find_key_of, execute,
}

abbrev pub Fits : VerifiedKeyCache → Type 0
Fits cache = length cache.entries ≤ max_entries

make_room-Fits :
    (digest_of : Text → Text) (ttl now : ℕ) (entries : List (Text × Entry))
    → length entries ≤ max_entries
    → length (make_room digest_of ttl now entries) < max_entries
unfolding make_room
make_room-Fits digest_of ttl now entries h = ground arith

remember-Fits :
    (digest_of : Text → Text) (cache : VerifiedKeyCache) (now : ℕ) (token : ApiKeyToken)
    → Fits cache
    → Fits (remember digest_of cache now token)
unfolding remember Dict.insert
remember-Fits digest_of cache now token fits = omega (
  arith,
  make_room-Fits digest_of cache.ttl now cache.entries fits,
  length-remove_le token.prefix (make_room digest_of cache.ttl now cache.entries),
)

forget-Fits : (cache : VerifiedKeyCache) (prefix : Text) → Fits cache → Fits (forget cache prefix)
unfolding forget
forget-Fits cache prefix fits = omega (arith, length-remove_le prefix cache.entries)

module _ (h : Hasher) (stores : Stores) where
  confirm-Fits :
      (now : ℕ) (token : ApiKeyToken) (r : Result Bool) (cache : VerifiedKeyCache)
      → Fits cache
      → Fits (confirm h stores now token r cache).1
  unfolding confirm
  confirm-Fits now token (err e) cache fits = fits
  confirm-Fits now token (ok true) cache fits = remember-Fits h.digest_of cache now token fits
  confirm-Fits now token (ok false) cache fits = fits

  check-Fits :
      (now : ℕ) (token : ApiKeyToken) (key : ApiKey) (cache : VerifiedKeyCache)
      → Fits cache
      → Fits (check h stores now token key cache).1
  unfolding check
  check-Fits now token key cache fits =
      elim (Bool-cases (is_verified h.digest_of cache now token)) [
        | inl hit ↦ rw hit fits
        | inr miss ↦
            rw miss (confirm-Fits now token (h.verify token.secret key.secret_hash) cache fits)
      ]

  settle-Fits :
      (token : ApiKeyToken) (key : ApiKey) (m : Result Bool × VerifiedKeyCache)
      → Fits m.1
      → Fits (settle h stores token key m).1
  unfolding settle
  settle-Fits token key (err e, cache) fits = fits
  settle-Fits token key (ok matches, cache) fits =
      elim (Bool-cases (not matches || is_revoked key)) [
        | inl refused ↦ rw refused (elim (Bool-cases (is_revoked key)) [
          | inl gone ↦ rw gone (forget-Fits cache token.prefix fits)
          | inr live ↦ rw live fits
        ])
        | inr taken ↦ rw taken fits
      ]

  with_key-Fits :
      (now : ℕ) (token : ApiKeyToken) (r : Result ApiKey) (cache : VerifiedKeyCache)
      → Fits cache
      → Fits (with_key h stores now token r cache).1
  unfolding with_key
  with_key-Fits now token (err e) cache fits = fits
  with_key-Fits now token (ok key) cache fits =
      settle-Fits token key (check h stores now token key cache)
        (check-Fits now token key cache fits)

  with_token-Fits :
      (now : ℕ) (r : Result ApiKeyToken) (cache : VerifiedKeyCache)
      → Fits cache
      → Fits (with_token h stores now r cache).1
  unfolding with_token
  with_token-Fits now (err e) cache fits = fits
  with_token-Fits now (ok token) cache fits =
      with_key-Fits now token (find_key_of h stores token) cache fits

-- No request makes the cache hold more than `max_entries` keys.
pub execute-Fits :
    (h : Hasher) (stores : Stores) (now : ℕ) (raw : Text) (cache : VerifiedKeyCache)
    → Fits cache
    → Fits (execute h stores now raw cache).1
unfolding execute
execute-Fits h stores now raw cache fits = with_token-Fits h stores now (parse raw) cache fits
