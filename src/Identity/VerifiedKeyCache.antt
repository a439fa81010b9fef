-- ===== src/Identity/VerifiedKeyCache.antt =====
-- identity/application/verified_key_cache.rs: the keys whose secret the hasher has confirmed of
-- late. Digests are byte strings; their comparison in constant time is equality.
use recuerdos_ai.Prelude.{
  ℕ, ◌-◌, ◌*◌, Bool, false, ◌&&◌, none, some, List, [], ltb, leb, if◌then◌else◌, length, ◌^◌,
}
use recuerdos_ai.Prelude.Dict
use recuerdos_ai.Prelude.Dict.{AllValues, AllValues-remove, AllValues-retain, length-remove_le}
use recuerdos_ai.Text.{Text, same_text, text_eq}
use recuerdos_ai.Identity.ApiKey.{ApiKeyToken}

abbrev pub max_entries : ℕ
max_entries = 1024

-- Five minutes, in nanoseconds.
abbrev pub default_ttl : ℕ
default_ttl = 300 * 10 ^ 9

pub record Entry : Type 0 where
  pub digest : Text
  pub verified_at : ℕ

pub record VerifiedKeyCache : Type 0 where
  pub entries : List (Text × Entry)
  pub ttl : ℕ

unfoldable pub new : ℕ → VerifiedKeyCache
new ttl = record { entries = []; ttl = ttl }

unfoldable pub is_fresh : ℕ → ℕ → Entry → Bool
is_fresh ttl now entry = ltb (now - entry.verified_at) ttl

-- SHA-256 is not part of the repository: `digest_of` is its value on a secret.
module _ (digest_of : Text → Text) where
  unfoldable pub is_verified : VerifiedKeyCache → ℕ → ApiKeyToken → Bool
  unfolding is_fresh
  is_verified cache now token = elim (Dict.get token.prefix cache.entries) [
    | none ↦ false
    | some entry ↦ is_fresh cache.ttl now entry && same_text entry.digest (digest_of token.secret)
  ]

  -- Makes room: what is stale goes first, and everything if that is not enough.
  unfoldable pub make_room : ℕ → ℕ → List (Text × Entry) → List (Text × Entry)
  make_room ttl now entries =
      let kept = Dict.retain (is_fresh ttl now) entries in
      if leb max_entries (length entries)
      then (if leb max_entries (length kept) then [] else kept)
      else entries

  unfoldable pub remember : VerifiedKeyCache → ℕ → ApiKeyToken → VerifiedKeyCache
  remember cache now token = record cache {
    entries =
        Dict.insert token.prefix (record { digest = digest_of token.secret; verified_at = now })
          (make_room cache.ttl now cache.entries);
  }

unfoldable pub forget : VerifiedKeyCache → Text → VerifiedKeyCache
forget cache prefix = record cache { entries = Dict.remove prefix cache.entries }
