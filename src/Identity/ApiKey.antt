-- ===== src/Identity/ApiKey.antt =====
-- identity/domain/api_key.rs: the token that a caller presents, and the stored key.
pub mod Token
use recuerdos_ai.Prelude.{
  ℕ, ◌+◌, ◌*◌, ◌≡◌, Bool, true, false, Option, none, some, List, ◌++◌, ◌==◌, take, drop, not,
  is_empty, is_some, if◌then◌else◌,
}
use recuerdos_ai.Text.{
  Text, codes, trim, strip_prefix, byte_len, all_chars, is_ascii_hexdigit, to_ascii_lowercase,
}
use recuerdos_ai.Shared.Error.{Result, ok, err, unauthorized, validation, ok_or, guard, ◌>>=◌, ◌>>◌}
use recuerdos_ai.Identity.Scope.{Scope}

abbrev pub key_scheme : Text
key_scheme = codes "ra_live_"

abbrev pub prefix_hex_len : ℕ
prefix_hex_len = 4 * 2

abbrev pub secret_hex_len : ℕ
secret_hex_len = 16 * 2

pub record ApiKeyToken : Type 0 where
  pub prefix : Text
  pub secret : Text

-- Every character of `body` is ASCII where it is split, so that bytes and characters agree.
unfoldable pub parse : Text → Result ApiKeyToken
parse raw = do
  body ← ok_or (strip_prefix key_scheme (trim raw)) unauthorized
  guard (byte_len body == prefix_hex_len + secret_hex_len) unauthorized
  guard (all_chars is_ascii_hexdigit body) unauthorized
  ok (record {
    prefix = to_ascii_lowercase (take prefix_hex_len body);
    secret = to_ascii_lowercase (drop prefix_hex_len body);
  })

unfoldable pub render : ApiKeyToken → Text
render token = key_scheme ++ token.prefix ++ token.secret

pub record ApiKey : Type 0 where
  pub id : ℕ
  pub user_id : ℕ
  pub name : Text
  pub prefix : Text
  pub secret_hash : Text
  pub scopes : List Scope
  pub created_at : ℕ
  pub last_used_at : Option ℕ
  pub revoked_at : Option ℕ

-- `ApiKey::issue`; the fresh identifier is the argument `id`.
unfoldable pub issue : ℕ → ℕ → Text → Text → Text → List Scope → ℕ → Result ApiKey
issue id user_id name prefix secret_hash scopes now = do
  guard (not (is_empty (trim name))) validation
  guard (not (is_empty scopes)) validation
  ok (record {
    id = id;
    user_id = user_id;
    name = trim name;
    prefix = prefix;
    secret_hash = secret_hash;
    scopes = scopes;
    created_at = now;
    last_used_at = none;
    revoked_at = none;
  })

unfoldable pub is_revoked : ApiKey → Bool
is_revoked key = is_some key.revoked_at
