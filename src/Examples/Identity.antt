-- ===== src/Examples/Identity.antt =====
-- Keys, scopes and the authenticator at concrete inputs.
use recuerdos_ai.Prelude.Dict
use recuerdos_ai.Prelude.{
  ℕ, ◌≡◌, refl, true, false, Option, none, some, List, [], ◌∷◌, map, arith, subst,
}
use recuerdos_ai.Text.{
  Text, codes, same_text, all_chars, strip_prefix, trim, is_whitespace, byte_len, is_ascii_hexdigit,
  to_ascii_lowercase,
}
use recuerdos_ai.Shared.Error.{ok, err, unauthorized}
use recuerdos_ai.Identity.Scope.{read, write, parse_list, join, rank}
use recuerdos_ai.Identity.Scope.Lists.{Increasing, parse_list-join}
use recuerdos_ai.Identity.UserContext.{
  User, UserContext, resolve_background, background, authenticated,
}
use recuerdos_ai.Identity.ApiKey.{ApiKeyToken, ApiKey, parse, render, is_revoked}
use recuerdos_ai.Identity.ApiKey.Token.{IsWellFormed, parse-render, is_lower_hex}
use recuerdos_ai.Identity.VerifiedKeyCache.{remember, make_room, is_fresh, forget, new, is_verified}
use recuerdos_ai.Identity.KeyAuthenticator.{
  Hasher, Stores, Request, serve, execute, execute_uncached,
}
use recuerdos_ai.Identity.KeyAuthenticator.Cached.{serve-eq-uncached, execute-eq-ok, IsTrusted}
use recuerdos_ai.Identity.KeyAuthenticator.Capacity.{Fits}

abbrev alex : User
alex = record { id = 7; handle = codes "alex"; email = none; created_at = 0 }

abbrev prefix : Text
prefix = codes "0a1b2c3d"

abbrev secret : Text
secret = codes "0123456789abcdef0123456789abcdef"

abbrev token : ApiKeyToken
token = record { prefix = prefix; secret = secret }

abbrev upper : Text
upper = codes " ra_live_0A1B2C3D0123456789ABCDEF0123456789ABCDEF "

abbrev key : Option ℕ → ApiKey
key revoked_at = record {
  id = 3;
  user_id = 7;
  name = codes "laptop";
  prefix = prefix;
  secret_hash = secret;
  scopes = read ∷ write ∷ [];
  created_at = 0;
  last_used_at = none;
  revoked_at = revoked_at;
}

-- A hash that is its secret.
abbrev plain : Hasher
plain = record { verify = λ s t. ok (same_text s t); digest_of = λ s. s }

-- One user with one key, revoked or not, under whatever prefix.
abbrev stores : Option ℕ → Stores
stores revoked_at = record {
  find_user = λ _. ok (some alex);
  find_key = λ _. ok (some (key revoked_at));
}

abbrev requests : List Request
requests =
    record { stores = stores none; now = 1; raw = render token }
    ∷ record { stores = stores none; now = 2; raw = render token }
    ∷ record { stores = stores (some 3); now = 3; raw = render token }
    ∷ []

agrees :
    (revoked_at : Option ℕ) (p : Text) (k : ApiKey)
    → (stores revoked_at).find_key p ≡ ok (some k)
    → k.secret_hash ≡ secret
agrees revoked_at p k h =
    let same : key revoked_at ≡ k = ground arith in subst (λ x. x.secret_hash ≡ secret) same refl

serve-eq-uncached_example :
    serve plain requests (new 10) ≡ map (λ r. execute_uncached plain r.stores r.raw) requests
serve-eq-uncached_example =
    serve-eq-uncached plain (λ _. secret) 10 requests (λ s t h. h)
      (agrees none, (agrees none, (agrees (some 3), tt)))

abbrev context : UserContext
context = authenticated 7 (codes "alex") 3 (read ∷ write ∷ [])

serve_test : serve plain requests (new 10) ≡ ok context ∷ ok context ∷ err unauthorized ∷ []
unfolding serve execute parse render authenticated strip_prefix trim is_whitespace byte_len
    all_chars is_ascii_hexdigit is_verified Dict.get new same_text to_ascii_lowercase is_revoked
    remember make_room Dict.insert Dict.remove is_fresh forget Dict.retain
serve_test = refl

empty-IsTrusted : IsTrusted plain (λ _. secret) (new 10)
unfolding new
empty-IsTrusted = tt

empty-Fits : Fits (new 10)
unfolding new
empty-Fits = omega arith

let_in : (execute plain (stores none) 1 (render token) (new 10)).0 ≡ ok context
unfolding execute parse strip_prefix trim render is_whitespace byte_len all_chars is_ascii_hexdigit
    is_verified Dict.get new same_text to_ascii_lowercase is_revoked
let_in = refl

token-IsWellFormed : IsWellFormed token
unfolding all_chars is_lower_hex
token-IsWellFormed = record {
  prefix_length = refl;
  secret_length = refl;
  prefix_digits = refl;
  secret_digits = refl;
}

alex_resolves : resolve_background (λ _. ok (some alex)) 7 ≡ ok (background 7 (codes "alex"))
unfolding resolve_background
alex_resolves = refl

upper_parses : parse upper ≡ ok token
unfolding parse strip_prefix trim is_whitespace byte_len all_chars is_ascii_hexdigit
    to_ascii_lowercase
upper_parses = refl

execute-eq-ok_example :
    (t : ApiKeyToken) × (k : ApiKey) × (user : User) × (parse (render token) ≡ ok t)
    × ((stores none).find_key t.prefix ≡ ok (some k))
    × (plain.verify t.secret k.secret_hash ≡ ok true)
    × (is_revoked k ≡ false)
    × ((stores none).find_user k.user_id ≡ ok (some user))
    × (context ≡ authenticated user.id user.handle k.id k.scopes)
execute-eq-ok_example =
    execute-eq-ok plain (λ _. secret) (stores none) 1 (render token) (new 10) context (λ s t h. h)
      (agrees none) empty-IsTrusted let_in

parse-render_example : parse (render token) ≡ ok token
parse-render_example = parse-render token token-IsWellFormed

abbrev list : Text
list = codes "write, read,write"

list_parses : parse_list list ≡ ok (read ∷ write ∷ [])
unfolding parse_list is_whitespace
list_parses = refl

both-Increasing : Increasing (read ∷ write ∷ [])
unfolding rank
both-Increasing = ((omega arith, tt), (tt, tt))

parse_list-join_example : parse_list (join (read ∷ write ∷ [])) ≡ ok (read ∷ write ∷ [])
parse_list-join_example = parse_list-join (read ∷ write ∷ []) both-Increasing refl
