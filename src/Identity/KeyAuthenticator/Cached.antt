-- ===== src/Identity/KeyAuthenticator/Cached.antt =====
-- The cache changes how often the hasher runs, and never a reply.
use recuerdos_ai.Prelude.{
  ℕ, ◌≡◌, refl, ap, sym, ◌∙◌, Bool, true, false, not, ◌||◌, some, List, [], ◌∷◌, map, arith,
  if◌then◌else◌, All, Bool-cases, Option-cases, inl, inr, leb, length,
}
use recuerdos_ai.Prelude.Dict
use recuerdos_ai.Prelude.Dict.{AllValues, AllValues-remove, AllValues-retain, AllValues-get}
use recuerdos_ai.Text.{Text, same_text, same_text_iff, text_eq}
use recuerdos_ai.Shared.Error.{Result, ok, err, ◌>>=◌, >>=-eq-ok, ok_or-eq-ok, ok-injective}
use recuerdos_ai.Identity.ApiKey.{ApiKeyToken, ApiKey, parse, is_revoked}
use recuerdos_ai.Identity.VerifiedKeyCache.{
  VerifiedKeyCache, Entry, is_verified, is_fresh, make_room, remember, forget, new, max_entries,
}
use recuerdos_ai.Identity.KeyAuthenticator.{
  Stores, Hasher, Request, check, settle, with_key, with_token, find_key_of, execute,
  execute_uncached, serve, confirm, unauthorized, context_of, UserContext, User, authenticated,
  ok_or,
}

module _ (h : Hasher) (hash_of : Text → Text) where
  -- The stored hash of a prefix never changes while the service runs; all else of a key may.
  abbrev pub Agrees : Stores → Type 0
  Agrees stores =
      (prefix : Text) (key : ApiKey)
      → stores.find_key prefix ≡ ok (some key)
      → key.secret_hash ≡ hash_of prefix

  abbrev Confirmed : Text → Entry → Type 0
  Confirmed prefix entry =
      (secret : Text) × (entry.digest ≡ h.digest_of secret)
      × (h.verify secret (hash_of prefix) ≡ ok true)

  -- Every entry of the cache is of a secret that the hasher has confirmed.
  abbrev pub IsTrusted : VerifiedKeyCache → Type 0
  IsTrusted cache = AllValues Confirmed cache.entries

  abbrev pub IsInjective : Type 0
  IsInjective = (s t : Text) → h.digest_of s ≡ h.digest_of t → s ≡ t

  verified_confirmed :
      (cache : VerifiedKeyCache) (now : ℕ) (token : ApiKeyToken)
      → IsInjective
      → IsTrusted cache
      → is_verified h.digest_of cache now token ≡ true
      → h.verify token.secret (hash_of token.prefix) ≡ ok true
  unfolding is_verified
  verified_confirmed cache now token inj trusted v =
      elim (Option-cases (Dict.get token.prefix cache.entries)) [
        | inl e ↦ ground arith
        | inr (entry, e) ↦
            let same : same_text entry.digest (h.digest_of token.secret) ≡ true = ground arith in
            let (secret, d, c) =
              AllValues-get Confirmed token.prefix entry cache.entries trusted e in
            rw (← inj secret token.secret (sym d ∙ (same_text_iff _ _).0 same)) c
      ]

  remember-IsTrusted :
      (cache : VerifiedKeyCache) (now : ℕ) (token : ApiKeyToken)
      → IsTrusted cache
      → h.verify token.secret (hash_of token.prefix) ≡ ok true
      → IsTrusted (remember h.digest_of cache now token)
  unfolding remember make_room Dict.insert
  remember-IsTrusted cache now token trusted right =
      let kept = AllValues-retain Confirmed (is_fresh cache.ttl now) cache.entries trusted in
      (
        (token.secret, refl, right),
        AllValues-remove Confirmed token.prefix _
            (elim (Bool-cases (leb max_entries (length cache.entries))) [
              | inl full ↦
                  rw full
                    (elim (Bool-cases (
                      leb max_entries
                        (length (Dict.retain (is_fresh cache.ttl now) cache.entries)))) [
                          | inl still ↦ rw still tt
                          | inr room ↦ rw room kept
                        ])
              | inr room ↦ rw room trusted
            ]),
      )

  forget-IsTrusted :
      (cache : VerifiedKeyCache) (prefix : Text) → IsTrusted cache → IsTrusted (forget cache prefix)
  unfolding forget
  forget-IsTrusted cache prefix trusted = AllValues-remove Confirmed prefix cache.entries trusted

  module _ (stores : Stores) where
    confirm_lem :
        (now : ℕ) (token : ApiKeyToken) (r : Result Bool) (cache : VerifiedKeyCache)
        → h.verify token.secret (hash_of token.prefix) ≡ r
        → IsTrusted cache
        → ((confirm h stores now token r cache).0 ≡ r)
          × IsTrusted (confirm h stores now token r cache).1
    unfolding confirm
    confirm_lem now token (err e) cache v trusted = (refl, trusted)
    confirm_lem now token (ok true) cache v trusted =
        (refl, remember-IsTrusted cache now token trusted v)
    confirm_lem now token (ok false) cache v trusted = (refl, trusted)

    settle_lem :
        (token : ApiKeyToken) (key : ApiKey) (m : Result Bool × VerifiedKeyCache)
        → IsTrusted m.1
        → ((settle h stores token key m).0 ≡ (
            m.0 >>= λ matches.
            if not matches || is_revoked key then err unauthorized else context_of h stores key))
          × IsTrusted (settle h stores token key m).1
    unfolding settle
    settle_lem token key (err e, cache) trusted = (refl, trusted)
    settle_lem token key (ok matches, cache) trusted = elim (Bool-cases (is_revoked key)) [
      | inl gone ↦ rw gone (elim (Bool-cases (not matches)) [
        | inl e ↦ rw e (refl, forget-IsTrusted cache token.prefix trusted)
        | inr e ↦ rw e (refl, forget-IsTrusted cache token.prefix trusted)
      ])
      | inr live ↦ rw live (elim (Bool-cases (not matches)) [
        | inl e ↦ rw e (refl, trusted)
        | inr e ↦ rw e (refl, trusted)
      ])
    ]

  module _ (stores : Stores) (inj : IsInjective) (agrees : Agrees stores) where
    check_lem :
        (now : ℕ) (token : ApiKeyToken) (key : ApiKey) (cache : VerifiedKeyCache)
        → key.secret_hash ≡ hash_of token.prefix
        → IsTrusted cache
        → ((check h stores now token key cache).0 ≡ h.verify token.secret key.secret_hash)
          × IsTrusted (check h stores now token key cache).1
    unfolding check
    check_lem now token key cache same trusted =
        elim (Bool-cases (is_verified h.digest_of cache now token)) [
          | inl hit ↦
              rw (hit, same) (sym (verified_confirmed cache now token inj trusted hit), trusted)
          | inr miss ↦
              rw (miss, same)
                (confirm_lem stores now token (h.verify token.secret (hash_of token.prefix)) cache
                  refl trusted)
        ]

    with_key_lem :
        (now : ℕ) (token : ApiKeyToken) (r : Result ApiKey) (cache : VerifiedKeyCache)
        → ((key : ApiKey) → r ≡ ok key → key.secret_hash ≡ hash_of token.prefix)
        → IsTrusted cache
        → ((with_key h stores now token r cache).0 ≡ (
            r >>= λ key. h.verify token.secret key.secret_hash >>= λ matches.
            if not matches || is_revoked key then err unauthorized else context_of h stores key))
          × IsTrusted (with_key h stores now token r cache).1
    unfolding with_key
    with_key_lem now token (err e) cache same trusted = (refl, trusted)
    with_key_lem now token (ok key) cache same trusted =
        let (reply, kept) = check_lem now token key cache (same key refl) trusted in
        let (settled, still) =
          settle_lem stores token key (check h stores now token key cache) kept in
        (rw (← reply) settled, still)

    found_agrees :
        (token : ApiKeyToken) (key : ApiKey)
        → find_key_of h stores token ≡ ok key
        → key.secret_hash ≡ hash_of token.prefix
    unfolding find_key_of
    found_agrees token key e =
        let (found, at, some_key) = >>=-eq-ok (stores.find_key token.prefix) _ e in
        agrees token.prefix key (at ∙ ap ok (ok_or-eq-ok found _ some_key))

    with_token_lem :
        (now : ℕ) (r : Result ApiKeyToken) (cache : VerifiedKeyCache)
        → IsTrusted cache
        → ((with_token h stores now r cache).0 ≡ (
            r >>= λ token. find_key_of h stores token >>= λ key.
            h.verify token.secret key.secret_hash >>= λ matches.
            if not matches || is_revoked key then err unauthorized else context_of h stores key))
          × IsTrusted (with_token h stores now r cache).1
    unfolding with_token
    with_token_lem now (err e) cache trusted = (refl, trusted)
    with_token_lem now (ok token) cache trusted =
        with_key_lem now token (find_key_of h stores token) cache (found_agrees token) trusted

    execute_lem :
        (now : ℕ) (raw : Text) (cache : VerifiedKeyCache)
        → IsTrusted cache
        → ((execute h stores now raw cache).0 ≡ execute_uncached h stores raw)
          × IsTrusted (execute h stores now raw cache).1
    execute_lem now raw cache trusted =
        let (same, kept) = with_token_lem now (parse raw) cache trusted in
        (unfold execute execute_uncached in same, unfold execute in kept)

  serve-IsTrusted :
      (requests : List Request) (cache : VerifiedKeyCache)
      → IsInjective
      → All (λ r. Agrees r.stores) requests
      → IsTrusted cache
      → serve h requests cache ≡ map (λ r. execute_uncached h r.stores r.raw) requests
  unfolding serve
  serve-IsTrusted [] cache inj agrees trusted = refl
  serve-IsTrusted (r ∷ rs) cache inj agrees trusted =
      let (same, kept) = execute_lem r.stores inj agrees.0 r.now r.raw cache trusted in
      rw (same, serve-IsTrusted rs (execute h r.stores r.now r.raw cache).1 inj agrees.1 kept) refl

-- From an empty cache, whatever requests come and however the keys are revoked or changed between
-- them, each reply is the one of the reference that asks the hasher every time, provided that the
-- digest tells secrets apart and that the stored hash of a prefix does not change.
pub serve-eq-uncached :
    (h : Hasher) (hash_of : Text → Text) (ttl : ℕ) (requests : List Request)
    → IsInjective h hash_of
    → All (λ r. Agrees h hash_of r.stores) requests
    → serve h requests (new ttl) ≡ map (λ r. execute_uncached h r.stores r.raw) requests
serve-eq-uncached h hash_of ttl requests inj agrees =
    serve-IsTrusted h hash_of requests (new ttl) inj agrees (unfold new in tt)

passed :
    (h : Hasher) (stores : Stores) (key : ApiKey) (matches : Bool) (context : UserContext)
    → (if not matches || is_revoked key then err unauthorized else context_of h stores key)
      ≡ ok context
    → (matches ≡ true) × (is_revoked key ≡ false) × (context_of h stores key ≡ ok context)
passed h stores key matches context e = ground arith

uncached-eq-ok :
    (h : Hasher) (stores : Stores) (raw : Text) (context : UserContext)
    → execute_uncached h stores raw ≡ ok context
    → (token : ApiKeyToken) × (key : ApiKey) × (user : User) × (parse raw ≡ ok token)
      × (stores.find_key token.prefix ≡ ok (some key))
      × (h.verify token.secret key.secret_hash ≡ ok true)
      × (is_revoked key ≡ false)
      × (stores.find_user key.user_id ≡ ok (some user))
      × (context ≡ authenticated user.id user.handle key.id key.scopes)
unfolding execute_uncached
uncached-eq-ok h stores raw context e =
    let (token, p, e₁) = >>=-eq-ok (parse raw) _ e in
    let (key, k, e₂) = >>=-eq-ok (find_key_of h stores token) _ e₁ in
    let (matches, v, e₃) = >>=-eq-ok (h.verify token.secret key.secret_hash) _ e₂ in
    let (yes_it_does, live, e₄) = passed h stores key matches context e₃ in
    let (found, f, e₅) = >>=-eq-ok (stores.find_user key.user_id) _ e₄ in
    let (user, u, e₆) = >>=-eq-ok (ok_or found unauthorized) _ e₅ in
    let (found_key, fk, uk) = >>=-eq-ok (stores.find_key token.prefix) _ k in
    (
      token,
      key,
      user,
      p,
      fk ∙ ap ok (ok_or-eq-ok found_key _ uk),
      v ∙ ap ok yes_it_does,
      live,
      f ∙ ap ok (ok_or-eq-ok found _ u),
      sym (ok-injective e₆),
    )

-- Whoever is let in, with a trusted cache or none, presented a token whose stored key is not revoked
-- now and whose secret the hasher confirms against the stored hash; the context is that of the key's
-- own user, with the key's scopes.
pub execute-eq-ok :
    (h : Hasher) (hash_of : Text → Text) (stores : Stores) (now : ℕ) (raw : Text)
    (cache : VerifiedKeyCache) (context : UserContext)
    → IsInjective h hash_of
    → Agrees h hash_of stores
    → IsTrusted h hash_of cache
    → (execute h stores now raw cache).0 ≡ ok context
    → (token : ApiKeyToken) × (key : ApiKey) × (user : User) × (parse raw ≡ ok token)
      × (stores.find_key token.prefix ≡ ok (some key))
      × (h.verify token.secret key.secret_hash ≡ ok true)
      × (is_revoked key ≡ false)
      × (stores.find_user key.user_id ≡ ok (some user))
      × (context ≡ authenticated user.id user.handle key.id key.scopes)
execute-eq-ok h hash_of stores now raw cache context inj agrees trusted e =
    uncached-eq-ok h stores raw context
      (sym (execute_lem h hash_of stores inj agrees now raw cache trusted).0 ∙ e)
