-- ===== src/Identity/UserContext.antt =====
-- identity/domain/user_context.rs: who acts, and what the key in use allows.
-- identity/application/background_user_resolver.rs: the context of a background job.
use recuerdos_ai.Prelude.{
  ℕ, ◌≡◌, Bool, ◌||◌, Option, none, some, List, [], ◌∷◌, arith, if◌then◌else◌, contains,
}
use recuerdos_ai.Text.{Text}
use recuerdos_ai.Shared.Error.{Result, ok, err, forbidden, not_found, ok_or, ◌>>=◌}
use recuerdos_ai.Identity.Scope.{Scope, read, write, admin, scope_eq, same_scope}

-- identity/domain/user.rs
pub record User : Type 0 where
  pub id : ℕ
  pub handle : Text
  pub email : Option Text
  pub created_at : ℕ

pub record UserContext : Type 0 where
  pub user_id : ℕ
  pub handle : Text
  pub key_id : Option ℕ
  pub scopes : List Scope

unfoldable pub authenticated : ℕ → Text → ℕ → List Scope → UserContext
authenticated user_id handle key_id scopes = record {
  user_id = user_id;
  handle = handle;
  key_id = some key_id;
  scopes = scopes;
}

unfoldable pub background : ℕ → Text → UserContext
background user_id handle = record {
  user_id = user_id;
  handle = handle;
  key_id = none;
  scopes = read ∷ write ∷ [];
}

unfoldable pub allows : UserContext → Scope → Bool
unfolding contains same_scope
allows context required = contains context.scopes admin || contains context.scopes required

unfoldable pub require : UserContext → Scope → Result (Unit {0})
unfolding allows
require context required = if allows context required then ok tt else err forbidden

-- `BackgroundUserResolver::execute`, over the lookup of `UserRepository`.
unfoldable pub resolve_background : (ℕ → Result (Option User)) → ℕ → Result UserContext
unfolding background
resolve_background find_by_id user_id = do
  found ← find_by_id user_id
  user ← ok_or found not_found
  ok (background user.id user.handle)

-- A background context may read and write, and never administer, whoever the user is.
pub background_lem :
    (find_by_id : ℕ → Result (Option User)) (user_id : ℕ) (context : UserContext)
    → resolve_background find_by_id user_id ≡ ok context
    → (require context read ≡ ok tt)
      × (require context write ≡ ok tt)
      × (require context admin ≡ err forbidden)
      × (context.key_id ≡ none)
unfolding resolve_background require
background_lem find_by_id user_id context h = ground arith
