-- ===== src/Identity.antt =====
-- src/identity: users, API keys and their scopes, and how a request is authenticated.
pub mod Scope
pub mod UserContext
pub mod ApiKey
pub mod VerifiedKeyCache
pub mod KeyAuthenticator
