-- ===== src/Shared.antt =====
-- src/shared: what every part of the service uses.
pub mod Error
pub mod RateLimit
