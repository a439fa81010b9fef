-- ===== src/Examples.antt =====
-- The theorems at concrete inputs.
mod Consolidation
mod Identity
mod Memories
mod RateLimit
mod Recall
mod Passes
mod Services
mod Understanding
