-- ===== src/Memories.antt =====
-- src/memories: the memories of each user, their store and their audit trail.
pub mod Category
pub mod Memory
pub mod DocumentText
pub mod Repository
pub mod Services
