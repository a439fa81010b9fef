-- ===== src/Recall.antt =====
-- memories/domain/recall_ranker.rs, recall_query.rs and memories/application/memory_recaller.rs: what
-- a query finds, and in which order.
pub mod Comparison
pub mod Sorting
pub mod Floats
pub mod Ranker
pub mod Expansion
pub mod Query
pub mod EntityKey
pub mod Receiver
pub mod RerankLeg
pub mod Seeds
pub mod Filters
pub mod Recaller
