-- ===== src/Understanding.antt =====
-- src/understanding: the queue of submitted content, the workers that take from it, and how a
-- candidate memory is reconciled with those stored.
pub mod Taxonomy
pub mod JobQueue
pub mod IngestWorkers
pub mod Reconciler
