-- ===== src/Consolidation.antt =====
-- src/consolidation: how memories that say the same are found and merged.
pub mod ClusterBuilder
pub mod Similarity
pub mod Report
pub mod Budget
pub mod Groups
pub mod Decay
pub mod Listing
pub mod Maintainer
pub mod Merger
pub mod Watermarks
pub mod Planner
pub mod Runner
