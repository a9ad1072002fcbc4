-- ===== src/Collector.antt =====
-- The two garbage collectors under pkg/controllers.
pub mod Duplicates
pub mod Orphans
