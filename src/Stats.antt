-- ===== src/Stats.antt =====
-- Filesystem statistics that do not depend on a system call: src/stats.rs and src/stats/.
pub mod Snapshot
pub mod Bounds
pub mod Unix
pub mod Windows
pub mod Query
