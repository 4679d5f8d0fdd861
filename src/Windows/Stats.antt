-- ===== src/Windows/Stats.antt =====
-- Filesystem statistics on Windows: src/windows/stats/, a module for each file there.
pub mod Provider
pub mod Modern
pub mod Legacy
pub mod Handle
pub mod Space
