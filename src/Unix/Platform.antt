-- ===== src/Unix/Platform.antt =====
-- Reserving space, one provider for each family of systems: src/unix/allocation/platform.rs.
pub mod Fallocate
pub mod Preallocate
pub mod Unavailable
