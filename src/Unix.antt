-- ===== src/Unix.antt =====
-- The Unix half of the crate: src/unix/. What `libc` and the kernel do is a parameter throughout.
pub mod Allocation
pub mod Platform
pub mod Path
pub mod Stats
pub mod Lock
pub mod Solaris
pub mod Handle
