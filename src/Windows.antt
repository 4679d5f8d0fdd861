-- ===== src/Windows.antt =====
-- The Windows half of the crate: src/windows/. What the Windows API does is a parameter throughout.
pub mod Path
pub mod Overlapped
pub mod Lock
pub mod Stats
pub mod Control
pub mod Allocation
pub mod Handle
pub mod File
