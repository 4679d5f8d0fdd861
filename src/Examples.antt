-- ===== src/Examples.antt =====
-- Small systems on which the theorems are applied, and tests of the model.
mod Counters
mod Paths
mod UnixFiles
mod Locks
mod WindowsFiles
mod Volumes
mod CoverageGate
mod Contention
mod Processes
mod Descriptors
mod Jobs
mod Directories
mod Targets
