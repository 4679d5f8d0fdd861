-- ===== src/Windows/File.antt =====
-- The file operations of Windows as the public trait calls them: `crate::sys` of src/windows/mod.rs
-- behind `impl FileExt for File` of src/lib.rs. A file is its handle.
pub mod Contended
use fs2_turbo.Base.{ℕ, ok}
use fs2_turbo.Base.Io.{Io, lift, ◌>>=◌}
use fs2_turbo.FileExt.{Sys}
use fs2_turbo.Windows.Path.{Call}
use fs2_turbo.Windows.Overlapped.{EventSys}
use fs2_turbo.Windows.Lock
use fs2_turbo.Windows.Lock.{Flags, LockSys}
use fs2_turbo.Windows.Control.{ControlConstants, ControlSys}
use fs2_turbo.Windows.Allocation
use fs2_turbo.Windows.Allocation.{Attributes, FileSys}
use fs2_turbo.Windows.Handle

-- The constants of the bindings and the calls of the Windows API that the operations use.
pub record FileApi (S : Type 0) : Type 0 where
  pub flags : Flags
  pub attributes : Attributes
  pub control_constants : ControlConstants
  pub events : EventSys S
  pub locks : LockSys S ℕ
  pub controls : ControlSys S ℕ
  pub files : FileSys S ℕ
  pub duplicate_handle : ℕ → S → (Call × ℕ) × S

module _ {S : Type 0} (api : FileApi S) where
  -- `allocated_size` of src/allocation.rs, over the state of Windows.
  unfoldable pub windows_allocated_size : ℕ → Io S ℕ
  windows_allocated_size file = do
    state ←
        Allocation.allocation_state api.attributes api.control_constants api.events api.controls
          api.files file
    lift (ok state.allocated_size)

  unfoldable pub windows_file_sys : Sys S ℕ
  windows_file_sys = record {
    duplicate = Handle.duplicate api.duplicate_handle;
    allocated_size = windows_allocated_size;
    allocate =
        Allocation.allocate api.attributes api.control_constants api.events api.controls api.files;
    lock_shared = Lock.lock_shared api.flags api.events api.locks;
    lock_exclusive = Lock.lock_exclusive api.flags api.events api.locks;
    unlock = Lock.unlock api.flags api.events api.locks;
    lock_error = Lock.lock_error api.flags;
  }
