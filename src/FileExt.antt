-- ===== src/FileExt.antt =====
-- The public trait and its implementation for `File`: src/lib.rs. `Sys` is what the platform's
-- module `sys` gives; the error of contention is a value of it.
use fs2_turbo.Base.{ℕ, Bool, true, false, Error, ◌≡◌, refl}
use fs2_turbo.Base.Io.{Io}

-- The methods that an implementation must give.
pub record Required (S F : Type 0) : Type 0 where
  pub duplicate : F → Io S F
  pub allocated_size : F → Io S ℕ
  pub allocate : F → ℕ → Io S (Unit {0})
  pub lock_shared : F → Io S (Unit {0})
  pub lock_exclusive : F → Io S (Unit {0})
  pub try_lock_shared : F → Io S (Unit {0})
  pub try_lock_exclusive : F → Io S (Unit {0})
  pub unlock : F → Io S (Unit {0})

-- The trait `FileExt`.
pub record FileExt (S F : Type 0) : Type 0 where
  pub required : Required S F
  pub fs2_lock_shared : F → Io S (Unit {0})
  pub fs2_lock_exclusive : F → Io S (Unit {0})
  pub fs2_try_lock_shared : F → Io S (Unit {0})
  pub fs2_try_lock_exclusive : F → Io S (Unit {0})
  pub fs2_unlock : F → Io S (Unit {0})

-- The default methods of the trait.
unfoldable pub with_defaults : {S F : Type 0} → Required S F → FileExt S F
with_defaults r = record {
  required = r;
  fs2_lock_shared = r.lock_shared;
  fs2_lock_exclusive = r.lock_exclusive;
  fs2_try_lock_shared = r.try_lock_shared;
  fs2_try_lock_exclusive = r.try_lock_exclusive;
  fs2_unlock = r.unlock;
}

pub record Sys (S F : Type 0) : Type 0 where
  pub duplicate : F → Io S F
  pub allocated_size : F → Io S ℕ
  pub allocate : F → ℕ → Io S (Unit {0})
  pub lock_shared : F → Bool → Io S (Unit {0})
  pub lock_exclusive : F → Bool → Io S (Unit {0})
  pub unlock : F → Io S (Unit {0})
  pub lock_error : Error

-- `impl FileExt for File`, method by method.
unfoldable pub file_ext : {S F : Type 0} → Sys S F → FileExt S F
file_ext sys = record {
  required = record {
    duplicate = sys.duplicate;
    allocated_size = sys.allocated_size;
    allocate = sys.allocate;
    lock_shared = λ file. sys.lock_shared file false;
    lock_exclusive = λ file. sys.lock_exclusive file false;
    try_lock_shared = λ file. sys.lock_shared file true;
    try_lock_exclusive = λ file. sys.lock_exclusive file true;
    unlock = sys.unlock;
  };
  fs2_lock_shared = λ file. sys.lock_shared file false;
  fs2_lock_exclusive = λ file. sys.lock_exclusive file false;
  fs2_try_lock_shared = λ file. sys.lock_shared file true;
  fs2_try_lock_exclusive = λ file. sys.lock_exclusive file true;
  fs2_unlock = sys.unlock;
}

unfoldable pub lock_contended_error : {S F : Type 0} → Sys S F → Error
lock_contended_error sys = sys.lock_error

-- The names that cannot collide with the standard library's are the default forwarders.
pub file_ext-with_defaults :
    {S F : Type 0} (sys : Sys S F) → file_ext sys ≡ with_defaults (file_ext sys).required
unfolding file_ext with_defaults
file_ext-with_defaults sys = refl
