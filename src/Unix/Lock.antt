-- ===== src/Unix/Lock.antt =====
-- Whole-file locks: src/unix/lock.rs. A target gives `flock`, the kernel's or that of Solaris.
use fs2_turbo.Base.{ℕ, ℤ, pos, Bool, Error, os, ok, err, ltb_ℤ, bit_or, if◌then◌else◌}
use fs2_turbo.Base.Io.{Io}

-- The constants of `libc` that the code names.
pub record Flags : Type 0 where
  pub lock_sh : ℕ
  pub lock_ex : ℕ
  pub lock_nb : ℕ
  pub lock_un : ℕ
  pub ewouldblock : ℤ

-- `lock_error`.
unfoldable pub lock_error : Flags → Error
lock_error c = os c.ewouldblock

module _ {S F : Type 0} (c : Flags) (flock : F → ℕ → Io S (Unit {0})) where
  unfoldable pub lock_shared : F → Bool → Io S (Unit {0})
  lock_shared file nonblocking =
      flock file (bit_or c.lock_sh (if nonblocking then c.lock_nb else 0))

  unfoldable pub lock_exclusive : F → Bool → Io S (Unit {0})
  lock_exclusive file nonblocking =
      flock file (bit_or c.lock_ex (if nonblocking then c.lock_nb else 0))

  unfoldable pub unlock : F → Io S (Unit {0})
  unlock file = flock file c.lock_un

-- `flock` of every target but Solaris: the call of `libc`, its result and `errno`.
unfoldable pub flock : {S F : Type 0} → (F → ℕ → S → (ℤ × ℤ) × S) → F → ℕ → Io S (Unit {0})
flock call file flag s =
    let (answer, s') = call file flag s in
    (if ltb_ℤ answer.0 (pos 0) then err (os answer.1) else ok tt, s')
