-- ===== src/Unix/Solaris.antt =====
-- `flock` by record locks of `fcntl`: src/unix/solaris.rs.
pub mod Translate
use fs2_turbo.Base.{
  ℕ, ℤ, pos, negsuc, Bool, Error, os, raw_os_error, Option, none, some, Result, ok, err, eqb_ℤ,
  bit_and, bit_or, bit_clear, ◌==◌, if◌then◌else◌,
}
use fs2_turbo.Base.Io.{Io, lift, ◌>>=◌}
use fs2_turbo.Unix.Lock.{Flags}

pub record FcntlConstants : Type 0 where
  pub f_setlk : ℤ
  pub f_setlkw : ℤ
  pub f_rdlck : ℕ
  pub f_wrlck : ℕ
  pub f_unlck : ℕ
  pub einval : ℤ
  pub eacces : ℤ
  pub seek_set : ℤ

-- `libc::flock`.
pub record Record : Type 0 where
  pub l_whence : ℤ
  pub l_start : ℤ
  pub l_len : ℤ
  pub l_type : ℕ
  pub l_pid : ℤ
  pub l_sysid : ℤ

module _ {S F : Type 0} (c : Flags) (d : FcntlConstants)
    (fcntl : F → ℤ → Record → S → (ℤ × ℤ) × S) where
  -- The whole file, before its type is set.
  abbrev pub whole_file : ℕ → Record
  whole_file l_type = record {
    l_whence = d.seek_set;
    l_start = pos 0;
    l_len = pos 0;
    l_type = l_type;
    l_pid = pos 0;
    l_sysid = pos 0;
  }

  -- `let (cmd, operation) = match flag & LOCK_NB`.
  unfoldable pub command : ℕ → ℤ × ℕ
  command flag =
      if bit_and flag c.lock_nb == 0
      then (d.f_setlkw, flag)
      else (d.f_setlk, bit_clear flag c.lock_nb)

  -- `match operation`, on a type that begins as 0.
  unfoldable pub lock_type : ℕ → Result ℕ
  lock_type operation =
      if operation == c.lock_sh
      then ok (bit_or 0 d.f_rdlck)
      else if operation == c.lock_ex
      then ok (bit_or 0 d.f_wrlck)
      else if operation == c.lock_un
      then ok (bit_or 0 d.f_unlck)
      else err (os d.einval)

  -- `EACCES` becomes `EWOULDBLOCK`.
  unfoldable pub translate : Error → Error
  translate (os code) = if eqb_ℤ code d.eacces then os c.ewouldblock else os code
  translate error = error

  unfoldable pub fcntl_result : ℤ × ℤ → Result (Unit {0})
  unfolding translate
  fcntl_result answer = if eqb_ℤ answer.0 (negsuc 0) then err (translate (os answer.1)) else ok tt

  unfoldable pub flock_solaris : F → ℕ → Io S (Unit {0})
  unfolding command lock_type fcntl_result
  flock_solaris file flag = do
    l_type ← lift (lock_type (command flag).1)
    λ s.
        let (answer, s') = fcntl file (command flag).0 (whole_file l_type) s in
        (fcntl_result answer, s')
