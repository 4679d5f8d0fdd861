-- ===== src/Unix/Solaris/Translate.antt =====
-- Every lock operation of the crate reaches `fcntl` with the command and type that it means, and a
-- refusal for contention reads as the contention error of the crate.
use fs2_turbo.Base.{
  ℕ, ℤ, negsuc, Bool, true, ◌≡◌, ◌≢◌, ◌⊎◌, Result, err, bit_and, bit_or, bit_clear, bit_or-zero,
  eqb_ℤ_iff, if◌then◌else◌, arith,
}
use fs2_turbo.Unix.Lock.{Flags, lock_shared, lock_exclusive, unlock, lock_error}
use fs2_turbo.Unix.Solaris.{FcntlConstants, Record, whole_file, fcntl_result, flock_solaris}

-- The four flags are different bits, and LOCK_NB is none of the operations'.
pub record FlagLaws (c : Flags) : Type 0 where
  pub shared_blocks : bit_and c.lock_sh c.lock_nb ≡ 0
  pub exclusive_blocks : bit_and c.lock_ex c.lock_nb ≡ 0
  pub unlock_blocks : bit_and c.lock_un c.lock_nb ≡ 0
  pub shared_tries : bit_and (bit_or c.lock_sh c.lock_nb) c.lock_nb ≢ 0
  pub exclusive_tries : bit_and (bit_or c.lock_ex c.lock_nb) c.lock_nb ≢ 0
  pub shared_cleared : bit_clear (bit_or c.lock_sh c.lock_nb) c.lock_nb ≡ c.lock_sh
  pub exclusive_cleared : bit_clear (bit_or c.lock_ex c.lock_nb) c.lock_nb ≡ c.lock_ex
  pub shared_ne_exclusive : c.lock_ex ≢ c.lock_sh
  pub shared_ne_unlock : c.lock_un ≢ c.lock_sh
  pub exclusive_ne_unlock : c.lock_un ≢ c.lock_ex

module _ {S F : Type 0} (c : Flags) (d : FcntlConstants)
    (fcntl : F → ℤ → Record → S → (ℤ × ℤ) × S) where
  -- One call of `fcntl`, and what the crate reports of it.
  abbrev pub reported : F → ℤ → ℕ → S → Result (Unit {0}) × S
  reported file cmd l_type s =
      let (answer, s') = fcntl file cmd (whole_file c d fcntl l_type) s in
      (fcntl_result c d fcntl answer, s')

  -- On Solaris, with flags that are distinct bits, each lock operation makes the one `fcntl` call
  -- that it means: a read or write record, waiting unless nonblocking, and unlocking by an unlock
  -- record; no operation is refused as invalid.
  pub lock_calls :
      (laws : FlagLaws c) (file : F) (nonblocking : Bool) (s : S)
      → let cmd = if nonblocking then d.f_setlk else d.f_setlkw in
        (lock_shared c (flock_solaris c d fcntl) file nonblocking s
          ≡ reported file cmd (bit_or 0 d.f_rdlck) s)
        × (lock_exclusive c (flock_solaris c d fcntl) file nonblocking s
            ≡ reported file cmd (bit_or 0 d.f_wrlck) s)
        × (unlock c (flock_solaris c d fcntl) file s
            ≡ reported file d.f_setlkw (bit_or 0 d.f_unlck) s)
  unfolding lock_shared lock_exclusive unlock flock_solaris
  lock_calls laws file nonblocking s = ground (arith, bit_or-zero c.lock_sh, bit_or-zero c.lock_ex)

  -- On Solaris, with flags that are distinct bits, a nonblocking lock that `fcntl` refuses with
  -- EACCES or EWOULDBLOCK fails with the crate's contention error, in both modes.
  pub try_contended :
      (laws : FlagLaws c) (file : F) (s : S) {code : ℤ}
      → (code ≡ d.eacces) ⊎ (code ≡ c.ewouldblock)
      → (fcntl file d.f_setlk (whole_file c d fcntl (bit_or 0 d.f_rdlck)) s).0 ≡ (negsuc 0, code)
      → (fcntl file d.f_setlk (whole_file c d fcntl (bit_or 0 d.f_wrlck)) s).0 ≡ (negsuc 0, code)
      → ((lock_shared c (flock_solaris c d fcntl) file true s).0 ≡ err (lock_error c))
        × ((lock_exclusive c (flock_solaris c d fcntl) file true s).0 ≡ err (lock_error c))
  unfolding lock_error fcntl_result
  try_contended laws file s {code} conflict shared exclusive =
      ground (arith, lock_calls laws file true s, eqb_ℤ_iff code d.eacces)
