-- ===== src/Examples/UnixFiles.antt =====
-- A file on each kind of Unix: a length, and the prefix that is backed by blocks.
use fs2_turbo.Base.{
  ℕ, ℤ, pos, negsuc, pos_part, ◌+◌, ◌≤◌, ◌≡◌, refl, max, ok, ◌==◌, if◌then◌else◌, i64_max, arith,
}
use fs2_turbo.Base.Io.{Io}
use fs2_turbo.Allocation.{AllocationState, Sys, allocate, allocate_with_state, finish_allocation}
use fs2_turbo.Allocation.Length.{LengthLaws, allocate_extends}
use fs2_turbo.Unix.Allocation.{Fstat}
use fs2_turbo.Unix.Platform.Fallocate.{fallocate_sys, allocate_space}
use fs2_turbo.Unix.Platform.Fallocate.Laws.{FallocateLaws, allocate_backs}
use fs2_turbo.Unix.Platform.Preallocate.{
  Constants, Fstore, Fcntl, allocate_space_with_state, preallocate_sys,
}
use fs2_turbo.Unix.Platform.Preallocate.Length.{PreallocateLaws}

record Disk : Type 0 where
  len : ℕ
  backed : ℕ

-- The files all share the one length; a file is a descriptor.
abbrev query : ℕ → Io Disk AllocationState
query f s = (ok (record { allocated_size = s.backed; file_size = s.len }), s)

abbrev metadata : ℕ → Io Disk ℕ
metadata f s = (ok s.len, s)

abbrev set_len : ℕ → ℕ → Io Disk (Unit {0})
set_len f n s = (ok tt, record s { len = n })

abbrev fallocate : ℕ → ℤ → ℤ → Disk → ℤ × Disk
fallocate f offset n s =
    (pos 0, record { len = max s.len (pos_part n); backed = max s.backed (pos_part n) })

abbrev linux : Sys Disk ℕ
linux = fallocate_sys i64_max fallocate query metadata set_len

abbrev disk : Disk
disk = record { len = 10; backed = 512 }

linux_LengthLaws : LengthLaws linux
unfolding fallocate_sys allocate_space
linux_LengthLaws = record {
  length_of = λ f s. s.len;
  state_reads = λ f s a h. ground arith;
  space_grows = λ f a n s h. ground arith;
  space_extends = λ f a n s e h. ground arith;
  metadata_reads = λ f s n h. ground arith;
  set_len_sets = λ f n s h. refl;
}

linux_FallocateLaws : FallocateLaws fallocate
linux_FallocateLaws = record {
  backed_prefix = λ f s. s.backed;
  length_of = λ f s. s.len;
  fallocate_backs = λ f n s h. (omega arith, omega arith);
}

linux_allocated : (allocate linux 3 4096 disk).0 ≡ ok tt
unfolding allocate allocate_with_state finish_allocation fallocate_sys allocate_space
linux_allocated = refl

allocate_extends_example :
    (4096 ≤ (allocate linux 3 4096 disk).1.len) × (10 ≤ (allocate linux 3 4096 disk).1.len)
unfolding linux_LengthLaws
allocate_extends_example = allocate_extends linux linux_LengthLaws 3 4096 disk linux_allocated

allocate_backs_example :
    (4096 ≤ (allocate linux 3 4096 disk).1.backed) × (4096 ≤ (allocate linux 3 4096 disk).1.len)
unfolding linux_FallocateLaws
allocate_backs_example =
    allocate_backs i64_max fallocate query metadata set_len linux_FallocateLaws 3 4096 disk
      linux_allocated

abbrev constants : Constants
constants = record { f_allocatecontig = 2; f_allocateall = 4; f_peofposmode = pos 3 }

-- A volume with no contiguous extent left: only the second attempt succeeds.
abbrev preallocate : ℕ → Fstore → Disk → Fcntl × Disk
preallocate f request s =
    if request.fst_flags == 4
    then (
      record { result = pos 0; errno = pos 0; fstore = request },
      record s { backed = s.backed + pos_part request.fst_length },
    )
    else (record { result = negsuc 0; errno = pos 28; fstore = request }, s)

macos_PreallocateLaws : PreallocateLaws preallocate query metadata set_len
macos_PreallocateLaws = record {
  length_of = λ f s. s.len;
  keeps_length = λ f r s. ground arith;
  state_reads = λ f s a h. ground arith;
  metadata_reads = λ f s n h. ground arith;
  set_len_sets = λ f n s h. refl;
}

abbrev macos : Sys Disk ℕ
macos = preallocate_sys constants preallocate query metadata set_len

macos_allocated : (allocate macos 3 4096 disk).0 ≡ ok tt
unfolding allocate allocate_with_state finish_allocation preallocate_sys allocate_space_with_state
macos_allocated = refl

abbrev fstat : Fstat
fstat = record {
  result = pos 0;
  errno = pos 0;
  stat = record { st_blocks = pos 8; st_size = pos 10 };
}
