-- ===== src/Windows/Stats/Modern/Hresult.antt =====
-- A Win32 error survives its encoding as an HRESULT.
use fs2_turbo.Base.{
  ℕ, ℤ, zero, suc, pos, ◌/◌, ◌==◌, ◌<◌, ◌≡◌, refl, ◌&&◌, Bool, true, os, as_u32, bit_and, arith,
}
use fs2_turbo.Windows.Stats.Modern.{hresult_from_win32, io_error_from_hresult}

-- Every value below a bound, by evaluation.
every_below : ℕ → (ℕ → Bool) → Bool
every_below zero p = true
every_below (suc n) p = p n && every_below n p

every_below-holds : (n x : ℕ) (p : ℕ → Bool) → every_below n p ≡ true → x < n → p x ≡ true
unfolding every_below
every_below-holds zero x p h lt = absurd (omega arith)
every_below-holds (suc n) x p h lt = ground (arith, every_below-holds n x p)

-- The bits that the decoder looks at.
reads_back : ℕ → Bool
unfolding hresult_from_win32
reads_back e =
    let encoded : ℕ = as_u32 (hresult_from_win32 e) in
    bit_and encoded 0x1000_0000 == 0
    && (bit_and (encoded / 0x1_0000) 0x1fff == 7 && bit_and encoded 0xffff == e)

reads_back_table : every_below 0x1_0000 reads_back ≡ true
unfolding every_below reads_back
reads_back_table = refl

-- A Win32 error below 65536 that is encoded as an HRESULT is decoded to the operating-system error
-- of the same number, whatever the translation of NTSTATUS codes does.
pub io_error-hresult_from_win32 :
    (nt : ℤ → ℕ) (e : ℕ)
    → e < 0x1_0000
    → io_error_from_hresult nt (hresult_from_win32 e) ≡ os (pos e)
unfolding io_error_from_hresult
io_error-hresult_from_win32 nt e h =
    let table = every_below-holds 0x1_0000 e reads_back reads_back_table h in
    unfold reads_back in ground arith
