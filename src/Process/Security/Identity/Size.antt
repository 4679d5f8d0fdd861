-- ===== src/Process/Security/Identity/Size.antt =====
-- The size of a private list: `private_acl_size` of tools/fs2-dev/src/process/windows_security.rs.
use fs2_turbo.Base.{ℕ, ◌+◌, ◌≤◌, Option, none, some, ◌≡◌, ◌↔◌, ok, u32_max, arith}
use fs2_turbo.Process.Security.Identity.{
  checked_add, add_entry_size, entry_sizes, as_u32, private_acl_size, acl_size, fixed_ace_size,
}

-- The size that is meant, on numbers without a bound.
pub exact_size : ℕ → Option ℕ → ℕ
exact_size owner_length (some system_length) =
    acl_size + (fixed_ace_size + owner_length) + (fixed_ace_size + system_length)
exact_size owner_length none = acl_size + (fixed_ace_size + owner_length)

-- The size is given exactly when it fits a `u32`, and it is then the exact sum.
pub private_acl_size_iff :
    (owner_length : ℕ) (system_length : Option ℕ) (n : ℕ)
    → (private_acl_size owner_length system_length ≡ ok n)
      ↔ ((n ≡ exact_size owner_length system_length) × n ≤ u32_max)
unfolding private_acl_size entry_sizes add_entry_size checked_add as_u32 exact_size
private_acl_size_iff o (some s) n = ground arith
private_acl_size_iff o none n = ground arith
