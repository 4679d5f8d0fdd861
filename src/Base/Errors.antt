-- ===== src/Base/Errors.antt =====
-- `std::io::Error` and `std::io::Result`, as far as the crate builds and inspects them.
use Prim.Native.String.{String}
use mathlib.Core.Path.{◌≡◌, refl}
use mathlib.Core.Logic.{◌⊎◌, inl, inr}
use mathlib.Core.Bool.{Bool, true, false}
use mathlib.Core.Option.{Option, none, some}
use fs2_turbo.Base.Int.{ℤ}

pub data ErrorKind : Type 0 where
  invalid_data invalid_input unsupported not_found timed_out permission_denied other : ErrorKind

-- `os` is `Error::from_raw_os_error`, `custom` is `Error::new` with a text, and `wrapped` is
-- `Error::new` with a text that ends in the rendering of another error. `fault` is no error of the
-- crate: it marks a panic or an access that Rust leaves undefined, and theorems show it is not met.
pub data Error : Type 0 where
  os : ℤ → Error
  custom : ErrorKind → String → Error
  wrapped : ErrorKind → String → Error → Error
  fault : Error

-- `Error::raw_os_error`.
abbrev pub raw_os_error : Error → Option ℤ
raw_os_error (os c) = some c
raw_os_error (custom k m) = none
raw_os_error (wrapped k m e) = none
raw_os_error fault = none

pub data Result {ℓ} (A : Type ℓ) : Type ℓ where
  ok : A → Result A
  err : Error → Result A

pub Result-cases {ℓ} :
    {A : Type ℓ} (r : Result A) → ((a : A) × (r ≡ ok a)) ⊎ ((e : Error) × (r ≡ err e))
Result-cases (ok a) = inl (a, refl)
Result-cases (err e) = inr (e, refl)

abbrev pub ok_or {ℓ} : {A : Type ℓ} → Option A → Error → Result A
ok_or none e = err e
ok_or (some a) e = ok a

-- The question mark: a chain that stops at the first error.
infixl 5 ◌>>=◌ ◌>>◌
abbrev pub ◌>>=◌ {ℓ κ} : {A : Type ℓ} {B : Type κ} → Result A → (A → Result B) → Result B
ok a >>= f = f a
err e >>= f = err e

abbrev pub ◌>>◌ {ℓ κ} : {A : Type ℓ} {B : Type κ} → Result A → Result B → Result B
m >> k = m >>= λ _. k

abbrev pub map_ok {ℓ κ} : {A : Type ℓ} {B : Type κ} → (A → B) → Result A → Result B
map_ok f (ok a) = ok (f a)
map_ok f (err e) = err e

-- An early `return Err(e)` under a test.
abbrev pub fail_if : Bool → Error → Result (Unit {0})
fail_if true e = err e
fail_if false e = ok tt

-- A chain that succeeds has gone through both of its parts.
pub bind-ok {ℓ κ} :
    {A : Type ℓ} {B : Type κ} (m : Result A) (f : A → Result B) (b : B)
    → (m >>= f) ≡ ok b
    → (a : A) × (m ≡ ok a) × (f a ≡ ok b)
bind-ok (ok a) f b h = (a, refl, h)
bind-ok (err e) f b h = absurd cc

-- What holds at the end of such a chain, part by part.
pub bind-reaches {ℓ κ μ} :
    {A : Type ℓ} {B : Type κ} {P : B → Type μ} (m : Result A) (f : A → Result B)
    → ((a : A) → m ≡ ok a → (b : B) → f a ≡ ok b → P b)
    → (b : B) → (m >>= f) ≡ ok b
    → P b
bind-reaches (ok a) f all b h = all a refl b h
bind-reaches (err e) f all b h = absurd cc
