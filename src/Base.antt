-- ===== src/Base.antt =====
-- What the modules share: names of the libraries, tests on numbers, lists over the native numbers,
-- signed integers, machine words, and the two error monads that stand for `std::io::Result`.
mod Tests
mod Lists
mod Int
mod Words
mod Bits
mod Errors
pub mod Io
pub mod Buffer
pub mod Text
pub use Tests.*
unfoldable pub use Lists.*
pub use Int.*
pub use Words.*
pub use Bits.*
pub use Errors.*
pub use Prim.Native.Nat.{ℕ, zero, suc, ◌+◌, ◌-◌, ◌*◌, ◌/◌, ◌%◌, ◌^◌, ◌≤◌, ◌<◌, max}
pub use Prim.Native.Nat.{bit_and, bit_or}
pub use Prim.Native.String.{String}
pub use mathlib.Core.Path.{◌≡◌, refl, sym, ap, ◌∙◌}
pub use mathlib.Core.Logic.{◌≢◌, ◌↔◌, ◌⊎◌, inl, inr}
pub use mathlib.Core.Bool.{Bool, true, false, not, ◌&&◌, ◌||◌}
pub use mathlib.Core.Option.{Option, none, some}
pub use mathlib.Core.List.{List, [], ◌∷◌, ◌++◌, map, append_assoc, map-append}
pub use native.Mathlib.Omega.{arith}
