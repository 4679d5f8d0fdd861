-- ===== src/Base/Io.antt =====
-- Code that talks to the operating system: it passes the system's state on, and fails by a value.
pub mod Chains
use fs2_turbo.Base.Errors.{Result, ok, err}

abbrev pub Io {ℓ κ} : Type ℓ → Type κ → Type (ℓ ⊔ κ)
Io S A = S → Result A × S

module _ {ℓ} {S : Type ℓ} where
  abbrev pub lift {κ} : {A : Type κ} → Result A → Io S A
  lift r s = (r, s)

  infixl 5 ◌>>=◌ ◌>>◌
  abbrev pub ◌>>=◌ {κ μ} : {A : Type κ} {B : Type μ} → Io S A → (A → Io S B) → Io S B
  ◌>>=◌ m f s = let (r, s') = m s in elim r [ ok a ↦ f a s' | err e ↦ (err e, s') ]

  abbrev pub ◌>>◌ {κ μ} : {A : Type κ} {B : Type μ} → Io S A → Io S B → Io S B
  m >> k = m >>= λ _. k
