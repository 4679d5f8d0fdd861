-- ===== src/Base/Io/Chains.antt =====
-- Chains of calls that succeed.
use mathlib.Core.Path.{◌≡◌, refl}
use fs2_turbo.Base.Errors.{Result, ok, err}
use fs2_turbo.Base.Io.{Io, ◌>>=◌}

-- A chain that succeeds has gone through both of its parts.
pub bind-ok :
    {S A B : Type 0} (m : Io S A) (f : A → Io S B) (s s' : S) (b : B)
    → (m >>= f) s ≡ (ok b, s')
    → (a : A) × (s₁ : S) × (m s ≡ (ok a, s₁)) × (f a s₁ ≡ (ok b, s'))
bind-ok {S = S} {A = A} {B = B} m f s s' b h = go (m s).0 (m s).1 refl h
  where
    go :
        (r : Result A) (s₁ : S)
        → m s ≡ (r, s₁)
        → (elim r as (λ _. Result B × S) [ ok a ↦ f a s₁ | err e ↦ (err e, s₁) ]) ≡ (ok b, s')
        → (a : A) × (s₁ : S) × (m s ≡ (ok a, s₁)) × (f a s₁ ≡ (ok b, s'))
    go (ok a) s₁ e h = (a, s₁, e, h)
    go (err e) s₁ e' h = absurd cc

-- Every success of a chain of calls is of this kind.
abbrev pub EndsIn : {S A : Type 0} → Io S A → (A → S → Type 0) → Type 0
EndsIn {S = S} {A = A} m P = (s s' : S) (a : A) → m s ≡ (ok a, s') → P a s'

pub bind-EndsIn :
    {S A B : Type 0} (m : Io S A) (f : A → Io S B) (P : B → S → Type 0)
    → ((a : A) → EndsIn (f a) P)
    → EndsIn (m >>= f) P
bind-EndsIn m f P all s s' b h = let (a, s₁, e, later) = bind-ok m f s s' b h in all a s₁ s' b later
