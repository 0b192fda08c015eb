-- ===== src/Prelude/Try.antt =====
-- A result or the reason why there is none, for code that returns errors of its own.
use mathlib.Core.Path.{◌≡◌, refl}
use native.Mathlib.Omega.{arith}
use mathlib.Core.Logic.{◌⊎◌, inl, inr}

pub data Try {ℓ κ} (E : Type ℓ) (T : Type κ) : Type (ℓ ⊔ κ) where
  success : T → Try E T
  refused : E → Try E T

pub Try-cases {ℓ κ} :
    {E : Type ℓ} {T : Type κ} (r : Try E T)
    → ((e : E) × (r ≡ refused e)) ⊎ ((t : T) × (r ≡ success t))
Try-cases (success t) = inr (t, refl)
Try-cases (refused e) = inl (e, refl)

infixl 5 ◌>>=◌
abbrev pub ◌>>=◌ {ℓ κ υ} :
    {E : Type ℓ} {T : Type κ} {U : Type υ} → Try E T → (T → Try E U) → Try E U
success t >>= f = f t
refused e >>= f = refused e

-- A step after another succeeds only after a success.
pub >>=-success {ℓ κ υ} :
    {E : Type ℓ} {T : Type κ} {U : Type υ} (m : Try E T) (f : T → Try E U) (u : U)
    → (m >>= f) ≡ success u
    → (t : T) × (m ≡ success t) × (f t ≡ success u)
>>=-success (success t) f u h = (t, refl, h)
>>=-success (refused e) f u h = absurd (ground arith)
