-- ===== src/Prelude/Fallible.antt =====
-- Code that panics: a panic is `none`.
use mathlib.Core.Path.{◌≡◌, refl}
use mathlib.Core.Bool.{Bool, true, false}
use mathlib.Core.Option.{Option, none, some}
use native.Mathlib.Omega.{arith}

infixl 5 ◌>>=◌
abbrev pub ◌>>=◌ {ℓ κ} : {A : Type ℓ} {B : Type κ} → Option A → (A → Option B) → Option B
none >>= f = none
some a >>= f = f a

abbrev pub pure {ℓ} : {A : Type ℓ} → A → Option A
pure a = some a

-- Code that returns has returned at each step.
pub bind-some {ℓ κ} :
    {A : Type ℓ} {B : Type κ} (m : Option A) (f : A → Option B) (b : B)
    → m >>= f ≡ some b
    → (a : A) × (m ≡ some a) × (f a ≡ some b)
bind-some none f b h = absurd (grind arith)
bind-some (some a) f b h = (a, refl, h)

abbrev pub is_some {ℓ} : {A : Type ℓ} → Option A → Bool
is_some none = false
is_some (some a) = true

-- No option is both empty and filled.
pub none-some {ℓ κ} : {A : Type ℓ} {B : Type κ} (a : A) → Path (Option A) none (some a) → B
none-some a h = absurd (grind arith)
