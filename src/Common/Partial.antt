-- ===== src/Common/Partial.antt =====
-- Chains of steps that may not end within their fuel: `none` is a step whose fuel is used up.
use mathlib.Core.Option.{Option, none, some}

infixl 5 ◌>>=◌
abbrev pub ◌>>=◌ {ℓ κ} : {A : Type ℓ} {B : Type κ} → Option A → (A → Option B) → Option B
none >>= f = none
some a >>= f = f a
