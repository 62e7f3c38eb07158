-- ===== src/Prelude/Chain.antt =====
-- Chains of operations that answer an `Option`: the `?` operator, and a panic of the source.
use mathlib.Core.Option.{Option, none, some}

infixl 5 ◌>>=◌
abbrev pub ◌>>=◌ {ℓ κ} : {A : Type ℓ} {B : Type κ} → Option A → (A → Option B) → Option B
none >>= f = none
some a >>= f = f a
