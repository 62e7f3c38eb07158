-- ===== src/Prelude/Result.antt =====
-- `Result<A, E>` and the `?` operator. `out_of_fuel` has no counterpart in the program: it is what
-- a function that recurs on fuel answers when the fuel is used up.
use mathlib.Core.Path.{◌≡◌, refl, subst}
use mathlib.Core.Logic.{◌≢◌}
use mathlib.Core.Bool.{Bool, true, false}
use ferro_jtype.Prelude.Tests.{if◌then◌else◌}

pub data Result {ℓ} (E : Type 0) (A : Type ℓ) : Type ℓ where
  ok : A → Result E A
  err : E → Result E A
  out_of_fuel : Result E A

infixl 5 ◌>>=◌ ◌>>◌
abbrev pub ◌>>=◌ {ℓ κ} :
    {E : Type 0} {A : Type ℓ} {B : Type κ} → Result E A → (A → Result E B) → Result E B
ok a >>= f = f a
err e >>= f = err e
out_of_fuel >>= f = out_of_fuel

abbrev pub ◌>>◌ {ℓ κ} :
    {E : Type 0} {A : Type ℓ} {B : Type κ} → Result E A → Result E B → Result E B
m >> k = m >>= λ _. k

-- A run that kept within its fuel: `P` holds of its value, `Q` of its error.
pub data Ends {ℓ} {E : Type 0} {A : Type ℓ} (P : A → Type 0) (Q : E → Type 0)
    : Result E A → Type ℓ where
  returns : {a : A} → P a → Ends P Q (ok a)
  raises : {e : E} → Q e → Ends P Q (err e)

module _ {ℓ} {E : Type 0} {A : Type ℓ} {P : A → Type 0} {Q : E → Type 0} where
  pub Ends-bind {κ} :
      {B : Type κ} {P' : B → Type 0} {r : Result E A} {f : A → Result E B}
      → Ends P Q r
      → ((a : A) → P a → Ends P' Q (f a))
      → Ends P' Q (r >>= f)
  Ends-bind (returns h) k = k _ h
  Ends-bind (raises h) k = raises h

  pub Ends-map :
      {r : Result E A} {P' : A → Type 0} → Ends P Q r → ((a : A) → P a → P' a) → Ends P' Q r
  Ends-map (returns h) k = returns (k _ h)
  Ends-map (raises h) k = raises h

  pub Ends-if :
      (b : Bool) {x y : Result E A}
      → (b ≡ true → Ends P Q x)
      → (b ≡ false → Ends P Q y)
      → Ends P Q (if b then x else y)
  Ends-if true hx hy = hx refl
  Ends-if false hx hy = hy refl

  pub Ends-ok : {r : Result E A} {a : A} → Ends P Q r → r ≡ ok a → P a
  Ends-ok (returns h) e = subst P (cc) h
  Ends-ok (raises h) e = cc

  pub Ends-err : {r : Result E A} {x : E} → Ends P Q r → r ≡ err x → Q x
  Ends-err (returns h) e = cc
  Ends-err (raises h) e = subst Q (cc) h

  pub Ends-out_of_fuel : {r : Result E A} → Ends P Q r → r ≢ out_of_fuel
  Ends-out_of_fuel (returns h) = cc
  Ends-out_of_fuel (raises h) = cc
