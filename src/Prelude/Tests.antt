-- ===== src/Prelude/Tests.antt =====
-- Boolean tests on the native numbers, the conditional, and decided equality.
use Prim.Native.Nat.{ℕ, ◌≤◌, ◌<◌, compare, Ordering}
use mathlib.Core.Path.{◌≡◌, refl}
use mathlib.Core.Logic.{◌↔◌, ◌⊎◌, inl, inr}
use mathlib.Core.Bool.{Bool, true, false}
use mathlib.Core.Option.{Option, none, some}
use native.Mathlib.Omega.{arith}

abbrev pub ltb : ℕ → ℕ → Bool
ltb a b = elim (compare a b) [ Ordering.lt ↦ true | _ ↦ false ]

abbrev pub leb : ℕ → ℕ → Bool
leb a b = elim (compare a b) [ Ordering.gt ↦ false | _ ↦ true ]

infix 50 ◌==◌
abbrev pub ◌==◌ : ℕ → ℕ → Bool
a == b = elim (compare a b) [ Ordering.eq ↦ true | _ ↦ false ]

infix 1 if◌then◌else◌
abbrev pub if◌then◌else◌ {ℓ} : {A : Type ℓ} → Bool → A → A → A
if true then x else y = x
if false then x else y = y

-- `omega` reads a test through such lemmas.
pub ltb→lt : (a b : ℕ) → ltb a b ≡ true → a < b
ltb→lt a b h = ground arith

pub lt→ltb : (a b : ℕ) → a < b → ltb a b ≡ true
lt→ltb a b h = ground arith

pub leb→le : (a b : ℕ) → leb a b ≡ true → a ≤ b
leb→le a b h = ground arith

pub ==_iff : (a b : ℕ) → ((a == b) ≡ true) ↔ (a ≡ b)
==_iff a b = ground arith

-- To split on a computed value and keep the equation.
pub Bool-cases : (b : Bool) → (b ≡ true) ⊎ (b ≡ false)
Bool-cases true = inl refl
Bool-cases false = inr refl

pub Option-cases {ℓ} : {A : Type ℓ} (o : Option A) → (o ≡ none) ⊎ ((a : A) × (o ≡ some a))
Option-cases none = inl refl
Option-cases (some a) = inr (a, refl)

-- The derived `==` of a type, from its decision.
abbrev pub as_bool {ℓ} : {A : Type ℓ} → Dec A → Bool
as_bool (yes _) = true
as_bool (no _) = false

pub as_bool-eq-true {ℓ} : {A : Type ℓ} (d : Dec A) → as_bool d ≡ true → A
as_bool-eq-true (yes h) e = h
as_bool-eq-true (no n) e = cc

pub as_bool_yes {ℓ} : {A : Type ℓ} (d : Dec A) → A → as_bool d ≡ true
as_bool_yes (yes _) h = refl
as_bool_yes (no n) h = absurd (n h)

pub as_bool_no {ℓ} : {A : Type ℓ} (d : Dec A) → ¬ A → as_bool d ≡ false
as_bool_no (yes a) h = absurd (h a)
as_bool_no (no n) h = refl
