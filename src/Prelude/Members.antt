-- ===== src/Prelude/Members.antt =====
-- Membership of lists, and ascending lists of numbers.
use Prim.Native.Nat.{ℕ, zero, suc, ◌<◌}
use mathlib.Core.Path.{◌≡◌, refl, sym, subst}
use mathlib.Core.Logic.{◌↔◌, ◌⊎◌, inl, inr}
use mathlib.Core.List.{List, [], ◌∷◌, ◌++◌}
use mathlib.Core.Option.{some}
use native.Mathlib.Omega.{arith}
use ferro_jtype.Prelude.Lists.{All, get_elem?}

abbrev pub IsIn : {A : Type 0} → A → List A → Type 0
IsIn x [] = ⊥
IsIn x (y ∷ ys) = (x ≡ y) ⊎ IsIn x ys

-- No element is twice in the list.
abbrev pub IsDistinct : {A : Type 0} → List A → Type 0
IsDistinct [] = Unit
IsDistinct (x ∷ xs) = ¬ (IsIn x xs) × IsDistinct xs

module _ {A : Type 0} where
  pub IsIn-append : (x : A) (xs ys : List A) → IsIn x (xs ++ ys) ↔ (IsIn x xs ⊎ IsIn x ys)
  IsIn-append x [] ys = ground arith
  IsIn-append x (z ∷ zs) ys = ground (arith, IsIn-append x zs ys)

  pub append-IsDistinct :
      (e : A) (es : List A) → ¬ (IsIn e es) → IsDistinct es → IsDistinct (es ++ e ∷ [])
  append-IsDistinct e [] new d = (λ m. m, tt)
  append-IsDistinct e (x ∷ es) new (x_new, d) = (
    λ m. elim ((IsIn-append x es (e ∷ [])).0 m) [
      | inl there ↦ x_new there
      | inr (inl is_e) ↦ new (inl (sym is_e))
      | inr (inr nowhere) ↦ nowhere
    ],
    append-IsDistinct e es (λ m. new (inr m)) d,
  )

  pub IsIn-All {κ} : (P : A → Type κ) (x : A) (xs : List A) → All P xs → IsIn x xs → P x
  IsIn-All P x [] all m = absurd m
  IsIn-All P x (y ∷ ys) (p, ps) (inl e) = subst P (sym e) p
  IsIn-All P x (y ∷ ys) (p, ps) (inr m) = IsIn-All P x ys ps m

  pub All-IsIn {κ} : (P : A → Type κ) (xs : List A) → ((x : A) → IsIn x xs → P x) → All P xs
  All-IsIn P [] h = tt
  All-IsIn P (x ∷ xs) h = (h x (inl refl), All-IsIn P xs (λ y m. h y (inr m)))

  pub get_elem?-IsIn : (xs : List A) (i : ℕ) (x : A) → get_elem? xs i ≡ some x → IsIn x xs
  get_elem?-IsIn (y ∷ ys) zero x e = inl (cc)
  get_elem?-IsIn (y ∷ ys) (suc i) x e = inr (get_elem?-IsIn ys i x e)
  get_elem?-IsIn [] i x e = cc

abbrev pub IsAscending : List ℕ → Type 0
IsAscending [] = Unit
IsAscending (n ∷ ns) = All (λ m. n < m) ns × IsAscending ns

pub All-lt_trans : (a b : ℕ) (ms : List ℕ) → a < b → All (λ m. b < m) ms → All (λ m. a < m) ms
All-lt_trans a b [] h all = tt
All-lt_trans a b (m ∷ ms) h (p, all) = (omega arith, All-lt_trans a b ms h all)
