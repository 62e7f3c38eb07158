-- ===== src/Prelude/Order.antt =====
-- Comparisons into `Ordering`, and `sort_by`, a stable sort, as insertion sort.
pub mod Sort
use Prim.Native.Nat.{ℕ, compare, Ordering, lt, eq, gt}
use mathlib.Core.Bool.{Bool, true, false}
use mathlib.Core.List.{List, [], ◌∷◌}
use ferro_jtype.Prelude.Tests.{if◌then◌else◌}

-- `Ordering::then`, and `then_with` of a value.
abbrev pub and_then : Ordering → Ordering → Ordering
and_then lt o = lt
and_then eq o = o
and_then gt o = gt

abbrev pub reverse : Ordering → Ordering
reverse lt = gt
reverse eq = eq
reverse gt = lt

abbrev pub is_gt : Ordering → Bool
is_gt gt = true
is_gt _ = false

-- `Ord` of strings, which is that of their bytes.
unfoldable pub compare_bytes : List ℕ → List ℕ → Ordering
compare_bytes [] [] = eq
compare_bytes [] (_ ∷ _) = lt
compare_bytes (_ ∷ _) [] = gt
compare_bytes (a ∷ as') (b ∷ bs) = and_then (compare a b) (compare_bytes as' bs)

module _ {ℓ} {A : Type ℓ} (cmp : A → A → Ordering) where
  unfoldable pub insert : A → List A → List A
  insert x [] = x ∷ []
  insert x (y ∷ l) = if is_gt (cmp x y) then y ∷ insert x l else x ∷ y ∷ l

  unfoldable pub sort_by : List A → List A
  unfolding insert
  sort_by [] = []
  sort_by (x ∷ xs) = insert x (sort_by xs)
