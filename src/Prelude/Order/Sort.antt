-- ===== src/Prelude/Order/Sort.antt =====
-- Under a total order a sorted list does not depend on the order of its elements.
use Prim.Native.Nat.{ℕ, Ordering, lt, eq}
use mathlib.Core.Path.{◌≡◌, refl, sym, ◌∙◌, ap}
use mathlib.Core.Bool.{true, false}
use mathlib.Core.List.{List, [], ◌∷◌, ◌++◌, append-nil}
use native.Mathlib.Omega.{arith}
use ferro_jtype.Prelude.Tests.{if◌then◌else◌}
use ferro_jtype.Prelude.Order.{reverse, is_gt, compare_bytes, insert, sort_by}

-- A comparison that is a total order and tells unequal values apart.
pub record IsTotalOrder {ℓ} {A : Type ℓ} (cmp : A → A → Ordering) : Type ℓ where
  pub eq_of : (x y : A) → cmp x y ≡ eq → x ≡ y
  pub flip : (x y : A) → cmp y x ≡ reverse (cmp x y)
  pub trans : (x y z : A) → cmp x y ≡ lt → cmp y z ≡ lt → cmp x z ≡ lt

compare_bytes-eq_of : (x y : List ℕ) → compare_bytes x y ≡ eq → x ≡ y
unfolding compare_bytes
compare_bytes-eq_of [] [] h = refl
compare_bytes-eq_of [] (b ∷ y) h = cc
compare_bytes-eq_of (a ∷ x) [] h = cc
compare_bytes-eq_of (a ∷ x) (b ∷ y) h = ground (arith, compare_bytes-eq_of x y)

compare_bytes_flip : (x y : List ℕ) → compare_bytes y x ≡ reverse (compare_bytes x y)
unfolding compare_bytes
compare_bytes_flip [] [] = refl
compare_bytes_flip [] (b ∷ y) = refl
compare_bytes_flip (a ∷ x) [] = refl
compare_bytes_flip (a ∷ x) (b ∷ y) = ground (arith, compare_bytes_flip x y)

compare_bytes_trans :
    (x y z : List ℕ) → compare_bytes x y ≡ lt → compare_bytes y z ≡ lt → compare_bytes x z ≡ lt
unfolding compare_bytes
compare_bytes_trans [] [] z h k = cc
compare_bytes_trans [] (b ∷ y) [] h k = cc
compare_bytes_trans [] (b ∷ y) (c ∷ z) h k = refl
compare_bytes_trans (a ∷ x) [] z h k = cc
compare_bytes_trans (a ∷ x) (b ∷ y) [] h k = cc
compare_bytes_trans (a ∷ x) (b ∷ y) (c ∷ z) h k = ground (arith, compare_bytes_trans x y z)

pub compare_bytes-IsTotalOrder : IsTotalOrder compare_bytes
compare_bytes-IsTotalOrder = record {
  eq_of = compare_bytes-eq_of;
  flip = compare_bytes_flip;
  trans = compare_bytes_trans;
}

-- A comparison by an injective code.
pub IsTotalOrder-code {ℓ} :
    {A : Type ℓ} (cmp : A → A → Ordering) (code : A → List ℕ)
    → ((x y : A) → cmp x y ≡ compare_bytes (code x) (code y))
    → ((x y : A) → code x ≡ code y → x ≡ y)
    → IsTotalOrder cmp
IsTotalOrder-code cmp code by_code injective = record {
  eq_of = λ x y h. injective x y (compare_bytes-eq_of (code x) (code y) (sym (by_code x y) ∙ h));
  flip = λ x y. rw (by_code y x, by_code x y) (compare_bytes_flip (code x) (code y));
  trans = λ x y z h k.
      by_code x z
      ∙ compare_bytes_trans (code x) (code y) (code z) (sym (by_code x y) ∙ h)
          (sym (by_code y z) ∙ k);
}

module _ {ℓ} {A : Type ℓ} (cmp : A → A → Ordering) (order : IsTotalOrder cmp) where
  le_trans_gt :
      (x y z : A)
      → is_gt (cmp x z) ≡ false
      → is_gt (cmp y z) ≡ true
      → (is_gt (cmp y x) ≡ true) × (is_gt (cmp x y) ≡ false)
  le_trans_gt x y z h k =
      ground (arith, order.flip y z, order.flip x y, order.eq_of x z, order.trans x z y)

  swap_two :
      (x y : A) (l : List A)
      → (if is_gt (cmp x y) then y ∷ x ∷ l else x ∷ y ∷ l)
        ≡ (if is_gt (cmp y x) then x ∷ y ∷ l else y ∷ x ∷ l)
  swap_two x y l = ground (arith, order.flip x y, order.eq_of x y)

  insert_comm :
      (x y : A) (l : List A) → insert cmp x (insert cmp y l) ≡ insert cmp y (insert cmp x l)
  unfolding insert
  insert_comm x y [] = swap_two x y []
  insert_comm x y (z ∷ l) =
      ground (arith, swap_two x y (z ∷ l), le_trans_gt x y z, le_trans_gt y x z, insert_comm x y l)

  sort_by-insert :
      (xs : List A) (y : A) (ys : List A)
      → sort_by cmp (xs ++ y ∷ ys) ≡ insert cmp y (sort_by cmp (xs ++ ys))
  unfolding sort_by
  sort_by-insert [] y ys = refl
  sort_by-insert (x ∷ xs) y ys =
      ap (insert cmp x) (sort_by-insert xs y ys) ∙ insert_comm x y (sort_by cmp (xs ++ ys))

  pub sort_by-append_comm : (xs ys : List A) → sort_by cmp (xs ++ ys) ≡ sort_by cmp (ys ++ xs)
  unfolding sort_by
  sort_by-append_comm xs [] = rw append-nil
  sort_by-append_comm xs (y ∷ ys) =
      sort_by-insert xs y ys ∙ ap (insert cmp y) (sort_by-append_comm xs ys)
