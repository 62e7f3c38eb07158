-- ===== src/Types/Inferred/Join/Laws.antt =====
-- The join of src/types/inference.rs as an operation: it is commutative, and `Bottom` is neutral.
use ferro_jtype.Prelude.{
  ℕ, ◌≡◌, inl, inr, refl, sym, ◌∙◌, ap, Bool, true, false, ◌||◌, List, [], ◌∷◌, ◌++◌, Option, none,
  some, length, any, ltb, as_bool-eq-true, as_bool_yes, as_bool_no, arith, length-append,
  Bool-cases,
}
use ferro_jtype.Prelude.Bits
use ferro_jtype.Prelude.Order.{sort_by}
use ferro_jtype.Prelude.Order.Sort.{sort_by-append_comm}
use ferro_jtype.Hierarchy.{TypeHierarchy}
use ferro_jtype.Types.ClassName.{ClassName, ClassName-discrete}
use ferro_jtype.Types.Integral.{IntegralTypeSet, mask, union}
use ferro_jtype.Types.Inferred.{
  ReferenceType, null, unknown, InferredType, bottom, int, integral, float, long, double, reference,
  uninitialized, uninitialized_this, return_address, alternatives, conflict,
}
use ferro_jtype.Types.Inferred.Order.{compare_references}
use ferro_jtype.Types.Inferred.Order.Laws.{compare_references-IsTotalOrder}
use ferro_jtype.Types.Inferred.Join.{
  is_same_class, is_same_reference, without_null, drop_null, join_reference_alternatives,
  join_other, join_integral, join_choice, join_with_hierarchy, integral_types,
  reference_alternatives, from_integral_types,
}

or_comm : (a b : Bool) → (a || b) ≡ (b || a)
or_comm true true = refl
or_comm true false = refl
or_comm false true = refl
or_comm false false = refl

any-append :
    (p : ReferenceType → Bool) (xs ys : List ReferenceType)
    → any p (xs ++ ys) ≡ (any p xs || any p ys)
any-append p [] ys = refl
any-append p (x ∷ xs) ys = ground (arith, any-append p xs ys)

any-append_comm :
    (p : ReferenceType → Bool) (xs ys : List ReferenceType) → any p (xs ++ ys) ≡ any p (ys ++ xs)
any-append_comm p xs ys =
    any-append p xs ys ∙ or_comm (any p xs) (any p ys) ∙ sym (any-append p ys xs)

without_null-append :
    (xs ys : List ReferenceType) → without_null (xs ++ ys) ≡ without_null xs ++ without_null ys
without_null-append [] ys = refl
without_null-append (null ∷ xs) ys = without_null-append xs ys
without_null-append (x ∷ xs) ys = ap (λ l. x ∷ l) (without_null-append xs ys)

sorted-append_comm :
    (xs ys : List ReferenceType)
    → sort_by compare_references (drop_null (xs ++ ys))
      ≡ sort_by compare_references (drop_null (ys ++ xs))
sorted-append_comm xs ys =
    let same_length : length (xs ++ ys) ≡ length (ys ++ xs) =
      omega (arith, length-append xs ys, length-append ys xs) in
    elim (Bool-cases (ltb 1 (length (xs ++ ys)))) [
      | inl e ↦
          let e' : ltb 1 (length (ys ++ xs)) ≡ true = rw (← same_length) e in
          rw (e, e', without_null-append xs ys, without_null-append ys xs)
            (sort_by-append_comm compare_references compare_references-IsTotalOrder
              (without_null xs) (without_null ys))
      | inr e ↦
          let e' : ltb 1 (length (ys ++ xs)) ≡ false = rw (← same_length) e in
          rw (e, e') (sort_by-append_comm compare_references compare_references-IsTotalOrder xs ys)
    ]

pub join_reference_alternatives_comm :
    (h : Option TypeHierarchy) (xs ys : List ReferenceType)
    → join_reference_alternatives h xs ys ≡ join_reference_alternatives h ys xs
unfolding join_reference_alternatives
join_reference_alternatives_comm h xs ys =
    rw (any-append_comm (is_same_reference unknown) xs ys, sorted-append_comm xs ys)

is_same_class_comm : (c d : ClassName) → is_same_class c d ≡ is_same_class d c
is_same_class_comm c d = elim (ClassName-discrete c d) [
  | yes e ↦
      as_bool_yes (ClassName-discrete c d) e ∙ sym (as_bool_yes (ClassName-discrete d c) (sym e))
  | no n ↦
      as_bool_no (ClassName-discrete c d) n
      ∙ sym (as_bool_no (ClassName-discrete d c) (λ e. n (sym e)))
]

join_other_uninitialized :
    (c d : ClassName) (m n : ℕ)
    → join_other (uninitialized c m) (uninitialized d n)
      ≡ join_other (uninitialized d n) (uninitialized c m)
unfolding join_other
join_other_uninitialized c d m n =
    ground (arith, is_same_class_comm c d, as_bool-eq-true (ClassName-discrete c d))

join_other_uninitialized_this :
    (c d : ClassName)
    → join_other (uninitialized_this c) (uninitialized_this d)
      ≡ join_other (uninitialized_this d) (uninitialized_this c)
unfolding join_other
join_other_uninitialized_this c d =
    ground (arith, is_same_class_comm c d, as_bool-eq-true (ClassName-discrete c d))

pub join_other_comm : (t u : InferredType) → join_other t u ≡ join_other u t
unfolding join_other
join_other_comm bottom bottom = refl
join_other_comm bottom _ = refl
join_other_comm int bottom = refl
join_other_comm int _ = refl
join_other_comm (integral s) bottom = refl
join_other_comm (integral s) _ = refl
join_other_comm float bottom = refl
join_other_comm float _ = refl
join_other_comm long bottom = refl
join_other_comm long _ = refl
join_other_comm double bottom = refl
join_other_comm double _ = refl
join_other_comm (reference r) bottom = refl
join_other_comm (reference r) _ = refl
join_other_comm return_address bottom = refl
join_other_comm return_address _ = refl
join_other_comm (alternatives ts) bottom = refl
join_other_comm (alternatives ts) _ = refl
join_other_comm conflict bottom = refl
join_other_comm conflict _ = refl
join_other_comm (uninitialized c m) (uninitialized d n) = join_other_uninitialized c d m n
join_other_comm (uninitialized c m) bottom = refl
join_other_comm (uninitialized c m) _ = refl
join_other_comm (uninitialized_this c) (uninitialized_this d) = join_other_uninitialized_this c d
join_other_comm (uninitialized_this c) bottom = refl
join_other_comm (uninitialized_this c) _ = refl

union_comm : (s t : IntegralTypeSet) → union s t ≡ union t s
unfolding union
union_comm (mask a) (mask b) = ap mask (Bits.bit_or_comm a b)

join_integral_comm :
    (s t : Option IntegralTypeSet) (x y : InferredType)
    → x ≡ y
    → join_integral s t x ≡ join_integral t s y
join_integral_comm (some s) (some t) x y e = ap from_integral_types (union_comm s t)
join_integral_comm (some s) none x y e = e
join_integral_comm none (some t) x y e = e
join_integral_comm none none x y e = e

join_choice_comm :
    (h : Option TypeHierarchy) (xs ys : Option (List ReferenceType)) (x y : InferredType)
    → x ≡ y
    → join_choice h xs ys x ≡ join_choice h ys xs y
join_choice_comm h (some xs) (some ys) x y e = join_reference_alternatives_comm h xs ys
join_choice_comm h (some xs) none x y e = e
join_choice_comm h none (some ys) x y e = e
join_choice_comm h none none x y e = e

-- The join does not depend on the order of its arguments, with a hierarchy or with none: also the
-- order of the alternatives is the same.
pub join_with_hierarchy_comm :
    (h : Option TypeHierarchy) (t u : InferredType)
    → join_with_hierarchy h t u ≡ join_with_hierarchy h u t
unfolding join_with_hierarchy
join_with_hierarchy_comm h t u =
    join_choice_comm h (reference_alternatives t) (reference_alternatives u) _ _
      (join_integral_comm (integral_types t) (integral_types u) _ _ (join_other_comm t u))

bottom-join : (h : Option TypeHierarchy) (t : InferredType) → join_with_hierarchy h bottom t ≡ t
unfolding join_with_hierarchy join_other
bottom-join h bottom = refl
bottom-join h t = refl

-- A position that no path has reached yet takes the type of the first one that does.
pub join_with_hierarchy-bottom :
    (h : Option TypeHierarchy) (t : InferredType)
    → (join_with_hierarchy h bottom t ≡ t) × (join_with_hierarchy h t bottom ≡ t)
join_with_hierarchy-bottom h t =
    (bottom-join h t, join_with_hierarchy_comm h t bottom ∙ bottom-join h t)
