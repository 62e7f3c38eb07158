-- ===== src/Types/Inferred/Meaning/Locals.antt =====
-- `join_local_types` of src/types/inference.rs, the merge of two types of a local: no value is lost.
use ferro_jtype.Prelude.{
  ◌≡◌, refl, subst, Bool, true, false, ◌⊎◌, inl, inr, List, [], ◌∷◌, ◌++◌, Option, any,
  if◌then◌else◌, Bool-cases, as_bool-eq-true,
}
use ferro_jtype.Prelude.Order.{insert, sort_by, is_gt}
use ferro_jtype.Hierarchy.{TypeHierarchy}
use ferro_jtype.Types.Inferred.{
  InferredType, alternatives, conflict, InferredTypes, nil, cons, of_list, InferredType-discrete,
}
use ferro_jtype.Types.Inferred.Order.{compare_inferred_types}
use ferro_jtype.Types.Inferred.Join.{
  is_same_type, is_conflict, append_alternatives, append_each, join_with_hierarchy,
  join_local_types,
}
use ferro_jtype.Types.Inferred.Meaning.{Value, Describes, DescribesOne}
use ferro_jtype.Types.Inferred.Meaning.Join.{join_with_hierarchy-DescribesIn}
use ferro_jtype.Types.Inferred.Meaning.Reference.{IsSoundIn, IsSoundIn-self}

module _ (h : Option TypeHierarchy) (v : Value) where
  abbrev DescribesSome : List InferredType → Type 0
  DescribesSome [] = ⊥
  DescribesSome (t ∷ ts) = Describes h v t ⊎ DescribesSome ts

  Some-append :
      (xs : List InferredType) (t : InferredType)
      → DescribesSome xs ⊎ Describes h v t
      → DescribesSome (xs ++ t ∷ [])
  Some-append [] t (inl hx) = absurd hx
  Some-append [] t (inr ht) = inl ht
  Some-append (x ∷ xs) t (inl (inl hx)) = inl hx
  Some-append (x ∷ xs) t (inl (inr hx)) = inr (Some-append xs t (inl hx))
  Some-append (x ∷ xs) t (inr ht) = inr (Some-append xs t (inr ht))

  -- A type that is already there
  Some-any :
      (t : InferredType) (l : List InferredType)
      → any (is_same_type t) l ≡ true
      → Describes h v t
      → DescribesSome l
  Some-any t [] e ht = cc
  Some-any t (u ∷ l) e ht = elim (Bool-cases (is_same_type t u)) [
    | inl same ↦ inl (subst (Describes h v) (as_bool-eq-true (InferredType-discrete t u) same) ht)
    | inr differ ↦
        let later : any (is_same_type t) l ≡ true = rw differ at e in inr (Some-any t l later ht)
  ]

  Some-added :
      (l : List InferredType) (t : InferredType)
      → DescribesSome l ⊎ Describes h v t
      → DescribesSome (if any (is_same_type t) l then l else l ++ t ∷ [])
  Some-added l t hv = by_test (any (is_same_type t) l) (Some-any t l) (Some-append l t hv) hv
    where
      by_test :
          (b : Bool)
          → (b ≡ true → Describes h v t → DescribesSome l)
          → DescribesSome (l ++ t ∷ [])
          → DescribesSome l ⊎ Describes h v t
          → DescribesSome (if b then l else l ++ t ∷ [])
      by_test true there added (inl hl) = hl
      by_test true there added (inr ht) = there refl ht
      by_test false there added hv = added

  mutual
    unfolding append_alternatives

    Some-append_alternatives :
        (l : List InferredType) (t : InferredType)
        → DescribesSome l ⊎ Describes h v t
        → DescribesSome (append_alternatives l t)
    Some-append_alternatives l (alternatives ts) hv = Some-append_each l ts hv
    Some-append_alternatives l t hv = Some-added l t hv

    Some-append_each :
        (l : List InferredType) (ts : InferredTypes)
        → DescribesSome l ⊎ DescribesOne h v ts
        → DescribesSome (append_each l ts)
    Some-append_each l nil (inl hl) = hl
    Some-append_each l nil (inr hs) = absurd hs
    Some-append_each l (cons t ts) (inl hl) =
        Some-append_each (append_alternatives l t) ts (inl (Some-append_alternatives l t (inl hl)))
    Some-append_each l (cons t ts) (inr (inl ht)) =
        Some-append_each (append_alternatives l t) ts (inl (Some-append_alternatives l t (inr ht)))
    Some-append_each l (cons t ts) (inr (inr hs)) =
        Some-append_each (append_alternatives l t) ts (inr hs)

  Some-insert :
      (x : InferredType) (l : List InferredType)
      → DescribesSome (x ∷ l)
      → DescribesSome (insert compare_inferred_types x l)
  unfolding insert
  Some-insert x [] hv = hv
  Some-insert x (y ∷ l) hv = by_order (is_gt (compare_inferred_types x y)) (Some-insert x l) hv
    where
      by_order :
          (b : Bool)
          → (DescribesSome (x ∷ l) → DescribesSome (insert compare_inferred_types x l))
          → DescribesSome (x ∷ y ∷ l)
          → DescribesSome (if b then y ∷ insert compare_inferred_types x l else x ∷ y ∷ l)
      by_order false later hv = hv
      by_order true later (inl hx) = inr (later (inl hx))
      by_order true later (inr (inl hy)) = inl hy
      by_order true later (inr (inr hl)) = inr (later (inr hl))

  Some-sort_by :
      (l : List InferredType) → DescribesSome l → DescribesSome (sort_by compare_inferred_types l)
  unfolding sort_by
  Some-sort_by [] hv = hv
  Some-sort_by (x ∷ l) (inl hx) = Some-insert x (sort_by compare_inferred_types l) (inl hx)
  Some-sort_by (x ∷ l) (inr hl) =
      Some-insert x (sort_by compare_inferred_types l) (inr (Some-sort_by l hl))

  Some→One : (l : List InferredType) → DescribesSome l → DescribesOne h v (of_list l)
  Some→One [] hv = hv
  Some→One (t ∷ l) (inl ht) = inl ht
  Some→One (t ∷ l) (inr hl) = inr (Some→One l hl)

  either_type :
      (l r : InferredType)
      → Describes h v l ⊎ Describes h v r
      → DescribesSome (append_alternatives (append_alternatives [] l) r)
  either_type l r (inl hl) =
      Some-append_alternatives (append_alternatives [] l) r
        (inl (Some-append_alternatives [] l (inr hl)))
  either_type l r (inr hr) = Some-append_alternatives (append_alternatives [] l) r (inr hr)

  chosen :
      (joined : InferredType) (l : List InferredType)
      → Describes h v joined
      → DescribesOne h v (of_list l)
      → Describes h v (if is_conflict joined then alternatives (of_list l) else joined)
  chosen conflict l hj hl = hl
  chosen _ l hj hl = hj

-- A merge that asks one hierarchy, under another that proves the answers of the first.
pub join_local_types-DescribesIn :
    (h : Option TypeHierarchy) (v : Value) (k : Option TypeHierarchy)
    → IsSoundIn k h
    → (left right : InferredType) → Describes h v left ⊎ Describes h v right
    → Describes h v (join_local_types k left right)
unfolding join_local_types
join_local_types-DescribesIn h v k sound left right hv =
    let all_types = append_alternatives (append_alternatives [] left) right in
    chosen h v (join_with_hierarchy k left right) (sort_by compare_inferred_types all_types)
      (join_with_hierarchy-DescribesIn h v k sound left right hv)
      (Some→One h v (sort_by compare_inferred_types all_types)
        (Some-sort_by h v all_types (either_type h v left right hv)))

-- The merge of two types of a local describes every value that one of the two describes: where the
-- join is a conflict the merge keeps the types as alternatives.
pub join_local_types-Describes :
    (h : Option TypeHierarchy) (v : Value) (left right : InferredType)
    → Describes h v left ⊎ Describes h v right
    → Describes h v (join_local_types h left right)
join_local_types-Describes h v left right hv =
    join_local_types-DescribesIn h v h (IsSoundIn-self h) left right hv
