-- ===== src/Types/Inferred/Meaning/Join.antt =====
-- The join of two types describes every value that one of them describes.
use ferro_jtype.Prelude.{
  ◌≡◌, ◌⊎◌, inl, inr, refl, ◌∙◌, subst, Bool, true, false, ◌||◌, ◌&&◌, List, [], ◌∷◌, ◌==◌, Option,
  none, some, as_bool, if◌then◌else◌, arith,
}
use ferro_jtype.Hierarchy.{TypeHierarchy}
use ferro_jtype.Types.Primitive.{PrimitiveType}
use ferro_jtype.Types.Integral.{IntegralTypeSet, int_set, contains, union, IntegralTypeSet-discrete}
use ferro_jtype.Types.Integral.Laws.{contains-union}
use ferro_jtype.Types.Inferred.{
  ReferenceType, InferredTypes, InferredType, bottom, int, integral, float, long, double, reference,
  uninitialized, uninitialized_this, return_address, alternatives, conflict, nil, cons,
}
use ferro_jtype.Types.Inferred.Join.{
  is_same_class, reference_alternatives, join_reference_alternatives, collect_references, prepend,
  integral_types, from_integral_types, join_other, join_integral, join_choice, join_with_hierarchy,
}
use ferro_jtype.Types.Inferred.Join.Laws.{join_other_comm}
use ferro_jtype.Types.Inferred.Meaning.{Ref, Describes, DescribesOne, Value, ref_value, int_value}
use ferro_jtype.Types.Inferred.Meaning.Reference.{IsSoundIn, IsSoundIn-self, either}
use ferro_jtype.Types.Inferred.Meaning.Candidates.{
  DescribesSome, join_reference_alternatives-Describes,
}

module _ (h : Option TypeHierarchy) (v : Value) where
  -- Of a type that is all references, the reference described and a candidate that describes it.
  abbrev IsAmong : List ReferenceType → Type 0
  IsAmong rs = (w : Ref) × (v ≡ ref_value w) × DescribesSome h w rs

  collect-IsAmong :
      (ts : InferredTypes) (rs : List ReferenceType)
      → collect_references ts ≡ some rs
      → DescribesOne h v ts
      → IsAmong rs
  collect-IsAmong nil rs e hv = absurd hv
  collect-IsAmong (cons (reference r) ts) rs e hv =
      by_rest (collect_references ts) refl (collect-IsAmong ts) e hv
    where
      by_rest :
          (o : Option (List ReferenceType))
          → collect_references ts ≡ o
          → ((l : List ReferenceType)
              → collect_references ts ≡ some l
              → DescribesOne h v ts
              → IsAmong l)
          → prepend r o ≡ some rs
          → DescribesOne h v (cons (reference r) ts)
          → IsAmong rs
      by_rest none c later e hv = cc
      by_rest (some l) c later e (inl (w, hw, hr)) =
          let same : r ∷ l ≡ rs = cc in subst IsAmong same (w, hw, inl hr)
      by_rest (some l) c later e (inr hs) =
          let same : r ∷ l ≡ rs = cc in
          let rest = later l c hs in subst IsAmong same (rest.0, rest.1, inr rest.2)
  collect-IsAmong (cons _ ts) rs e hv = cc

  reference-IsAmong :
      (t : InferredType) (rs : List ReferenceType)
      → reference_alternatives t ≡ some rs
      → Describes h v t
      → IsAmong rs
  reference-IsAmong (reference r) rs e (w, hw, hr) =
      let same : r ∷ [] ≡ rs = cc in subst IsAmong same (w, hw, inl hr)
  reference-IsAmong (alternatives ts) rs e hv = collect-IsAmong ts rs e hv
  reference-IsAmong _ rs e hv = cc

  -- Of an integral type, the primitive type that the value is used at.
  abbrev IsUsedAt : IntegralTypeSet → Type 0
  IsUsedAt s = (p : PrimitiveType) × (v ≡ int_value p) × (contains s p ≡ true)

  integral-IsUsedAt :
      (t : InferredType) (s : IntegralTypeSet)
      → integral_types t ≡ some s
      → Describes h v t
      → IsUsedAt s
  unfolding contains
  integral-IsUsedAt int s e hv =
      let same : int_set ≡ s = cc in subst IsUsedAt same (PrimitiveType.int, hv, refl)
  integral-IsUsedAt (integral r) s e hv = let same : r ≡ s = cc in subst IsUsedAt same hv
  integral-IsUsedAt _ s e hv = cc

  only_int : (p : PrimitiveType) → contains int_set p ≡ true → p ≡ PrimitiveType.int
  unfolding contains
  only_int PrimitiveType.int e = refl
  only_int _ e = cc

  from_integral_types-Describes :
      (s : IntegralTypeSet) → IsUsedAt s → Describes h v (from_integral_types s)
  from_integral_types-Describes s (p, hv, hp) = by_test (IntegralTypeSet-discrete s int_set)
    where
      by_test : (d : Dec (s ≡ int_set)) → Describes h v (if as_bool d then int else integral s)
      by_test (yes e) =
          let at_int : contains int_set p ≡ true = subst (λ s. contains s p ≡ true) e hp in
          subst (λ p. v ≡ int_value p) (only_int p at_int) hv
      by_test (no n) = (p, hv, hp)

  or_true : (a b : Bool) → (a ≡ true) ⊎ (b ≡ true) → (a || b) ≡ true
  or_true a b e = ground arith

  union-IsUsedAt : (s t : IntegralTypeSet) → IsUsedAt s ⊎ IsUsedAt t → IsUsedAt (union s t)
  union-IsUsedAt s t (inl (p, hv, hp)) = (p, hv, contains-union s t p ∙ or_true _ _ (inl hp))
  union-IsUsedAt s t (inr (p, hv, hp)) = (p, hv, contains-union s t p ∙ or_true _ _ (inr hp))

  if_conflict :
      (b : Bool) (t : InferredType) → Describes h v t → Describes h v (if b then t else conflict)
  if_conflict true t hv = hv
  if_conflict false t hv = tt

  other-left : (t u : InferredType) → Describes h v t → Describes h v (join_other t u)
  unfolding join_other
  other-left bottom u hv = absurd hv
  other-left int bottom hv = hv
  other-left int int hv = hv
  other-left int _ hv = tt
  other-left float bottom hv = hv
  other-left float float hv = hv
  other-left float _ hv = tt
  other-left long bottom hv = hv
  other-left long long hv = hv
  other-left long _ hv = tt
  other-left double bottom hv = hv
  other-left double double hv = hv
  other-left double _ hv = tt
  other-left return_address bottom hv = hv
  other-left return_address return_address hv = hv
  other-left return_address _ hv = tt
  other-left conflict bottom hv = hv
  other-left conflict conflict hv = hv
  other-left conflict _ hv = tt
  other-left (integral s) bottom hv = hv
  other-left (integral s) _ hv = tt
  other-left (reference r) bottom hv = hv
  other-left (reference r) _ hv = tt
  other-left (alternatives ts) bottom hv = hv
  other-left (alternatives ts) _ hv = tt
  other-left (uninitialized c m) bottom hv = hv
  other-left (uninitialized c m) (uninitialized d n) hv =
      if_conflict (is_same_class c d && m == n) (uninitialized c m) hv
  other-left (uninitialized c m) _ hv = tt
  other-left (uninitialized_this c) bottom hv = hv
  other-left (uninitialized_this c) (uninitialized_this d) hv =
      if_conflict (is_same_class c d) (uninitialized_this c) hv
  other-left (uninitialized_this c) _ hv = tt

  other-Describes :
      (t u : InferredType) → Describes h v t ⊎ Describes h v u → Describes h v (join_other t u)
  other-Describes t u (inl ht) = other-left t u ht
  other-Describes t u (inr hu) = rw (join_other_comm t u) (other-left u t hu)

  integral-Describes :
      (t u : InferredType) (s r : Option IntegralTypeSet)
      → integral_types t ≡ s
      → integral_types u ≡ r
      → Describes h v t ⊎ Describes h v u
      → Describes h v (join_integral s r (join_other t u))
  integral-Describes t u (some s) (some r) es er hv = from_integral_types-Describes (union s r) (
      union-IsUsedAt s r (
        either (λ ht. inl (integral-IsUsedAt t s es ht)) (λ hu. inr (integral-IsUsedAt u r er hu))
          hv))
  integral-Describes t u (some s) none es er hv = other-Describes t u hv
  integral-Describes t u none r es er hv = other-Describes t u hv

module _ (h : Option TypeHierarchy) (v : Value) (k : Option TypeHierarchy)
    (sound : IsSoundIn k h) where
  reference-Describes :
      (left right : List ReferenceType)
      → IsAmong h v left ⊎ IsAmong h v right
      → Describes h v (join_reference_alternatives k left right)
  reference-Describes left right (inl (w, hw, hs)) =
      rw hw (join_reference_alternatives-Describes h k sound w left right (inl hs))
  reference-Describes left right (inr (w, hw, hs)) =
      rw hw (join_reference_alternatives-Describes h k sound w left right (inr hs))

  choice-Describes :
      (t u : InferredType) (left right : Option (List ReferenceType))
      → reference_alternatives t ≡ left
      → reference_alternatives u ≡ right
      → Describes h v t ⊎ Describes h v u
      → Describes h v (
          join_choice k left right
            (join_integral (integral_types t) (integral_types u) (join_other t u)))
  choice-Describes t u (some left) (some right) el er hv = reference-Describes left right (
      either (λ ht. inl (reference-IsAmong h v t left el ht))
        (λ hu. inr (reference-IsAmong h v u right er hu)) hv)
  choice-Describes t u (some left) none el er hv = integral-Describes h v t u _ _ refl refl hv
  choice-Describes t u none right el er hv = integral-Describes h v t u _ _ refl refl hv

  -- A join that asks one hierarchy, under another that proves the answers of the first.
  pub join_with_hierarchy-DescribesIn :
      (t u : InferredType)
      → Describes h v t ⊎ Describes h v u
      → Describes h v (join_with_hierarchy k t u)
  unfolding join_with_hierarchy
  join_with_hierarchy-DescribesIn t u hv = choice-Describes t u _ _ refl refl hv

-- Under any hierarchy, or none, the join of two types describes every value that one of the two
-- describes: a value that reaches a merge point on either path is described by the merged type.
pub join_with_hierarchy-Describes :
    (h : Option TypeHierarchy) (v : Value) (t u : InferredType)
    → Describes h v t ⊎ Describes h v u
    → Describes h v (join_with_hierarchy h t u)
join_with_hierarchy-Describes h v t u hv =
    join_with_hierarchy-DescribesIn h v h (IsSoundIn-self h) t u hv
