-- ===== src/Types/Inferred/Meaning/Candidates.antt =====
-- No candidate is lost on the way from two lists of references to their join.
use ferro_jtype.Prelude.{
  ◌≡◌, ◌⊎◌, inl, inr, refl, sym, subst, Bool, true, false, List, [], ◌∷◌, ◌++◌, Option, none, some,
  map, length, any, ltb, as_bool-eq-true, Bool-cases, Option-cases, if◌then◌else◌,
}
use ferro_jtype.Prelude.Order.{sort_by, insert, is_gt}
use ferro_jtype.Hierarchy.{TypeHierarchy}
use ferro_jtype.Types.Inferred.{
  ReferenceType, null, unknown, reference, of_list, ReferenceType-discrete,
}
use ferro_jtype.Types.Inferred.Order.{compare_references}
use ferro_jtype.Types.Inferred.Join.{
  is_same_reference, join_reference, without_null, drop_null, dedup_from, dedup, join_all,
  join_candidates, join_reference_alternatives,
}
use ferro_jtype.Types.Inferred.Meaning.{
  Ref, null_ref, object, array_object, DescribesRef, Describes, DescribesOne, ref_value,
}
use ferro_jtype.Types.Inferred.Meaning.Reference.{
  IsSoundIn, either, of_unknown, join_reference-DescribesRef,
}

-- Some type of a list describes the reference.
abbrev pub DescribesSome : Option TypeHierarchy → Ref → List ReferenceType → Type 0
DescribesSome h v [] = ⊥
DescribesSome h v (r ∷ rs) = DescribesRef h v r ⊎ DescribesSome h v rs

join_all-none : (h : Option TypeHierarchy) (l : List ReferenceType) → join_all h none l ≡ none
join_all-none h [] = refl
join_all-none h (r ∷ l) = refl

module _ (h : Option TypeHierarchy) (v : Ref) where
  pub Some-append :
      (xs ys : List ReferenceType)
      → DescribesSome h v xs ⊎ DescribesSome h v ys
      → DescribesSome h v (xs ++ ys)
  Some-append [] ys (inl hx) = absurd hx
  Some-append [] ys (inr hy) = hy
  Some-append (x ∷ xs) ys (inl (inl hx)) = inl hx
  Some-append (x ∷ xs) ys (inl (inr hx)) = inr (Some-append xs ys (inl hx))
  Some-append (x ∷ xs) ys (inr hy) = inr (Some-append xs ys (inr hy))

  Some-insert :
      (x : ReferenceType) (l : List ReferenceType)
      → DescribesSome h v (x ∷ l)
      → DescribesSome h v (insert compare_references x l)
  unfolding insert
  Some-insert x [] hv = hv
  Some-insert x (y ∷ l) hv = by_order (is_gt (compare_references x y)) (Some-insert x l) hv
    where
      by_order :
          (b : Bool)
          → (DescribesSome h v (x ∷ l) → DescribesSome h v (insert compare_references x l))
          → DescribesSome h v (x ∷ y ∷ l)
          → DescribesSome h v (if b then y ∷ insert compare_references x l else x ∷ y ∷ l)
      by_order false later hv = hv
      by_order true later (inl hx) = inr (later (inl hx))
      by_order true later (inr (inl hy)) = inl hy
      by_order true later (inr (inr hl)) = inr (later (inr hl))

  Some-sort_by :
      (l : List ReferenceType)
      → DescribesSome h v l
      → DescribesSome h v (sort_by compare_references l)
  unfolding sort_by
  Some-sort_by [] hv = hv
  Some-sort_by (x ∷ l) (inl hx) = Some-insert x (sort_by compare_references l) (inl hx)
  Some-sort_by (x ∷ l) (inr hl) =
      Some-insert x (sort_by compare_references l) (inr (Some-sort_by l hl))

  Some-dedup_from :
      (r : ReferenceType) (l : List ReferenceType)
      → DescribesSome h v (r ∷ l)
      → DescribesSome h v (dedup_from r l)
  Some-dedup_from r [] hv = hv
  Some-dedup_from r (s ∷ l) hv =
      by_test (is_same_reference r s) refl (Some-dedup_from r l) (Some-dedup_from s l) hv
    where
      by_test :
          (b : Bool)
          → is_same_reference r s ≡ b
          → (DescribesSome h v (r ∷ l) → DescribesSome h v (dedup_from r l))
          → (DescribesSome h v (s ∷ l) → DescribesSome h v (dedup_from s l))
          → DescribesSome h v (r ∷ s ∷ l)
          → DescribesSome h v (if b then dedup_from r l else r ∷ dedup_from s l)
      by_test true e skip keep (inl hr) = skip (inl hr)
      by_test true e skip keep (inr (inl hs)) =
          skip (
            inl
              (subst (DescribesRef h v) (sym (as_bool-eq-true (ReferenceType-discrete r s) e)) hs))
      by_test true e skip keep (inr (inr hl)) = skip (inr hl)
      by_test false e skip keep (inl hr) = inl hr
      by_test false e skip keep (inr hv) = inr (keep hv)

  Some-dedup : (l : List ReferenceType) → DescribesSome h v l → DescribesSome h v (dedup l)
  Some-dedup [] hv = hv
  Some-dedup (r ∷ l) hv = Some-dedup_from r l hv

  -- Only `null` is described by the type `null`.
  is_null : DescribesRef h v null → v ≡ null_ref
  is_null hv = null_only v hv
    where
      null_only : (w : Ref) → DescribesRef h w null → w ≡ null_ref
      null_only null_ref hw = refl
      null_only (object c) hw = absurd hw
      null_only (array_object d) hw = absurd hw

  Some-without_null :
      (l : List ReferenceType)
      → DescribesSome h v l
      → (v ≡ null_ref) ⊎ DescribesSome h v (without_null l)
  Some-without_null [] hv = absurd hv
  Some-without_null (null ∷ l) (inl hn) = inl (is_null hn)
  Some-without_null (null ∷ l) (inr hl) = Some-without_null l hl
  Some-without_null (r ∷ l) (inl hr) = inr (inl hr)
  Some-without_null (r ∷ l) (inr hl) = either inl (λ x. inr (inr x)) (Some-without_null l hl)

  Some-drop_null :
      (l : List ReferenceType)
      → DescribesSome h v l
      → (v ≡ null_ref) ⊎ DescribesSome h v (drop_null l)
  Some-drop_null l hv = by_length (ltb 1 (length l))
    where
      by_length : (b : Bool) → (v ≡ null_ref) ⊎ DescribesSome h v (if b then without_null l else l)
      by_length true = Some-without_null l hv
      by_length false = inr hv

  Some→One :
      (l : List ReferenceType)
      → DescribesSome h v l
      → DescribesOne h (ref_value v) (of_list (map reference l))
  Some→One [] hv = absurd hv
  Some→One (r ∷ l) (inl hr) = inl (v, refl, hr)
  Some→One (r ∷ l) (inr hl) = inr (Some→One l hl)

module _ (h : Option TypeHierarchy) (v : Ref) (k : Option TypeHierarchy)
    (sound : IsSoundIn k h) where
  join_all-DescribesRef :
      (r : ReferenceType) (l : List ReferenceType) (j : ReferenceType)
      → join_all k (some r) l ≡ some j
      → DescribesSome h v (r ∷ l)
      → DescribesRef h v j
  join_all-DescribesRef r [] j e (inl hr) =
      let same : r ≡ j = cc in subst (DescribesRef h v) same hr
  join_all-DescribesRef r [] j e (inr none_left) = absurd none_left
  join_all-DescribesRef r (s ∷ l) j e hv =
      by_join (join_reference k r s) refl (λ m. join_all-DescribesRef m l j) e hv
    where
      by_join :
          (o : Option ReferenceType)
          → join_reference k r s ≡ o
          → ((m : ReferenceType)
              → join_all k (some m) l ≡ some j
              → DescribesSome h v (m ∷ l)
              → DescribesRef h v j)
          → join_all k o l ≡ some j
          → DescribesSome h v (r ∷ s ∷ l)
          → DescribesRef h v j
      by_join none f later e hv = let failed = join_all-none k l in cc
      by_join (some m) f later e (inl hr) =
          later m e (inl (join_reference-DescribesRef h k sound v r s m f (inl hr)))
      by_join (some m) f later e (inr (inl hs)) =
          later m e (inl (join_reference-DescribesRef h k sound v r s m f (inr hs)))
      by_join (some m) f later e (inr (inr hl)) = later m e (inr hl)

  join_candidates-Describes :
      (l : List ReferenceType)
      → DescribesSome h v l
      → Describes h (ref_value v) (join_candidates k l)
  join_candidates-Describes [] hv = absurd hv
  join_candidates-Describes (r ∷ []) (inl hr) = (v, refl, hr)
  join_candidates-Describes (r ∷ []) (inr none_left) = absurd none_left
  join_candidates-Describes (r ∷ s ∷ l) hv = elim (Option-cases (join_all k (some r) (s ∷ l))) [
    | inl e ↦ rw (e, join_candidates) (Some→One h v (r ∷ s ∷ l) hv)
    | inr (j, e) ↦ rw (e, join_candidates) (v, refl, join_all-DescribesRef r (s ∷ l) j e hv)
  ]

module _ (h k : Option TypeHierarchy) (sound : IsSoundIn k h) where
  null-candidates :
      (l : List ReferenceType) → Describes h (ref_value null_ref) (join_candidates k l)
  null-candidates [] = (null_ref, refl, tt)
  null-candidates (r ∷ []) = (null_ref, refl, tt)
  null-candidates (r ∷ s ∷ l) = elim (Option-cases (join_all k (some r) (s ∷ l))) [
    | inl e ↦ rw (e, join_candidates) (inl (null_ref, refl, tt))
    | inr (j, e) ↦ rw (e, join_candidates) (null_ref, refl, tt)
  ]

  kept :
      (v : Ref) (l : List ReferenceType)
      → (v ≡ null_ref) ⊎ DescribesSome h v l
      → Describes h (ref_value v) (join_candidates k (dedup (sort_by compare_references l)))
  kept v l (inl e) = rw e (null-candidates (dedup (sort_by compare_references l)))
  kept v l (inr hv) =
      join_candidates-Describes h v k sound _ (Some-dedup h v _ (Some-sort_by h v l hv))

  pub join_reference_alternatives-Describes :
      (v : Ref) (left right : List ReferenceType)
      → DescribesSome h v left ⊎ DescribesSome h v right
      → Describes h (ref_value v) (join_reference_alternatives k left right)
  unfolding join_reference_alternatives
  join_reference_alternatives-Describes v left right hv =
      elim (Bool-cases (any (is_same_reference unknown) (left ++ right))) [
        | inl e ↦ rw e (v, refl, of_unknown h v)
        | inr e ↦
            rw e (kept v _ (Some-drop_null h v (left ++ right) (Some-append h v left right hv)))
      ]
