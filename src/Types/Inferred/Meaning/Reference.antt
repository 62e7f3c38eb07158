-- ===== src/Types/Inferred/Meaning/Reference.antt =====
-- The join of references describes what either of its arguments describes.
use ferro_jtype.Prelude.{
  ◌≡◌, ◌⊎◌, inl, inr, sym, subst, true, Option, none, some, as_bool-eq-true, Bool-cases,
  Option-cases, if◌then◌else◌,
}
use ferro_jtype.Hierarchy.{TypeHierarchy, common_supertype}
use ferro_jtype.Hierarchy.Sound.{
  Subtype, self, to_object, up, Subtype-trans, common_supertype-Subtype,
}
use ferro_jtype.Types.ClassName.{ClassName, ClassName-discrete}
use ferro_jtype.Types.Descriptor.{TypeDescriptor, TypeDescriptor-discrete}
use ferro_jtype.Types.Inferred.{ReferenceType, exact, array, null, unknown}
use ferro_jtype.Types.Inferred.Join.{
  is_same_class, is_same_descriptor, is_array_supertype, join_reference,
}
use ferro_jtype.Types.Inferred.Meaning.{Ref, null_ref, object, array_object, DescribesRef}

pub either {ℓ} : {A B : Type 0} {C : Type ℓ} → (A → C) → (B → C) → A ⊎ B → C
either f g (inl a) = f a
either f g (inr b) = g b

pub flip : {A B : Type 0} → A ⊎ B → B ⊎ A
flip (inl a) = inr a
flip (inr b) = inl b

same_either : {A : Type 0} (P : A → Type 0) (a b : A) → a ≡ b → P a ⊎ P b → P a
same_either P a b e (inl h) = h
same_either P a b e (inr h) = subst P (sym e) h

-- What the one hierarchy answers, the other proves.
abbrev pub IsSoundIn : Option TypeHierarchy → Option TypeHierarchy → Type 0
IsSoundIn k h =
    (c d x : ClassName) → common_supertype k c d ≡ some x → Subtype h c x × Subtype h d x

pub IsSoundIn-self : (h : Option TypeHierarchy) → IsSoundIn h h
IsSoundIn-self = common_supertype-Subtype

Subtype-none : {h : Option TypeHierarchy} {c d : ClassName} → Subtype none c d → Subtype h c d
Subtype-none self = self
Subtype-none to_object = to_object
Subtype-none (up s m) = absurd m

pub IsSoundIn-none : (h : Option TypeHierarchy) → IsSoundIn none h
IsSoundIn-none h c d x e =
    let (left, right) = common_supertype-Subtype none c d x e in
    (Subtype-none left, Subtype-none right)

module _ (h : Option TypeHierarchy) where
  DescribesRef-up :
      (v : Ref) (c d : ClassName)
      → Subtype h c d
      → DescribesRef h v (exact c)
      → DescribesRef h v (exact d)
  DescribesRef-up null_ref c d s hv = tt
  DescribesRef-up (object b) c d s hv = Subtype-trans hv s
  DescribesRef-up (array_object e) c d s hv = record {
    base = hv.base;
    is_base = hv.is_base;
    above = Subtype-trans hv.above s;
  }

  DescribesRef-eq :
      (v : Ref) (r j : ReferenceType) → some r ≡ some j → DescribesRef h v r → DescribesRef h v j
  DescribesRef-eq v r j e hv = let same : r ≡ j = cc in subst (DescribesRef h v) same hv

  join_exact :
      (k : Option TypeHierarchy)
      → IsSoundIn k h
      → (v : Ref) (c d : ClassName) (j : ReferenceType)
      → join_reference k (exact c) (exact d) ≡ some j
      → DescribesRef h v (exact c) ⊎ DescribesRef h v (exact d)
      → DescribesRef h v j
  unfolding join_reference
  join_exact k sound v c d j e hv = elim (Bool-cases (is_same_class c d)) [
    | inl same ↦ DescribesRef-eq v (exact c) j (rw same at e) (
        same_either (λ c. DescribesRef h v (exact c)) c d
          (as_bool-eq-true (ClassName-discrete c d) same) hv)
    | inr differ ↦ elim (Option-cases (common_supertype k c d)) [
      | inl missing ↦ let absent : none ≡ some j = rw (differ, missing) at e in cc
      | inr (x, found) ↦
          let above = sound c d x found in
          DescribesRef-eq v (exact x) j (rw (differ, found) at e)
            (either (DescribesRef-up v c x above.0) (DescribesRef-up v d x above.1) hv)
    ]
  ]

  join_array :
      (k : Option TypeHierarchy) (v : Ref) (d e : TypeDescriptor) (j : ReferenceType)
      → join_reference k (array d) (array e) ≡ some j
      → DescribesRef h v (array d) ⊎ DescribesRef h v (array e)
      → DescribesRef h v j
  unfolding join_reference
  join_array k v d e j p hv = elim (Bool-cases (is_same_descriptor d e)) [
    | inl same ↦ DescribesRef-eq v (array d) j (rw same at p) (
        same_either (λ d. DescribesRef h v (array d)) d e
          (as_bool-eq-true (TypeDescriptor-discrete d e) same) hv)
    | inr differ ↦ let absent : none ≡ some j = rw differ at p in cc
  ]

  under_array :
      (v : Ref) (c : ClassName) (d : TypeDescriptor)
      → is_array_supertype c ≡ true
      → DescribesRef h v (array d)
      → DescribesRef h v (exact c)
  under_array null_ref c d s hv = tt
  under_array (object b) c d s hv = absurd hv
  under_array (array_object e) c d s hv = record { base = c; is_base = s; above = self }

  join_array_class :
      (v : Ref) (c : ClassName) (d : TypeDescriptor) (j : ReferenceType)
      → (if is_array_supertype c then some (exact c) else none) ≡ some j
      → DescribesRef h v (array d) ⊎ DescribesRef h v (exact c)
      → DescribesRef h v j
  join_array_class v c d j p hv = elim (Bool-cases (is_array_supertype c)) [
    | inl base ↦
        DescribesRef-eq v (exact c) j (rw base at p) (either (under_array v c d base) (λ x. x) hv)
    | inr other ↦ let absent : none ≡ some j = rw other at p in cc
  ]

  of_null :
      (v : Ref) (r : ReferenceType)
      → DescribesRef h v null ⊎ DescribesRef h v r
      → DescribesRef h v r
  of_null null_ref r hv = tt
  of_null (object c) r hv = either (λ x. absurd x) (λ x. x) hv
  of_null (array_object d) r hv = either (λ x. absurd x) (λ x. x) hv

  pub of_unknown : (v : Ref) → DescribesRef h v unknown
  of_unknown null_ref = tt
  of_unknown (object c) = tt
  of_unknown (array_object d) = tt

  pub join_reference-DescribesRef :
      (k : Option TypeHierarchy)
      → IsSoundIn k h
      → (v : Ref) (r s j : ReferenceType) → join_reference k r s ≡ some j
      → DescribesRef h v r ⊎ DescribesRef h v s
      → DescribesRef h v j
  unfolding join_reference
  join_reference-DescribesRef k sound v null s j e hv = DescribesRef-eq v s j e (of_null v s hv)
  join_reference-DescribesRef k sound v (exact c) null j e hv =
      DescribesRef-eq v (exact c) j e (of_null v (exact c) (flip hv))
  join_reference-DescribesRef k sound v (exact c) unknown j e hv =
      DescribesRef-eq v unknown j e (of_unknown v)
  join_reference-DescribesRef k sound v (exact c) (exact d) j e hv = join_exact k sound v c d j e hv
  join_reference-DescribesRef k sound v (exact c) (array d) j e hv =
      join_array_class v c d j e (flip hv)
  join_reference-DescribesRef k sound v (array d) null j e hv =
      DescribesRef-eq v (array d) j e (of_null v (array d) (flip hv))
  join_reference-DescribesRef k sound v (array d) unknown j e hv =
      DescribesRef-eq v unknown j e (of_unknown v)
  join_reference-DescribesRef k sound v (array d) (exact c) j e hv = join_array_class v c d j e hv
  join_reference-DescribesRef k sound v (array d) (array f) j e hv = join_array k v d f j e hv
  join_reference-DescribesRef k sound v unknown null j e hv =
      DescribesRef-eq v unknown j e (of_unknown v)
  join_reference-DescribesRef k sound v unknown _ j e hv =
      DescribesRef-eq v unknown j e (of_unknown v)
