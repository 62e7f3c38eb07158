-- ===== src/Types/Inferred/Meaning.antt =====
-- What an inferred type says of a value at run time: the abstract view that src/types/inference.rs
-- keeps of the values of a slot. It has no counterpart in the program.
pub mod Reference
pub mod Join
pub mod Candidates
pub mod Locals
use ferro_jtype.Prelude.{ℕ, ◌≡◌, ◌⊎◌, true, Option}
use ferro_jtype.Hierarchy.{TypeHierarchy}
use ferro_jtype.Hierarchy.Sound.{Subtype}
use ferro_jtype.Types.ClassName.{ClassName}
use ferro_jtype.Types.Primitive.{PrimitiveType}
use ferro_jtype.Types.Descriptor.{TypeDescriptor}
use ferro_jtype.Types.Integral.{contains}
use ferro_jtype.Types.Inferred.{
  ReferenceType, exact, array, null, unknown, InferredType, bottom, int, integral, float, long,
  double, reference, uninitialized, uninitialized_this, return_address, alternatives, conflict,
  InferredTypes, nil, cons,
}
use ferro_jtype.Types.Inferred.Join.{is_array_supertype}

-- A reference: `null`, an object of a class, or an array.
pub data Ref : Type 0 where
  null_ref : Ref
  object : ClassName → Ref
  array_object : TypeDescriptor → Ref

-- A value of a slot. An integral value carries the source-level type that it is used at.
pub data Value : Type 0 where
  int_value : PrimitiveType → Value
  float_value long_value double_value : Value
  ref_value : Ref → Value
  new_value : ClassName → ℕ → Value
  this_value : ClassName → Value
  return_value : Value

-- The class is above every array: it is one of the three supertypes of arrays, or above one.
pub record IsAboveArrays (h : Option TypeHierarchy) (c : ClassName) : Type 0 where
  pub base : ClassName
  pub is_base : is_array_supertype base ≡ true
  pub above : Subtype h base c

-- Under a class type stand the instances of its subclasses, and arrays where the class is above
-- them. `null` is of every reference type.
abbrev pub DescribesRef : Option TypeHierarchy → Ref → ReferenceType → Type 0
DescribesRef h null_ref r = Unit
DescribesRef h v unknown = Unit
DescribesRef h (object c) (exact d) = Subtype h c d
DescribesRef h (object c) (array e) = ⊥
DescribesRef h (object c) null = ⊥
DescribesRef h (array_object d) (exact c) = IsAboveArrays h c
DescribesRef h (array_object d) (array e) = d ≡ e
DescribesRef h (array_object d) null = ⊥

abbrev mutual
  pub Describes : Option TypeHierarchy → Value → InferredType → Type 0
  Describes h v bottom = ⊥
  Describes h v int = v ≡ int_value PrimitiveType.int
  Describes h v (integral s) = (p : PrimitiveType) × (v ≡ int_value p) × (contains s p ≡ true)
  Describes h v float = v ≡ float_value
  Describes h v long = v ≡ long_value
  Describes h v double = v ≡ double_value
  Describes h v (reference r) = (w : Ref) × (v ≡ ref_value w) × DescribesRef h w r
  Describes h v (uninitialized c n) = v ≡ new_value c n
  Describes h v (uninitialized_this c) = v ≡ this_value c
  Describes h v return_address = v ≡ return_value
  Describes h v (alternatives ts) = DescribesOne h v ts
  Describes h v conflict = Unit

  pub DescribesOne : Option TypeHierarchy → Value → InferredTypes → Type 0
  DescribesOne h v nil = ⊥
  DescribesOne h v (cons t ts) = Describes h v t ⊎ DescribesOne h v ts
