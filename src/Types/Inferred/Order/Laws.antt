-- ===== src/Types/Inferred/Order/Laws.antt =====
-- The order on references is total and tells them apart: it is that of a code in numbers.
use Prim.Native.Nat.{compare}
use ferro_jtype.Prelude.{ℕ, zero, suc, ◌≡◌, refl, sym, ◌∙◌, ap, List, [], ◌∷◌, arith}
use ferro_jtype.Prelude.Order.{and_then, compare_bytes}
use ferro_jtype.Prelude.Order.Sort.{IsTotalOrder, IsTotalOrder-code}
use ferro_jtype.Types.ClassName.{class_name, as_str}
use ferro_jtype.Types.Primitive.{
  PrimitiveType, boolean, byte, char, short, int, float, long, double, primitive_rank,
}
use ferro_jtype.Types.Descriptor.{TypeDescriptor, primitive, reference}
use ferro_jtype.Types.Inferred.{ReferenceType, exact, array, null, unknown}
use ferro_jtype.Types.Inferred.Order.{compare_descriptors, compare_references}

abbrev code_descriptor : TypeDescriptor → List ℕ
code_descriptor (primitive p) = 0 ∷ primitive_rank p ∷ []
code_descriptor (reference c) = 1 ∷ as_str c
code_descriptor (TypeDescriptor.array n d) = 2 ∷ n ∷ code_descriptor d

abbrev code : ReferenceType → List ℕ
code (exact c) = 0 ∷ as_str c
code (array d) = 1 ∷ code_descriptor d
code null = 2 ∷ []
code unknown = 3 ∷ []

compare_ranks :
    (p q : PrimitiveType)
    → compare (primitive_rank p) (primitive_rank q)
      ≡ and_then (compare (primitive_rank p) (primitive_rank q)) (compare_bytes [] [])
unfolding compare_bytes
compare_ranks p q = ground arith

compare_descriptors-code :
    (d e : TypeDescriptor)
    → compare_descriptors d e ≡ compare_bytes (code_descriptor d) (code_descriptor e)
unfolding compare_descriptors compare_bytes
compare_descriptors-code (primitive p) (primitive q) = compare_ranks p q
compare_descriptors-code (primitive p) (reference d) = refl
compare_descriptors-code (primitive p) (TypeDescriptor.array n e) = refl
compare_descriptors-code (reference c) (primitive q) = refl
compare_descriptors-code (reference c) (reference d) = refl
compare_descriptors-code (reference c) (TypeDescriptor.array n e) = refl
compare_descriptors-code (TypeDescriptor.array m d) (primitive q) = refl
compare_descriptors-code (TypeDescriptor.array m d) (reference e) = refl
compare_descriptors-code (TypeDescriptor.array m d) (TypeDescriptor.array n e) =
    ap (and_then (compare m n)) (compare_descriptors-code d e)

primitive_of_rank : ℕ → PrimitiveType
primitive_of_rank zero = boolean
primitive_of_rank (suc zero) = byte
primitive_of_rank (suc (suc zero)) = char
primitive_of_rank (suc (suc (suc zero))) = short
primitive_of_rank (suc (suc (suc (suc zero)))) = int
primitive_of_rank (suc (suc (suc (suc (suc zero))))) = float
primitive_of_rank (suc (suc (suc (suc (suc (suc zero)))))) = long
primitive_of_rank _ = double

primitive_of_rank-primitive_rank : (p : PrimitiveType) → primitive_of_rank (primitive_rank p) ≡ p
unfolding primitive_of_rank
primitive_of_rank-primitive_rank boolean = refl
primitive_of_rank-primitive_rank p = refl

primitive_rank-injective : (p q : PrimitiveType) → primitive_rank p ≡ primitive_rank q → p ≡ q
primitive_rank-injective p q h =
    sym (primitive_of_rank-primitive_rank p)
    ∙ ap primitive_of_rank h
    ∙ primitive_of_rank-primitive_rank q

code_descriptor-injective : (d e : TypeDescriptor) → code_descriptor d ≡ code_descriptor e → d ≡ e
code_descriptor-injective (primitive p) (primitive q) h =
    ap primitive (primitive_rank-injective p q (cc))
code_descriptor-injective (primitive p) (reference d) h = cc
code_descriptor-injective (primitive p) (TypeDescriptor.array n e) h = cc
code_descriptor-injective (reference c) (primitive q) h = cc
code_descriptor-injective (reference (class_name c)) (reference (class_name d)) h = cc
code_descriptor-injective (reference c) (TypeDescriptor.array n e) h = cc
code_descriptor-injective (TypeDescriptor.array m d) (primitive q) h = cc
code_descriptor-injective (TypeDescriptor.array m d) (reference e) h = cc
code_descriptor-injective (TypeDescriptor.array m d) (TypeDescriptor.array n e) h =
    let same : d ≡ e = code_descriptor-injective d e (cc) in cc

compare_references-code :
    (r s : ReferenceType) → compare_references r s ≡ compare_bytes (code r) (code s)
unfolding compare_references compare_bytes
compare_references-code (exact c) (exact d) = refl
compare_references-code (array d) (array e) = compare_descriptors-code d e
compare_references-code null null = refl
compare_references-code unknown unknown = refl
compare_references-code (exact c) _ = refl
compare_references-code (array d) _ = refl
compare_references-code null _ = refl
compare_references-code unknown _ = refl

code-injective : (r s : ReferenceType) → code r ≡ code s → r ≡ s
code-injective (exact (class_name c)) (exact (class_name d)) h = cc
code-injective (array d) (array e) h = let same : d ≡ e = code_descriptor-injective d e (cc) in cc
code-injective null null h = refl
code-injective unknown unknown h = refl
code-injective (exact c) _ h = cc
code-injective (array d) _ h = cc
code-injective null _ h = cc
code-injective unknown _ h = cc

pub compare_references-IsTotalOrder : IsTotalOrder compare_references
compare_references-IsTotalOrder =
    IsTotalOrder-code compare_references code compare_references-code code-injective
