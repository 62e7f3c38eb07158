-- ===== src/Types/Inferred/Order.antt =====
-- The orders of src/types/inference.rs, by which alternatives are sorted.
pub mod Laws
use Prim.Native.Nat.{compare, Ordering, lt, eq, gt}
use ferro_jtype.Prelude.{ℕ}
use ferro_jtype.Prelude.Order.{and_then, compare_bytes}
use ferro_jtype.Types.ClassName.{as_str}
use ferro_jtype.Types.Primitive.{primitive_rank}
use ferro_jtype.Types.Descriptor
use ferro_jtype.Types.Descriptor.{TypeDescriptor, primitive}
use ferro_jtype.Types.Integral.{bits}
use ferro_jtype.Types.Inferred.{
  ReferenceType, exact, array, null, unknown, InferredType, bottom, int, integral, float, long,
  double, reference, uninitialized, uninitialized_this, return_address, alternatives, conflict,
  InferredTypes, nil, cons,
}

abbrev pub descriptor_rank : TypeDescriptor → ℕ
descriptor_rank (primitive _) = 0
descriptor_rank (TypeDescriptor.reference _) = 1
descriptor_rank (TypeDescriptor.array _ _) = 2

unfoldable pub compare_descriptors : TypeDescriptor → TypeDescriptor → Ordering
compare_descriptors (primitive p) (primitive q) = compare (primitive_rank p) (primitive_rank q)
compare_descriptors (TypeDescriptor.reference c) (TypeDescriptor.reference d) =
    compare_bytes (as_str c) (as_str d)
compare_descriptors (TypeDescriptor.array m d) (TypeDescriptor.array n e) =
    and_then (compare m n) (compare_descriptors d e)
compare_descriptors d e = compare (descriptor_rank d) (descriptor_rank e)

abbrev pub reference_rank : ReferenceType → ℕ
reference_rank (exact _) = 0
reference_rank (array _) = 1
reference_rank null = 2
reference_rank unknown = 3

abbrev pub compare_same_references : ReferenceType → ReferenceType → Ordering
compare_same_references (exact c) (exact d) = compare_bytes (as_str c) (as_str d)
compare_same_references (array d) (array e) = compare_descriptors d e
compare_same_references _ _ = eq

unfoldable pub compare_references : ReferenceType → ReferenceType → Ordering
compare_references r s =
    and_then (compare (reference_rank r) (reference_rank s)) (compare_same_references r s)

abbrev pub inferred_rank : InferredType → ℕ
inferred_rank bottom = 0
inferred_rank int = 1
inferred_rank (integral _) = 2
inferred_rank float = 3
inferred_rank long = 4
inferred_rank double = 5
inferred_rank (reference _) = 6
inferred_rank (uninitialized _ _) = 7
inferred_rank (uninitialized_this _) = 8
inferred_rank return_address = 9
inferred_rank (alternatives _) = 10
inferred_rank conflict = 11

-- The first pair of alternatives that differs decides, else the number of alternatives.
unfoldable mutual
  pub compare_inferred_types : InferredType → InferredType → Ordering
  compare_inferred_types (integral s) (integral t) = compare (bits s) (bits t)
  compare_inferred_types (reference r) (reference s) = compare_references r s
  compare_inferred_types (uninitialized c m) (uninitialized d n) =
      and_then (compare_bytes (as_str c) (as_str d)) (compare m n)
  compare_inferred_types (uninitialized_this c) (uninitialized_this d) =
      compare_bytes (as_str c) (as_str d)
  compare_inferred_types (alternatives ts) (alternatives us) = compare_alternatives ts us
  compare_inferred_types t u = compare (inferred_rank t) (inferred_rank u)

  pub compare_alternatives : InferredTypes → InferredTypes → Ordering
  compare_alternatives nil nil = eq
  compare_alternatives nil (cons _ _) = lt
  compare_alternatives (cons _ _) nil = gt
  compare_alternatives (cons t ts) (cons u us) =
      and_then (compare_inferred_types t u) (compare_alternatives ts us)
