-- ===== src/Summary.antt =====
-- src/summary.rs: the resolvers of summaries, which are traits that a caller implements, and the check
-- of a summary against a descriptor. src/types/invocation.rs: the kinds of calls.
use ferro_jtype.Prelude.{ℕ, Bool, true, false, ◌&&◌, List, Option, none, some, ◌==◌, if◌then◌else◌}
use ferro_jtype.Types.ClassName.{ClassName}
use ferro_jtype.Types.Primitive.{PrimitiveType}
use ferro_jtype.Types.Descriptor.{TypeDescriptor, primitive, MethodDescriptor}
use ferro_jtype.Types.Inferred.{
  ReferenceType, null, unknown, InferredType, InferredTypes, nil, cons, float, long, double,
  reference, alternatives,
}
use ferro_jtype.Types.Inferred.Join.{integral_types}
use ferro_jtype.Opcodes.{Opcodes}

pub data MethodInvocationKind : Type 0 where
  virtual special static interface : MethodInvocationKind

unfoldable pub from_opcode : Opcodes → ℕ → Option MethodInvocationKind
from_opcode op opcode =
    if opcode == op.invokevirtual
    then some virtual
    else if opcode == op.invokespecial
    then some special
    else if opcode == op.invokestatic
    then some static
    else if opcode == op.invokeinterface
    then some interface
    else none

-- The methods of the trait that the program calls.
pub record MethodSummaryResolver : Type 0 where
  pub return_type_for_call :
      ClassName → List ℕ → MethodDescriptor → MethodInvocationKind → Bool → Option InferredType
  pub returned_parameter_index_for_call :
      ClassName → List ℕ → MethodDescriptor → MethodInvocationKind → Bool → Option ℕ

pub record FieldSummaryResolver : Type 0 where
  pub value_type : ClassName → List ℕ → TypeDescriptor → Option InferredType

abbrev has_some {ℓ} : {A : Type ℓ} → Option A → Bool
has_some none = false
has_some (some _) = true

abbrev reference_matches : TypeDescriptor → ReferenceType → Bool
reference_matches (TypeDescriptor.reference c) unknown = false
reference_matches (TypeDescriptor.reference c) _ = true
reference_matches (TypeDescriptor.array n e) (ReferenceType.array d) = true
reference_matches (TypeDescriptor.array n e) null = true
reference_matches (TypeDescriptor.array n e) _ = false
reference_matches (primitive p) r = false

abbrev is_nonempty : InferredTypes → Bool
is_nonempty nil = false
is_nonempty (cons t ts) = true

unfoldable mutual
  pub reference_value_matches_descriptor : TypeDescriptor → InferredType → Bool
  reference_value_matches_descriptor d (reference r) = reference_matches d r
  reference_value_matches_descriptor d (alternatives ts) = is_nonempty ts && all_match d ts
  reference_value_matches_descriptor d _ = false

  pub all_match : TypeDescriptor → InferredTypes → Bool
  all_match d nil = true
  all_match d (cons t ts) = reference_value_matches_descriptor d t && all_match d ts

abbrev is_float : InferredType → Bool
is_float float = true
is_float _ = false

abbrev is_long : InferredType → Bool
is_long long = true
is_long _ = false

abbrev is_double : InferredType → Bool
is_double double = true
is_double _ = false

unfoldable pub value_type_matches_descriptor : TypeDescriptor → InferredType → Bool
unfolding reference_value_matches_descriptor
value_type_matches_descriptor (primitive PrimitiveType.float) t = is_float t
value_type_matches_descriptor (primitive PrimitiveType.long) t = is_long t
value_type_matches_descriptor (primitive PrimitiveType.double) t = is_double t
value_type_matches_descriptor (primitive _) t = has_some (integral_types t)
value_type_matches_descriptor d t = reference_value_matches_descriptor d t
