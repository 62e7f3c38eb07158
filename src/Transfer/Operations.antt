-- ===== src/Transfer/Operations.antt =====
-- src/solver/transfer/mod.rs: the functions that its dispatch over opcodes calls. The opcodes that
-- two of them are given stay arguments.
pub mod Keeps
use mathlib.Core.Option
use ferro_jtype.Prelude.{ℕ, ◌-◌, List, [], ◌∷◌, Option, none, some, ltb, ◌==◌, if◌then◌else◌}
use ferro_jtype.Prelude.Int.{ℤ}
use ferro_jtype.Types.ClassName
use ferro_jtype.Types.ClassName.{
  ClassName, java_lang_string, java_lang_class, java_lang_invoke_method_handle,
  java_lang_invoke_method_type,
}
use ferro_jtype.Types.Descriptor.{TypeDescriptor, primitive}
use ferro_jtype.Types.Integral.{for_constant}
use ferro_jtype.Types.Inferred.{
  ReferenceType, exact, array, null, unknown, InferredType, int, float, long, double, reference,
  return_address,
}
use ferro_jtype.Types.Inferred.Join.{from_integral_types}
use ferro_jtype.Frame.{ValueOrigin, InstanceOfFact, fact, Frame, inferred_from_descriptor}
use ferro_jtype.Frame.Locals.{or_else, set_local, store_local_value}
use ferro_jtype.Frame.Stack
use ferro_jtype.Frame.Stack.{
  push, push_allocation, push_return_address, push_local, push_instanceof_result,
}
use ferro_jtype.Ir.{
  InstructionOperandIr, local, constant, increment, ConstantKind, integer, string, type,
  method_handle, method_type, dynamic, InstructionIr,
}
use ferro_jtype.Transfer.{M, ◌>>=◌, ◌>>◌, modify, Site}
use ferro_jtype.Transfer.Stack.{pop, discard, pop_value}
use ferro_jtype.Transfer.Array.{and_then, or_unknown, to_option, type_name, reference_descriptor}

-- `checked_sub` and `filter`
abbrev short_index : ℕ → ℕ → Option ℕ
short_index opcode short_base =
    if ltb opcode short_base
    then none
    else if ltb (opcode - short_base) 4
    then some (opcode - short_base)
    else none

abbrev operand_local : InstructionOperandIr → Option ℕ
operand_local (local l) = some l
operand_local _ = none

unfoldable pub local_index : InstructionIr → ℕ → ℕ → Option ℕ
local_index instruction wide_opcode short_base =
    if instruction.opcode == wide_opcode
    then operand_local instruction.operand
    else short_index instruction.opcode short_base

unfoldable pub load_local : ℕ → ℕ → Site → M (Unit {0})
unfolding local_index
load_local wide_opcode short_base site = modify (
    push_local (or_else 0 (local_index site.instruction wide_opcode short_base))
      site.instruction.offset)

unfoldable pub store_local : ℕ → ℕ → Site → M (Unit {0})
unfolding local_index pop_value
store_local wide_opcode short_base site = do
  value ← pop_value site
  modify (
      store_local_value (or_else 0 (local_index site.instruction wide_opcode short_base)) value
        site.instruction.offset)

unfoldable pub binary : InferredType → Site → M (Unit {0})
unfolding discard
binary result site = do discard site; discard site; modify (push result)

unfoldable pub unary : Site → M (Unit {0})
unfolding pop
unary site = do value ← pop site; modify (push value)

unfoldable pub convert : InferredType → Site → M (Unit {0})
unfolding discard
convert result site = do discard site; modify (push result)

abbrev pub increment_of : InstructionOperandIr → Frame → Frame
increment_of (increment l _) f = set_local l int f
increment_of _ f = f

unfoldable pub increment_local : Site → M (Unit {0})
increment_local site = modify (increment_of site.instruction.operand)

abbrev pub allocation_of : Option ClassName → ℕ → Frame → Frame
allocation_of (some c) offset f = push_allocation c offset f
allocation_of none offset f = push (reference unknown) f

unfoldable pub allocate_object : Site → M (Unit {0})
unfolding type_name
allocate_object site = modify (
    allocation_of (and_then (type_name site.instruction) (λ name. to_option (ClassName.parse name)))
      site.instruction.offset)

abbrev cast_of : TypeDescriptor → ReferenceType
cast_of (TypeDescriptor.reference c) = exact c
cast_of (TypeDescriptor.array n e) = array (TypeDescriptor.array n e)
cast_of (primitive p) = unknown

-- The type of a value that has been cast: `null` stays `null`.
abbrev cast_type : ReferenceType → InferredType → InferredType
cast_type r (reference null) = reference null
cast_type r _ = reference r

unfoldable pub cast_reference : Site → M (Unit {0})
unfolding pop_value type_name reference_descriptor
cast_reference site = do
  v ← pop_value site
  let r =
      or_unknown (Option.map cast_of (and_then (type_name site.instruction) reference_descriptor))
  modify (Stack.push_value (record v { value = cast_type r v.value }))

abbrev tested : TypeDescriptor → Option ReferenceType
tested (TypeDescriptor.reference c) = some (exact c)
tested (TypeDescriptor.array n e) = some (array (TypeDescriptor.array n e))
tested (primitive p) = none

-- `zip`
abbrev fact_of : Option ValueOrigin → Option ReferenceType → Option InstanceOfFact
fact_of (some origin) (some r) = some (fact origin r)
fact_of _ _ = none

unfoldable pub instance_of : Site → M (Unit {0})
unfolding pop_value type_name reference_descriptor
instance_of site = do
  v ← pop_value site
  let r = and_then (and_then (type_name site.instruction) reference_descriptor) tested
  modify (push_instanceof_result (fact_of v.local_origin r))

abbrev constant_type : ConstantKind → InferredType
constant_type (integer value) = from_integral_types (for_constant value)
constant_type ConstantKind.float = float
constant_type ConstantKind.long = long
constant_type ConstantKind.double = double
constant_type string = reference (exact java_lang_string)
constant_type type = reference (exact java_lang_class)
constant_type method_handle = reference (exact java_lang_invoke_method_handle)
constant_type method_type = reference (exact java_lang_invoke_method_type)
constant_type (dynamic descriptor) = inferred_from_descriptor descriptor
constant_type ConstantKind.unresolved = reference unknown

abbrev constant_of : InstructionOperandIr → InferredType
constant_of (constant kind) = constant_type kind
constant_of _ = reference unknown

unfoldable pub push_constant : Site → M (Unit {0})
push_constant site = modify (push (constant_of site.instruction.operand))

unfoldable pub push_integer : ℤ → M (Unit {0})
push_integer value = modify (push (from_integral_types (for_constant value)))

-- The offset of the instruction after the first one at an offset.
abbrev offset_after : ℕ → List InstructionIr → Option ℕ
offset_after offset [] = none
offset_after offset (i ∷ []) = none
offset_after offset (i ∷ j ∷ rest) =
    let later = offset_after offset (j ∷ rest) in
    if i.offset == offset then some j.offset else later

abbrev pub subroutine_of : Option ℕ → Frame → Frame
subroutine_of (some target) f = push_return_address target f
subroutine_of none f = push return_address f

unfoldable pub push_subroutine_return_address : Site → M (Unit {0})
push_subroutine_return_address site =
    modify (subroutine_of (offset_after site.instruction.offset site.method.instructions))
