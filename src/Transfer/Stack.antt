-- ===== src/Transfer/Stack.antt =====
-- src/solver/transfer/stack.rs: instructions that move entries of the operand stack.
pub mod Words
pub mod Effect
use ferro_jtype.Prelude.{
  ℕ, Bool, true, false, ◌&&◌, [], ◌∷◌, ◌++◌, Option, none, some, if◌then◌else◌,
}
use ferro_jtype.Diagnostic.{
  warning, stack_underflow, unsupported_instruction, DiagnosticLocation, Diagnostic, OperandDetails,
  no_details, constant_pool_index, type_constant_pool_index, argument_count,
  dynamic_constant_pool_index, increment_amount, unresolved_member_index, empty_operand_stack,
  opcode_not_modeled, method_location, at_offset,
}
use ferro_jtype.Types.Inferred.{InferredType, long, double, conflict}
use ferro_jtype.Frame.{Frame, FrameValue, plain}
use ferro_jtype.Frame.Stack
use ferro_jtype.Ir.{
  MethodIr, MemberRefIr, InstructionOperandIr, constant_pool, type_operand, member,
  invoke_interface, invoke_dynamic, increment, multi_array,
}
use ferro_jtype.Transfer.{M, ◌>>=◌, ◌>>◌, pure, modify, Site}

abbrev pub location : MethodIr → ℕ → DiagnosticLocation
location method offset = at_offset offset (method_location method.name method.descriptor_text)

abbrev pub is_category_two : InferredType → Bool
is_category_two long = true
is_category_two double = true
is_category_two _ = false

abbrev pub report : Diagnostic → M (Unit {0})
report d s = (tt, record s { diagnostics = s.diagnostics ++ d ∷ [] })

abbrev pub underflow : Site → Diagnostic
underflow site = record {
  severity = warning;
  kind = stack_underflow;
  location = location site.method site.instruction.offset;
  message = empty_operand_stack;
}

-- `unwrap_or_else`: what `frame.pop_value()` gave decides.
abbrev pub take_popped : Site → Option (FrameValue × Frame) → M FrameValue
take_popped site (some (v, f)) s = (v, record s { frame = f })
take_popped site none s =
    (plain conflict, record s { diagnostics = s.diagnostics ++ underflow site ∷ [] })

unfoldable pub pop_value : Site → M FrameValue
unfolding Stack.pop_value
pop_value site s = take_popped site (Stack.pop_value s.frame) s

abbrev pub push_value : FrameValue → M (Unit {0})
push_value v = modify (Stack.push_value v)

unfoldable pub pop : Site → M InferredType
unfolding pop_value
pop site = do v ← pop_value site; pure v.value

unfoldable pub discard : Site → M (Unit {0})
unfolding pop
discard site = do _ ← pop site; pure tt

unfoldable pub discard_two_slots : Site → M (Unit {0})
unfolding discard
discard_two_slots site = do top ← pop site; if is_category_two top then pure tt else discard site

unfoldable pub duplicate_top : Site → M (Unit {0})
unfolding pop_value
duplicate_top site = do value ← pop_value site; push_value value; push_value value

unfoldable pub duplicate_x1 : Site → M (Unit {0})
unfolding pop_value
duplicate_x1 site = do
  first ← pop_value site
  second ← pop_value site
  push_value first
  push_value second
  push_value first

unfoldable pub duplicate_x2 : Site → M (Unit {0})
unfolding pop_value
duplicate_x2 site = do
  first ← pop_value site
  second ← pop_value site
  let two = do push_value first; push_value second; push_value first
  let three = do
    third ← pop_value site
    push_value first
    push_value third
    push_value second
    push_value first
  if is_category_two second.value then two else three

unfoldable pub duplicate_two : Site → M (Unit {0})
unfolding pop_value
duplicate_two site = do
  first ← pop_value site
  let one = do push_value first; push_value first
  let two = do
    second ← pop_value site
    push_value second
    push_value first
    push_value second
    push_value first
  if is_category_two first.value then one else two

unfoldable pub duplicate_two_x1 : Site → M (Unit {0})
unfolding pop_value
duplicate_two_x1 site = do
  first ← pop_value site
  second ← pop_value site
  let two = do push_value first; push_value second; push_value first
  let three = do
    third ← pop_value site
    push_value second
    push_value first
    push_value third
    push_value second
    push_value first
  if is_category_two first.value then two else three

-- `duplicate_two_x2` from its third entry on, with two entries of category one on top.
abbrev pub duplicate_pair_x2 : Site → FrameValue → FrameValue → M (Unit {0})
duplicate_pair_x2 site first second = do
  third ← pop_value site
  let three = do
    push_value second
    push_value first
    push_value third
    push_value second
    push_value first
  let four = do
    fourth ← pop_value site
    push_value second
    push_value first
    push_value fourth
    push_value third
    push_value second
    push_value first
  if is_category_two third.value then three else four

unfoldable pub duplicate_two_x2 : Site → M (Unit {0})
unfolding pop_value
duplicate_two_x2 site = do
  first ← pop_value site
  second ← pop_value site
  let two = do push_value first; push_value second; push_value first
  let three = do
    third ← pop_value site
    push_value first
    push_value third
    push_value second
    push_value first
  if is_category_two first.value && is_category_two second.value
      then two
      else if is_category_two first.value
      then three
      else duplicate_pair_x2 site first second

unfoldable pub swap : Site → M (Unit {0})
unfolding pop_value
swap site = do first ← pop_value site; second ← pop_value site; push_value first; push_value second

abbrev pub operand_details : InstructionOperandIr → OperandDetails
operand_details (constant_pool index) = constant_pool_index index
operand_details (type_operand _ index) = type_constant_pool_index index
operand_details (multi_array _ _ index) = type_constant_pool_index index
operand_details (invoke_interface _ count) = argument_count count
operand_details (invoke_dynamic _ index _) = dynamic_constant_pool_index index
operand_details (increment _ amount) = increment_amount amount
operand_details (member (MemberRefIr.unresolved index)) = unresolved_member_index index
operand_details _ = no_details

unfoldable pub unsupported : Site → M (Unit {0})
unsupported site = report (record {
  severity = warning;
  kind = unsupported_instruction;
  location = location site.method site.instruction.offset;
  message = opcode_not_modeled site.instruction.opcode (operand_details site.instruction.operand);
})
