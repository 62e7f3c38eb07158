-- ===== src/Transfer/Call.antt =====
-- src/solver/transfer/member.rs: the calls.
pub mod Keeps
use ferro_jtype.Prelude.{
  ℕ, Bool, true, false, ◌&&◌, List, [], ◌∷◌, Option, none, some, ◌==◌, if◌then◌else◌, as_bool,
  codes,
}
use ferro_jtype.Types.ClassName.{ClassName, as_str, java_lang_object}
use ferro_jtype.Types.Descriptor.{
  TypeDescriptor, TypeDescriptor-discrete, ReturnType, void, type, MethodDescriptor, parse_method,
}
use ferro_jtype.Types.Inferred.{
  ReferenceType, exact, InferredType, reference, uninitialized, uninitialized_this,
}
use ferro_jtype.Hierarchy.{is_same}
use ferro_jtype.Frame.{ValueOrigin, allocation, Frame, FrameValue}
use ferro_jtype.Frame.Stack.{push_value, clear_stack}
use ferro_jtype.Frame.Replace.{replace_uninitialized, replace_uninitialized_this}
use ferro_jtype.Ir.{
  MethodIr, InstructionIr, InstructionOperandIr, type_operand, invoke_dynamic, MemberRefIr,
  array_method, resolved,
}
use ferro_jtype.Opcodes.{Opcodes}
use ferro_jtype.Summary.{from_opcode, MethodSummaryResolver}
use ferro_jtype.Transfer.{M, ◌>>=◌, ◌>>◌, pure, modify, Site}
use ferro_jtype.Transfer.Stack
use ferro_jtype.Transfer.Stack.{discard, unsupported}
use ferro_jtype.Transfer.Array.{to_option, and_then}
use ferro_jtype.Transfer.Member.{
  is_same_text, method_call_descriptor, resolve_method_summary, resolve_returned_parameter,
  push_return_type,
}

-- One value for each parameter, the last one from the top; the result has the first one first.
unfoldable pub pop_arguments : Site → List TypeDescriptor → List FrameValue → M (List FrameValue)
pop_arguments site [] arguments = pure arguments
pop_arguments site (_ ∷ ds) arguments = do
  v ← Stack.pop_value site
  pop_arguments site ds (v ∷ arguments)

abbrev pub pop_receiver : Opcodes → Site → M (Option FrameValue)
pop_receiver op site =
    if site.instruction.opcode == op.invokestatic
    then pure none
    else do v ← Stack.pop_value site; pure (some v)

-- Whether the descriptor is that of `Object clone()`.
abbrev is_object : ReturnType → Bool
is_object void = false
is_object (type d) = as_bool (TypeDescriptor-discrete d (TypeDescriptor.reference java_lang_object))

abbrev has_none {ℓ} : {A : Type ℓ} → List A → Bool
has_none [] = true
has_none (_ ∷ _) = false

abbrev array_clone :
    Opcodes → Site → TypeDescriptor → List ℕ → MethodDescriptor → Option InferredType
array_clone op site owner name d =
    if site.instruction.opcode == op.invokevirtual
      && is_same_text name (codes "clone")
      && has_none d.parameters
      && is_object d.return_type
    then some (reference (ReferenceType.array owner))
    else none

abbrev pub initialized : ClassName → InferredType → Frame → Frame
initialized owner (uninitialized c offset) f = replace_uninitialized offset owner f
initialized owner (uninitialized_this c) f = replace_uninitialized_this c f
initialized owner _ f = f

abbrev pub construct : List ℕ → ClassName → Option FrameValue → Frame → Frame
construct name owner none f = f
construct name owner (some v) f =
    if is_same_text name (codes "<init>") then initialized owner v.value f else f

-- `binary_search_by_key` over instructions, of which the offsets ascend.
abbrev instruction_at : List InstructionIr → ℕ → Option InstructionIr
instruction_at [] offset = none
instruction_at (i ∷ is) offset =
    let later = instruction_at is offset in if i.offset == offset then some i else later

abbrev names_class : InstructionOperandIr → ClassName → Bool
names_class (type_operand (some name) index) owner = is_same_text name (as_str owner)
names_class _ owner = false

abbrev is_allocation : Opcodes → ClassName → Option InstructionIr → Bool
is_allocation op owner none = false
is_allocation op owner (some i) = i.opcode == op.new && names_class i.operand owner

abbrev is_exact_at : Opcodes → MethodIr → ClassName → InferredType → Option ValueOrigin → Bool
is_exact_at op method owner (reference (exact c)) (some (allocation offset)) =
    is_same c owner && is_allocation op owner (instruction_at method.instructions offset)
is_exact_at op method owner _ _ = false

abbrev is_exact_receiver : Opcodes → MethodIr → MemberRefIr → Option FrameValue → Bool
is_exact_receiver op method (resolved owner name descriptor) (some v) =
    is_exact_at op method owner v.value v.local_origin
is_exact_receiver op method _ _ = false

unfoldable pub receiver_is_exact_allocation :
    Opcodes → MethodIr → MemberRefIr → Option FrameValue → Bool
receiver_is_exact_allocation op method m receiver = is_exact_receiver op method m receiver

abbrev pub push_result : MethodDescriptor → Option InferredType → Option FrameValue → M (Unit {0})
push_result d summary (some v) = modify (push_value v)
push_result d summary none = push_return_type d summary

-- What the call leaves on the stack, from the summaries where there are any.
abbrev pub return_from :
    Opcodes
    → Site
    → Option MethodSummaryResolver
    → MethodDescriptor
    → MemberRefIr
    → List FrameValue
    → Option FrameValue
    → M (Unit {0})
return_from op site resolver d m arguments receiver =
    let kind = from_opcode op site.instruction.opcode in
    let exact_receiver = receiver_is_exact_allocation op site.method m receiver in
    let summary = and_then kind (λ kind. resolve_method_summary m d resolver kind exact_receiver) in
    let parameter =
      and_then kind
        (λ kind. resolve_returned_parameter m d resolver kind arguments exact_receiver summary) in
    push_result d summary parameter

abbrev pub finish_call :
    Opcodes
    → Site
    → Option MethodSummaryResolver
    → MethodDescriptor
    → MemberRefIr
    → List FrameValue
    → Option FrameValue
    → M (Unit {0})
finish_call op site resolver d (array_method owner name descriptor) arguments receiver =
    push_return_type d (array_clone op site owner name d)
finish_call op site resolver d (resolved owner name descriptor) arguments receiver = do
  modify (construct name owner receiver)
  return_from op site resolver d (resolved owner name descriptor) arguments receiver
finish_call op site resolver d (MemberRefIr.unresolved index) arguments receiver =
    return_from op site resolver d (MemberRefIr.unresolved index) arguments receiver

abbrev pub call :
    Opcodes
    → Site
    → Option MethodSummaryResolver
    → Option (MethodDescriptor × MemberRefIr)
    → M (Unit {0})
call op site resolver none = modify clear_stack
call op site resolver (some (d, m)) = do
  arguments ← pop_arguments site d.parameters []
  receiver ← pop_receiver op site
  finish_call op site resolver d m arguments receiver

unfoldable pub invoke_member : Opcodes → Site → Option MethodSummaryResolver → M (Unit {0})
unfolding pop_arguments receiver_is_exact_allocation
invoke_member op site resolver = do
  called ← method_call_descriptor site
  call op site resolver called

unfoldable pub discard_each : Site → List TypeDescriptor → M (Unit {0})
discard_each site [] = pure tt
discard_each site (_ ∷ ds) = do discard site; discard_each site ds

abbrev pub call_dynamic : Site → Option MethodDescriptor → M (Unit {0})
call_dynamic site none = do unsupported site; modify clear_stack
call_dynamic site (some d) = do discard_each site d.parameters; push_return_type d none

abbrev pub dynamic_of : Site → InstructionOperandIr → M (Unit {0})
dynamic_of site (invoke_dynamic descriptor index kind) =
    call_dynamic site (and_then descriptor (λ text. to_option (parse_method text)))
dynamic_of site _ = pure tt

unfoldable pub invoke_dynamic_call : Site → M (Unit {0})
invoke_dynamic_call site = dynamic_of site site.instruction.operand
