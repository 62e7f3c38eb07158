-- ===== src/Transfer/Call/Keeps.antt =====
-- The fields and calls of src/solver/transfer/member.rs make frames only by the methods of
-- src/solver/frame.rs.
use ferro_jtype.Prelude.{
  ℕ, Bool, true, false, List, [], ◌∷◌, Option, none, some, if◌then◌else◌, codes, ◌==◌,
}
use ferro_jtype.Types.ClassName.{ClassName}
use ferro_jtype.Types.Descriptor.{
  TypeDescriptor, ReturnType, void, type, MethodDescriptor, parse, parse_method,
}
use ferro_jtype.Types.Inferred.{InferredType, uninitialized, uninitialized_this}
use ferro_jtype.Frame.{Frame, FrameValue}
use ferro_jtype.Frame.Stack.{clear_stack}
use ferro_jtype.Frame.WellFormed.Reachable.{
  IsReachable, after, pushing, pushing_value, clearing, initializing, initializing_this,
}
use ferro_jtype.Ir.{
  InstructionOperandIr, member, invoke_interface, invoke_dynamic, MemberRefIr, array_method,
  resolved,
}
use ferro_jtype.Opcodes.{Opcodes}
use ferro_jtype.Summary.{MethodSummaryResolver, FieldSummaryResolver}
use ferro_jtype.Transfer.{◌>>=◌, pure, modify, Site}
use ferro_jtype.Transfer.Stack
use ferro_jtype.Transfer.Stack.{discard, unsupported}
use ferro_jtype.Transfer.Array.{to_option}
use ferro_jtype.Transfer.Operations.Keeps.{
  popping_one, not_modeled, Keeps, if-Keeps, popped, execute-Keeps,
}
use ferro_jtype.Transfer.Member.{
  is_same_text, type_of_field, field_of, field_type, field_get, field_put, call_or_unsupported,
  call_of_member, call_of, method_call_descriptor, push_return, push_return_type,
}
use ferro_jtype.Transfer.Call.{
  pop_arguments, pop_receiver, initialized, construct, push_result, finish_call, call,
  invoke_member, discard_each, call_dynamic, dynamic_of, invoke_dynamic_call,
}

pure-Keeps : {A : Type 0} (a : A) → Keeps (pure a)
pure-Keeps a s r = r

clear-Keeps : Keeps (modify clear_stack)
clear-Keeps s r = after clearing s.frame r

push_return_type-Keeps :
    (d : MethodDescriptor) (t : Option InferredType) → Keeps (push_return_type d t)
unfolding push_return_type
push_return_type-Keeps d t s r = returned d.return_type
  where
    returned : (result : ReturnType) → IsReachable (push_return result t s.frame)
    returned void = r
    returned (type descriptor) = after (pushing _) s.frame r

module _ (site : Site) where
  discarded-Keeps : Keeps (discard site)
  discarded-Keeps = execute-Keeps site popping_one

  unsupported-Keeps : Keeps (unsupported site)
  unsupported-Keeps = execute-Keeps site not_modeled

  receiver_discarded :
      (has_receiver : Bool) → Keeps (if has_receiver then discard site else pure tt)
  receiver_discarded has_receiver =
      if-Keeps has_receiver (discard site) (pure tt) discarded-Keeps (pure-Keeps tt)

  field_of-Keeps :
      (resolver : Option FieldSummaryResolver) (operand : InstructionOperandIr)
      → Keeps (field_of site resolver operand)
  field_of-Keeps resolver (member (resolved owner name descriptor)) s r =
      parsed (to_option (parse descriptor)) s r
    where
      parsed : (d : Option TypeDescriptor) → Keeps (type_of_field site resolver owner name d)
      parsed none s r = unsupported-Keeps s r
      parsed (some d) s r = r
  field_of-Keeps resolver _ s r = unsupported-Keeps s r

  pub field_get-Keeps :
      (has_receiver : Bool) (resolver : Option FieldSummaryResolver)
      → Keeps (field_get site has_receiver resolver)
  unfolding field_get field_type
  field_get-Keeps has_receiver resolver s r =
      let discarded = receiver_discarded has_receiver s r in
      let fields = if has_receiver then none else resolver in
      after (pushing _) _ (field_of-Keeps fields site.instruction.operand _ discarded)

  pub field_put-Keeps : (has_receiver : Bool) → Keeps (field_put site has_receiver)
  unfolding field_put
  field_put-Keeps has_receiver s r = receiver_discarded has_receiver _ (discarded-Keeps s r)

  call_of_member-Keeps : (m : MemberRefIr) → Keeps (call_of_member site m)
  call_of_member-Keeps m = by_member m
    where
      parsed :
          (m : MemberRefIr) (d : Option MethodDescriptor) → Keeps (call_or_unsupported site m d)
      parsed m none s r = unsupported-Keeps s r
      parsed m (some d) s r = r

      by_member : (m : MemberRefIr) → Keeps (call_of_member site m)
      by_member (resolved owner name descriptor) = parsed _ (to_option (parse_method descriptor))
      by_member (array_method owner name descriptor) =
          parsed _ (to_option (parse_method descriptor))
      by_member (MemberRefIr.unresolved index) = unsupported-Keeps

  call_of-Keeps : (operand : InstructionOperandIr) → Keeps (call_of site operand)
  call_of-Keeps (member m) s r = call_of_member-Keeps m s r
  call_of-Keeps (invoke_interface m count) s r = call_of_member-Keeps m s r
  call_of-Keeps _ s r = r

  pop_arguments-Keeps :
      (ds : List TypeDescriptor) (arguments : List FrameValue)
      → Keeps (pop_arguments site ds arguments)
  unfolding pop_arguments
  pop_arguments-Keeps [] arguments s r = r
  pop_arguments-Keeps (d ∷ ds) arguments s r = pop_arguments-Keeps ds _ _ (popped site s r)

  discard_each-Keeps : (ds : List TypeDescriptor) → Keeps (discard_each site ds)
  unfolding discard_each
  discard_each-Keeps [] s r = r
  discard_each-Keeps (d ∷ ds) s r = discard_each-Keeps ds _ (discarded-Keeps s r)

  call_dynamic-Keeps : (d : Option MethodDescriptor) → Keeps (call_dynamic site d)
  call_dynamic-Keeps none s r = clear-Keeps (unsupported site s).1 (unsupported-Keeps s r)
  call_dynamic-Keeps (some d) s r =
      push_return_type-Keeps d none _ (discard_each-Keeps d.parameters s r)

  pub invoke_dynamic_call-Keeps : Keeps (invoke_dynamic_call site)
  unfolding invoke_dynamic_call
  invoke_dynamic_call-Keeps = by_operand site.instruction.operand
    where
      by_operand : (operand : InstructionOperandIr) → Keeps (dynamic_of site operand)
      by_operand (invoke_dynamic descriptor index kind) s r = call_dynamic-Keeps _ s r
      by_operand _ s r = r

construct-IsReachable :
    (name : List ℕ) (owner : ClassName) (receiver : Option FrameValue) (f : Frame)
    → IsReachable f
    → IsReachable (construct name owner receiver f)
construct-IsReachable name owner none f r = r
construct-IsReachable name owner (some v) f r = chosen (is_same_text name (codes "<init>"))
  where
    by_value : (t : InferredType) → IsReachable (initialized owner t f)
    by_value (uninitialized c offset) = after (initializing offset owner) f r
    by_value (uninitialized_this c) = after (initializing_this c) f r
    by_value _ = r

    chosen : (b : Bool) → IsReachable (if b then initialized owner v.value f else f)
    chosen true = by_value v.value
    chosen false = r

module _ (op : Opcodes) (site : Site) (resolver : Option MethodSummaryResolver) where
  push_result-Keeps :
      (d : MethodDescriptor) (summary : Option InferredType) (v : Option FrameValue)
      → Keeps (push_result d summary v)
  push_result-Keeps d summary (some v) s r = after (pushing_value v) s.frame r
  push_result-Keeps d summary none s r = push_return_type-Keeps d summary s r

  finish_call-Keeps :
      (d : MethodDescriptor) (m : MemberRefIr) (arguments : List FrameValue)
      (receiver : Option FrameValue)
      → Keeps (finish_call op site resolver d m arguments receiver)
  finish_call-Keeps d (array_method owner name descriptor) arguments receiver s r =
      push_return_type-Keeps d _ s r
  finish_call-Keeps d (resolved owner name descriptor) arguments receiver s r =
      push_result-Keeps d _ _ _ (construct-IsReachable name owner receiver s.frame r)
  finish_call-Keeps d (MemberRefIr.unresolved index) arguments receiver s r =
      push_result-Keeps d _ _ s r

  pop_receiver-Keeps : Keeps (pop_receiver op site)
  pop_receiver-Keeps = chosen (site.instruction.opcode == op.invokestatic)
    where
      chosen :
          (b : Bool) → Keeps (if b then pure none else do v ← Stack.pop_value site; pure (some v))
      chosen true s r = r
      chosen false s r = popped site s r

  call-Keeps :
      (called : Option (MethodDescriptor × MemberRefIr)) → Keeps (call op site resolver called)
  call-Keeps none s r = clear-Keeps s r
  call-Keeps (some (d, m)) s r =
      let popped_all = pop_arguments-Keeps site d.parameters [] s r in
      finish_call-Keeps d m _ _ _ (pop_receiver-Keeps _ popped_all)

  pub invoke_member-Keeps : Keeps (invoke_member op site resolver)
  unfolding invoke_member method_call_descriptor
  invoke_member-Keeps s r = call-Keeps _ _ (call_of-Keeps site site.instruction.operand s r)
