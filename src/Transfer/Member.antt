-- ===== src/Transfer/Member.antt =====
-- src/solver/transfer/member.rs: fields and calls. The member of a call is a plain value: where the
-- source has an `Option` of it, it is always `Some`.
use ferro_jtype.Prelude.{
  ℕ, Bool, true, false, not, ◌&&◌, List, Option, none, some, get_elem?, if◌then◌else◌, as_bool,
  ℕ_discrete,
}
use ferro_jtype.Types.ClassName.{ClassName}
use ferro_jtype.Types.Descriptor.{
  TypeDescriptor, ReturnType, void, type, MethodDescriptor, parse, parse_method,
}
use ferro_jtype.Types.Inferred.{null, unknown, InferredType, reference, InferredType-discrete}
use ferro_jtype.Frame.{Frame, FrameValue, inferred_from_descriptor}
use ferro_jtype.Frame.Stack.{push}
use ferro_jtype.Ir.{
  InstructionOperandIr, member, invoke_interface, MemberRefIr, array_method, resolved,
}
use ferro_jtype.Summary.{
  MethodInvocationKind, MethodSummaryResolver, FieldSummaryResolver, value_type_matches_descriptor,
}
use ferro_jtype.Transfer.{M, ◌>>=◌, ◌>>◌, pure, modify, Site}
use ferro_jtype.Transfer.Stack.{discard, unsupported}
use ferro_jtype.Transfer.Array.{to_option, and_then}

-- `==` on strings, which are their bytes.
unfoldable pub bytes-discrete : Discrete (List ℕ)
bytes-discrete = hlevel ℕ_discrete

abbrev pub is_same_text : List ℕ → List ℕ → Bool
is_same_text a b = as_bool (bytes-discrete a b)

abbrev pub or_type : Option InferredType → InferredType → InferredType
or_type none t = t
or_type (some s) t = s

-- `filter`
abbrev pub keep_if {ℓ} : {A : Type ℓ} → (A → Bool) → Option A → Option A
keep_if p none = none
keep_if p (some a) = if p a then some a else none

abbrev summary_of_field :
    Option FieldSummaryResolver → ClassName → List ℕ → TypeDescriptor → Option InferredType
summary_of_field none owner name d = none
summary_of_field (some resolver) owner name d = resolver.value_type owner name d

abbrev pub type_of_field :
    Site → Option FieldSummaryResolver → ClassName → List ℕ → Option TypeDescriptor → M InferredType
type_of_field site resolver owner name none = do unsupported site; pure (reference unknown)
type_of_field site resolver owner name (some d) = pure (
    or_type (keep_if (value_type_matches_descriptor d) (summary_of_field resolver owner name d))
      (inferred_from_descriptor d))

abbrev pub field_of : Site → Option FieldSummaryResolver → InstructionOperandIr → M InferredType
field_of site resolver (member (resolved owner name descriptor)) =
    type_of_field site resolver owner name (to_option (parse descriptor))
field_of site resolver _ = do unsupported site; pure (reference unknown)

unfoldable pub field_type : Site → Option FieldSummaryResolver → M InferredType
unfolding value_type_matches_descriptor
field_type site resolver = field_of site resolver site.instruction.operand

unfoldable pub field_get : Site → Bool → Option FieldSummaryResolver → M (Unit {0})
unfolding field_type
field_get site has_receiver resolver = do
  if has_receiver then discard site else pure tt
  t ← field_type site (if has_receiver then none else resolver)
  modify (push t)

unfoldable pub field_put : Site → Bool → M (Unit {0})
field_put site has_receiver = do discard site; if has_receiver then discard site else pure tt

abbrev pub call_or_unsupported :
    Site → MemberRefIr → Option MethodDescriptor → M (Option (MethodDescriptor × MemberRefIr))
call_or_unsupported site m none = do unsupported site; pure none
call_or_unsupported site m (some d) = pure (some (d, m))

abbrev pub call_of_member : Site → MemberRefIr → M (Option (MethodDescriptor × MemberRefIr))
call_of_member site (resolved owner name descriptor) =
    call_or_unsupported site (resolved owner name descriptor) (to_option (parse_method descriptor))
call_of_member site (array_method owner name descriptor) =
    call_or_unsupported site (array_method owner name descriptor)
      (to_option (parse_method descriptor))
call_of_member site (MemberRefIr.unresolved index) = do unsupported site; pure none

abbrev pub call_of : Site → InstructionOperandIr → M (Option (MethodDescriptor × MemberRefIr))
call_of site (member m) = call_of_member site m
call_of site (invoke_interface m count) = call_of_member site m
call_of site _ = pure none

unfoldable pub method_call_descriptor : Site → M (Option (MethodDescriptor × MemberRefIr))
method_call_descriptor site = call_of site site.instruction.operand

abbrev matches_return : ReturnType → InferredType → Bool
matches_return void t = false
matches_return (type d) t = value_type_matches_descriptor d t

unfoldable pub method_summary_is_compatible : MethodDescriptor → InferredType → Bool
unfolding value_type_matches_descriptor
method_summary_is_compatible d t = matches_return d.return_type t

abbrev summary_of_call :
    MemberRefIr
    → MethodDescriptor
    → Option MethodSummaryResolver
    → MethodInvocationKind
    → Bool
    → Option InferredType
summary_of_call (resolved owner name _) d (some resolver) kind exact_receiver =
    resolver.return_type_for_call owner name d kind exact_receiver
summary_of_call _ d _ kind exact_receiver = none

unfoldable pub resolve_method_summary :
    MemberRefIr
    → MethodDescriptor
    → Option MethodSummaryResolver
    → MethodInvocationKind
    → Bool
    → Option InferredType
unfolding method_summary_is_compatible
resolve_method_summary m d resolver kind exact_receiver =
    keep_if (method_summary_is_compatible d) (summary_of_call m d resolver kind exact_receiver)

abbrev index_of_call :
    MemberRefIr
    → MethodDescriptor
    → Option MethodSummaryResolver
    → MethodInvocationKind
    → Bool
    → Option ℕ
index_of_call (resolved owner name _) d (some resolver) kind exact_receiver =
    resolver.returned_parameter_index_for_call owner name d kind exact_receiver
index_of_call _ d _ kind exact_receiver = none

abbrev is_null : InferredType → Bool
is_null (reference null) = true
is_null _ = false

-- The argument with the type of the summary, where the summary says more than the descriptor.
abbrev summarized : Option InferredType → TypeDescriptor → FrameValue → FrameValue
summarized none parameter v = v
summarized (some summary) parameter v =
    if not (as_bool (InferredType-discrete summary (inferred_from_descriptor parameter)))
      && not (is_null v.value)
    then record v { value = summary }
    else v

unfoldable pub resolve_returned_parameter :
    MemberRefIr
    → MethodDescriptor
    → Option MethodSummaryResolver
    → MethodInvocationKind
    → List FrameValue
    → Bool
    → Option InferredType
    → Option FrameValue
unfolding method_summary_is_compatible
resolve_returned_parameter m d resolver kind arguments exact_receiver summary =
    and_then (index_of_call m d resolver kind exact_receiver) (λ index.
      and_then (get_elem? d.parameters index) (λ parameter.
        and_then (get_elem? arguments index) (λ argument.
          keep_if (λ (v : FrameValue). method_summary_is_compatible d v.value)
            (some (summarized summary parameter argument)))))

abbrev pub push_return : ReturnType → Option InferredType → Frame → Frame
push_return void summary f = f
push_return (type d) summary f = push (or_type summary (inferred_from_descriptor d)) f

unfoldable pub push_return_type : MethodDescriptor → Option InferredType → M (Unit {0})
push_return_type d summary = modify (push_return d.return_type summary)
