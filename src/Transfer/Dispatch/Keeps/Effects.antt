-- ===== src/Transfer/Dispatch/Keeps/Effects.antt =====
-- The arms of src/solver/transfer/mod.rs for arithmetic, conversions, control flow, members and
-- objects.
use ferro_jtype.Prelude.{true, false, Option}
use ferro_jtype.Types.Integral.{byte_set, char_set, short_set}
use ferro_jtype.Types.Inferred.{int, integral, float, long, double}
use ferro_jtype.Frame.Stack.{push}
use ferro_jtype.Opcodes.{Opcodes}
use ferro_jtype.Summary.{MethodSummaryResolver, FieldSummaryResolver}
use ferro_jtype.Transfer.{modify, Site}
use ferro_jtype.Transfer.Stack.{discard}
use ferro_jtype.Transfer.Operations.Keeps.{
  popping_one, computing, converting, negating, incrementing, allocating, allocating_primitives,
  allocating_references, allocating_arrays, casting, testing, calling_subroutine, not_modeled,
  Keeps, execute-Keeps, then-Keeps,
}
use ferro_jtype.Transfer.Call.Keeps.{
  field_get-Keeps, field_put-Keeps, invoke_member-Keeps, invoke_dynamic_call-Keeps,
}
use ferro_jtype.Transfer.Dispatch.{
  discard_both, array_length, arithmetic_arms, conversion_arms, control_arms, member_arms,
  object_arms,
}
use ferro_jtype.Transfer.Dispatch.Keeps.Arms.{◌&◌, KeepsAll, nothing-Keeps, push-Keeps}

module _ (op : Opcodes) (methods : Option MethodSummaryResolver)
    (fields : Option FieldSummaryResolver) (site : Site) where
  discard_both-Keeps : Keeps (discard_both site)
  discard_both-Keeps =
      then-Keeps (discard site) (discard site) (execute-Keeps site popping_one)
        (execute-Keeps site popping_one)

  array_length-Keeps : Keeps (array_length site)
  array_length-Keeps =
      then-Keeps (discard site) (modify (push int)) (execute-Keeps site popping_one)
        (push-Keeps int)

  pub arithmetic_arms-Keeps : KeepsAll (arithmetic_arms op methods fields site)
  arithmetic_arms-Keeps =
      execute-Keeps site (computing int)
      & execute-Keeps site (computing long)
      & execute-Keeps site (computing float)
      & execute-Keeps site (computing double)
      & execute-Keeps site (converting int)
      & execute-Keeps site negating
      & execute-Keeps site negating
      & execute-Keeps site incrementing
      & tt

  pub conversion_arms-Keeps : KeepsAll (conversion_arms op methods fields site)
  conversion_arms-Keeps =
      execute-Keeps site (converting long)
      & execute-Keeps site (converting float)
      & execute-Keeps site (converting double)
      & execute-Keeps site (converting int)
      & execute-Keeps site (converting (integral byte_set))
      & execute-Keeps site (converting (integral char_set))
      & execute-Keeps site (converting (integral short_set))
      & execute-Keeps site (converting float)
      & execute-Keeps site (converting long)
      & execute-Keeps site (converting double)
      & execute-Keeps site (converting float)
      & execute-Keeps site (computing int)
      & tt

  pub control_arms-Keeps : KeepsAll (control_arms op methods fields site)
  control_arms-Keeps =
      execute-Keeps site popping_one
      & discard_both-Keeps
      & execute-Keeps site calling_subroutine
      & execute-Keeps site popping_one
      & execute-Keeps site popping_one
      & nothing-Keeps
      & tt

  pub member_arms-Keeps : KeepsAll (member_arms op methods fields site)
  member_arms-Keeps =
      field_get-Keeps site false fields
      & field_put-Keeps site false
      & field_get-Keeps site true fields
      & field_put-Keeps site true
      & invoke_member-Keeps op site methods
      & invoke_dynamic_call-Keeps site
      & tt

  pub object_arms-Keeps : KeepsAll (object_arms op methods fields site)
  object_arms-Keeps =
      execute-Keeps site allocating
      & execute-Keeps site allocating_primitives
      & execute-Keeps site allocating_references
      & array_length-Keeps
      & execute-Keeps site popping_one
      & execute-Keeps site casting
      & execute-Keeps site testing
      & execute-Keeps site popping_one
      & execute-Keeps site allocating_arrays
      & execute-Keeps site not_modeled
      & tt
