-- ===== src/Transfer/Dispatch/Keeps/Values.antt =====
-- The arms of src/solver/transfer/mod.rs for constants, locals, arrays and the operand stack.
use ferro_jtype.Prelude.{Option}
use ferro_jtype.Types.Integral.{boolean_set, byte_set, char_set, short_set, int_set, union}
use ferro_jtype.Types.Inferred.{null, float, long, double, reference}
use ferro_jtype.Opcodes.{Opcodes}
use ferro_jtype.Summary.{MethodSummaryResolver, FieldSummaryResolver}
use ferro_jtype.Transfer.{Site}
use ferro_jtype.Transfer.Operations.Keeps.{
  loading, storing_local, array_loading, integral_array_loading, reference_array_loading,
  array_storing, popping_one, popping_two, dup, dup_x1, dup_x2, dup_two, dup_two_x1, dup_two_x2,
  swapping, pushing_constant, pushing_integer, execute-Keeps,
}
use ferro_jtype.Transfer.Dispatch.{
  ◌-ℤ◌, constant_arms, local_arms, array_arms, store_arms, stack_arms,
}
use ferro_jtype.Transfer.Dispatch.Keeps.Arms.{
  ◌&◌, KeepsAll, nothing-Keeps, push-Keeps, push_immediate-Keeps,
}

module _ (op : Opcodes) (methods : Option MethodSummaryResolver)
    (fields : Option FieldSummaryResolver) (site : Site) where
  pub constant_arms-Keeps : KeepsAll (constant_arms op methods fields site)
  constant_arms-Keeps =
      let o = site.instruction.opcode in
      nothing-Keeps
      & push-Keeps (reference null)
      & execute-Keeps site (pushing_integer (o -ℤ op.iconst_0))
      & push_immediate-Keeps site.instruction.operand
      & push-Keeps long
      & push-Keeps float
      & push-Keeps double
      & execute-Keeps site pushing_constant
      & tt

  pub local_arms-Keeps : KeepsAll (local_arms op methods fields site)
  local_arms-Keeps =
      execute-Keeps site (loading op.iload op.iload_0)
      & execute-Keeps site (loading op.lload op.lload_0)
      & execute-Keeps site (loading op.fload op.fload_0)
      & execute-Keeps site (loading op.dload op.dload_0)
      & execute-Keeps site (loading op.aload op.aload_0)
      & tt

  pub array_arms-Keeps : KeepsAll (array_arms op methods fields site)
  array_arms-Keeps =
      execute-Keeps site (integral_array_loading int_set)
      & execute-Keeps site (integral_array_loading (union boolean_set byte_set))
      & execute-Keeps site (integral_array_loading char_set)
      & execute-Keeps site (integral_array_loading short_set)
      & execute-Keeps site (array_loading long)
      & execute-Keeps site (array_loading float)
      & execute-Keeps site (array_loading double)
      & execute-Keeps site reference_array_loading
      & tt

  pub store_arms-Keeps : KeepsAll (store_arms op methods fields site)
  store_arms-Keeps =
      execute-Keeps site (storing_local op.istore op.istore_0)
      & execute-Keeps site (storing_local op.lstore op.lstore_0)
      & execute-Keeps site (storing_local op.fstore op.fstore_0)
      & execute-Keeps site (storing_local op.dstore op.dstore_0)
      & execute-Keeps site (storing_local op.astore op.astore_0)
      & execute-Keeps site array_storing
      & tt

  pub stack_arms-Keeps : KeepsAll (stack_arms op methods fields site)
  stack_arms-Keeps =
      execute-Keeps site popping_one
      & execute-Keeps site popping_two
      & execute-Keeps site dup
      & execute-Keeps site dup_x1
      & execute-Keeps site dup_x2
      & execute-Keeps site dup_two
      & execute-Keeps site dup_two_x1
      & execute-Keeps site dup_two_x2
      & execute-Keeps site swapping
      & tt
