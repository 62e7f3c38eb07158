-- ===== src/Transfer/Dispatch.antt =====
-- `transfer` of src/solver/transfer/mod.rs: the match over opcodes, as a list of arms in their order.
pub mod Keeps
use ferro_jtype.Prelude.{
  ℕ, ◌-◌, Bool, true, false, ◌||◌, List, [], ◌∷◌, Option, ltb, ◌==◌, if◌then◌else◌,
}
use ferro_jtype.Prelude.Int.{ℤ, pos, negsuc}
use ferro_jtype.Types.Integral.{boolean_set, byte_set, char_set, short_set, int_set, all_set, union}
use ferro_jtype.Types.Inferred.{null, int, integral, float, long, double, reference}
use ferro_jtype.Frame.Stack.{push}
use ferro_jtype.Ir.{InstructionOperandIr, immediate}
use ferro_jtype.Opcodes.{Opcodes, is_within}
use ferro_jtype.Summary.{MethodSummaryResolver, FieldSummaryResolver}
use ferro_jtype.Transfer.{M, ◌>>=◌, ◌>>◌, pure, modify, Site}
use ferro_jtype.Transfer.Stack.{
  discard, discard_two_slots, duplicate_top, duplicate_x1, duplicate_x2, duplicate_two,
  duplicate_two_x1, duplicate_two_x2, swap, unsupported,
}
use ferro_jtype.Transfer.Array.{
  array_load, integral_array_load, reference_array_load, array_store, allocate_primitive_array,
  allocate_reference_array, allocate_multi_array,
}
use ferro_jtype.Transfer.Operations.{
  load_local, store_local, binary, unary, convert, increment_local, allocate_object, cast_reference,
  instance_of, push_constant, push_integer, push_subroutine_return_address,
}
use ferro_jtype.Transfer.Member.{field_get, field_put}
use ferro_jtype.Transfer.Call.{invoke_member, invoke_dynamic_call}

-- The difference of two natural numbers as an integer.
infixl 60 ◌-ℤ◌
abbrev pub ◌-ℤ◌ : ℕ → ℕ → ℤ
a -ℤ b = if ltb a b then negsuc (b - a - 1) else pos (a - b)

-- The operand of `bipush` and `sipush`
abbrev pub push_immediate : InstructionOperandIr → M (Unit {0})
push_immediate (immediate value) = push_integer value
push_immediate _ = modify (push (integral all_set))

abbrev pub discard_both : Site → M (Unit {0})
discard_both site = do discard site; discard site

abbrev pub array_length : Site → M (Unit {0})
array_length site = do discard site; modify (push int)

-- An arm: whether its pattern matches, and what it does.
abbrev pub Arm : Type 0
Arm = Bool × M (Unit {0})

-- The first arm that matches.
abbrev pub first_of : List Arm → M (Unit {0}) → M (Unit {0})
first_of [] otherwise = otherwise
first_of ((matched, m) ∷ arms) otherwise =
    let later = first_of arms otherwise in if matched then m else later

-- The groups of arms, one after another.
abbrev pub in_order : List (List Arm) → M (Unit {0}) → M (Unit {0})
in_order [] otherwise = otherwise
in_order (arms ∷ groups) otherwise = first_of arms (in_order groups otherwise)

module _ (op : Opcodes) (methods : Option MethodSummaryResolver)
    (fields : Option FieldSummaryResolver) (site : Site) where
  -- The arms of constants.
  abbrev pub constant_arms : List Arm
  constant_arms =
      let o = site.instruction.opcode in
      (o == op.nop, pure tt)
      ∷ (o == op.aconst_null, modify (push (reference null)))
      ∷ (is_within op.iconst_m1 op.iconst_5 o, push_integer (o -ℤ op.iconst_0))
      ∷ (o == op.bipush || o == op.sipush, push_immediate site.instruction.operand)
      ∷ (is_within op.lconst_0 op.lconst_1 o, modify (push long))
      ∷ (is_within op.fconst_0 op.fconst_2 o, modify (push float))
      ∷ (is_within op.dconst_0 op.dconst_1 o, modify (push double))
      ∷ (is_within op.ldc op.ldc2_w o, push_constant site)
      ∷ []

  -- The arms that load locals.
  abbrev pub local_arms : List Arm
  local_arms =
      let o = site.instruction.opcode in
      (o == op.iload || is_within op.iload_0 op.iload_3 o, load_local op.iload op.iload_0 site)
      ∷ (o == op.lload || is_within op.lload_0 op.lload_3 o, load_local op.lload op.lload_0 site)
      ∷ (o == op.fload || is_within op.fload_0 op.fload_3 o, load_local op.fload op.fload_0 site)
      ∷ (o == op.dload || is_within op.dload_0 op.dload_3 o, load_local op.dload op.dload_0 site)
      ∷ (o == op.aload || is_within op.aload_0 op.aload_3 o, load_local op.aload op.aload_0 site)
      ∷ []

  -- The arms that load from arrays.
  abbrev pub array_arms : List Arm
  array_arms =
      let o = site.instruction.opcode in
      (o == op.iaload, integral_array_load int_set site)
      ∷ (o == op.baload, integral_array_load (union boolean_set byte_set) site)
      ∷ (o == op.caload, integral_array_load char_set site)
      ∷ (o == op.saload, integral_array_load short_set site)
      ∷ (o == op.laload, array_load long site)
      ∷ (o == op.faload, array_load float site)
      ∷ (o == op.daload, array_load double site)
      ∷ (o == op.aaload, reference_array_load site)
      ∷ []

  -- The arms that store into locals and arrays.
  abbrev pub store_arms : List Arm
  store_arms =
      let o = site.instruction.opcode in
      (
        o == op.istore || is_within op.istore_0 op.istore_3 o,
        store_local op.istore op.istore_0 site,
      )
      ∷ (
        o == op.lstore || is_within op.lstore_0 op.lstore_3 o,
        store_local op.lstore op.lstore_0 site,
      )
      ∷ (
        o == op.fstore || is_within op.fstore_0 op.fstore_3 o,
        store_local op.fstore op.fstore_0 site,
      )
      ∷ (
        o == op.dstore || is_within op.dstore_0 op.dstore_3 o,
        store_local op.dstore op.dstore_0 site,
      )
      ∷ (
        o == op.astore || is_within op.astore_0 op.astore_3 o,
        store_local op.astore op.astore_0 site,
      )
      ∷ (is_within op.iastore op.sastore o, array_store site)
      ∷ []

  -- The arms of the operand stack.
  abbrev pub stack_arms : List Arm
  stack_arms =
      let o = site.instruction.opcode in
      (o == op.pop, discard site)
      ∷ (o == op.pop2, discard_two_slots site)
      ∷ (o == op.dup, duplicate_top site)
      ∷ (o == op.dup_x1, duplicate_x1 site)
      ∷ (o == op.dup_x2, duplicate_x2 site)
      ∷ (o == op.dup2, duplicate_two site)
      ∷ (o == op.dup2_x1, duplicate_two_x1 site)
      ∷ (o == op.dup2_x2, duplicate_two_x2 site)
      ∷ (o == op.swap, swap site)
      ∷ []

  -- The arms of arithmetic.
  abbrev pub arithmetic_arms : List Arm
  arithmetic_arms =
      let o = site.instruction.opcode in
      (
        o == op.iadd
            || o == op.isub
            || o == op.imul
            || o == op.idiv
            || o == op.irem
            || o == op.ishl
            || o == op.ishr
            || o == op.iushr
            || o == op.iand
            || o == op.ior
            || o == op.ixor,
        binary int site,
      )
      ∷ (
        o == op.ladd
            || o == op.lsub
            || o == op.lmul
            || o == op.ldiv
            || o == op.lrem
            || o == op.lshl
            || o == op.lshr
            || o == op.lushr
            || o == op.land
            || o == op.lor
            || o == op.lxor,
        binary long site,
      )
      ∷ (
        o == op.fadd || o == op.fsub || o == op.fmul || o == op.fdiv || o == op.frem,
        binary float site,
      )
      ∷ (
        o == op.dadd || o == op.dsub || o == op.dmul || o == op.ddiv || o == op.drem,
        binary double site,
      )
      ∷ (o == op.ineg, convert int site)
      ∷ (o == op.fneg || o == op.dneg, unary site)
      ∷ (o == op.lneg, unary site)
      ∷ (o == op.iinc, increment_local site)
      ∷ []

  -- The arms of conversions and comparisons.
  abbrev pub conversion_arms : List Arm
  conversion_arms =
      let o = site.instruction.opcode in
      (o == op.i2l, convert long site)
      ∷ (o == op.i2f, convert float site)
      ∷ (o == op.i2d, convert double site)
      ∷ (o == op.l2i || o == op.f2i || o == op.d2i, convert int site)
      ∷ (o == op.i2b, convert (integral byte_set) site)
      ∷ (o == op.i2c, convert (integral char_set) site)
      ∷ (o == op.i2s, convert (integral short_set) site)
      ∷ (o == op.l2f, convert float site)
      ∷ (o == op.f2l || o == op.d2l, convert long site)
      ∷ (o == op.l2d || o == op.f2d, convert double site)
      ∷ (o == op.d2f, convert float site)
      ∷ (is_within op.lcmp op.dcmpg o, binary int site)
      ∷ []

  -- The arms of control flow.
  abbrev pub control_arms : List Arm
  control_arms =
      let o = site.instruction.opcode in
      (is_within op.ifeq op.ifle o || o == op.ifnull || o == op.ifnonnull, discard site)
      ∷ (is_within op.if_icmpeq op.if_acmpne o, discard_both site)
      ∷ (o == op.jsr || o == op.jsr_w, push_subroutine_return_address site)
      ∷ (o == op.tableswitch || o == op.lookupswitch, discard site)
      ∷ (is_within op.ireturn op.areturn o, discard site)
      ∷ (o == op.return || o == op.goto || o == op.ret || o == op.goto_w, pure tt)
      ∷ []

  -- The arms of fields and calls.
  abbrev pub member_arms : List Arm
  member_arms =
      let o = site.instruction.opcode in
      (o == op.getstatic, field_get site false fields)
      ∷ (o == op.putstatic, field_put site false)
      ∷ (o == op.getfield, field_get site true fields)
      ∷ (o == op.putfield, field_put site true)
      ∷ (is_within op.invokevirtual op.invokeinterface o, invoke_member op site methods)
      ∷ (o == op.invokedynamic, invoke_dynamic_call site)
      ∷ []

  -- The arms of objects.
  abbrev pub object_arms : List Arm
  object_arms =
      let o = site.instruction.opcode in
      (o == op.new, allocate_object site)
      ∷ (o == op.newarray, allocate_primitive_array site)
      ∷ (o == op.anewarray, allocate_reference_array site)
      ∷ (o == op.arraylength, array_length site)
      ∷ (o == op.athrow, discard site)
      ∷ (o == op.checkcast, cast_reference site)
      ∷ (o == op.instanceof, instance_of site)
      ∷ (o == op.monitorenter || o == op.monitorexit, discard site)
      ∷ (o == op.multianewarray, allocate_multi_array site)
      ∷ (o == op.breakpoint || o == op.impdep1 || o == op.impdep2, unsupported site)
      ∷ []

  abbrev pub all_arms : List (List Arm)
  all_arms =
      constant_arms ∷ local_arms ∷ array_arms ∷ store_arms ∷ stack_arms ∷ arithmetic_arms
      ∷ conversion_arms ∷ control_arms ∷ member_arms ∷ object_arms ∷ []

unfoldable pub transfer :
    Opcodes → Option MethodSummaryResolver → Option FieldSummaryResolver → Site → M (Unit {0})
transfer op methods fields site = in_order (all_arms op methods fields site) (unsupported site)
