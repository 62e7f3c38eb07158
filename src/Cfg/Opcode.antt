-- ===== src/Cfg/Opcode.antt =====
-- The tests of opcodes in src/cfg/build.rs, and `instruction_may_throw` of
-- src/solver/engine/propagate.rs.
pub mod Throwing
use ferro_jtype.Prelude.{ℕ, Bool, ◌||◌, ◌==◌}
use ferro_jtype.Opcodes.{Opcodes, is_within}

module _ (op : Opcodes) where
  unfoldable pub ends_block : ℕ → Bool
  ends_block opcode =
      is_within op.ifeq op.ret opcode
      || opcode == op.tableswitch
      || opcode == op.lookupswitch
      || is_within op.ireturn op.return opcode
      || opcode == op.athrow
      || is_within op.ifnull op.jsr_w opcode

  unfoldable pub terminates_execution : ℕ → Bool
  terminates_execution opcode = is_within op.ireturn op.return opcode || opcode == op.athrow

  unfoldable pub is_unconditional_branch : ℕ → Bool
  is_unconditional_branch opcode = opcode == op.goto || opcode == op.goto_w

  unfoldable pub is_subroutine_branch : ℕ → Bool
  is_subroutine_branch opcode = opcode == op.jsr || opcode == op.jsr_w

  unfoldable pub is_ret : ℕ → Bool
  is_ret opcode = opcode == op.ret

  unfoldable pub may_throw : ℕ → Bool
  may_throw opcode =
      is_within op.ldc op.ldc2_w opcode
      || is_within op.iaload op.saload opcode
      || is_within op.iastore op.sastore opcode
      || opcode == op.idiv
      || opcode == op.ldiv
      || opcode == op.irem
      || opcode == op.lrem
      || is_within op.getstatic op.athrow opcode
      || is_within op.checkcast op.monitorexit opcode
      || opcode == op.multianewarray

  unfoldable pub instruction_may_throw : ℕ → Bool
  instruction_may_throw opcode =
      is_within op.ldc op.ldc2_w opcode
      || is_within op.iaload op.saload opcode
      || is_within op.iastore op.sastore opcode
      || opcode == op.idiv
      || opcode == op.ldiv
      || opcode == op.irem
      || opcode == op.lrem
      || is_within op.getstatic op.invokedynamic opcode
      || is_within op.new op.monitorexit opcode
      || opcode == op.multianewarray
