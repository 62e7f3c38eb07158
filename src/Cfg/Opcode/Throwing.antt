-- ===== src/Cfg/Opcode/Throwing.antt =====
-- The two tests for instructions that may throw, of src/cfg/build.rs and of
-- src/solver/engine/propagate.rs.
use ferro_jtype.Prelude.{ℕ, ◌≡◌, sym, ap, subst, ◌||◌, ◌==◌, Bool, arith}
use ferro_jtype.Opcodes.{Opcodes, jvm, IsJvm, is_within}
use ferro_jtype.Cfg.Opcode.{may_throw, instruction_may_throw}

-- Two ranges that touch are one.
join_ranges :
    (opcode : ℕ) (before : Bool)
    → (before || is_within 178 186 opcode || is_within 187 195 opcode)
      ≡ (before || is_within 178 191 opcode || is_within 192 195 opcode)
join_ranges opcode before = ground arith

abbrev loads_and_divisions : ℕ → Bool
loads_and_divisions opcode =
    is_within 18 20 opcode
    || is_within 46 53 opcode
    || is_within 79 86 opcode
    || opcode == 108
    || opcode == 109
    || opcode == 112
    || opcode == 113

at_jvm : (opcode : ℕ) → instruction_may_throw jvm opcode ≡ may_throw jvm opcode
unfolding may_throw instruction_may_throw
at_jvm opcode = ap (λ b. b || opcode == 197) (join_ranges opcode (loads_and_divisions opcode))

-- With the opcodes of the Java Virtual Machine Specification the two tests agree on every number,
-- though they split the range from `getstatic` to `monitorexit` at different opcodes.
pub instruction_may_throw-eq-may_throw :
    (op : Opcodes) → IsJvm op → (opcode : ℕ) → instruction_may_throw op opcode ≡ may_throw op opcode
instruction_may_throw-eq-may_throw op at opcode =
    subst (λ (o : Opcodes). instruction_may_throw o opcode ≡ may_throw o opcode) (sym at)
      (at_jvm opcode)
