-- ===== src/Witnesses/Cfg.antt =====
-- Inputs for the properties of the control-flow graph.
use ferro_jtype.Prelude.{
  ℕ, ◌<◌, ◌≤◌, ◌≡◌, refl, inl, inr, true, false, List, [], ◌∷◌, none, some, ◌↔◌, ◌⊎◌, get_elem?,
  arith,
}
use ferro_jtype.Prelude.Int.{pos}
use ferro_jtype.Prelude.Members.{IsIn}
use ferro_jtype.Ir.{MethodIr, InstructionIr, no_operand, branch, ExceptionHandlerIr}
use ferro_jtype.Opcodes.{jvm}
use ferro_jtype.Cfg.{
  EdgeKind, fall_through, Edge, ExceptionEdge, BasicBlock, Range, block_at_offset,
}
use ferro_jtype.Cfg.Opcode.{ends_block, may_throw, instruction_may_throw}
use ferro_jtype.Cfg.Opcode.Throwing.{instruction_may_throw-eq-may_throw}
use ferro_jtype.Cfg.Starts.{offsets_of}
use ferro_jtype.Cfg.Edges.{ordinary_successors}
use ferro_jtype.Cfg.Build.{CfgBuildResult, positions_of, build_cfg}
use ferro_jtype.Cfg.Build.Partition.{bodies}
use ferro_jtype.Cfg.Build.Starting.{IsSequence}
use ferro_jtype.Cfg.Build.Correct.{
  StartsAt, build_cfg-bodies, block_at_offset_iff, ends_block-last, instruction_targets-start,
}
use ferro_jtype.Cfg.Build.Flow.{successors_iff}
use ferro_jtype.Cfg.Build.Control.{jumps, build_cfg-Flow}
use ferro_jtype.Cfg.Build.Exceptions.{exception_successors_iff}
use ferro_jtype.Witnesses.{one_array}

-- iload_0; ifeq 5; idiv; return, and a handler at the return for the division.
abbrev load : InstructionIr
load = record { offset = 0; opcode = 26; operand = no_operand }

abbrev test : InstructionIr
test = record { offset = 1; opcode = 153; operand = branch (pos 5) }

abbrev division : InstructionIr
division = record { offset = 4; opcode = 108; operand = no_operand }

abbrev leave : InstructionIr
leave = record { offset = 5; opcode = 177; operand = no_operand }

abbrev handler : ExceptionHandlerIr
handler = record { start_offset = 4; end_offset = 5; handler_offset = 5; catch_type = none }

abbrev pub branching : MethodIr
branching = record {
  name = [];
  descriptor_text = [];
  descriptor = one_array;
  generic_signature = none;
  access_flags = 8;
  max_stack = 2;
  max_locals = 1;
  local_variable_hints = [];
  instructions = load ∷ test ∷ division ∷ leave ∷ [];
  exception_handlers = handler ∷ [];
}

abbrev first_block : BasicBlock
first_block = record {
  start_offset = 0;
  instruction_range = record { start = 0; stop = 2 };
  successors =
      record { target = 2; kind = EdgeKind.branch }
      ∷ record { target = 1; kind = fall_through }
      ∷ [];
  exception_successors = [];
}

abbrev second_block : BasicBlock
second_block = record {
  start_offset = 4;
  instruction_range = record { start = 2; stop = 3 };
  successors = record { target = 2; kind = fall_through } ∷ [];
  exception_successors = record { instruction_offset = 4; target = 2; catch_type = none } ∷ [];
}

abbrev last_block : BasicBlock
last_block = record {
  start_offset = 5;
  instruction_range = record { start = 3; stop = 4 };
  successors = [];
  exception_successors = [];
}

abbrev result : CfgBuildResult
result = record {
  graph = record {
    blocks = first_block ∷ second_block ∷ last_block ∷ [];
    entry = some 0;
    blocks_by_offset = (0, 0) ∷ (4, 1) ∷ (5, 2) ∷ [];
  };
  diagnostics = [];
}

pub branching-IsSequence : IsSequence branching.instructions
branching-IsSequence = record {
  ascending = (
    (omega arith, (omega arith, (omega arith, tt))),
    ((omega arith, (omega arith, tt)), ((omega arith, tt), (tt, tt))),
  );
  in_u16 = (omega arith, (omega arith, (omega arith, (omega arith, tt))));
}

made : build_cfg jvm branching ≡ some result
unfolding build_cfg ferro_jtype.Cfg.Starts.add_start_if_instruction
    ferro_jtype.Cfg.Edges.ordinary_successors ferro_jtype.Cfg.Edges.resolve_block
    ferro_jtype.Cfg.Edges.push_edge ferro_jtype.Cfg.Edges.push_exception_edge
    ferro_jtype.Cfg.Edges.Edge-discrete ferro_jtype.Cfg.Edges.ExceptionEdge-discrete
    ferro_jtype.Cfg.Build.connect ferro_jtype.Cfg.Opcode.ends_block
    ferro_jtype.Cfg.Opcode.terminates_execution ferro_jtype.Cfg.Opcode.is_unconditional_branch
    ferro_jtype.Cfg.Opcode.is_subroutine_branch ferro_jtype.Cfg.Opcode.is_ret
    ferro_jtype.Cfg.Opcode.may_throw ferro_jtype.Prelude.ℕ_discrete
made = refl

build_cfg-bodies_example :
    (r : CfgBuildResult) × (build_cfg jvm branching ≡ some r)
    × (bodies branching.instructions r.graph.blocks ≡ some branching.instructions)
build_cfg-bodies_example = build_cfg-bodies jvm branching branching-IsSequence

block_at_offset_iff_example : (block_at_offset result.graph 4 ≡ some 1) ↔ StartsAt result.graph 1 4
block_at_offset_iff_example = block_at_offset_iff jvm branching branching-IsSequence result made 4 1

ends_block-last_example : ends_block jvm load.opcode ≡ false
ends_block-last_example =
    ends_block-last jvm branching branching-IsSequence result made first_block 0 load (inl refl)
      (omega arith) (omega arith) refl

instruction_targets-start_example : 3 ≡ last_block.instruction_range.start
instruction_targets-start_example =
    instruction_targets-start jvm branching branching-IsSequence result made last_block test leave 3
      (inr (inr (inl refl))) (inr (inl refl)) refl (inl refl) (omega arith) (omega arith)

abbrev taken : Edge
taken = record { target = 2; kind = EdgeKind.branch }

jump :
    IsIn
      (pos 5, EdgeKind.branch)
      (ordinary_successors jvm test (positions_of branching.instructions))
unfolding ferro_jtype.Cfg.Edges.ordinary_successors ferro_jtype.Cfg.Opcode.is_unconditional_branch
    ferro_jtype.Cfg.Opcode.is_subroutine_branch
jump = inl refl

successors_iff_example : IsIn taken first_block.successors ↔ (
    (n : ℕ) × IsIn
      (pos n, taken.kind)
      (ordinary_successors jvm test (positions_of branching.instructions))
    × StartsAt result.graph taken.target n)
successors_iff_example =
    successors_iff jvm branching branching-IsSequence result made first_block test taken (inl refl)
      refl

build_cfg-Flow_example :
    (EdgeKind.branch ≡ fall_through)
      × (2 < first_block.instruction_range.stop)
      × (get_elem? (offsets_of branching.instructions) 2 ≡ some 5)
    ⊎ (2 ≡ first_block.instruction_range.stop)
      × ((e : Edge) × IsIn e first_block.successors
          × (e.kind ≡ EdgeKind.branch)
          × StartsAt result.graph e.target 5)
build_cfg-Flow_example =
    build_cfg-Flow jvm refl branching branching-IsSequence (tt, (refl, (tt, (tt, tt)))) result made
      first_block 1 test 5 EdgeKind.branch (inl refl) (omega arith) (omega arith) refl (jumps refl)
      (inr (inr (inr (inl refl))))

abbrev thrown : ExceptionEdge
thrown = record { instruction_offset = 4; target = 2; catch_type = none }

exception_successors_iff_example : IsIn thrown second_block.exception_successors ↔ (
    (i : InstructionIr) × (h : ExceptionHandlerIr) × IsIn i (division ∷ [])
    × IsIn h branching.exception_handlers
    × (may_throw jvm i.opcode ≡ true)
    × (h.start_offset ≤ i.offset)
    × (i.offset < h.end_offset)
    × StartsAt result.graph thrown.target h.handler_offset
    × (thrown.instruction_offset ≡ i.offset)
    × (thrown.catch_type ≡ h.catch_type))
exception_successors_iff_example =
    exception_successors_iff jvm branching branching-IsSequence result made second_block
      (division ∷ []) thrown (inr (inl refl)) refl

instruction_may_throw-eq-may_throw_example : instruction_may_throw jvm 191 ≡ may_throw jvm 191
instruction_may_throw-eq-may_throw_example = instruction_may_throw-eq-may_throw jvm refl 191
