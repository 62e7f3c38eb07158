-- ===== src/Engine/Blocks.antt =====
-- The body of the loop of `analyze_method` in src/solver/engine/mod.rs: one block from its frame. An
-- index out of bounds, at which the source panics, is an error.
use ferro_jtype.Prelude.{
  ℕ, Bool, true, false, ◌&&◌, List, [], ◌∷◌, Option, none, some, length, get_elem?, ltb,
  if◌then◌else◌,
}
use ferro_jtype.Prelude.Map.{map_get}
use ferro_jtype.Prelude.Result.{Result, ok, err, ◌>>=◌}
use ferro_jtype.Frame.{fact, Frame}
use ferro_jtype.Frame.Locals.{refine_origin}
use ferro_jtype.Ir.{MethodIr, InstructionIr}
use ferro_jtype.Diagnostic.{stack_height_mismatch, stack_above_max_stack}
use ferro_jtype.Opcodes.{Opcodes}
use ferro_jtype.Cfg.{BlockId, Edge, BasicBlock, ControlFlowGraph}
use ferro_jtype.Cfg.Opcode.{instruction_may_throw}
use ferro_jtype.Cfg.Build.{element_before, slice}
use ferro_jtype.Transfer.{State, Site}
use ferro_jtype.Transfer.Dispatch.{transfer}
use ferro_jtype.Engine.{InferenceConfig, EngineState}
use ferro_jtype.Engine.Branch.{
  BranchFact, instance_of_fact, branch_fact, branch_edge_is_feasible, instanceof_true_edge,
}
use ferro_jtype.Engine.Propagate.{
  warning_at, report, flow, propagate_exception_edges, propagate_subroutine_return,
}

pub data Panic : Type 0 where
  index_out_of_bounds : Panic

-- The frame while the instructions of a block run, and the fact of the last one.
pub record Run : Type 0 where
  pub frame : Frame
  pub terminator_branch_fact : Option BranchFact
  pub engine : EngineState

abbrev pub has_any {ℓ} : {A : Type ℓ} → List A → Bool
has_any [] = false
has_any (_ ∷ _) = true

abbrev pub check_height : MethodIr → ℕ → Frame → EngineState → EngineState
check_height method offset f s =
    if ltb method.max_stack (length f.stack)
    then report
        (warning_at method offset stack_height_mismatch
          (stack_above_max_stack (length f.stack) method.max_stack))
        s
    else s

-- One round of the loop over the instructions of a block.
unfoldable pub run_instruction :
    Opcodes → InferenceConfig → MethodIr → BasicBlock → InstructionIr → Run → Run
unfolding branch_fact transfer propagate_exception_edges
run_instruction op config method block i r =
    let before = r.frame in
    let site : Site = record { method = method; instruction = i } in
    let start : State = record { frame = r.frame; diagnostics = r.engine.diagnostics } in
    let (_, after) = transfer op config.method_summaries config.field_summaries site start in
    let executed : EngineState = record r.engine { diagnostics = after.diagnostics } in
    let thrown =
      if has_any block.exception_successors && instruction_may_throw op i.opcode
      then propagate_exception_edges config.hierarchy method block.exception_successors i.offset
          before executed
      else executed in
    record {
      frame = after.frame;
      terminator_branch_fact = branch_fact op i.opcode before;
      engine = check_height method i.offset after.frame thrown;
    }

unfoldable pub run_instructions :
    Opcodes → InferenceConfig → MethodIr → BasicBlock → List InstructionIr → Run → Run
unfolding run_instruction
run_instructions op config method block [] r = r
run_instructions op config method block (i ∷ is) r =
    run_instructions op config method block is (run_instruction op config method block i r)

-- Along the edge of a test by `instanceof` that holds, the value has the type of the test.
abbrev pub refine_if : Bool → Option BranchFact → Frame → Frame
refine_if true (some (instance_of_fact (fact origin r))) f = refine_origin origin r f
refine_if _ _ f = f

-- One round of the loop over the successors of a block.
unfoldable pub follow :
    Opcodes
    → InferenceConfig
    → MethodIr
    → ℕ
    → ℕ
    → Option BranchFact
    → Frame
    → Edge
    → EngineState
    → EngineState
unfolding branch_edge_is_feasible instanceof_true_edge flow
follow op config method terminator offset known f edge s =
    if branch_edge_is_feasible op terminator edge.kind known
    then flow config.hierarchy method edge.target
        (refine_if (instanceof_true_edge op terminator edge.kind) known f) offset s
    else s

unfoldable pub follow_each :
    Opcodes
    → InferenceConfig
    → MethodIr
    → ℕ
    → ℕ
    → Option BranchFact
    → Frame
    → List Edge
    → EngineState
    → EngineState
unfolding follow
follow_each op config method terminator offset known f [] s = s
follow_each op config method terminator offset known f (edge ∷ edges) s =
    follow_each op config method terminator offset known f edges
      (follow op config method terminator offset known f edge s)

-- A block from the frame that has come in.
abbrev pub run_block :
    Opcodes
    → InferenceConfig
    → MethodIr
    → ControlFlowGraph
    → BasicBlock
    → Frame
    → InstructionIr
    → List InstructionIr
    → EngineState
    → EngineState
run_block op config method graph block f last body s =
    let r =
      run_instructions op config method block body
        (record { frame = f; terminator_branch_fact = none; engine = s }) in
    let followed =
      follow_each op config method last.opcode block.start_offset r.terminator_branch_fact r.frame
        block.successors r.engine in
    propagate_subroutine_return op config.hierarchy method graph last r.frame followed

abbrev pub or_panic {ℓ} : {A : Type ℓ} → Option A → Result Panic A
or_panic none = err index_out_of_bounds
or_panic (some a) = ok a

unfoldable pub process :
    Opcodes
    → InferenceConfig
    → MethodIr
    → ControlFlowGraph
    → BlockId
    → EngineState
    → Result Panic EngineState
unfolding run_instructions follow_each propagate_subroutine_return
process op config method graph id s = do
  block ← or_panic (get_elem? graph.blocks id)
  f ← or_panic (map_get s.incoming id)
  body ← or_panic (slice method.instructions block.instruction_range)
  last ← or_panic (element_before method.instructions block.instruction_range.stop)
  ok (run_block op config method graph block f last body s)
