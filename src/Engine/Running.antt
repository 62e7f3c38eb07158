-- ===== src/Engine/Running.antt =====
-- A round of the loop of src/solver/engine/mod.rs keeps the invariant of the engine, and
-- no index into the graph, the incoming frames or the instructions is out of bounds.
use ferro_jtype.Prelude.{
  ℕ, ◌<◌, ◌≡◌, inl, inr, Bool, true, false, ◌&&◌, List, [], ◌∷◌, Option, none, some, All, length,
  ltb, if◌then◌else◌, Bool-cases,
}
use ferro_jtype.Prelude.Result.{Ends, returns}
use ferro_jtype.Prelude.Members.{IsIn, get_elem?-IsIn}
use ferro_jtype.Frame.{fact, Frame}
use ferro_jtype.Frame.WellFormed.Reachable.{IsReachable, after, refining}
use ferro_jtype.Ir.{MethodIr, InstructionIr}
use ferro_jtype.Opcodes.{Opcodes}
use ferro_jtype.Cfg.{BlockId, Edge, ExceptionEdge, BasicBlock, ControlFlowGraph, block_at_offset}
use ferro_jtype.Cfg.Opcode.{instruction_may_throw}
use ferro_jtype.Cfg.Build.{element_before, slice}
use ferro_jtype.Cfg.Build.Connected.{get_elem?-below}
use ferro_jtype.Transfer.{State, Site}
use ferro_jtype.Transfer.Dispatch.{transfer}
use ferro_jtype.Transfer.Dispatch.Keeps.{transfer-Keeps}
use ferro_jtype.Engine.{InferenceConfig, EngineState}
use ferro_jtype.Engine.Branch.{
  BranchFact, instance_of_fact, null_fact, branch_edge_is_feasible, instanceof_true_edge,
}
use ferro_jtype.Engine.Propagate.{flow, propagate_exception_edges}
use ferro_jtype.Engine.Blocks.{
  Run, has_any, check_height, run_instruction, run_instructions, refine_if, follow, follow_each,
  run_block, process,
}
use ferro_jtype.Prelude.Map.Laws.{All-map_get}
use ferro_jtype.Engine.Invariant.{
  HoldsOf, HasFrame, flow-Holds, propagate_exception_edges-Holds, propagate_subroutine_return-Holds,
}

-- A graph whose edges end at its blocks, of which each has its instructions in the method.
pub record IsRunnable (method : MethodIr) (graph : ControlFlowGraph) : Type 0 where
  pub edges :
      (b : BasicBlock)
      → IsIn b graph.blocks
      → All (λ (e : Edge). e.target < length graph.blocks) b.successors
  pub exception_edges :
      (b : BasicBlock)
      → IsIn b graph.blocks
      → All (λ (e : ExceptionEdge). e.target < length graph.blocks) b.exception_successors
  pub starts : (offset id : ℕ) → block_at_offset graph offset ≡ some id → id < length graph.blocks
  pub bodies :
      (b : BasicBlock)
      → IsIn b graph.blocks
      → (body : List InstructionIr) × (slice method.instructions b.instruction_range ≡ some body)
  pub last :
      (b : BasicBlock)
      → IsIn b graph.blocks
      → (i : InstructionIr) × (element_before method.instructions b.instruction_range.stop ≡ some i)

module _ (op : Opcodes) (config : InferenceConfig) (method : MethodIr) (count : ℕ) where
  abbrev RunHolds : Run → Type 0
  RunHolds r = IsReachable r.frame × HoldsOf count r.engine

  check_height-Holds :
      (offset : ℕ) (f : Frame) (s : EngineState)
      → HoldsOf count s
      → HoldsOf count (check_height method offset f s)
  check_height-Holds offset f s h = elim (Bool-cases (ltb method.max_stack (length f.stack))) [
    | inl above ↦ rw above (record { frames = h.frames; waiting = h.waiting; queue = h.queue })
    | inr within ↦ rw within h
  ]

  run_instruction-Holds :
      (block : BasicBlock) (i : InstructionIr) (r : Run)
      → All (λ (e : ExceptionEdge). e.target < count) block.exception_successors
      → RunHolds r
      → RunHolds (run_instruction op config method block i r)
  unfolding run_instruction
  run_instruction-Holds block i r lts (reachable, h) =
      let site : Site = record { method = method; instruction = i } in
      let start : State = record { frame = r.frame; diagnostics = r.engine.diagnostics } in
      let after' = (transfer op config.method_summaries config.field_summaries site start).1 in
      let executed : EngineState = record r.engine { diagnostics = after'.diagnostics } in
      let thrown : HoldsOf count executed = record {
        frames = h.frames;
        waiting = h.waiting;
        queue = h.queue;
      } in
      (
        transfer-Keeps op config.method_summaries config.field_summaries site start reachable,
        check_height-Holds i.offset after'.frame _ (
            chosen executed thrown
              (has_any block.exception_successors && instruction_may_throw op i.opcode)),
      )
    where
      chosen :
          (s : EngineState)
          → HoldsOf count s
          → (b : Bool)
          → HoldsOf count (
              if b
              then propagate_exception_edges config.hierarchy method block.exception_successors
                  i.offset r.frame s
              else s)
      chosen s h true =
          propagate_exception_edges-Holds count config.hierarchy method block.exception_successors
            i.offset r.frame s lts reachable h
      chosen s h false = h

  run_instructions-Holds :
      (block : BasicBlock) (is : List InstructionIr) (r : Run)
      → All (λ (e : ExceptionEdge). e.target < count) block.exception_successors
      → RunHolds r
      → RunHolds (run_instructions op config method block is r)
  unfolding run_instructions
  run_instructions-Holds block [] r lts h = h
  run_instructions-Holds block (i ∷ is) r lts h =
      run_instructions-Holds block is _ lts (run_instruction-Holds block i r lts h)

  refine_if-IsReachable :
      (b : Bool) (known : Option BranchFact) (f : Frame)
      → IsReachable f
      → IsReachable (refine_if b known f)
  refine_if-IsReachable true (some (instance_of_fact (fact origin r))) f h =
      after (refining origin r) f h
  refine_if-IsReachable true (some (null_fact n)) f h = h
  refine_if-IsReachable true none f h = h
  refine_if-IsReachable false known f h = h

  follow_each-Holds :
      (terminator offset : ℕ) (known : Option BranchFact) (f : Frame) (edges : List Edge)
      (s : EngineState)
      → All (λ (e : Edge). e.target < count) edges
      → IsReachable f
      → HoldsOf count s
      → HoldsOf count (follow_each op config method terminator offset known f edges s)
  unfolding follow_each follow
  follow_each-Holds terminator offset known f [] s lts r h = h
  follow_each-Holds terminator offset known f (e ∷ edges) s (lt, lts) r h =
      follow_each-Holds terminator offset known f edges _ lts r
        (chosen (branch_edge_is_feasible op terminator e.kind known))
    where
      chosen :
          (b : Bool)
          → HoldsOf count (
              if b
              then flow config.hierarchy method e.target
                  (refine_if (instanceof_true_edge op terminator e.kind) known f)
                  offset
                  s
              else s)
      chosen true =
          flow-Holds count config.hierarchy method e.target
            (refine_if (instanceof_true_edge op terminator e.kind) known f) offset s lt
            (refine_if-IsReachable (instanceof_true_edge op terminator e.kind) known f r) h
      chosen false = h

module _ (op : Opcodes) (config : InferenceConfig) (method : MethodIr) (graph : ControlFlowGraph)
    (runnable : IsRunnable method graph) where
  abbrev HoldsIn : EngineState → Type 0
  HoldsIn s = HoldsOf (length graph.blocks) s

  run_block-Holds :
      (b : BasicBlock) (f : Frame) (last : InstructionIr) (body : List InstructionIr)
      (s : EngineState)
      → IsIn b graph.blocks
      → IsReachable f
      → HoldsIn s
      → HoldsIn (run_block op config method graph b f last body s)
  run_block-Holds b f last body s m r h =
      let count = length graph.blocks in
      let start : Run = record { frame = f; terminator_branch_fact = none; engine = s } in
      let run = run_instructions op config method b body start in
      let (reachable, ran) =
        run_instructions-Holds op config method count b body start (runnable.exception_edges b m)
          (r, h) in
      propagate_subroutine_return-Holds count config.hierarchy method graph runnable.starts op last
        run.frame _ reachable
        (follow_each-Holds op config method count last.opcode b.start_offset
          run.terminator_branch_fact run.frame b.successors run.engine (runnable.edges b m)
          reachable ran)

  -- A block with a frame is processed, without an index out of bounds.
  pub process-Ends :
      (id : BlockId) (s : EngineState)
      → id < length graph.blocks
      → HasFrame s.incoming id
      → HoldsIn s
      → Ends HoldsIn (λ _. ⊥) (process op config method graph id s)
  unfolding process
  process-Ends id s lt (f, at) h =
      let (b, here) = get_elem?-below graph.blocks id lt in
      let m = get_elem?-IsIn graph.blocks id b here in
      let (body, is_body) = runnable.bodies b m in
      let (last, is_last) = runnable.last b m in
      let reachable = All-map_get IsReachable s.incoming id f h.frames at in
      rw (here, at, is_body, is_last) (returns (run_block-Holds b f last body s m reachable h))
