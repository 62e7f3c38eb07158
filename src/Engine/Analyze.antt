-- ===== src/Engine/Analyze.antt =====
-- `analyze_method` of src/solver/engine/mod.rs, up to the end of its loop. An index out of bounds, at
-- which the source panics, is an error.
use ferro_jtype.Prelude.{
  ℕ, zero, suc, ◌+◌, Bool, true, false, not, ◌&&◌, List, [], ◌∷◌, Option, none, some, ltb,
  if◌then◌else◌, codes,
}
use ferro_jtype.Prelude.Map.{map_get, map_insert}
use ferro_jtype.Prelude.Result.{Result, ok, out_of_fuel, ◌>>=◌}
use ferro_jtype.Types.ClassName.{ClassName}
use ferro_jtype.Frame.{LocalVariableIntegralHint, Frame}
use ferro_jtype.Frame.Entry.{entry_frame}
use ferro_jtype.Ir.{MethodIr}
use ferro_jtype.Diagnostic.{work_item_budget, per_block_iteration_budget}
use ferro_jtype.Opcodes.{Opcodes}
use ferro_jtype.Cfg.{BlockId, ControlFlowGraph}
use ferro_jtype.Cfg.Build.{CfgBuildResult, build_cfg}
use ferro_jtype.Transfer.Member.{is_same_text}
use ferro_jtype.Engine.{InferenceConfig, Worklist, EngineState}
use ferro_jtype.Engine.Queue.{new, pop}
use ferro_jtype.Engine.Propagate.{limit_diagnostic, report}
use ferro_jtype.Engine.Blocks.{Panic, or_panic, process}

-- The state of the loop over the worklist.
pub record LoopState : Type 0 where
  pub engine : EngineState
  pub visits : List (BlockId × ℕ)
  pub total_work_items : ℕ
  pub analysis_complete : Bool

abbrev or_zero : Option ℕ → ℕ
or_zero none = 0
or_zero (some n) = n

abbrev pub stop_at_items : MethodIr → EngineState → LoopState → LoopState
stop_at_items method e s = record s {
  engine = report (limit_diagnostic method work_item_budget) e;
  analysis_complete = false;
}

abbrev pub skip_visit : MethodIr → EngineState → LoopState → LoopState
skip_visit method e s = record s {
  engine = report (limit_diagnostic method per_block_iteration_budget) e;
  analysis_complete = false;
}

abbrev pub exceeds : InferenceConfig → ℕ → ℕ → Bool
exceeds config count limit = not config.unbounded_analysis && ltb limit count

-- One round, with the block that has left the queue: whether the loop goes on, and the state.
unfoldable pub work :
    Opcodes
    → InferenceConfig
    → MethodIr
    → ControlFlowGraph
    → BlockId
    → EngineState
    → LoopState
    → Result Panic (Bool × LoopState)
unfolding process
work op config method graph id e s =
    let items = s.total_work_items + 1 in
    let visit = or_zero (map_get s.visits id) + 1 in
    let counted = record s { total_work_items = items } in
    let visited = record counted { visits = map_insert id visit s.visits } in
    if exceeds config items config.max_work_items
    then ok (false, stop_at_items method e counted)
    else if exceeds config visit config.max_block_iterations
    then ok (true, skip_visit method e visited)
    else do e' ← process op config method graph id e; ok (true, record visited { engine = e' })

abbrev pub popped : EngineState → Worklist → EngineState
popped e w = record e { worklist = w }

abbrev pub continue_with :
    (LoopState → Result Panic LoopState) → Bool × LoopState → Result Panic LoopState
continue_with rest (false, s) = ok s
continue_with rest (true, s) = rest s

-- One block from the queue, and the rest of the loop; the end where there is none.
abbrev pub next_work :
    Opcodes
    → InferenceConfig
    → MethodIr
    → ControlFlowGraph
    → (LoopState → Result Panic LoopState)
    → LoopState
    → Option (BlockId × Worklist)
    → Result Panic LoopState
next_work op config method graph rest s none = ok s
next_work op config method graph rest s (some (id, w)) =
    work op config method graph id (popped s.engine w) s >>= continue_with rest

-- The loop over the worklist, on fuel.
unfoldable pub work_loop :
    ℕ → Opcodes → InferenceConfig → MethodIr → ControlFlowGraph → LoopState → Result Panic LoopState
unfolding work pop
work_loop zero op config method graph s = out_of_fuel
work_loop (suc fuel) op config method graph s =
    next_work op config method graph (work_loop fuel op config method graph) s
      (pop s.engine.worklist)

abbrev pub initial_state : BlockId → Frame → CfgBuildResult → LoopState
initial_state entry f r = record {
  engine = record { incoming = (entry, f) ∷ []; worklist = new entry; diagnostics = r.diagnostics };
  visits = [];
  total_work_items = 0;
  analysis_complete = true;
}

abbrev pub hints_of : InferenceConfig → MethodIr → List LocalVariableIntegralHint
hints_of config method =
    if config.use_local_variable_metadata then method.local_variable_hints else []

abbrev pub frame_at_entry : InferenceConfig → ClassName → MethodIr → Frame
frame_at_entry config owner method =
    entry_frame owner (is_same_text method.name (codes "<init>")) method.descriptor
      method.access_flags method.max_locals (hints_of config method)

-- The graph, and the state at the end of the loop; without it where the method has no instruction.
abbrev pub run_from :
    ℕ
    → Opcodes
    → InferenceConfig
    → ClassName
    → MethodIr
    → CfgBuildResult
    → Option BlockId
    → Result Panic (Option LoopState)
run_from fuel op config owner method r none = ok none
run_from fuel op config owner method r (some entry) = do
  s ←
      work_loop fuel op config method r.graph
        (initial_state entry (frame_at_entry config owner method) r)
  ok (some s)

unfoldable pub analyze_frames :
    ℕ → Opcodes → InferenceConfig → ClassName → MethodIr → Result Panic (Option LoopState)
unfolding work_loop build_cfg
analyze_frames fuel op config owner method = do
  r ← or_panic (build_cfg op method)
  run_from fuel op config owner method r r.graph.entry
