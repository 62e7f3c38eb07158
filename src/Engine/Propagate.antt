-- ===== src/Engine/Propagate.antt =====
-- src/solver/engine/propagate.rs: frames that flow along edges.
pub mod Changed
use ferro_jtype.Prelude.{
  ℕ, Bool, true, false, not, List, [], ◌∷◌, ◌++◌, Option, none, some, ◌==◌, if◌then◌else◌, as_bool,
  ℕ_discrete,
}
use ferro_jtype.Prelude.Map.{map_get, map_insert}
use ferro_jtype.Hierarchy.{TypeHierarchy}
use ferro_jtype.Frame.{Frame}
use ferro_jtype.Frame.Entry.{exception_frame}
use ferro_jtype.Frame.Locals.{local_return_targets}
use ferro_jtype.Frame.Merge.{merge_from}
use ferro_jtype.Ir.{MethodIr, InstructionIr, InstructionOperandIr, local}
use ferro_jtype.Diagnostic.{
  Diagnostic, DiagnosticKind, warning, error, invalid_control_flow, stack_height_mismatch,
  analysis_limit_reached, Limit, Message, paths_with_different_heights, ret_without_local,
  ret_without_return_address, ret_target_without_instruction, stopped_at_limit, method_location,
  at_offset,
}
use ferro_jtype.Opcodes.{Opcodes}
use ferro_jtype.Cfg.{BlockId, ExceptionEdge, ControlFlowGraph, block_at_offset}
use ferro_jtype.Engine.{EngineState}
use ferro_jtype.Engine.Queue.{enqueue}

abbrev pub warning_at : MethodIr → ℕ → DiagnosticKind → Message → Diagnostic
warning_at method offset kind message = record {
  severity = warning;
  kind = kind;
  location = at_offset offset (method_location method.name method.descriptor_text);
  message = message;
}

abbrev pub limit_diagnostic : MethodIr → Limit → Diagnostic
limit_diagnostic method limit = record {
  severity = error;
  kind = analysis_limit_reached;
  location = method_location method.name method.descriptor_text;
  message = stopped_at_limit limit;
}

abbrev pub report : Diagnostic → EngineState → EngineState
report d s = record s { diagnostics = s.diagnostics ++ d ∷ [] }

-- `Frame` under `==`
unfoldable pub Frame-discrete : Discrete Frame
Frame-discrete = hlevel ℕ_discrete

abbrev pub report_mismatch : Bool → MethodIr → ℕ → EngineState → EngineState
report_mismatch true method offset s =
    report (warning_at method offset stack_height_mismatch paths_with_different_heights) s
report_mismatch false method offset s = s

-- Whether the frame at the block has changed.
abbrev pub merge_into :
    Option TypeHierarchy
    → MethodIr
    → BlockId
    → Frame
    → ℕ
    → Option Frame
    → EngineState
    → Bool × EngineState
merge_into h method target outgoing offset none s =
    (true, record s { incoming = map_insert target outgoing s.incoming })
merge_into h method target outgoing offset (some existing) s =
    let (merged, mismatch) = merge_from h existing outgoing in
    (
      not (as_bool (Frame-discrete merged existing)),
      report_mismatch mismatch method offset
          (record s { incoming = map_insert target merged s.incoming }),
    )

unfoldable pub merge_frame :
    Option TypeHierarchy → MethodIr → BlockId → Frame → ℕ → EngineState → Bool × EngineState
merge_frame h method target outgoing offset s =
    merge_into h method target outgoing offset (map_get s.incoming target) s

abbrev pub enqueue_if : Bool → BlockId → EngineState → EngineState
enqueue_if true block s = record s { worklist = enqueue block s.worklist }
enqueue_if false block s = s

-- A merge, and the block queued where its frame has changed.
unfoldable pub flow :
    Option TypeHierarchy → MethodIr → BlockId → Frame → ℕ → EngineState → EngineState
unfolding merge_frame
flow h method target outgoing offset s =
    let (changed, s') = merge_frame h method target outgoing offset s in
    enqueue_if changed target s'

unfoldable pub propagate_exception_edges :
    Option TypeHierarchy → MethodIr → List ExceptionEdge → ℕ → Frame → EngineState → EngineState
unfolding flow
propagate_exception_edges h method [] offset before s = s
propagate_exception_edges h method (edge ∷ edges) offset before s =
    propagate_exception_edges h method edges offset before (
      if edge.instruction_offset == offset
      then flow h method edge.target (exception_frame edge.catch_type before) offset s
      else s)

abbrev pub return_to :
    Option TypeHierarchy → MethodIr → ℕ → ℕ → Frame → Option BlockId → EngineState → EngineState
return_to h method offset target_offset f none s =
    report
      (warning_at method offset invalid_control_flow (ret_target_without_instruction target_offset))
      s
return_to h method offset target_offset f (some target) s = flow h method target f offset s

unfoldable pub return_to_each :
    Option TypeHierarchy
    → MethodIr
    → ControlFlowGraph
    → ℕ
    → Frame
    → List ℕ
    → EngineState
    → EngineState
unfolding flow block_at_offset
return_to_each h method graph offset f [] s = s
return_to_each h method graph offset f (target ∷ targets) s =
    return_to_each h method graph offset f targets
      (return_to h method offset target f (block_at_offset graph target) s)

abbrev pub return_through :
    Option TypeHierarchy
    → MethodIr
    → ControlFlowGraph
    → ℕ
    → Frame
    → ℕ
    → Option (List ℕ)
    → EngineState
    → EngineState
return_through h method graph offset f slot none s =
    report (warning_at method offset invalid_control_flow (ret_without_return_address slot)) s
return_through h method graph offset f slot (some targets) s =
    return_to_each h method graph offset f targets s

abbrev pub return_from :
    Option TypeHierarchy
    → MethodIr
    → ControlFlowGraph
    → ℕ
    → Frame
    → InstructionOperandIr
    → EngineState
    → EngineState
return_from h method graph offset f (local slot) s =
    return_through h method graph offset f slot (local_return_targets slot f) s
return_from h method graph offset f _ s =
    report (warning_at method offset invalid_control_flow ret_without_local) s

unfoldable pub propagate_subroutine_return :
    Opcodes
    → Option TypeHierarchy
    → MethodIr
    → ControlFlowGraph
    → InstructionIr
    → Frame
    → EngineState
    → EngineState
unfolding return_to_each
propagate_subroutine_return op h method graph i f s =
    if i.opcode == op.ret then return_from h method graph i.offset f i.operand s else s
