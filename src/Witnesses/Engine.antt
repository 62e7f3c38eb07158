-- ===== src/Witnesses/Engine.antt =====
-- Inputs for the properties of the fixpoint engine.
use ferro_jtype.Prelude.{◌+◌, ◌≡◌, ◌≢◌, refl, ◌↔◌, inl, true, false, [], ◌∷◌, Option, none, some}
use ferro_jtype.Prelude.Map.{map_get}
use ferro_jtype.Prelude.Result.{ok}
use ferro_jtype.Types.Inferred.{null, reference}
use ferro_jtype.Types.Inferred.Meaning.{null_ref, ref_value}
use ferro_jtype.Frame.{Frame, plain}
use ferro_jtype.Frame.Stack.{top_value}
use ferro_jtype.Opcodes.{jvm}
use ferro_jtype.Engine.{InferenceConfig, EngineState}
use ferro_jtype.Engine.Branch.{branch_fact, branch_edge_is_feasible}
use ferro_jtype.Engine.Branch.Sound.{edge_taken, branch_edge_is_feasible-edge_taken}
use ferro_jtype.Engine.Propagate.{merge_frame}
use ferro_jtype.Engine.Propagate.Changed.{merge_frame-changed}
use ferro_jtype.Engine.Analyze.{LoopState, analyze_frames}
use ferro_jtype.Engine.Runnable.{AllWellFormed, IsEndedIfAny, analyze_frames-returns}
use ferro_jtype.Witnesses.{base_class}
use ferro_jtype.Witnesses.Cfg.{branching, branching-IsSequence}

abbrev config : InferenceConfig
config = record {
  strict = false;
  max_block_iterations = 4;
  max_work_items = 20;
  unbounded_analysis = false;
  use_local_variable_metadata = false;
  hierarchy = none;
  method_summaries = none;
  field_summaries = none;
}

analyze_frames-returns_example :
    (o : Option LoopState) × (analyze_frames (20 + 1) jvm config base_class branching ≡ ok o)
    × AllWellFormed o
    × IsEndedIfAny o
analyze_frames-returns_example =
    analyze_frames-returns jvm config base_class branching branching-IsSequence refl

-- A frame with `null` on top.
abbrev empty_frame : Frame
empty_frame = record {
  locals = [];
  stack = [];
  local_return_targets = [];
  local_value_origins = [];
  stack_return_targets = [];
  stack_local_origins = [];
  stack_instanceof_facts = [];
  local_variable_hints = [];
}

abbrev null_on_top : Frame
null_on_top = record empty_frame {
  stack = reference null ∷ [];
  stack_return_targets = none ∷ [];
  stack_local_origins = none ∷ [];
  stack_instanceof_facts = none ∷ [];
}

null_is_top : top_value null_on_top ≡ some (plain (reference null))
unfolding top_value
null_is_top = refl

branch_edge_is_feasible-edge_taken_example :
    branch_edge_is_feasible jvm 198
      (edge_taken jvm 198 (ref_value null_ref))
      (branch_fact jvm 198 null_on_top)
    ≡ true
branch_edge_is_feasible-edge_taken_example =
    branch_edge_is_feasible-edge_taken none null_on_top (plain (reference null))
      (ref_value null_ref) null_is_top (null_ref, refl, tt) jvm 198 refl (inl refl)

abbrev waiting : EngineState
waiting = record {
  incoming = (1, empty_frame) ∷ [];
  worklist = record { queue = []; queued = [] };
  diagnostics = [];
}

merge_frame-changed_example : ((merge_frame none branching 1 null_on_top 4 waiting).0 ≡ true) ↔ (
    map_get (merge_frame none branching 1 null_on_top 4 waiting).1.incoming 1
    ≢ map_get waiting.incoming 1)
merge_frame-changed_example = merge_frame-changed none branching 1 null_on_top 4 waiting
