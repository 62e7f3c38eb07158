-- ===== src/Engine/Runnable.antt =====
-- The engine of src/solver/engine runs on the graphs that src/cfg/build.rs makes, and leaves
-- well-formed frames.
use ferro_jtype.Prelude.{
  ℕ, ◌+◌, ◌<◌, ◌≤◌, ◌≡◌, refl, sym, ◌∙◌, subst, inl, inr, false, List, [], ◌∷◌, Option, none, some,
  All, length, length-map, arith,
}
use ferro_jtype.Prelude.Result.{Result, ok, err, out_of_fuel, Ends, returns, raises, Ends-bind}
use ferro_jtype.Prelude.Members.{IsIn, All-IsIn}
use ferro_jtype.Types.ClassName.{ClassName}
use ferro_jtype.Frame.{Frame, IsWellFormed}
use ferro_jtype.Frame.WellFormed.Reachable.{IsReachable, at_entry, IsReachable-IsWellFormed}
use ferro_jtype.Ir.{MethodIr, InstructionIr}
use ferro_jtype.Opcodes.{Opcodes}
use ferro_jtype.Cfg.{BlockId, Edge, ExceptionEdge, BasicBlock}
use ferro_jtype.Cfg.Edges.Members.{some-injective}
use ferro_jtype.Cfg.Build.{CfgBuildResult, element_before, slice, build_cfg}
use ferro_jtype.Cfg.Build.Partition.{slice_within, get_elem?-lt-length}
use ferro_jtype.Cfg.Build.Connected.{element_before-below}
use ferro_jtype.Cfg.Build.Starting.{IsSequence}
use ferro_jtype.Cfg.Build.Correct.{
  StartsAt, IsGraph-with, IsBlock-with, StartsAt-iff, built, build_cfg-bodies, block_at_offset_iff,
}
use ferro_jtype.Cfg.Build.Flow.{successors_iff}
use ferro_jtype.Cfg.Build.Exceptions.{exception_successors_iff}
use ferro_jtype.Engine.{InferenceConfig}
use ferro_jtype.Engine.Queue.{new-IsQueue}
use ferro_jtype.Engine.Blocks.{Panic}
use ferro_jtype.Engine.Analyze.{LoopState, initial_state, frame_at_entry, run_from, analyze_frames}
use ferro_jtype.Engine.Invariant.{HoldsOf}
use ferro_jtype.Engine.Running.{IsRunnable}
use ferro_jtype.Engine.Bounded.{IsEnded, work_loop-Ends}

module _ (op : Opcodes) (method : MethodIr) (seq : IsSequence method.instructions)
    (r : CfgBuildResult) (made : build_cfg op method ≡ some r) where
  below_count : (id offset : ℕ) → StartsAt r.graph id offset → id < length r.graph.blocks
  below_count id offset (b, at, _) = get_elem?-lt-length r.graph.blocks id b at

  stop_within :
      (b : BasicBlock)
      → IsIn b r.graph.blocks
      → b.instruction_range.stop ≤ length method.instructions
  stop_within b m =
      let w = IsBlock-with op method seq r made (IsGraph-with op method seq r made b m) b m in
      omega (arith, w.ends, length-map (λ (i : InstructionIr). i.offset) method.instructions)

  in_order :
      (b : BasicBlock)
      → IsIn b r.graph.blocks
      → b.instruction_range.start < b.instruction_range.stop
  in_order b m =
      (IsBlock-with op method seq r made (IsGraph-with op method seq r made b m) b
        m).has_instruction

  body_of :
      (b : BasicBlock)
      → IsIn b r.graph.blocks
      → (body : List InstructionIr) × (slice method.instructions b.instruction_range ≡ some body)
  body_of b m =
      let lt = in_order b m in
      let made =
        slice_within method.instructions b.instruction_range.start b.instruction_range.stop
          (omega arith) (stop_within b m) in
      (_, made)

  last_of :
      (b : BasicBlock)
      → IsIn b r.graph.blocks
      → (i : InstructionIr) × (element_before method.instructions b.instruction_range.stop ≡ some i)
  last_of b m =
      element_before-below method.instructions b.instruction_range.start b.instruction_range.stop
        (in_order b m) (stop_within b m)

  build_cfg-IsRunnable : IsRunnable method r.graph
  build_cfg-IsRunnable = record {
    edges = λ b m.
        All-IsIn (λ (e : Edge). e.target < length r.graph.blocks) b.successors
          (λ e there.
            let (last, at) = last_of b m in
            let (n, _, starts) = (successors_iff op method seq r made b last e m at).0 there in
            below_count e.target n starts);
    exception_edges = λ b m.
        All-IsIn (λ (e : ExceptionEdge). e.target < length r.graph.blocks) b.exception_successors
          (λ e there.
            let (body, at) = body_of b m in
            let (i, h, _, _, _, _, _, starts, _, _) =
              (exception_successors_iff op method seq r made b body e m at).0 there in
            below_count e.target h.handler_offset starts);
    starts = λ offset id e.
        below_count id offset ((block_at_offset_iff op method seq r made offset id).0 e);
    bodies = body_of;
    last = last_of;
  }

  first_block : (entry : BlockId) → r.graph.entry ≡ some entry → entry < length r.graph.blocks
  first_block entry e = elim (built op method seq r made) [
    | inl (_, _, _, no_entry) ↦ let nothing : none ≡ some entry = sym no_entry ∙ e in cc
    | inr g ↦
        let is_first : entry ≡ 0 = some-injective (sym e ∙ g.entered) in
        let (first, begins, _) = g.entry_start in
        let starts = (StartsAt-iff op method seq r made g 0 first).0 begins in
        subst (λ x. x < length r.graph.blocks) (sym is_first) (below_count 0 first starts)
  ]

-- The frames of a state, where there is a state.
abbrev pub AllWellFormed : Option LoopState → Type 0
AllWellFormed none = Unit
AllWellFormed (some s) = All (λ (e : ℕ × Frame). IsWellFormed e.1) s.engine.incoming

abbrev pub IsEndedIfAny : Option LoopState → Type 0
IsEndedIfAny none = Unit
IsEndedIfAny (some s) = IsEnded s

module _ (op : Opcodes) (config : InferenceConfig) (owner : ClassName) (method : MethodIr)
    (seq : IsSequence method.instructions) (bounded : config.unbounded_analysis ≡ false) where
  abbrev Analyzed : Option LoopState → Type 0
  Analyzed o = AllWellFormed o × IsEndedIfAny o

  well_formed :
      (incoming : List (ℕ × Frame))
      → All (λ (e : ℕ × Frame). IsReachable e.1) incoming
      → All (λ (e : ℕ × Frame). IsWellFormed e.1) incoming
  well_formed [] h = tt
  well_formed ((id, f) ∷ incoming) (r, h) = (IsReachable-IsWellFormed f r, well_formed incoming h)

  initial-Holds :
      (r : CfgBuildResult) (entry count : ℕ)
      → entry < count
      → HoldsOf count (initial_state entry (frame_at_entry config owner method) r).engine
  initial-Holds r entry count lt = record {
    frames = (at_entry owner _ method.descriptor method.access_flags method.max_locals _, tt);
    waiting = λ id m. elim m [
      | inl e ↦ (rw e lt, rw e (frame_at_entry config owner method, ground arith))
      | inr nowhere ↦ absurd nowhere
    ];
    queue = new-IsQueue entry;
  }

  run_from-Ends :
      (r : CfgBuildResult) (entry : Option BlockId)
      → build_cfg op method ≡ some r
      → r.graph.entry ≡ entry
      → Ends Analyzed (λ _. ⊥) (run_from (config.max_work_items + 1) op config owner method r entry)
  run_from-Ends r none made e = returns (tt, tt)
  run_from-Ends r (some entry) made e =
      let lt = first_block op method seq r made entry e in
      let start = initial_state entry (frame_at_entry config owner method) r in
      Ends-bind
        (work_loop-Ends op config method r.graph (build_cfg-IsRunnable op method seq r made) bounded
          (config.max_work_items + 1) start (omega arith) (omega arith)
          (initial-Holds r entry (length r.graph.blocks) lt))
        (λ s (held, ended). returns (well_formed s.engine.incoming held.frames, ended))

  analyze_frames-Ends :
      Ends Analyzed (λ _. ⊥) (analyze_frames (config.max_work_items + 1) op config owner method)
  unfolding analyze_frames
  analyze_frames-Ends =
      let (r, made, _) = build_cfg-bodies op method seq in
      rw made (run_from-Ends r r.graph.entry made refl)

  returned :
      (r : Result Panic (Option LoopState))
      → Ends Analyzed (λ _. ⊥) r
      → (o : Option LoopState) × (r ≡ ok o) × Analyzed o
  returned (ok o) (returns h) = (o, refl, h)
  returned (err e) (raises h) = absurd h
  returned out_of_fuel h = elim h [ ]

  -- Under a bound on the work items, and with no hierarchy or one whose answers name finitely many
  -- classes, the analysis of a method whose instructions stand at ascending `u16` offsets returns in a
  -- build without overflow checks: one round more than the bound is enough, and no index into the
  -- graph, the incoming frames or the instructions is out of bounds. Every frame that has come in has
  -- parallel vectors of one length, and the queue is empty or the analysis is marked as not complete.
  pub analyze_frames-returns :
      (o : Option LoopState) × (analyze_frames (config.max_work_items + 1) op config owner method
        ≡ ok o)
      × AllWellFormed o
      × IsEndedIfAny o
  analyze_frames-returns =
      let (o, e, (formed, ended)) =
        returned (analyze_frames (config.max_work_items + 1) op config owner method)
          analyze_frames-Ends in
      (o, e, formed, ended)
