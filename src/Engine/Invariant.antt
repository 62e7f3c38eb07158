-- ===== src/Engine/Invariant.antt =====
-- What the engine of src/solver/engine keeps: every frame that has come in is one that the operations
-- on frames make, and every queued block is a block of the graph with a frame.
use ferro_jtype.Prelude.{
  ℕ, ◌<◌, ◌≡◌, refl, ◌∙◌, inl, inr, Bool, true, false, List, [], ◌∷◌, Option, none, some, All, ◌==◌,
  if◌then◌else◌, Bool-cases, ==_iff, arith,
}
use ferro_jtype.Prelude.Map.{map_get, map_insert}
use ferro_jtype.Prelude.Members.{IsIn}
use ferro_jtype.Hierarchy.{TypeHierarchy}
use ferro_jtype.Frame.{Frame}
use ferro_jtype.Frame.Entry.{exception_frame}
use ferro_jtype.Frame.Locals.{local_return_targets}
use ferro_jtype.Frame.Merge.{merge_from}
use ferro_jtype.Frame.WellFormed.Reachable.{IsReachable, after, merged, handling}
use ferro_jtype.Ir.{MethodIr, InstructionIr, InstructionOperandIr, local}
use ferro_jtype.Opcodes.{Opcodes}
use ferro_jtype.Cfg.{BlockId, ExceptionEdge, ControlFlowGraph, block_at_offset}
use ferro_jtype.Engine.{Worklist, EngineState}
use ferro_jtype.Engine.Queue.{IsQueue, IsIn-enqueue, enqueue-IsQueue}
use ferro_jtype.Engine.Propagate.{
  report_mismatch, merge_into, merge_frame, enqueue_if, flow, propagate_exception_edges, return_to,
  return_to_each, return_through, return_from, propagate_subroutine_return,
}
use ferro_jtype.Prelude.Map.Laws.{map_get-map_insert, map_get-other, All-map_insert, All-map_get}

abbrev pub HasFrame : List (ℕ × Frame) → ℕ → Type 0
HasFrame incoming id = (f : Frame) × (map_get incoming id ≡ some f)

-- The invariant, for a graph with `count` blocks.
pub record Holds (count : ℕ) (incoming : List (ℕ × Frame)) (worklist : Worklist) : Type 0 where
  pub frames : All (λ (e : ℕ × Frame). IsReachable e.1) incoming
  pub waiting : (id : ℕ) → IsIn id worklist.queue → (id < count) × HasFrame incoming id
  pub queue : IsQueue worklist

abbrev pub HoldsOf : ℕ → EngineState → Type 0
HoldsOf count s = Holds count s.incoming s.worklist

module _ (count : ℕ) where
  keep_waiting :
      (s : EngineState) (target id : ℕ) (f : Frame)
      → HasFrame s.incoming id
      → HasFrame (map_insert target f s.incoming) id
  keep_waiting s target id f (g, e) = elim (Bool-cases (id == target)) [
    | inl same ↦
        let is_target = (==_iff id target).0 same in
        (f, rw is_target (map_get-map_insert target f s.incoming))
    | inr differs ↦ (g, map_get-other target f s.incoming id (λ same. other same differs) ∙ e)
  ]
    where
      other : {a b : ℕ} → a ≡ b → (a == b) ≡ false → ⊥
      other {a} {b} e d = ground arith

  insert-Holds :
      (s : EngineState) (target : ℕ) (f : Frame)
      → IsReachable f
      → HoldsOf count s
      → HoldsOf count (record s { incoming = map_insert target f s.incoming })
  insert-Holds s target f r h = record {
    frames = All-map_insert IsReachable target f s.incoming r h.frames;
    waiting = λ id m. ((h.waiting id m).0, keep_waiting s target id f (h.waiting id m).1);
    queue = h.queue;
  }

  enqueue-Holds :
      (s : EngineState) (b : Bool) (target : ℕ)
      → target < count
      → HasFrame s.incoming target
      → HoldsOf count s
      → HoldsOf count (enqueue_if b target s)
  enqueue-Holds s false target lt f h = h
  enqueue-Holds s true target lt f h = record {
    frames = h.frames;
    waiting = λ id m. elim ((IsIn-enqueue target id s.worklist h.queue).0 m) [
      | inl there ↦ h.waiting id there
      | inr e ↦ (rw e lt, rw e f)
    ];
    queue = enqueue-IsQueue target s.worklist h.queue;
  }

  mismatch-Holds :
      (b : Bool) (method : MethodIr) (offset : ℕ) (s : EngineState)
      → HoldsOf count s
      → HoldsOf count (report_mismatch b method offset s)
  mismatch-Holds true method offset s h = record {
    frames = h.frames;
    waiting = h.waiting;
    queue = h.queue;
  }
  mismatch-Holds false method offset s h = h

  mismatch-HasFrame :
      (b : Bool) (method : MethodIr) (offset id : ℕ) (s : EngineState)
      → HasFrame s.incoming id
      → HasFrame (report_mismatch b method offset s).incoming id
  mismatch-HasFrame true method offset id s f = f
  mismatch-HasFrame false method offset id s f = f

  module _ (hierarchy : Option TypeHierarchy) (method : MethodIr) where
    merge_into-Holds :
        (target : ℕ) (f : Frame) (offset : ℕ) (o : Option Frame) (s : EngineState)
        → map_get s.incoming target ≡ o
        → IsReachable f
        → HoldsOf count s
        → HoldsOf count (merge_into hierarchy method target f offset o s).1
          × HasFrame (merge_into hierarchy method target f offset o s).1.incoming target
    merge_into-Holds target f offset none s e r h =
        (insert-Holds s target f r h, (f, map_get-map_insert target f s.incoming))
    merge_into-Holds target f offset (some existing) s e r h =
        let g = merge_from hierarchy existing f in
        let reachable =
          merged hierarchy existing f
            (All-map_get IsReachable s.incoming target existing h.frames e) r in
        (
          mismatch-Holds g.1 method offset _ (insert-Holds s target g.0 reachable h),
          mismatch-HasFrame g.1 method offset target
              (record s { incoming = map_insert target g.0 s.incoming })
              (g.0, map_get-map_insert target g.0 s.incoming),
        )

    pub flow-Holds :
        (target : ℕ) (f : Frame) (offset : ℕ) (s : EngineState)
        → target < count
        → IsReachable f
        → HoldsOf count s
        → HoldsOf count (flow hierarchy method target f offset s)
    unfolding flow merge_frame
    flow-Holds target f offset s lt r h =
        let o = map_get s.incoming target in
        let (holds, there) = merge_into-Holds target f offset o s refl r h in
        enqueue-Holds (merge_into hierarchy method target f offset o s).1
          (merge_into hierarchy method target f offset o s).0 target lt there holds

    pub propagate_exception_edges-Holds :
        (edges : List ExceptionEdge) (offset : ℕ) (before : Frame) (s : EngineState)
        → All (λ (e : ExceptionEdge). e.target < count) edges
        → IsReachable before
        → HoldsOf count s
        → HoldsOf count (propagate_exception_edges hierarchy method edges offset before s)
    unfolding propagate_exception_edges
    propagate_exception_edges-Holds [] offset before s lt r h = h
    propagate_exception_edges-Holds (e ∷ edges) offset before s (lt, lts) r h =
        propagate_exception_edges-Holds edges offset before _ lts r
          (chosen (e.instruction_offset == offset))
      where
        chosen :
            (b : Bool)
            → HoldsOf count (
                if b
                then flow hierarchy method e.target (exception_frame e.catch_type before) offset s
                else s)
        chosen true =
            flow-Holds e.target (exception_frame e.catch_type before) offset s lt
              (after (handling e.catch_type) before r) h
        chosen false = h

    module _ (graph : ControlFlowGraph)
        (starts : (offset id : ℕ) → block_at_offset graph offset ≡ some id → id < count) where
      return_to-Holds :
          (offset target : ℕ) (f : Frame) (o : Option BlockId) (s : EngineState)
          → block_at_offset graph target ≡ o
          → IsReachable f
          → HoldsOf count s
          → HoldsOf count (return_to hierarchy method offset target f o s)
      return_to-Holds offset target f none s e r h = record {
        frames = h.frames;
        waiting = h.waiting;
        queue = h.queue;
      }
      return_to-Holds offset target f (some id) s e r h =
          flow-Holds id f offset s (starts target id e) r h

      return_to_each-Holds :
          (offset : ℕ) (f : Frame) (targets : List ℕ) (s : EngineState)
          → IsReachable f
          → HoldsOf count s
          → HoldsOf count (return_to_each hierarchy method graph offset f targets s)
      unfolding return_to_each
      return_to_each-Holds offset f [] s r h = h
      return_to_each-Holds offset f (t ∷ targets) s r h =
          return_to_each-Holds offset f targets _ r
            (return_to-Holds offset t f (block_at_offset graph t) s refl r h)

      return_from-Holds :
          (offset : ℕ) (f : Frame) (operand : InstructionOperandIr) (s : EngineState)
          → IsReachable f
          → HoldsOf count s
          → HoldsOf count (return_from hierarchy method graph offset f operand s)
      return_from-Holds offset f (local slot) s r h = through (local_return_targets slot f)
        where
          through :
              (targets : Option (List ℕ))
              → HoldsOf count (return_through hierarchy method graph offset f slot targets s)
          through none = record { frames = h.frames; waiting = h.waiting; queue = h.queue }
          through (some targets) = return_to_each-Holds offset f targets s r h
      return_from-Holds offset f _ s r h = record {
        frames = h.frames;
        waiting = h.waiting;
        queue = h.queue;
      }

      pub propagate_subroutine_return-Holds :
          (op : Opcodes) (i : InstructionIr) (f : Frame) (s : EngineState)
          → IsReachable f
          → HoldsOf count s
          → HoldsOf count (propagate_subroutine_return op hierarchy method graph i f s)
      unfolding propagate_subroutine_return
      propagate_subroutine_return-Holds op i f s r h = chosen (i.opcode == op.ret)
        where
          chosen :
              (b : Bool)
              → HoldsOf count
                  (if b then return_from hierarchy method graph i.offset f i.operand s else s)
          chosen true = return_from-Holds i.offset f i.operand s r h
          chosen false = h
