-- ===== src/Engine/Bounded.antt =====
-- Under a bound on the work items the loop of src/solver/engine/mod.rs ends, and no
-- index into the graph, the incoming frames or the instructions is out of bounds.
use ferro_jtype.Prelude.{
  ℕ, zero, suc, ◌+◌, ◌<◌, ◌≤◌, ◌≡◌, refl, ap, subst, ◌⊎◌, inl, inr, Bool, true, false, List, [],
  ◌∷◌, Option, none, some, length, arith,
}
use ferro_jtype.Prelude.Result.{Result, Ends, returns, Ends-bind, Ends-if}
use ferro_jtype.Ir.{MethodIr}
use ferro_jtype.Opcodes.{Opcodes}
use ferro_jtype.Cfg.{BlockId, ControlFlowGraph}
use ferro_jtype.Cfg.Edges.Members.{some-injective}
use ferro_jtype.Engine.{InferenceConfig, Worklist, EngineState}
use ferro_jtype.Engine.Queue.{pop, pop_from, set_remove, rest-IsQueue}
use ferro_jtype.Engine.Blocks.{Panic}
use ferro_jtype.Engine.Analyze.{
  LoopState, exceeds, work, popped, continue_with, next_work, work_loop,
}
use ferro_jtype.Engine.Invariant.{Holds, HoldsOf, HasFrame}
use ferro_jtype.Engine.Running.{IsRunnable, process-Ends}

-- The loop ended with nothing left in the queue, or it tells that the analysis is not complete.
abbrev pub IsEnded : LoopState → Type 0
IsEnded s = (s.engine.worklist.queue ≡ []) ⊎ (s.analysis_complete ≡ false)

module _ (op : Opcodes) (config : InferenceConfig) (method : MethodIr) (graph : ControlFlowGraph)
    (runnable : IsRunnable method graph) (bounded : config.unbounded_analysis ≡ false) where
  abbrev count : ℕ
  count = length graph.blocks

  -- After a round from `items` rounds before: the loop goes on within the bound, or stops.
  abbrev Worked : ℕ → Bool × LoopState → Type 0
  Worked items (true, s) =
      HoldsOf count s.engine
      × (s.total_work_items ≡ items + 1)
      × (items + 1 ≤ config.max_work_items)
  Worked items (false, s) = HoldsOf count s.engine × (s.analysis_complete ≡ false)

  not_exceeded : (items limit : ℕ) → exceeds config items limit ≡ false → items ≤ limit
  not_exceeded items limit e = ground arith

  work-Ends :
      (id : BlockId) (e : EngineState) (s : LoopState)
      → id < count
      → HasFrame e.incoming id
      → HoldsOf count e
      → Ends (Worked s.total_work_items) (λ _. ⊥) (work op config method graph id e s)
  unfolding work
  work-Ends id e s lt f h =
      Ends-if (exceeds config (s.total_work_items + 1) config.max_work_items)
        (λ _. returns (reported, refl))
        (λ within.
          let le = not_exceeded (s.total_work_items + 1) config.max_work_items within in
          Ends-if (exceeds config _ config.max_block_iterations) (λ _. returns (reported, refl, le))
            (λ _.
              Ends-bind (process-Ends op config method graph runnable id e lt f h)
                (λ e' h'. returns (h', refl, le))))
    where
      reported : Holds count e.incoming e.worklist
      reported = h

  abbrev Finished : LoopState → Type 0
  Finished s = HoldsOf count s.engine × IsEnded s

  popped_first :
      (s : EngineState) (id : BlockId) (w : Worklist) (queue queued : List BlockId)
      → Holds count s.incoming (record { queue = queue; queued = queued })
      → pop_from queue queued ≡ some (id, w)
      → (id < count) × HasFrame s.incoming id × Holds count s.incoming w
  popped_first s id w [] queued h e = cc
  popped_first s id w (b ∷ queue) queued h e =
      let rest : Worklist = record { queue = queue; queued = set_remove b queued } in
      let same = some-injective e in
      let is_id : b ≡ id = ap (λ (p : BlockId × Worklist). p.0) same in
      let is_w : rest ≡ w = ap (λ (p : BlockId × Worklist). p.1) same in
      let (lt, f) = h.waiting b (inl refl) in
      let holds : Holds count s.incoming rest = record {
        frames = h.frames;
        waiting = λ n m. h.waiting n (inr m);
        queue = rest-IsQueue b queue queued h.queue;
      } in
      (
        subst (λ x. x < count) is_id lt,
        subst (HasFrame s.incoming) is_id f,
        subst (Holds count s.incoming) is_w holds,
      )

  empty_queue : (queue queued : List BlockId) → pop_from queue queued ≡ none → queue ≡ []
  empty_queue [] queued e = refl
  empty_queue (b ∷ queue) queued e = cc

  -- The rest of the loop ends wherever one more round has been counted within the bound.
  abbrev EndsAfter : ℕ → (LoopState → Result Panic LoopState) → Type 0
  EndsAfter items rest =
      (s : LoopState)
      → s.total_work_items ≡ items + 1
      → s.total_work_items ≤ config.max_work_items
      → HoldsOf count s.engine
      → Ends Finished (λ _. ⊥) (rest s)

  continued :
      (items : ℕ) (rest : LoopState → Result Panic LoopState) (r : Bool × LoopState)
      → EndsAfter items rest
      → Worked items r
      → Ends Finished (λ _. ⊥) (continue_with rest r)
  continued items rest (true, s) later (held, counted, within) = later s counted (omega arith) held
  continued items rest (false, s) later (held, incomplete) = returns (held, inr incomplete)

  next_work-Ends :
      (rest : LoopState → Result Panic LoopState) (s : LoopState) (o : Option (BlockId × Worklist))
      → pop_from s.engine.worklist.queue s.engine.worklist.queued ≡ o
      → HoldsOf count s.engine
      → EndsAfter s.total_work_items rest
      → Ends Finished (λ _. ⊥) (next_work op config method graph rest s o)
  next_work-Ends rest s none e h later =
      returns (h, inl (empty_queue s.engine.worklist.queue s.engine.worklist.queued e))
  next_work-Ends rest s (some (id, w)) e h later =
      let (lt, f, h') =
        popped_first s.engine id w s.engine.worklist.queue s.engine.worklist.queued h e in
      Ends-bind (work-Ends id (popped s.engine w) s lt f h')
        (λ r worked. continued s.total_work_items rest r later worked)

  -- The fuel is more than the work items that are left.
  pub work_loop-Ends :
      (fuel : ℕ) (s : LoopState)
      → s.total_work_items ≤ config.max_work_items
      → config.max_work_items + 1 ≤ fuel + s.total_work_items
      → HoldsOf count s.engine
      → Ends Finished (λ _. ⊥) (work_loop fuel op config method graph s)
  unfolding work_loop pop
  work_loop-Ends zero s le enough h = absurd (omega arith)
  work_loop-Ends (suc fuel) s le enough h =
      next_work-Ends (work_loop fuel op config method graph) s
        (pop_from s.engine.worklist.queue s.engine.worklist.queued) refl h
        (λ s' counted within held. work_loop-Ends fuel s' within (omega arith) held)
