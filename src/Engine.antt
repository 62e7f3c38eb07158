-- ===== src/Engine.antt =====
-- src/solver/engine: the fixpoint of the frames at the starts of blocks. The state is the frames that
-- have come in, the worklist and the diagnostics.
pub mod Queue
pub mod Branch
pub mod Propagate
pub mod Blocks
pub mod Analyze
pub mod Invariant
pub mod Running
pub mod Runnable
pub mod Bounded
use ferro_jtype.Prelude.{ℕ, Bool, List, Option}
use ferro_jtype.Hierarchy.{TypeHierarchy}
use ferro_jtype.Diagnostic.{Diagnostic}
use ferro_jtype.Frame.{Frame}
use ferro_jtype.Cfg.{BlockId}
use ferro_jtype.Summary.{MethodSummaryResolver, FieldSummaryResolver}

-- src/api.rs. A hierarchy and the resolvers are shared by reference there.
pub record InferenceConfig : Type 0 where
  pub strict : Bool
  pub max_block_iterations : ℕ
  pub max_work_items : ℕ
  pub unbounded_analysis : Bool
  pub use_local_variable_metadata : Bool
  pub hierarchy : Option TypeHierarchy
  pub method_summaries : Option MethodSummaryResolver
  pub field_summaries : Option FieldSummaryResolver

-- The blocks to process, and the same blocks as a set.
pub record Worklist : Type 0 where
  pub queue : List BlockId
  pub queued : List BlockId

-- What a `Propagation` borrows, with the frames that have come in.
pub record EngineState : Type 0 where
  pub incoming : List (ℕ × Frame)
  pub worklist : Worklist
  pub diagnostics : List Diagnostic
