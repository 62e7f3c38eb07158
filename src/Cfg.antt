-- ===== src/Cfg.antt =====
-- src/cfg/graph.rs: the control-flow graph. A block's number is its index in the arena of blocks.
pub mod Opcode
pub mod Offsets
pub mod Starts
pub mod Edges
pub mod Build
use ferro_jtype.Prelude.{ℕ, List, Option}
use ferro_jtype.Prelude.Map.{map_get}
use ferro_jtype.Types.ClassName.{ClassName}

abbrev pub BlockId : Type 0
BlockId = ℕ

pub data EdgeKind : Type 0 where
  fall_through branch switch : EdgeKind

pub record Edge : Type 0 where
  pub target : BlockId
  pub kind : EdgeKind

pub record ExceptionEdge : Type 0 where
  pub instruction_offset : ℕ
  pub target : BlockId
  pub catch_type : Option ClassName

-- `Range<usize>`
pub record Range : Type 0 where
  pub start : ℕ
  pub stop : ℕ

pub record BasicBlock : Type 0 where
  pub start_offset : ℕ
  pub instruction_range : Range
  pub successors : List Edge
  pub exception_successors : List ExceptionEdge

-- A map from offsets to indices.
abbrev pub OffsetMap : Type 0
OffsetMap = List (ℕ × ℕ)

pub record ControlFlowGraph : Type 0 where
  pub blocks : List BasicBlock
  pub entry : Option BlockId
  pub blocks_by_offset : OffsetMap

unfoldable pub block_at_offset : ControlFlowGraph → ℕ → Option BlockId
block_at_offset g offset = map_get g.blocks_by_offset offset
