-- ===== src/Cfg/Build.antt =====
-- src/cfg/build.rs: from the instructions of a method to its control-flow graph. A panic of the
-- source (an index or a range out of bounds) is `none`.
pub mod Partition
pub mod Connected
pub mod Starting
pub mod Graph
pub mod Correct
pub mod Successors
pub mod Flow
pub mod Control
pub mod Exceptions
use ferro_jtype.Prelude.{
  ℕ, zero, suc, ◌-◌, ◌&&◌, List, [], ◌∷◌, Option, none, some, length, get_elem?, take, drop, leb,
  if◌then◌else◌,
}
use ferro_jtype.Prelude.Map.{map_get}
use ferro_jtype.Ir.{MethodIr, InstructionIr}
use ferro_jtype.Diagnostic.{Diagnostic}
use ferro_jtype.Opcodes.{Opcodes}
use ferro_jtype.Cfg.{Range, BasicBlock, OffsetMap, ControlFlowGraph}
use ferro_jtype.Cfg.Starts.{Starts, index_from, offsets_of, instruction_starts, handler_starts}
use ferro_jtype.Cfg.Edges.{add_successors, add_exception_edges, ordinary_successors}
use mathlib.Core.Option
use ferro_jtype.Prelude.Chain.{◌>>=◌}

abbrev end_of : Option ℕ → ℕ → ℕ
end_of none count = count
end_of (some i) count = i

abbrev index_of_first : OffsetMap → List ℕ → Option ℕ
index_of_first positions [] = none
index_of_first positions (start ∷ starts) = map_get positions start

abbrev pub new_block : ℕ → ℕ → ℕ → BasicBlock
new_block offset start stop = record {
  start_offset = offset;
  instruction_range = record { start = start; stop = stop };
  successors = [];
  exception_successors = [];
}

-- The blocks between the starts, of a method with `count` instructions.
abbrev pub blocks_between : OffsetMap → ℕ → List ℕ → Option (List BasicBlock)
blocks_between positions count [] = some []
blocks_between positions count (offset ∷ starts) = elim (map_get positions offset) [
  | none ↦ none
  | some start ↦
      Option.map
        (λ blocks. new_block offset start (end_of (index_of_first positions starts) count) ∷ blocks)
        (blocks_between positions count starts)
]

-- The element before an index, and the elements of a range.
abbrev pub element_before {ℓ} : {A : Type ℓ} → List A → ℕ → Option A
element_before xs zero = none
element_before xs (suc i) = get_elem? xs i

abbrev pub slice {ℓ} : {A : Type ℓ} → List A → Range → Option (List A)
slice xs r =
    if leb r.start r.stop && leb r.stop (length xs)
    then some (take (r.stop - r.start) (drop r.start xs))
    else none

abbrev connect_with :
    Opcodes
    → OffsetMap
    → OffsetMap
    → MethodIr
    → BasicBlock
    → List Diagnostic
    → InstructionIr
    → List InstructionIr
    → BasicBlock × List Diagnostic
connect_with op positions blocks method block ds last body =
    let (edges, ds') =
      add_successors blocks method last.offset (ordinary_successors op last positions)
        (block.successors, ds) in
    (
      record block {
        successors = edges;
        exception_successors =
            add_exception_edges op blocks method.exception_handlers body block.exception_successors;
      },
      ds',
    )

-- One round of the loop over the blocks.
unfoldable pub connect :
    Opcodes
    → OffsetMap
    → OffsetMap
    → MethodIr
    → BasicBlock
    → List Diagnostic
    → Option (BasicBlock × List Diagnostic)
unfolding ordinary_successors
connect op positions blocks method block ds = do
  last ← element_before method.instructions block.instruction_range.stop
  body ← slice method.instructions block.instruction_range
  some (connect_with op positions blocks method block ds last body)

abbrev pub connect_all :
    Opcodes
    → OffsetMap
    → OffsetMap
    → MethodIr
    → List BasicBlock
    → List Diagnostic
    → Option (List BasicBlock × List Diagnostic)
connect_all op positions blocks method [] ds = some ([], ds)
connect_all op positions blocks method (b ∷ rest) ds = do
  (b', ds') ← connect op positions blocks method b ds
  (rest', ds'') ← connect_all op positions blocks method rest ds'
  some (b' ∷ rest', ds'')

pub record CfgBuildResult : Type 0 where
  pub graph : ControlFlowGraph
  pub diagnostics : List Diagnostic

abbrev pub positions_of : List InstructionIr → OffsetMap
positions_of is = index_from 0 (offsets_of is) []

-- The starts of the blocks and the diagnostics of the two loops that find them.
abbrev pub block_starts : Opcodes → MethodIr → ℕ → Starts
block_starts op method first =
    let positions = positions_of method.instructions in
    handler_starts positions method method.exception_handlers
      (instruction_starts op positions method method.instructions (first ∷ [], []))

abbrev pub graph_from : Opcodes → MethodIr → ℕ → Starts → Option CfgBuildResult
graph_from op method first (starts, ds) = do
  let positions = positions_of method.instructions
  let by_offset = index_from 0 starts []
  blocks ← blocks_between positions (length method.instructions) starts
  (connected, ds') ← connect_all op positions by_offset method blocks ds
  some (record {
    graph = record {
      blocks = connected;
      entry = map_get by_offset first;
      blocks_by_offset = by_offset;
    };
    diagnostics = ds';
  })

abbrev pub cfg_of : Opcodes → MethodIr → List InstructionIr → Option CfgBuildResult
cfg_of op method [] = some (record {
  graph = record { blocks = []; entry = none; blocks_by_offset = [] };
  diagnostics = [];
})
cfg_of op method (i ∷ rest) = graph_from op method i.offset (block_starts op method i.offset)

unfoldable pub build_cfg : Opcodes → MethodIr → Option CfgBuildResult
build_cfg op method = cfg_of op method method.instructions
