-- ===== src/Cfg/Edges.antt =====
-- The edges between the basic blocks in src/cfg/build.rs.
pub mod Members
use ferro_jtype.Prelude.{
  ℕ, ◌&&◌, ◌||◌, List, [], ◌∷◌, ◌++◌, map, Option, none, some, any, ltb, leb, if◌then◌else◌,
  as_bool, ℕ_discrete,
}
use ferro_jtype.Prelude.Int.{ℤ, pos}
use ferro_jtype.Prelude.Map.{map_get}
use ferro_jtype.Types.ClassName.{ClassName}
use ferro_jtype.Ir.{
  MethodIr, InstructionIr, InstructionOperandIr, ExceptionHandlerIr, branch, table_switch,
  lookup_switch,
}
use ferro_jtype.Diagnostic.{Diagnostic}
use ferro_jtype.Opcodes.{Opcodes}
use ferro_jtype.Cfg.{BlockId, EdgeKind, fall_through, switch, Edge, ExceptionEdge, OffsetMap}
use ferro_jtype.Cfg.Opcode.{
  terminates_execution, is_unconditional_branch, is_subroutine_branch, is_ret, may_throw,
}
use ferro_jtype.Cfg.Starts.{to_u16, invalid_target_diagnostic, second_of_each}

-- The key after the given offset.
abbrev pub next_key : OffsetMap → ℕ → Option ℕ
next_key [] offset = none
next_key ((k, _) ∷ entries) offset =
    let later = next_key entries offset in if ltb offset k then some k else later

abbrev pub Successors : Type 0
Successors = List (ℤ × EdgeKind)

abbrev pub falling : Option ℕ → Successors
falling none = []
falling (some offset) = (pos offset, fall_through) ∷ []

abbrev pub switching : List ℤ → Successors
switching targets = map (λ target. (target, switch)) targets

abbrev pub successors_of : Opcodes → ℕ → InstructionOperandIr → Option ℕ → Successors
successors_of op opcode (branch target) next =
    if is_unconditional_branch op opcode
    then (target, EdgeKind.branch) ∷ []
    else if is_subroutine_branch op opcode
    then (target, EdgeKind.branch) ∷ []
    else (target, EdgeKind.branch) ∷ falling next
successors_of op opcode (table_switch default_target targets) next =
    (default_target, switch) ∷ switching targets
successors_of op opcode (lookup_switch default_target targets) next =
    (default_target, switch) ∷ switching (second_of_each targets)
successors_of op opcode _ next =
    if terminates_execution op opcode || is_ret op opcode then [] else falling next

unfoldable pub ordinary_successors : Opcodes → InstructionIr → OffsetMap → Successors
unfolding is_unconditional_branch is_subroutine_branch terminates_execution is_ret
ordinary_successors op i positions =
    successors_of op i.opcode i.operand (next_key positions i.offset)

abbrev pub block_of : Option ℕ → OffsetMap → Option BlockId
block_of none blocks = none
block_of (some offset) blocks = map_get blocks offset

unfoldable pub resolve_block : OffsetMap → ℤ → Option BlockId
resolve_block blocks offset = block_of (to_u16 offset) blocks

unfoldable pub Edge-discrete : Discrete Edge
Edge-discrete = hlevel ℕ_discrete

unfoldable pub ExceptionEdge-discrete : Discrete ExceptionEdge
ExceptionEdge-discrete = hlevel ℕ_discrete

unfoldable pub push_edge : List Edge → BlockId → EdgeKind → List Edge
push_edge edges target kind =
    let edge : Edge = record { target = target; kind = kind } in
    if any (λ e. as_bool (Edge-discrete e edge)) edges then edges else edges ++ edge ∷ []

unfoldable pub push_exception_edge :
    List ExceptionEdge → ℕ → BlockId → Option ClassName → List ExceptionEdge
push_exception_edge edges instruction_offset target catch_type =
    let edge : ExceptionEdge = record {
      instruction_offset = instruction_offset;
      target = target;
      catch_type = catch_type;
    } in
    if any (λ e. as_bool (ExceptionEdge-discrete e edge)) edges then edges else edges ++ edge ∷ []

-- The edges of a block, and the diagnostics so far.
abbrev pub Edges : Type 0
Edges = List Edge × List Diagnostic

abbrev pub add_edge : Option BlockId → MethodIr → ℕ → ℤ → EdgeKind → Edges → Edges
add_edge (some block) method offset target kind (edges, ds) = (push_edge edges block kind, ds)
add_edge none method offset target kind (edges, ds) =
    (edges, ds ++ invalid_target_diagnostic method offset target ∷ [])

-- The loop over the successors of the last instruction of a block.
abbrev pub add_successors : OffsetMap → MethodIr → ℕ → Successors → Edges → Edges
add_successors blocks method offset [] s = s
add_successors blocks method offset ((target, kind) ∷ rest) s =
    add_successors blocks method offset rest
      (add_edge (resolve_block blocks target) method offset target kind s)

abbrev pub add_handler :
    Option BlockId → ℕ → Option ClassName → List ExceptionEdge → List ExceptionEdge
add_handler none offset catch_type edges = edges
add_handler (some block) offset catch_type edges = push_exception_edge edges offset block catch_type

-- The loop over the handlers for one instruction.
abbrev pub add_handlers :
    OffsetMap → ℕ → List ExceptionHandlerIr → List ExceptionEdge → List ExceptionEdge
add_handlers blocks offset [] edges = edges
add_handlers blocks offset (h ∷ rest) edges = add_handlers blocks offset rest (
    if leb h.start_offset offset && ltb offset h.end_offset
    then add_handler (map_get blocks h.handler_offset) offset h.catch_type edges
    else edges)

-- The loop over the instructions of a block.
abbrev pub add_exception_edges :
    Opcodes
    → OffsetMap
    → List ExceptionHandlerIr
    → List InstructionIr
    → List ExceptionEdge
    → List ExceptionEdge
add_exception_edges op blocks handlers [] edges = edges
add_exception_edges op blocks handlers (i ∷ rest) edges =
    add_exception_edges op blocks handlers rest
      (if may_throw op i.opcode then add_handlers blocks i.offset handlers edges else edges)
