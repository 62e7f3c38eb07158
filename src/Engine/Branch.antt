-- ===== src/Engine/Branch.antt =====
-- src/solver/engine/propagate.rs: what a branch tells of its operand.
pub mod Sound
use ferro_jtype.Prelude.{ℕ, Bool, true, false, not, ◌||◌, Option, none, some, ◌==◌, if◌then◌else◌}
use ferro_jtype.Types.Inferred.{null, InferredType, reference, uninitialized, uninitialized_this}
use ferro_jtype.Frame.{InstanceOfFact, Frame}
use ferro_jtype.Frame.Stack.{top_value, top_instanceof_fact}
use ferro_jtype.Opcodes.{Opcodes}
use ferro_jtype.Cfg.{EdgeKind, fall_through, branch}
use ferro_jtype.Transfer.Array.{and_then}
use mathlib.Core.Option

pub data BranchFact : Type 0 where
  instance_of_fact : InstanceOfFact → BranchFact
  null_fact : Bool → BranchFact

abbrev pub known_nullness : InferredType → Option Bool
known_nullness (reference null) = some true
known_nullness (uninitialized c offset) = some false
known_nullness (uninitialized_this c) = some false
known_nullness _ = none

unfoldable pub branch_fact : Opcodes → ℕ → Frame → Option BranchFact
branch_fact op opcode f =
    if opcode == op.ifeq || opcode == op.ifne
    then Option.map instance_of_fact (top_instanceof_fact f)
    else if opcode == op.ifnull || opcode == op.ifnonnull
    then and_then (top_value f) (λ v. Option.map null_fact (known_nullness v.value))
    else none

abbrev pub is_branch : EdgeKind → Bool
is_branch branch = true
is_branch _ = false

abbrev pub is_same_bool : Bool → Bool → Bool
is_same_bool true b = b
is_same_bool false b = not b

unfoldable pub branch_edge_is_feasible : Opcodes → ℕ → EdgeKind → Option BranchFact → Bool
branch_edge_is_feasible op opcode kind (some (null_fact is_null)) =
    if opcode == op.ifnull
    then is_same_bool (is_branch kind) is_null
    else if opcode == op.ifnonnull
    then not (is_same_bool (is_branch kind) is_null)
    else true
branch_edge_is_feasible op opcode kind _ = true

unfoldable pub instanceof_true_edge : Opcodes → ℕ → EdgeKind → Bool
instanceof_true_edge op opcode fall_through = opcode == op.ifeq
instanceof_true_edge op opcode branch = opcode == op.ifne
instanceof_true_edge op opcode _ = false
