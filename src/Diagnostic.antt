-- ===== src/Diagnostic.antt =====
-- src/diagnostic.rs. A message is kept as the values that its format string is given.
use ferro_jtype.Prelude.{ℕ, List, Option, none, some}
use ferro_jtype.Prelude.Int.{ℤ}

pub data DiagnosticSeverity : Type 0 where
  note warning error : DiagnosticSeverity

pub data DiagnosticKind : Type 0 where
  parser_recovery invalid_control_flow stack_underflow stack_height_mismatch : DiagnosticKind
  type_conflict unsupported_instruction analysis_limit_reached : DiagnosticKind

pub record DiagnosticLocation : Type 0 where
  pub method_name : Option (List ℕ)
  pub method_descriptor : Option (List ℕ)
  pub bytecode_offset : Option ℕ

-- `operand_details` of src/solver/transfer/stack.rs
pub data OperandDetails : Type 0 where
  no_details : OperandDetails
  constant_pool_index : ℕ → OperandDetails
  type_constant_pool_index : ℕ → OperandDetails
  argument_count : ℕ → OperandDetails
  dynamic_constant_pool_index : ℕ → OperandDetails
  increment_amount : ℤ → OperandDetails
  unresolved_member_index : ℕ → OperandDetails

-- The limits of `limit_diagnostic` in src/solver/engine/propagate.rs
pub data Limit : Type 0 where
  work_item_budget per_block_iteration_budget : Limit

pub data Message : Type 0 where
  empty_operand_stack : Message
  opcode_not_modeled : ℕ → OperandDetails → Message
  target_without_instruction : ℤ → Message
  stack_above_max_stack : ℕ → ℕ → Message
  paths_with_different_heights : Message
  ret_without_local : Message
  ret_without_return_address : ℕ → Message
  ret_target_without_instruction : ℕ → Message
  stopped_at_limit : Limit → Message

pub record Diagnostic : Type 0 where
  pub severity : DiagnosticSeverity
  pub kind : DiagnosticKind
  pub location : DiagnosticLocation
  pub message : Message

abbrev pub method_location : List ℕ → List ℕ → DiagnosticLocation
method_location name descriptor = record {
  method_name = some name;
  method_descriptor = some descriptor;
  bytecode_offset = none;
}

abbrev pub at_offset : ℕ → DiagnosticLocation → DiagnosticLocation
at_offset offset l = record l { bytecode_offset = some offset }
