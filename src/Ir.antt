-- ===== src/Ir.antt =====
-- src/ir/model.rs: methods and instructions. Texts are bytes; the opcode is a number.
use ferro_jtype.Prelude.{ℕ, List, Option}
use ferro_jtype.Prelude.Int.{ℤ}
use ferro_jtype.Types.ClassName.{ClassName}
use ferro_jtype.Types.Descriptor.{TypeDescriptor, MethodDescriptor}
use ferro_jtype.Frame.{LocalVariableIntegralHint}

-- src/types/dynamic.rs
pub data DynamicCallKind : Type 0 where
  lambda_metafactory string_concat_factory other_bootstrap : DynamicCallKind

pub data ConstantKind : Type 0 where
  integer : ℤ → ConstantKind
  float long double string type method_handle method_type : ConstantKind
  dynamic : TypeDescriptor → ConstantKind
  unresolved : ConstantKind

pub data MemberRefIr : Type 0 where
  array_method : TypeDescriptor → List ℕ → List ℕ → MemberRefIr
  resolved : ClassName → List ℕ → List ℕ → MemberRefIr
  unresolved : ℕ → MemberRefIr

pub data InstructionOperandIr : Type 0 where
  no_operand : InstructionOperandIr
  immediate : ℤ → InstructionOperandIr
  local : ℕ → InstructionOperandIr
  constant_pool : ℕ → InstructionOperandIr
  type_operand : Option (List ℕ) → ℕ → InstructionOperandIr
  member : MemberRefIr → InstructionOperandIr
  invoke_interface : MemberRefIr → ℕ → InstructionOperandIr
  invoke_dynamic : Option (List ℕ) → ℕ → DynamicCallKind → InstructionOperandIr
  branch : ℤ → InstructionOperandIr
  constant : ConstantKind → InstructionOperandIr
  increment : ℕ → ℤ → InstructionOperandIr
  table_switch : ℤ → List ℤ → InstructionOperandIr
  lookup_switch : ℤ → List (ℤ × ℤ) → InstructionOperandIr
  multi_array : Option (List ℕ) → ℕ → ℕ → InstructionOperandIr

pub record InstructionIr : Type 0 where
  pub offset : ℕ
  pub opcode : ℕ
  pub operand : InstructionOperandIr

pub record ExceptionHandlerIr : Type 0 where
  pub start_offset : ℕ
  pub end_offset : ℕ
  pub handler_offset : ℕ
  pub catch_type : Option ClassName

-- A generic signature is kept as its text.
pub record MethodIr : Type 0 where
  pub name : List ℕ
  pub descriptor_text : List ℕ
  pub descriptor : MethodDescriptor
  pub generic_signature : Option (List ℕ)
  pub access_flags : ℕ
  pub max_stack : ℕ
  pub max_locals : ℕ
  pub local_variable_hints : List LocalVariableIntegralHint
  pub instructions : List InstructionIr
  pub exception_handlers : List ExceptionHandlerIr
