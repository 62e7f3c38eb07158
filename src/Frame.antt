-- ===== src/Frame.antt =====
-- src/solver/frame.rs: the abstract frame, its locals and its operand stack. A stack is a list with
-- its top first, where the source keeps it at the end of a `Vec`.
pub mod Targets
pub mod Entry
pub mod Locals
pub mod Stack
pub mod Replace
pub mod Merge
pub mod WellFormed
use ferro_jtype.Prelude.{ℕ, ◌≡◌, Bool, List, Option, none, length, as_bool, ℕ_discrete}
use ferro_jtype.Types.Primitive.{PrimitiveType, boolean, byte, char, short}
use ferro_jtype.Types.Descriptor.{TypeDescriptor, primitive}
use ferro_jtype.Types.Integral.{
  IntegralTypeSet, boolean_set, byte_set, char_set, short_set, int_set,
}
use ferro_jtype.Types.Inferred.{
  ReferenceType, exact, InferredType, int, float, long, double, reference,
}
use ferro_jtype.Types.Inferred.Join.{from_integral_types}

pub data ValueOrigin : Type 0 where
  entry : ℕ → ValueOrigin
  allocation : ℕ → ValueOrigin
  store : ℕ → ℕ → ValueOrigin

-- The origin and the reference type of an `instanceof` test.
pub data InstanceOfFact : Type 0 where
  fact : ValueOrigin → ReferenceType → InstanceOfFact

-- `Option<BTreeSet<u16>>`: an ascending list without repetition.
abbrev pub Targets : Type 0
Targets = Option (List ℕ)

-- src/ir/classfile/local_variables.rs
pub record LocalVariableIntegralHint : Type 0 where
  pub start_offset : ℕ
  pub end_offset : ℕ
  pub local : ℕ
  pub types : IntegralTypeSet

pub record Frame : Type 0 where
  pub locals : List InferredType
  pub stack : List InferredType
  pub local_return_targets : List Targets
  pub local_value_origins : List (Option ValueOrigin)
  pub stack_return_targets : List Targets
  pub stack_local_origins : List (Option ValueOrigin)
  pub stack_instanceof_facts : List (Option InstanceOfFact)
  pub local_variable_hints : List LocalVariableIntegralHint

pub record FrameValue : Type 0 where
  pub value : InferredType
  pub return_targets : Targets
  pub local_origin : Option ValueOrigin
  pub instanceof_fact : Option InstanceOfFact

abbrev pub plain : InferredType → FrameValue
plain t = record { value = t; return_targets = none; local_origin = none; instanceof_fact = none }

unfoldable pub origin-discrete : Discrete (Option ValueOrigin)
origin-discrete = hlevel ℕ_discrete

unfoldable pub fact-discrete : Discrete (Option InstanceOfFact)
fact-discrete = hlevel ℕ_discrete

abbrev pub is_same_origin : Option ValueOrigin → Option ValueOrigin → Bool
is_same_origin a b = as_bool (origin-discrete a b)

abbrev pub is_same_fact : Option InstanceOfFact → Option InstanceOfFact → Bool
is_same_fact a b = as_bool (fact-discrete a b)

-- The five integral primitives have a set, so the `expect` of the source does not fail.
unfoldable pub inferred_from_descriptor : TypeDescriptor → InferredType
inferred_from_descriptor (primitive PrimitiveType.long) = long
inferred_from_descriptor (primitive PrimitiveType.float) = float
inferred_from_descriptor (primitive PrimitiveType.double) = double
inferred_from_descriptor (primitive boolean) = from_integral_types boolean_set
inferred_from_descriptor (primitive byte) = from_integral_types byte_set
inferred_from_descriptor (primitive char) = from_integral_types char_set
inferred_from_descriptor (primitive short) = from_integral_types short_set
inferred_from_descriptor (primitive PrimitiveType.int) = from_integral_types int_set
inferred_from_descriptor (TypeDescriptor.reference c) = reference (exact c)
inferred_from_descriptor (TypeDescriptor.array n e) =
    reference (ReferenceType.array (TypeDescriptor.array n e))

-- The vectors of a frame that run in parallel are of one length.
pub record IsWellFormed (f : Frame) : Type 0 where
  pub targets_of_locals : length f.local_return_targets ≡ length f.locals
  pub origins_of_locals : length f.local_value_origins ≡ length f.locals
  pub targets_of_stack : length f.stack_return_targets ≡ length f.stack
  pub origins_of_stack : length f.stack_local_origins ≡ length f.stack
  pub facts_of_stack : length f.stack_instanceof_facts ≡ length f.stack
