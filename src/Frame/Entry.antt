-- ===== src/Frame/Entry.antt =====
-- The frame on entry to a method, and that of an exception handler, of src/solver/frame.rs.
pub mod Length
use Prim.Native.Nat.{bit_and}
use ferro_jtype.Prelude.{
  ℕ, ◌+◌, Bool, true, false, List, [], ◌∷◌, Option, none, some, length, set, resize, replicate,
  ◌==◌, if◌then◌else◌,
}
use ferro_jtype.Types.ClassName.{ClassName, java_lang_throwable}
use ferro_jtype.Types.Descriptor.{TypeDescriptor, MethodDescriptor, slot_width}
use ferro_jtype.Types.Inferred.{exact, InferredType, bottom, reference, uninitialized_this}
use ferro_jtype.Frame.{
  ValueOrigin, entry, LocalVariableIntegralHint, Frame, inferred_from_descriptor,
}
use ferro_jtype.Frame.Locals.{clamp_u16}

abbrev pub is_static : ℕ → Bool
is_static flags = if bit_and flags 0x0008 == 0 then false else true

abbrev pub receiver_type : ClassName → Bool → InferredType
receiver_type owner is_constructor =
    if is_constructor then uninitialized_this owner else reference (exact owner)

-- The locals, their origins and the next slot.
pub record Slots : Type 0 where
  pub locals : List InferredType
  pub origins : List (Option ValueOrigin)
  pub slot : ℕ

-- The slots of one value that is passed in.
abbrev pub put : InferredType → ℕ → Slots → Slots
put t width s =
    let locals' = set (resize (s.slot + width) bottom s.locals) s.slot t in
    record {
      locals = locals';
      origins =
          set (resize (length locals') none s.origins) s.slot (some (entry (clamp_u16 s.slot)));
      slot = s.slot + width;
    }

unfoldable pub put_all : List TypeDescriptor → Slots → Slots
put_all [] s = s
put_all (d ∷ ds) s = put_all ds (put (inferred_from_descriptor d) (slot_width d) s)

abbrev pub initial_slots : ℕ → Slots
initial_slots max_locals = record {
  locals = replicate max_locals bottom;
  origins = replicate max_locals none;
  slot = 0;
}

unfoldable pub entry_slots : ClassName → Bool → MethodDescriptor → ℕ → ℕ → Slots
unfolding put_all
entry_slots owner is_constructor descriptor access_flags max_locals =
    put_all descriptor.parameters (
      if is_static access_flags
      then initial_slots max_locals
      else put (receiver_type owner is_constructor) 1 (initial_slots max_locals))

unfoldable pub entry_frame :
    ClassName → Bool → MethodDescriptor → ℕ → ℕ → List LocalVariableIntegralHint → Frame
unfolding entry_slots
entry_frame owner is_constructor descriptor access_flags max_locals hints =
    let s = entry_slots owner is_constructor descriptor access_flags max_locals in
    record {
      locals = s.locals;
      stack = [];
      local_return_targets = replicate (length s.locals) none;
      local_value_origins = s.origins;
      stack_return_targets = [];
      stack_local_origins = [];
      stack_instanceof_facts = [];
      local_variable_hints = hints;
    }

abbrev catch_class : Option ClassName → ClassName
catch_class (some c) = c
catch_class none = java_lang_throwable

unfoldable pub exception_frame : Option ClassName → Frame → Frame
exception_frame catch_type f = record {
  locals = f.locals;
  stack = reference (exact (catch_class catch_type)) ∷ [];
  local_return_targets = f.local_return_targets;
  local_value_origins = f.local_value_origins;
  stack_return_targets = none ∷ [];
  stack_local_origins = none ∷ [];
  stack_instanceof_facts = none ∷ [];
  local_variable_hints = f.local_variable_hints;
}
