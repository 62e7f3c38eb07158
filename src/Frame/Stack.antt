-- ===== src/Frame/Stack.antt =====
-- The operand stack of src/solver/frame.rs.
pub mod Entries
use ferro_jtype.Prelude.{ℕ, List, [], ◌∷◌, Option, none, some}
use ferro_jtype.Types.ClassName.{ClassName}
use ferro_jtype.Types.Integral.{boolean_set}
use ferro_jtype.Types.Inferred.{InferredType, integral, uninitialized, return_address}
use ferro_jtype.Frame.{allocation, InstanceOfFact, Frame, FrameValue, plain}
use ferro_jtype.Frame.Locals.{get_local_value, refine_integral_local, get_flat}

-- `last` and `pop`, with `unwrap_or(None)`, of a vector of options
abbrev pub top_flat {ℓ} : {A : Type ℓ} → List (Option A) → Option A
top_flat [] = none
top_flat (a ∷ as') = a

abbrev pub rest_of {ℓ} : {A : Type ℓ} → List A → List A
rest_of [] = []
rest_of (a ∷ as') = as'

unfoldable pub push_value : FrameValue → Frame → Frame
push_value v f = record f {
  stack = v.value ∷ f.stack;
  stack_return_targets = v.return_targets ∷ f.stack_return_targets;
  stack_local_origins = v.local_origin ∷ f.stack_local_origins;
  stack_instanceof_facts = v.instanceof_fact ∷ f.stack_instanceof_facts;
}

unfoldable pub push : InferredType → Frame → Frame
unfolding push_value
push t f = push_value (plain t) f

unfoldable pub push_allocation : ClassName → ℕ → Frame → Frame
unfolding push_value
push_allocation c offset f =
    push_value (record (plain (uninitialized c offset)) { local_origin = some (allocation offset) })
      f

abbrev pub top_of : InferredType → Frame → FrameValue
top_of t f = record {
  value = t;
  return_targets = top_flat f.stack_return_targets;
  local_origin = top_flat f.stack_local_origins;
  instanceof_fact = top_flat f.stack_instanceof_facts;
}

abbrev pub without_top : List InferredType → Frame → Frame
without_top rest f = record f {
  stack = rest;
  stack_return_targets = rest_of f.stack_return_targets;
  stack_local_origins = rest_of f.stack_local_origins;
  stack_instanceof_facts = rest_of f.stack_instanceof_facts;
}

abbrev pub pop_from : List InferredType → Frame → Option (FrameValue × Frame)
pop_from [] f = none
pop_from (t ∷ rest) f = some (top_of t f, without_top rest f)

-- `pop_value`; on an empty stack the frame stays as it is.
unfoldable pub pop_value : Frame → Option (FrameValue × Frame)
pop_value f = pop_from f.stack f

abbrev top_from : List InferredType → Frame → Option FrameValue
top_from [] f = none
top_from (t ∷ rest) f = some (top_of t f)

unfoldable pub top_value : Frame → Option FrameValue
top_value f = top_from f.stack f

unfoldable pub push_return_address : ℕ → Frame → Frame
push_return_address target f = record f {
  stack = return_address ∷ f.stack;
  stack_return_targets = some (target ∷ []) ∷ f.stack_return_targets;
  stack_local_origins = none ∷ f.stack_local_origins;
  stack_instanceof_facts = none ∷ f.stack_instanceof_facts;
}

unfoldable pub clear_stack : Frame → Frame
clear_stack f = record f {
  stack = [];
  stack_return_targets = [];
  stack_local_origins = [];
  stack_instanceof_facts = [];
}

unfoldable pub push_local : ℕ → ℕ → Frame → Frame
unfolding push_value get_local_value refine_integral_local
push_local local offset f =
    let v = get_local_value local f in
    push_value
      (record v {
        value = refine_integral_local f local offset v.value;
        local_origin = get_flat f.local_value_origins local;
      })
      f

unfoldable pub push_instanceof_result : Option InstanceOfFact → Frame → Frame
unfolding push_value
push_instanceof_result known f =
    push_value (record (plain (integral boolean_set)) { instanceof_fact = known }) f

unfoldable pub top_instanceof_fact : Frame → Option InstanceOfFact
top_instanceof_fact f = top_flat f.stack_instanceof_facts
