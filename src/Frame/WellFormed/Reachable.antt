-- ===== src/Frame/WellFormed/Reachable.antt =====
-- The frames that the operations of src/solver/frame.rs can make, from the frame at entry on.
use ferro_jtype.Prelude.{
  ℕ, suc, ◌≡◌, refl, sym, ap, ◌∙◌, Bool, List, [], ◌∷◌, Option, none, some, length, map, length-map,
}
use ferro_jtype.Hierarchy.{TypeHierarchy}
use ferro_jtype.Types.ClassName.{ClassName}
use ferro_jtype.Types.Descriptor.{MethodDescriptor}
use ferro_jtype.Types.Inferred.{ReferenceType, InferredType}
use ferro_jtype.Frame.{
  ValueOrigin, store, plain, InstanceOfFact, LocalVariableIntegralHint, Frame, FrameValue,
  IsWellFormed,
}
use ferro_jtype.Frame.Entry.{entry_frame, exception_frame}
use ferro_jtype.Frame.Locals.{
  or_origin, set_local, set_local_value, store_local_value, refine_origin,
}
use ferro_jtype.Frame.Stack.{
  push, push_value, push_allocation, pop_value, push_return_address, clear_stack, push_local,
  push_instanceof_result, pop_from,
}
use ferro_jtype.Frame.Replace.{
  initialize, initialize_this, replace_uninitialized, replace_uninitialized_this,
}
use ferro_jtype.Frame.Merge.{merge_from}
use ferro_jtype.Frame.WellFormed.{
  set_local_value-IsWellFormed, refine_origin-IsWellFormed, entry_frame-IsWellFormed,
}
use ferro_jtype.Frame.WellFormed.Merging.{length-rest, merge_from-IsWellFormed}

-- The methods that change a frame, but for a merge.
pub data FrameOperation : Type 0 where
  setting_value : ℕ → FrameValue → FrameOperation
  setting : ℕ → InferredType → FrameOperation
  storing : ℕ → FrameValue → ℕ → FrameOperation
  pushing : InferredType → FrameOperation
  pushing_value : FrameValue → FrameOperation
  pushing_allocation : ClassName → ℕ → FrameOperation
  pushing_return_address : ℕ → FrameOperation
  pushing_local : ℕ → ℕ → FrameOperation
  pushing_instanceof : Option InstanceOfFact → FrameOperation
  popping : FrameOperation
  clearing : FrameOperation
  refining : ValueOrigin → ReferenceType → FrameOperation
  initializing : ℕ → ClassName → FrameOperation
  initializing_this : ClassName → FrameOperation
  handling : Option ClassName → FrameOperation

abbrev pub frame_left : Option (FrameValue × Frame) → Frame → Frame
frame_left none f = f
frame_left (some (v, g)) f = g

abbrev pub apply : FrameOperation → Frame → Frame
apply (setting_value local v) f = set_local_value local v f
apply (setting local t) f = set_local local t f
apply (storing local v offset) f = store_local_value local v offset f
apply (pushing t) f = push t f
apply (pushing_value v) f = push_value v f
apply (pushing_allocation c offset) f = push_allocation c offset f
apply (pushing_return_address target) f = push_return_address target f
apply (pushing_local local offset) f = push_local local offset f
apply (pushing_instanceof known) f = push_instanceof_result known f
apply popping f = frame_left (pop_value f) f
apply clearing f = clear_stack f
apply (refining origin r) f = refine_origin origin r f
apply (initializing offset c) f = replace_uninitialized offset c f
apply (initializing_this c) f = replace_uninitialized_this c f
apply (handling catch_type) f = exception_frame catch_type f

pub data IsReachable : Frame → Type 0 where
  at_entry :
      (owner : ClassName) (is_constructor : Bool) (descriptor : MethodDescriptor)
      (access_flags max_locals : ℕ) (hints : List LocalVariableIntegralHint)
      → IsReachable (entry_frame owner is_constructor descriptor access_flags max_locals hints)
  after : (op : FrameOperation) (f : Frame) → IsReachable f → IsReachable (apply op f)
  merged :
      (h : Option TypeHierarchy) (f g : Frame)
      → IsReachable f
      → IsReachable g
      → IsReachable (merge_from h f g).0

push_value-IsWellFormed :
    (v : FrameValue) (f : Frame) → IsWellFormed f → IsWellFormed (push_value v f)
unfolding push_value
push_value-IsWellFormed v f w = record {
  targets_of_locals = w.targets_of_locals;
  origins_of_locals = w.origins_of_locals;
  targets_of_stack = ap suc w.targets_of_stack;
  origins_of_stack = ap suc w.origins_of_stack;
  facts_of_stack = ap suc w.facts_of_stack;
}

map-IsWellFormed :
    (change : InferredType → InferredType) (f : Frame)
    → IsWellFormed f
    → IsWellFormed (record f { locals = map change f.locals; stack = map change f.stack })
map-IsWellFormed change f w =
    let locals = sym (length-map change f.locals) in
    let stack = sym (length-map change f.stack) in
    record {
      targets_of_locals = w.targets_of_locals ∙ locals;
      origins_of_locals = w.origins_of_locals ∙ locals;
      targets_of_stack = w.targets_of_stack ∙ stack;
      origins_of_stack = w.origins_of_stack ∙ stack;
      facts_of_stack = w.facts_of_stack ∙ stack;
    }

pop_value-IsWellFormed : (f : Frame) → IsWellFormed f → IsWellFormed (frame_left (pop_value f) f)
unfolding pop_value
pop_value-IsWellFormed f w = by_stack f.stack refl
  where
    by_stack : (ts : List InferredType) → f.stack ≡ ts → IsWellFormed (frame_left (pop_from ts f) f)
    by_stack [] e = w
    by_stack (t ∷ ts) e = record {
      targets_of_locals = w.targets_of_locals;
      origins_of_locals = w.origins_of_locals;
      targets_of_stack = length-rest ts f.stack_return_targets (w.targets_of_stack ∙ ap length e);
      origins_of_stack = length-rest ts f.stack_local_origins (w.origins_of_stack ∙ ap length e);
      facts_of_stack = length-rest ts f.stack_instanceof_facts (w.facts_of_stack ∙ ap length e);
    }

apply-IsWellFormed : (op : FrameOperation) (f : Frame) → IsWellFormed f → IsWellFormed (apply op f)
unfolding set_local store_local_value push push_value push_allocation push_return_address push_local
    push_instanceof_result clear_stack replace_uninitialized replace_uninitialized_this
    exception_frame
apply-IsWellFormed (setting_value local v) f w = set_local_value-IsWellFormed local v f w
apply-IsWellFormed (setting local t) f w =
    set_local_value-IsWellFormed local (record (plain t) { local_origin = some (store local 0) }) f
      w
apply-IsWellFormed (storing local v offset) f w =
    set_local_value-IsWellFormed local
      (record v { local_origin = or_origin v.local_origin (store local offset) }) f w
apply-IsWellFormed (pushing t) f w = push_value-IsWellFormed _ f w
apply-IsWellFormed (pushing_value v) f w = push_value-IsWellFormed v f w
apply-IsWellFormed (pushing_allocation c offset) f w = push_value-IsWellFormed _ f w
apply-IsWellFormed (pushing_return_address target) f w = record {
  targets_of_locals = w.targets_of_locals;
  origins_of_locals = w.origins_of_locals;
  targets_of_stack = ap suc w.targets_of_stack;
  origins_of_stack = ap suc w.origins_of_stack;
  facts_of_stack = ap suc w.facts_of_stack;
}
apply-IsWellFormed (pushing_local local offset) f w = push_value-IsWellFormed _ f w
apply-IsWellFormed (pushing_instanceof known) f w = push_value-IsWellFormed _ f w
apply-IsWellFormed popping f w = pop_value-IsWellFormed f w
apply-IsWellFormed clearing f w = record {
  targets_of_locals = w.targets_of_locals;
  origins_of_locals = w.origins_of_locals;
  targets_of_stack = refl;
  origins_of_stack = refl;
  facts_of_stack = refl;
}
apply-IsWellFormed (refining origin r) f w = refine_origin-IsWellFormed origin r f w
apply-IsWellFormed (initializing offset c) f w = map-IsWellFormed (initialize offset c) f w
apply-IsWellFormed (initializing_this c) f w = map-IsWellFormed (initialize_this c) f w
apply-IsWellFormed (handling catch_type) f w = record {
  targets_of_locals = w.targets_of_locals;
  origins_of_locals = w.origins_of_locals;
  targets_of_stack = refl;
  origins_of_stack = refl;
  facts_of_stack = refl;
}

-- Every frame that is made from the frame at entry of any method, by any sequence of stores, pushes,
-- pops, refinements, initializations, entries into an exception handler and merges with other such
-- frames, has parallel vectors of one length, for the locals and for the operand stack.
pub IsReachable-IsWellFormed : (f : Frame) → IsReachable f → IsWellFormed f
IsReachable-IsWellFormed _
      (at_entry owner is_constructor descriptor access_flags max_locals hints) =
    entry_frame-IsWellFormed owner is_constructor descriptor access_flags max_locals hints
IsReachable-IsWellFormed _ (after op f r) = apply-IsWellFormed op f (IsReachable-IsWellFormed f r)
IsReachable-IsWellFormed _ (merged h f g r q) =
    merge_from-IsWellFormed h f g (IsReachable-IsWellFormed f r)
