-- ===== src/Transfer/Operations/Keeps.antt =====
-- The instructions of src/solver/transfer make frames only by the methods of src/solver/frame.rs, so
-- that what holds of every frame that these make holds after any sequence of instructions.
use ferro_jtype.Prelude.{
  ℕ, zero, suc, ◌≡◌, refl, sym, subst, Bool, true, false, Option, none, some, if◌then◌else◌,
}
use ferro_jtype.Prelude.Int.{ℤ}
use ferro_jtype.Types.ClassName.{ClassName}
use ferro_jtype.Types.Integral.{IntegralTypeSet}
use ferro_jtype.Types.Inferred.{InferredType, int, reference, unknown, return_address}
use ferro_jtype.Frame.{Frame, FrameValue, InstanceOfFact}
use ferro_jtype.Frame.Locals.{store_local_value}
use ferro_jtype.Frame.Stack
use ferro_jtype.Frame.WellFormed.Reachable.{
  IsReachable, after, frame_left, popping, pushing, pushing_value, pushing_allocation,
  pushing_return_address, pushing_local, pushing_instanceof, storing, setting,
}
use ferro_jtype.Ir.{InstructionOperandIr, increment}
use ferro_jtype.Transfer.{State, M, ◌>>=◌, ◌>>◌, Site}
use ferro_jtype.Transfer.Stack.{
  take_popped, pop_value, pop, discard, discard_two_slots, duplicate_top, duplicate_x1,
  duplicate_x2, duplicate_two, duplicate_two_x1, duplicate_two_x2, swap, unsupported,
}
use ferro_jtype.Transfer.Array.{
  array_load, integral_array_load, reference_array_load, array_store, allocate_primitive_array,
  allocate_reference_array, allocate_multi_array, discard_times,
}
use ferro_jtype.Transfer.Operations.{
  load_local, store_local, binary, unary, convert, increment_local, increment_of, allocate_object,
  allocation_of, cast_reference, instance_of, push_constant, push_integer, subroutine_of,
  push_subroutine_return_address,
}

-- The functions that the dispatch calls, but for those of fields and calls.
pub data Instruction : Type 0 where
  loading storing_local : ℕ → ℕ → Instruction
  array_loading : InferredType → Instruction
  integral_array_loading : IntegralTypeSet → Instruction
  reference_array_loading array_storing : Instruction
  popping_one popping_two dup dup_x1 dup_x2 dup_two dup_two_x1 dup_two_x2 swapping : Instruction
  computing converting : InferredType → Instruction
  negating incrementing : Instruction
  allocating allocating_primitives allocating_references allocating_arrays : Instruction
  casting testing : Instruction
  pushing_constant : Instruction
  pushing_integer : ℤ → Instruction
  calling_subroutine : Instruction
  not_modeled : Instruction

abbrev pub execute : Instruction → Site → M (Unit {0})
execute (loading wide short) = load_local wide short
execute (storing_local wide short) = store_local wide short
execute (array_loading t) = array_load t
execute (integral_array_loading s) = integral_array_load s
execute reference_array_loading = reference_array_load
execute array_storing = array_store
execute popping_one = discard
execute popping_two = discard_two_slots
execute dup = duplicate_top
execute dup_x1 = duplicate_x1
execute dup_x2 = duplicate_x2
execute dup_two = duplicate_two
execute dup_two_x1 = duplicate_two_x1
execute dup_two_x2 = duplicate_two_x2
execute swapping = swap
execute (computing t) = binary t
execute (converting t) = convert t
execute negating = unary
execute incrementing = increment_local
execute allocating = allocate_object
execute allocating_primitives = allocate_primitive_array
execute allocating_references = allocate_reference_array
execute allocating_arrays = allocate_multi_array
execute casting = cast_reference
execute testing = instance_of
execute pushing_constant = push_constant
execute (pushing_integer v) = λ site. push_integer v
execute calling_subroutine = push_subroutine_return_address
execute not_modeled = unsupported

abbrev pub Keeps {ℓ} : {A : Type ℓ} → M A → Type 0
Keeps m = (s : State) → IsReachable s.frame → IsReachable (m s).1.frame

module _ {ℓ κ} {A : Type ℓ} {B : Type κ} where
  pub bind-Keeps : (m : M A) (f : A → M B) → Keeps m → ((a : A) → Keeps (f a)) → Keeps (m >>= f)
  bind-Keeps m f km kf s r = kf (m s).0 (m s).1 (km s r)

  pub then-Keeps : (m : M A) (k : M B) → Keeps m → Keeps k → Keeps (m >> k)
  then-Keeps m k km kk s r = kk (m s).1 (km s r)

pub if-Keeps : (b : Bool) (m k : M (Unit {0})) → Keeps m → Keeps k → Keeps (if b then m else k)
if-Keeps true m k km kk = km
if-Keeps false m k km kk = kk

frame-popped :
    (site : Site) (o : Option (FrameValue × Frame)) (s : State)
    → (take_popped site o s).1.frame ≡ frame_left o s.frame
frame-popped site none s = refl
frame-popped site (some (v, f)) s = refl

module _ (site : Site) where
  pub popped : Keeps (pop_value site)
  unfolding pop_value
  popped s r =
      subst IsReachable (sym (frame-popped site (Stack.pop_value s.frame) s))
        (after popping s.frame r)

  pushed : (v : FrameValue) (f : Frame) → IsReachable f → IsReachable (Stack.push_value v f)
  pushed v f r = after (pushing_value v) f r

  chosen :
      (b : Bool) (m k : M (Unit {0})) (s : State)
      → IsReachable (m s).1.frame
      → IsReachable (k s).1.frame
      → IsReachable ((if b then m else k) s).1.frame
  chosen true m k s p q = p
  chosen false m k s p q = q

  discarded : (n : ℕ) → Keeps (discard_times n site)
  unfolding discard_times discard pop
  discarded zero s r = r
  discarded (suc n) s r = discarded n (pop_value site s).1 (popped s r)

  pushed_type : (t : InferredType) (f : Frame) → IsReachable f → IsReachable (Stack.push t f)
  pushed_type t f r = after (pushing t) f r

  local_pushed :
      (local offset : ℕ) (f : Frame) → IsReachable f → IsReachable (Stack.push_local local offset f)
  local_pushed local offset f r = after (pushing_local local offset) f r

  stored :
      (local : ℕ) (v : FrameValue) (offset : ℕ) (f : Frame)
      → IsReachable f
      → IsReachable (store_local_value local v offset f)
  stored local v offset f r = after (storing local v offset) f r

  tested :
      (k : Option InstanceOfFact) (f : Frame)
      → IsReachable f
      → IsReachable (Stack.push_instanceof_result k f)
  tested k f r = after (pushing_instanceof k) f r

  incremented :
      (o : InstructionOperandIr) (f : Frame) → IsReachable f → IsReachable (increment_of o f)
  incremented (increment local n) f r = after (setting local int) f r
  incremented o f r = r

  allocated :
      (c : Option ClassName) (offset : ℕ) (f : Frame)
      → IsReachable f
      → IsReachable (allocation_of c offset f)
  allocated (some c) offset f r = after (pushing_allocation c offset) f r
  allocated none offset f r = after (pushing (reference unknown)) f r

  subroutine_called : (t : Option ℕ) (f : Frame) → IsReachable f → IsReachable (subroutine_of t f)
  subroutine_called (some target) f r = after (pushing_return_address target) f r
  subroutine_called none f r = after (pushing return_address) f r

  pub execute-Keeps : (i : Instruction) → Keeps (execute i site)
  unfolding load_local store_local array_load integral_array_load reference_array_load array_store
      discard pop discard_two_slots duplicate_top duplicate_x1 duplicate_x2 duplicate_two
      duplicate_two_x1 duplicate_two_x2 swap binary convert unary increment_local allocate_object
      allocate_primitive_array allocate_reference_array allocate_multi_array cast_reference
      instance_of push_constant push_integer push_subroutine_return_address unsupported
  execute-Keeps (loading wide short) s r = local_pushed _ _ s.frame r
  execute-Keeps (storing_local wide short) s r = search (stored, popped)
  execute-Keeps (array_loading t) s r = search (pushed_type, popped)
  execute-Keeps (integral_array_loading t) s r = search (pushed_type, popped)
  execute-Keeps reference_array_loading s r = search (pushed_type, popped)
  execute-Keeps array_storing s r = search (popped)
  execute-Keeps popping_one s r = search (popped)
  execute-Keeps popping_two s r = search (popped, chosen)
  execute-Keeps dup s r = search (pushed, popped)
  execute-Keeps dup_x1 s r = search (pushed, popped)
  execute-Keeps dup_x2 s r = search (pushed, popped, chosen)
  execute-Keeps dup_two s r = search (pushed, popped, chosen)
  execute-Keeps dup_two_x1 s r = search (pushed, popped, chosen) depth 14
  execute-Keeps dup_two_x2 s r = search (pushed, popped, chosen) depth 14
  execute-Keeps swapping s r = search (pushed, popped)
  execute-Keeps (computing t) s r = search (pushed_type, popped)
  execute-Keeps (converting t) s r = search (pushed_type, popped)
  execute-Keeps negating s r = search (pushed_type, popped)
  execute-Keeps incrementing s r = incremented site.instruction.operand s.frame r
  execute-Keeps allocating s r = allocated _ _ s.frame r
  execute-Keeps allocating_primitives s r = search (pushed_type, popped)
  execute-Keeps allocating_references s r = search (pushed_type, popped)
  execute-Keeps allocating_arrays s r = search (pushed_type, discarded)
  execute-Keeps casting s r = search (pushed, popped)
  execute-Keeps testing s r = search (tested, popped)
  execute-Keeps pushing_constant s r = search (pushed_type)
  execute-Keeps (pushing_integer v) s r = search (pushed_type)
  execute-Keeps calling_subroutine s r = subroutine_called _ s.frame r
  execute-Keeps not_modeled s r = r
