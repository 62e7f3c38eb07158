-- ===== src/Frame/WellFormed.antt =====
-- The parallel vectors of the frame of src/solver/frame.rs stay of one length.
pub mod Merging
pub mod Reachable
use ferro_jtype.Prelude.{
  ℕ, suc, ◌+◌, ◌≡◌, refl, sym, ap, ◌∙◌, Bool, true, false, List, [], ◌∷◌, Option, none, some,
  length, set, resize, if◌then◌else◌, max, length-set, length-resize, length-replicate,
}
use ferro_jtype.Types.ClassName.{ClassName}
use ferro_jtype.Types.Descriptor.{TypeDescriptor, MethodDescriptor, slot_width}
use ferro_jtype.Types.Inferred.{ReferenceType, InferredType, bottom}
use ferro_jtype.Frame.{
  ValueOrigin, entry, Targets, LocalVariableIntegralHint, Frame, FrameValue, IsWellFormed,
  inferred_from_descriptor,
}
use ferro_jtype.Frame.Entry.{
  is_static, receiver_type, Slots, put, put_all, initial_slots, entry_slots, entry_frame,
}
use ferro_jtype.Frame.Locals.{
  write, clamp_u16, is_wide, set_local_value, refine_locals, refine_targets, refine_origin,
}

length-write {ℓ} :
    {A : Type ℓ} (filler : A) (wide : Bool) (size local : ℕ) (a : A) (l : List A)
    → length (write filler wide size local a l) ≡ size
length-write filler true size local a l =
    length-set (set (resize size filler l) local a) (local + 1) filler
    ∙ length-set (resize size filler l) local a
    ∙ length-resize size filler l
length-write filler false size local a l =
    length-set (resize size filler l) local a ∙ length-resize size filler l

pub set_local_value-IsWellFormed :
    (local : ℕ) (v : FrameValue) (f : Frame)
    → IsWellFormed f
    → IsWellFormed (set_local_value local v f)
unfolding set_local_value
set_local_value-IsWellFormed local v f w =
    let wide = is_wide v.value in
    let size = max (length f.locals) (local + (if wide then 2 else 1)) in
    let same = sym (length-write bottom wide size local v.value f.locals) in
    record {
      targets_of_locals =
          length-write none wide size local v.return_targets f.local_return_targets ∙ same;
      origins_of_locals =
          length-write none wide size local v.local_origin f.local_value_origins ∙ same;
      targets_of_stack = w.targets_of_stack;
      origins_of_stack = w.origins_of_stack;
      facts_of_stack = w.facts_of_stack;
    }

length-refine_locals :
    (origin : ValueOrigin) (r : ReferenceType) (ts : List InferredType)
    (os : List (Option ValueOrigin))
    → length (refine_locals origin r ts os) ≡ length ts
length-refine_locals origin r [] os = refl
length-refine_locals origin r (t ∷ ts) [] = refl
length-refine_locals origin r (t ∷ ts) (o ∷ os) = ap suc (length-refine_locals origin r ts os)

length-refine_targets :
    (origin : ValueOrigin) (ts : List InferredType) (os : List (Option ValueOrigin))
    (ns : List Targets)
    → length (refine_targets origin ts os ns) ≡ length ns
length-refine_targets origin [] os ns = refl
length-refine_targets origin (t ∷ ts) [] ns = refl
length-refine_targets origin (t ∷ ts) (o ∷ os) [] = refl
length-refine_targets origin (t ∷ ts) (o ∷ os) (n ∷ ns) =
    ap suc (length-refine_targets origin ts os ns)

pub refine_origin-IsWellFormed :
    (origin : ValueOrigin) (r : ReferenceType) (f : Frame)
    → IsWellFormed f
    → IsWellFormed (refine_origin origin r f)
unfolding refine_origin
refine_origin-IsWellFormed origin r f w =
    let same = length-refine_locals origin r f.locals f.local_value_origins in
    record {
      targets_of_locals =
          length-refine_targets origin f.locals f.local_value_origins f.local_return_targets
          ∙ w.targets_of_locals
          ∙ sym same;
      origins_of_locals = w.origins_of_locals ∙ sym same;
      targets_of_stack = w.targets_of_stack;
      origins_of_stack = w.origins_of_stack;
      facts_of_stack = w.facts_of_stack;
    }

-- Both vectors of the slots of a frame at entry.
abbrev IsEven : Slots → Type 0
IsEven s = length s.origins ≡ length s.locals

put-IsEven : (t : InferredType) (width : ℕ) (s : Slots) → IsEven (put t width s)
put-IsEven t width s =
    let locals' = set (resize (s.slot + width) bottom s.locals) s.slot t in
    length-set (resize (length locals') none s.origins) s.slot (some (entry (clamp_u16 s.slot)))
    ∙ length-resize (length locals') none s.origins

put_all-IsEven : (ds : List TypeDescriptor) (s : Slots) → IsEven s → IsEven (put_all ds s)
unfolding put_all
put_all-IsEven [] s e = e
put_all-IsEven (d ∷ ds) s e =
    put_all-IsEven ds (put (inferred_from_descriptor d) (slot_width d) s)
      (put-IsEven (inferred_from_descriptor d) (slot_width d) s)

initial_slots-IsEven : (n : ℕ) → IsEven (initial_slots n)
initial_slots-IsEven n = length-replicate n none ∙ sym (length-replicate n bottom)

start-IsEven :
    (static : Bool) (t : InferredType) (n : ℕ)
    → IsEven (if static then initial_slots n else put t 1 (initial_slots n))
start-IsEven true t n = initial_slots-IsEven n
start-IsEven false t n = put-IsEven t 1 (initial_slots n)

pub entry_frame-IsWellFormed :
    (owner : ClassName) (is_constructor : Bool) (descriptor : MethodDescriptor)
    (access_flags max_locals : ℕ) (hints : List LocalVariableIntegralHint)
    → IsWellFormed (entry_frame owner is_constructor descriptor access_flags max_locals hints)
unfolding entry_frame
entry_frame-IsWellFormed owner is_constructor descriptor access_flags max_locals hints = record {
  targets_of_locals =
      length-replicate
        (length (entry_slots owner is_constructor descriptor access_flags max_locals).locals) none;
  origins_of_locals =
      put_all-IsEven descriptor.parameters
        (if is_static access_flags
          then initial_slots max_locals
          else put (receiver_type owner is_constructor) 1 (initial_slots max_locals))
        (start-IsEven (is_static access_flags) (receiver_type owner is_constructor) max_locals);
  targets_of_stack = refl;
  origins_of_stack = refl;
  facts_of_stack = refl;
}
