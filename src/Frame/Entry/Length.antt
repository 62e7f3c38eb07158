-- ===== src/Frame/Entry/Length.antt =====
-- How many locals the frame at entry has, in src/solver/frame.rs.
use ferro_jtype.Prelude.{
  ℕ, ◌+◌, ◌≡◌, ◌∙◌, Bool, false, List, [], ◌∷◌, length, resize, ◌==◌, if◌then◌else◌, ◌<◌,
  length-set, length-resize, length-replicate, inl, inr, Bool-cases, arith,
}
use ferro_jtype.Types.ClassName.{ClassName}
use ferro_jtype.Types.Primitive
use ferro_jtype.Types.Primitive.{PrimitiveType, long, double}
use ferro_jtype.Types.Descriptor.{
  TypeDescriptor, primitive, reference, array, MethodDescriptor, slot_width,
}
use ferro_jtype.Types.Descriptor.Slots.{total_slots}
use ferro_jtype.Types.Inferred.{InferredType, bottom}
use ferro_jtype.Frame.{LocalVariableIntegralHint, inferred_from_descriptor}
use ferro_jtype.Frame.Entry.{
  is_static, receiver_type, Slots, put, put_all, initial_slots, entry_frame,
}

length-put :
    (t : InferredType) (width : ℕ) (s : Slots) → length (put t width s).locals ≡ s.slot + width
length-put t width s =
    length-set (resize (s.slot + width) bottom s.locals) s.slot t
    ∙ length-resize (s.slot + width) bottom s.locals

length-put_all :
    (ds : List TypeDescriptor) (s : Slots)
    → length s.locals ≡ s.slot
    → length (put_all ds s).locals ≡ s.slot + total_slots ds
unfolding put_all
length-put_all [] s e = e ∙ omega arith
length-put_all (d ∷ ds) s e =
    length-put_all ds (put (inferred_from_descriptor d) (slot_width d) s)
      (length-put (inferred_from_descriptor d) (slot_width d) s)
    ∙ omega arith

primitive-positive : (p : PrimitiveType) → 0 < Primitive.slot_width p
unfolding Primitive.slot_width
primitive-positive long = omega arith
primitive-positive double = omega arith
primitive-positive _ = omega arith

slot_width-positive : (d : TypeDescriptor) → 0 < slot_width d
unfolding slot_width
slot_width-positive (primitive p) = primitive-positive p
slot_width-positive (reference c) = omega arith
slot_width-positive (array n e) = omega arith

-- The slots of the receiver and of the parameters.
abbrev pub argument_slots : MethodDescriptor → ℕ → ℕ
argument_slots descriptor access_flags =
    (if is_static access_flags then 0 else 1) + total_slots descriptor.parameters

length-static :
    (ds : List TypeDescriptor) (n : ℕ)
    → length (put_all ds (initial_slots n)).locals
      ≡ (if total_slots ds == 0 then n else total_slots ds)
unfolding put_all
length-static [] n = length-replicate n bottom
length-static (d ∷ ds) n =
    let positive = slot_width-positive d in
    let some_slots : (slot_width d + total_slots ds == 0) ≡ false = ground arith in
    rw some_slots (
      length-put_all ds (put (inferred_from_descriptor d) (slot_width d) (initial_slots n))
        (length-put (inferred_from_descriptor d) (slot_width d) (initial_slots n))
      ∙ omega arith)

-- The frame at entry of a method without a receiver and without parameters has as many locals as the
-- method declares; that of any other method has only those of the receiver and the parameters,
-- however many the method declares.
pub length-entry_frame :
    (owner : ClassName) (is_constructor : Bool) (descriptor : MethodDescriptor)
    (access_flags max_locals : ℕ) (hints : List LocalVariableIntegralHint)
    → length (entry_frame owner is_constructor descriptor access_flags max_locals hints).locals ≡ (
        if argument_slots descriptor access_flags == 0
        then max_locals
        else argument_slots descriptor access_flags)
unfolding entry_frame
length-entry_frame owner is_constructor descriptor access_flags max_locals hints =
    elim (Bool-cases (is_static access_flags)) [
      | inl static ↦
          let sum : 0 + total_slots descriptor.parameters ≡ total_slots descriptor.parameters =
            omega arith in
          rw (static, sum) (length-static descriptor.parameters max_locals)
      | inr instance_method ↦
          let some_slots : (1 + total_slots descriptor.parameters == 0) ≡ false = ground arith in
          rw (instance_method, some_slots)
            (length-put_all descriptor.parameters
                (put (receiver_type owner is_constructor) 1 (initial_slots max_locals))
                (length-put (receiver_type owner is_constructor) 1 (initial_slots max_locals))
              ∙ omega arith)
    ]
