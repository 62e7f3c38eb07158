-- ===== src/Types/Descriptor/Slots.antt =====
-- The count of parameter slots in src/types/descriptor.rs, and when it leaves the range of `u16`.
use ferro_jtype.Prelude.{
  ℕ, ◌+◌, ◌^◌, ◌≡◌, refl, sym, ap, ◌∙◌, true, false, List, [], ◌∷◌, Option, none, some, inl, inr,
  ltb, if◌then◌else◌, ◌<◌, Bool-cases, arith,
}
use ferro_jtype.Types.Descriptor.{
  TypeDescriptor, MethodDescriptor, slot_width, sum_slots, parameter_slot_count,
}

-- The slots without a bound.
abbrev pub total_slots : List TypeDescriptor → ℕ
total_slots [] = 0
total_slots (d ∷ ds) = slot_width d + total_slots ds

sum_slots-none : (ds : List TypeDescriptor) → sum_slots none ds ≡ none
sum_slots-none [] = refl
sum_slots-none (d ∷ ds) = sum_slots-none ds

-- What the count is once it has been computed, as a total.
abbrev pub in_u16 : ℕ → Option ℕ
in_u16 n = if ltb n (2 ^ 16) then some n else none

sum_slots-some :
    (n : ℕ) (ds : List TypeDescriptor)
    → n < 2 ^ 16
    → sum_slots (some n) ds ≡ in_u16 (n + total_slots ds)
sum_slots-some n [] lt =
    let same : ltb (n + 0) (2 ^ 16) ≡ true = ground arith in
    let zero_last : n + 0 ≡ n = omega arith in rw same (ap some (sym zero_last))
sum_slots-some n (d ∷ ds) lt = elim (Bool-cases (ltb (n + slot_width d) (2 ^ 16))) [
  | inl e ↦
      let small : n + slot_width d < 2 ^ 16 = ground arith in
      let moved : n + slot_width d + total_slots ds ≡ n + (slot_width d + total_slots ds) =
        omega arith in
      rw e (sum_slots-some (n + slot_width d) ds small ∙ ap in_u16 moved)
  | inr e ↦
      let large : ltb (n + (slot_width d + total_slots ds)) (2 ^ 16) ≡ false = ground arith in
      rw (e, large) (sum_slots-none ds)
]

-- The count of a method's parameter slots is the sum of the widths of its parameters where that is
-- below 2^16, and overflows `u16` otherwise.
pub parameter_slot_count-in_u16 :
    (m : MethodDescriptor) → parameter_slot_count m ≡ in_u16 (total_slots m.parameters)
unfolding parameter_slot_count
parameter_slot_count-in_u16 m =
    let from_zero : 0 + total_slots m.parameters ≡ total_slots m.parameters = omega arith in
    sum_slots-some 0 m.parameters (omega arith) ∙ ap in_u16 from_zero
