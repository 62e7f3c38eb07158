-- ===== src/Witnesses/Types.antt =====
-- Inputs for the properties of descriptors, types and hierarchies.
use ferro_jtype.Prelude.{
  ℕ, ◌+◌, ◌-◌, ◌^◌, ◌≡◌, ◌≢◌, ◌↔◌, ◌⊎◌, inl, inr, refl, arith, Bool, true, false, ◌&&◌, ◌||◌, List,
  [], ◌∷◌, ◌++◌, Option, none, some, length, drop, replicate, max, ltb, ◌==◌, if◌then◌else◌, codes,
}
use ferro_jtype.Prelude.Int.{negsuc}
use ferro_jtype.Prelude.Result.{ok, out_of_fuel}
use ferro_jtype.Types.ClassName.{ClassName, class_name}
use ferro_jtype.Types.Primitive
use ferro_jtype.Types.Descriptor.{
  TypeDescriptor, primitive, array, void, MethodDescriptor, unexpected_end, parse, parse_method,
  parameter_slot_count,
}
use ferro_jtype.Types.Descriptor.Print.{print, print_method, IsWellFormed, IsWellFormedMethod}
use ferro_jtype.Types.Descriptor.Sound.Outcome.{IsWithin}
use ferro_jtype.Types.Descriptor.Correct.{
  parse-eq-ok_iff, parse_method-eq-ok_iff, parse-ne-out_of_fuel, parse-IsWithin,
  parse_method-IsWithin,
}
use ferro_jtype.Types.Descriptor.Slots.{parameter_slot_count-in_u16, in_u16, total_slots}
use ferro_jtype.Types.Integral.{
  boolean_set, byte_set, contains, union, for_constant, exact_type, from_primitive,
}
use ferro_jtype.Types.Integral.Laws.{
  contains-union, contains-for_constant, exact_type_iff, exact_type-IsOnly, holds, IsOnly,
}
use ferro_jtype.Hierarchy.{common_supertype}
use ferro_jtype.Hierarchy.{ancestor_distances, search_up}
use ferro_jtype.Hierarchy.Fuel.{is_visited, search_up-ends}
use ferro_jtype.Hierarchy.Complete.{
  Ancestor, itself, further, Ancestor-is_visited, common_supertype-found,
}
use ferro_jtype.Types.Inferred.Meaning.{int_value}
use ferro_jtype.Hierarchy.Sound.{Subtype, common_supertype-Subtype}
use ferro_jtype.Types.Inferred.{int, float}
use ferro_jtype.Types.Inferred.Join.{join_with_hierarchy, join_local_types}
use ferro_jtype.Types.Inferred.Join.Laws.{join_with_hierarchy_comm}
use ferro_jtype.Types.Inferred.Meaning.{ref_value, object, Describes}
use ferro_jtype.Types.Inferred.Meaning.Join.{join_with_hierarchy-Describes}
use ferro_jtype.Types.Inferred.Meaning.Locals.{join_local_types-Describes}
use ferro_jtype.Witnesses.{
  int_array, one_array, base_class, left_class, right_class, two_classes, left_type, right_type,
}

parse-eq-ok_iff_example :
    (parse (codes "[I") ≡ ok int_array) ↔ ((codes "[I" ≡ print int_array) × IsWellFormed int_array)
parse-eq-ok_iff_example = parse-eq-ok_iff (codes "[I") int_array

parse_method-eq-ok_iff_example :
    (parse_method (codes "([I)V") ≡ ok one_array)
    ↔ ((codes "([I)V" ≡ print_method one_array) × IsWellFormedMethod one_array)
parse_method-eq-ok_iff_example = parse_method-eq-ok_iff (codes "([I)V") one_array

parse-ne-out_of_fuel_example :
    (parse (codes "[[I") ≢ out_of_fuel) × (parse_method (codes "[[I") ≢ out_of_fuel)
parse-ne-out_of_fuel_example = parse-ne-out_of_fuel (codes "[[I")

parse-IsWithin_example : IsWithin (length (codes "[")) (unexpected_end 1)
unfolding parse ferro_jtype.Prelude.ℕ_discrete ferro_jtype.Types.Descriptor.parse_field_type
parse-IsWithin_example = parse-IsWithin (codes "[") (unexpected_end 1) refl

parse_method-IsWithin_example : IsWithin (length (codes "(I")) (unexpected_end 2)
unfolding parse_method ferro_jtype.Prelude.ℕ_discrete ferro_jtype.Types.Descriptor.expect
    ferro_jtype.Types.Descriptor.parse_parameters ferro_jtype.Types.Descriptor.parse_field_type
parse_method-IsWithin_example = parse_method-IsWithin (codes "(I") (unexpected_end 2) refl

parameter_slot_count-in_u16_example :
    parameter_slot_count one_array ≡ in_u16 (total_slots one_array.parameters)
parameter_slot_count-in_u16_example = parameter_slot_count-in_u16 one_array

contains-union_example :
    contains (union boolean_set byte_set) Primitive.byte
    ≡ (contains boolean_set Primitive.byte || contains byte_set Primitive.byte)
contains-union_example = contains-union boolean_set byte_set Primitive.byte

contains-for_constant_example :
    contains (for_constant (negsuc 128)) Primitive.byte ≡ holds Primitive.byte (negsuc 128)
contains-for_constant_example = contains-for_constant (negsuc 128) Primitive.byte

exact_type_iff_example :
    (exact_type byte_set ≡ some Primitive.byte) ↔ (from_primitive Primitive.byte ≡ some byte_set)
exact_type_iff_example = exact_type_iff byte_set Primitive.byte

exact_type-IsOnly_example : IsOnly byte_set Primitive.byte
unfolding exact_type
exact_type-IsOnly_example = exact_type-IsOnly byte_set Primitive.byte refl

common_supertype-Subtype_example :
    Subtype (some two_classes) left_class base_class
    × Subtype (some two_classes) right_class base_class
unfolding common_supertype ferro_jtype.Prelude.ℕ_discrete
common_supertype-Subtype_example =
    common_supertype-Subtype (some two_classes) left_class right_class base_class refl

join_with_hierarchy_comm_example :
    join_with_hierarchy (some two_classes) left_type right_type
    ≡ join_with_hierarchy (some two_classes) right_type left_type
join_with_hierarchy_comm_example = join_with_hierarchy_comm (some two_classes) left_type right_type

join_with_hierarchy-Describes_example :
    Describes
      (some two_classes)
      (ref_value (object left_class))
      (join_with_hierarchy (some two_classes) left_type right_type)
join_with_hierarchy-Describes_example =
    join_with_hierarchy-Describes (some two_classes) (ref_value (object left_class)) left_type
      right_type (inl (object left_class, refl, Subtype.self))

join_local_types-Describes_example :
    Describes none (int_value Primitive.int) (join_local_types none float int)
join_local_types-Describes_example =
    join_local_types-Describes none (int_value Primitive.int) float int (inr refl)

search_up-ends_example :
    (search_up
      (length two_classes.names + 2)
      two_classes
      ((left_class, 0) ∷ [])
      (left_class ∷ [])).1
    ≡ []
search_up-ends_example = search_up-ends two_classes left_class

left-Ancestor : Ancestor two_classes left_class base_class
unfolding ferro_jtype.Prelude.ℕ_discrete ferro_jtype.Types.ClassName.ClassName-discrete
left-Ancestor = further itself (inl refl)

right-Ancestor : Ancestor two_classes right_class base_class
unfolding ferro_jtype.Prelude.ℕ_discrete ferro_jtype.Types.ClassName.ClassName-discrete
right-Ancestor = further itself (inl refl)

Ancestor-is_visited_example :
    is_visited (ancestor_distances two_classes left_class) base_class ≡ true
Ancestor-is_visited_example = Ancestor-is_visited two_classes left_class base_class left-Ancestor

common_supertype-found_example : common_supertype (some two_classes) left_class right_class ≢ none
common_supertype-found_example =
    common_supertype-found two_classes left_class right_class base_class left-Ancestor
      right-Ancestor
