-- ===== src/Witnesses.antt =====
-- Concrete inputs at which the properties of the other modules apply.
pub mod Types
pub mod Frames
pub mod Cfg
pub mod Engine
use ferro_jtype.Prelude.{[], ◌∷◌, codes}
use ferro_jtype.Types.ClassName.{ClassName, class_name}
use ferro_jtype.Types.Primitive
use ferro_jtype.Types.Descriptor.{TypeDescriptor, primitive, array, void, MethodDescriptor}
use ferro_jtype.Types.Inferred.{InferredType, exact, reference}
use ferro_jtype.Hierarchy.{TypeHierarchy}
use ferro_jtype.Hierarchy.InMemory.{type_hierarchy}

abbrev int_array : TypeDescriptor
int_array = array 1 (primitive Primitive.int)

abbrev one_array : MethodDescriptor
one_array = record { parameters = int_array ∷ []; return_type = void }

abbrev base_class : ClassName
base_class = class_name (codes "a/Base")

abbrev left_class : ClassName
left_class = class_name (codes "a/Left")

abbrev right_class : ClassName
right_class = class_name (codes "a/Right")

abbrev two_classes : TypeHierarchy
two_classes =
    type_hierarchy
      (record { parents = (left_class, base_class ∷ []) ∷ (right_class, base_class ∷ []) ∷ [] })

abbrev left_type : InferredType
left_type = reference (exact left_class)

abbrev right_type : InferredType
right_type = reference (exact right_class)
