-- ===== src/Types/Primitive.antt =====
-- `PrimitiveType` of src/types/descriptor.rs, with `primitive_rank` of src/types/inference.rs.
use ferro_jtype.Prelude.{ℕ}

pub data PrimitiveType : Type 0 where
  boolean byte char short int float long double : PrimitiveType

unfoldable pub slot_width : PrimitiveType → ℕ
slot_width long = 2
slot_width double = 2
slot_width _ = 1

abbrev pub primitive_rank : PrimitiveType → ℕ
primitive_rank boolean = 0
primitive_rank byte = 1
primitive_rank char = 2
primitive_rank short = 3
primitive_rank int = 4
primitive_rank float = 5
primitive_rank long = 6
primitive_rank double = 7

unfoldable pub PrimitiveType-discrete : Discrete PrimitiveType
PrimitiveType-discrete = hlevel
