-- ===== src/Transfer/Array.antt =====
-- src/solver/transfer/array.rs: array instructions, and the operand's type name of
-- src/solver/transfer/mod.rs.
pub mod Discard
use ferro_jtype.Prelude.{
  ℕ, zero, suc, ◌+◌, ◌%◌, List, [], ◌∷◌, Option, none, some, ltb, ◌==◌, if◌then◌else◌,
}
use mathlib.Core.Option
use ferro_jtype.Prelude.Int.{pos}
use ferro_jtype.Prelude.Result.{Result, ok, err, out_of_fuel}
use ferro_jtype.Types.ClassName
use ferro_jtype.Types.Primitive.{
  PrimitiveType, boolean, byte, char, short, int, float, long, double,
}
use ferro_jtype.Types.Descriptor.{TypeDescriptor, primitive, parse}
use ferro_jtype.Types.Integral.{IntegralTypeSet, exact_type, contains, from_primitive}
use ferro_jtype.Types.Inferred.{
  ReferenceType, array, unknown, InferredType, reference, alternatives, InferredTypes, nil, cons,
}
use ferro_jtype.Types.Inferred.Join.{from_integral_types, join}
use ferro_jtype.Frame.{inferred_from_descriptor}
use ferro_jtype.Frame.Stack.{push}
use ferro_jtype.Ir.{InstructionOperandIr, immediate, type_operand, multi_array, InstructionIr}
use ferro_jtype.Transfer.{M, ◌>>=◌, ◌>>◌, pure, modify, Site}
use ferro_jtype.Transfer.Stack.{pop, discard}

-- `Result::ok`
abbrev pub to_option : {E A : Type 0} → Result E A → Option A
to_option (ok a) = some a
to_option (err _) = none
to_option out_of_fuel = none

abbrev pub and_then {ℓ κ} : {A : Type ℓ} → {B : Type κ} → Option A → (A → Option B) → Option B
and_then none f = none
and_then (some a) f = f a

abbrev pub or_unknown : Option ReferenceType → ReferenceType
or_unknown none = unknown
or_unknown (some r) = r

abbrev pub type_name_of : InstructionOperandIr → Option (List ℕ)
type_name_of (type_operand name _) = name
type_name_of (multi_array name _ _) = name
type_name_of _ = none

unfoldable pub type_name : InstructionIr → Option (List ℕ)
type_name instruction = type_name_of instruction.operand

abbrev pub parse_class : List ℕ → Option TypeDescriptor
parse_class name = Option.map TypeDescriptor.reference (to_option (ClassName.parse name))

unfoldable pub reference_descriptor : List ℕ → Option TypeDescriptor
reference_descriptor [] = parse_class []
reference_descriptor (b ∷ bytes) =
    if b == b'[' then to_option (parse (b ∷ bytes)) else parse_class (b ∷ bytes)

unfoldable pub array_element_descriptor : List ℕ → Option TypeDescriptor
unfolding reference_descriptor
array_element_descriptor name = elim (reference_descriptor name) [
  | some d ↦ some d
  | none ↦ parse_class name
]

-- `dimensions` is a `u8` under `checked_add`.
unfoldable pub array_of : TypeDescriptor → Option TypeDescriptor
array_of (TypeDescriptor.array dimensions element) =
    if ltb (dimensions + 1) 256 then some (TypeDescriptor.array (dimensions + 1) element) else none
array_of component = some (TypeDescriptor.array 1 component)

unfoldable pub primitive_array_element : InferredType → Option IntegralTypeSet
primitive_array_element (reference (array (TypeDescriptor.array (suc zero) (primitive p)))) =
    from_primitive p
primitive_array_element _ = none

-- `dimensions` is a `u8`: at an array of no dimensions, which no parser makes, the subtraction wraps
-- as in a build without overflow checks; with them the source panics there.
abbrev element_of_array : ℕ → TypeDescriptor → InferredType
element_of_array dimensions element =
    if dimensions == 1
    then inferred_from_descriptor element
    else reference (array (TypeDescriptor.array ((dimensions + 255) % 256) element))

-- `reduce`, from the first element on
abbrev pub join_from : InferredType → List InferredType → InferredType
join_from t [] = t
join_from t (u ∷ us) = join_from (join t u) us

abbrev pub join_each : List InferredType → InferredType
join_each [] = reference unknown
join_each (t ∷ ts) = join_from t ts

unfoldable mutual
  pub reference_array_element_type : InferredType → InferredType
  reference_array_element_type (alternatives arrays) = join_each (element_types arrays)
  reference_array_element_type (reference (array (TypeDescriptor.array dimensions element))) =
      element_of_array dimensions element
  reference_array_element_type _ = reference unknown

  pub element_types : InferredTypes → List InferredType
  element_types nil = []
  element_types (cons t ts) = reference_array_element_type t ∷ element_types ts

unfoldable pub array_load : InferredType → Site → M (Unit {0})
unfolding discard
array_load result site = do discard site; discard site; modify (push result)

-- `filter` and `unwrap_or`: a type that is exact and that the fallback holds.
abbrev chosen : IntegralTypeSet → IntegralTypeSet → Option PrimitiveType → IntegralTypeSet
chosen fallback element none = fallback
chosen fallback element (some p) = if contains fallback p then element else fallback

abbrev element_or : IntegralTypeSet → Option IntegralTypeSet → IntegralTypeSet
element_or fallback none = fallback
element_or fallback (some element) = chosen fallback element (exact_type element)

unfoldable pub integral_array_load : IntegralTypeSet → Site → M (Unit {0})
unfolding primitive_array_element discard pop
integral_array_load fallback site = do
  discard site
  t ← pop site
  modify (push (from_integral_types (element_or fallback (primitive_array_element t))))

unfoldable pub reference_array_load : Site → M (Unit {0})
unfolding reference_array_element_type discard pop
reference_array_load site = do
  discard site
  t ← pop site
  modify (push (reference_array_element_type t))

unfoldable pub array_store : Site → M (Unit {0})
unfolding discard
array_store site = do discard site; discard site; discard site

abbrev primitive_of_code : ℕ → Option PrimitiveType
primitive_of_code code =
    if code == 4
    then some boolean
    else if code == 5
    then some char
    else if code == 6
    then some float
    else if code == 7
    then some double
    else if code == 8
    then some byte
    else if code == 9
    then some short
    else if code == 10
    then some int
    else if code == 11
    then some long
    else none

abbrev pub allocated_primitive : InstructionOperandIr → Option PrimitiveType
allocated_primitive (immediate (pos code)) = primitive_of_code code
allocated_primitive _ = none

abbrev primitive_array : Option PrimitiveType → ReferenceType
primitive_array none = unknown
primitive_array (some p) = array (TypeDescriptor.array 1 (primitive p))

unfoldable pub allocate_primitive_array : Site → M (Unit {0})
unfolding discard
allocate_primitive_array site = do
  discard site
  modify (push (reference (primitive_array (allocated_primitive site.instruction.operand))))

abbrev pub array_reference : Option (List ℕ) → ReferenceType
array_reference name =
    or_unknown (Option.map array (and_then (and_then name array_element_descriptor) array_of))

unfoldable pub allocate_reference_array : Site → M (Unit {0})
unfolding type_name array_element_descriptor array_of discard
allocate_reference_array site = do
  discard site
  modify (push (reference (array_reference (type_name site.instruction))))

abbrev pub dimensions_of : InstructionOperandIr → ℕ
dimensions_of (multi_array _ dimensions _) = dimensions
dimensions_of _ = 0

-- `for _ in 0..count`
unfoldable pub discard_times : ℕ → Site → M (Unit {0})
unfolding discard
discard_times zero site = pure tt
discard_times (suc count) site = do discard site; discard_times count site

abbrev only_array : TypeDescriptor → Option ReferenceType
only_array (TypeDescriptor.array n e) = some (array (TypeDescriptor.array n e))
only_array _ = none

abbrev pub multi_array_reference : Option (List ℕ) → ReferenceType
multi_array_reference name =
    or_unknown (and_then (and_then name (λ bytes. to_option (parse bytes))) only_array)

unfoldable pub allocate_multi_array : Site → M (Unit {0})
unfolding type_name discard_times
allocate_multi_array site = do
  discard_times (dimensions_of site.instruction.operand) site
  modify (push (reference (multi_array_reference (type_name site.instruction))))
