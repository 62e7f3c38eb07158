-- ===== src/Types/Descriptor.antt =====
-- src/types/descriptor.rs: field and method descriptors and their parser.
pub mod Print
pub mod RoundTrip
pub mod Sound
pub mod SoundMethod
pub mod Correct
pub mod Slots
use ferro_jtype.Prelude.{
  ℕ, zero, suc, ◌+◌, ◌^◌, Bool, true, false, List, [], ◌∷◌, Option, none, some, length, ltb, ◌==◌,
  if◌then◌else◌, ℕ_discrete,
}
use ferro_jtype.Prelude.Result.{Result, ok, err, out_of_fuel, ◌>>=◌}
use ferro_jtype.Types.ClassName
use ferro_jtype.Types.ClassName.{ClassName, NameError}
use ferro_jtype.Types.Primitive
use ferro_jtype.Types.Primitive.{
  PrimitiveType, boolean, byte, char, short, int, float, long, double,
}
use ferro_jtype.Types.Utf8.{is_utf8}

pub data TypeDescriptor : Type 0 where
  primitive : PrimitiveType → TypeDescriptor
  reference : ClassName → TypeDescriptor
  array : ℕ → TypeDescriptor → TypeDescriptor

pub data ReturnType : Type 0 where
  void : ReturnType
  type : TypeDescriptor → ReturnType

pub record MethodDescriptor : Type 0 where
  pub parameters : List TypeDescriptor
  pub return_type : ReturnType

-- src/error.rs. A `char` is its code point.
pub data DescriptorError : Type 0 where
  unexpected_end : ℕ → DescriptorError
  expected : ℕ → ℕ → DescriptorError
  invalid_tag : ℕ → ℕ → DescriptorError
  too_many_array_dimensions : DescriptorError
  trailing_input : ℕ → DescriptorError
  invalid_class_name : NameError → DescriptorError

unfoldable pub TypeDescriptor-discrete : Discrete TypeDescriptor
TypeDescriptor-discrete = hlevel ℕ_discrete

unfoldable pub slot_width : TypeDescriptor → ℕ
unfolding Primitive.slot_width
slot_width (primitive p) = Primitive.slot_width p
slot_width (reference _) = 1
slot_width (array _ _) = 1

-- The parser holds the whole input and a cursor; the model holds the input from the cursor on.
pub record DescriptorParser : Type 0 where
  pub remaining : List ℕ
  pub cursor : ℕ

abbrev pub at : List ℕ → ℕ → DescriptorParser
at bytes n = record { remaining = bytes; cursor = n }

abbrev pub new : List ℕ → DescriptorParser
new input = at input 0

-- `peek` reads no error in the source, so neither does `consume`.
abbrev pub consume_byte : ℕ → List ℕ → ℕ → Bool × DescriptorParser
consume_byte wanted [] n = (false, at [] n)
consume_byte wanted (b ∷ bytes) n =
    if b == wanted then (true, at bytes (n + 1)) else (false, at (b ∷ bytes) n)

abbrev pub consume : ℕ → DescriptorParser → Bool × DescriptorParser
consume wanted p = consume_byte wanted p.remaining p.cursor

unfoldable pub expect : ℕ → DescriptorParser → Result DescriptorError DescriptorParser
expect wanted p =
    let (found, q) = consume wanted p in if found then ok q else err (expected wanted q.cursor)

abbrev pub primitive_of_tag : ℕ → Option PrimitiveType
primitive_of_tag tag =
    if tag == b'Z'
    then some boolean
    else if tag == b'B'
    then some byte
    else if tag == b'C'
    then some char
    else if tag == b'S'
    then some short
    else if tag == b'I'
    then some int
    else if tag == b'F'
    then some float
    else if tag == b'J'
    then some long
    else if tag == b'D'
    then some double
    else none

abbrev pub Parse : Type 0 → Type 0
Parse A = Result DescriptorError (A × DescriptorParser)

-- The bytes up to the next `;` or the end, and the parser that stands there.
abbrev pub skip_name : List ℕ → ℕ → List ℕ × DescriptorParser
skip_name [] n = ([], at [] n)
skip_name (b ∷ bytes) n =
    let (name, q) = skip_name bytes (n + 1) in
    if b == b';' then ([], at (b ∷ bytes) n) else (b ∷ name, q)

-- The conversion `?` makes of a `NameError`.
abbrev pub from_name_error {ℓ} : {A : Type ℓ} → Result NameError A → Result DescriptorError A
from_name_error (ok a) = ok a
from_name_error (err e) = err (invalid_class_name e)
from_name_error out_of_fuel = out_of_fuel

-- What follows the loop of `parse_reference_type`: `start` is the offset of the name.
abbrev pub close_reference : ℕ → List ℕ → List ℕ → ℕ → Parse TypeDescriptor
close_reference start name [] n = err (unexpected_end n)
close_reference start name (_ ∷ bytes) n =
    if is_utf8 name
    then (from_name_error (ClassName.parse name) >>= λ c. ok (reference c, at bytes (n + 1)))
    else err (invalid_tag 0xFFFD start)

unfoldable pub parse_reference_type : DescriptorParser → Parse TypeDescriptor
parse_reference_type p =
    let (name, q) = skip_name p.remaining p.cursor in
    close_reference p.cursor name q.remaining q.cursor

-- The loop of `parse_array_type`, from `dimensions` on, which is a `u8`.
abbrev pub count_dimensions : ℕ → List ℕ → ℕ → Parse ℕ
count_dimensions dimensions [] n = ok (dimensions, at [] n)
count_dimensions dimensions (b ∷ bytes) n =
    let more = count_dimensions (dimensions + 1) bytes (n + 1) in
    if b == b'['
    then if ltb dimensions 255 then more else err too_many_array_dimensions
    else ok (dimensions, at (b ∷ bytes) n)

-- `parse_element` is the recursive call of `parse_field_type`.
unfoldable pub parse_array_type :
    (DescriptorParser → Parse TypeDescriptor) → DescriptorParser → Parse TypeDescriptor
parse_array_type parse_element p = do
  (dimensions, q) ← count_dimensions 1 p.remaining p.cursor
  (element, r) ← parse_element q
  ok (array dimensions element, r)

unfoldable pub parse_tag :
    (DescriptorParser → Parse TypeDescriptor) → List ℕ → ℕ → Parse TypeDescriptor
unfolding parse_reference_type parse_array_type
parse_tag parse_element [] offset = err (unexpected_end offset)
parse_tag parse_element (tag ∷ bytes) offset = elim (primitive_of_tag tag) [
  | some p ↦ ok (primitive p, at bytes (offset + 1))
  | none ↦
      if tag == b'L'
      then parse_reference_type (at bytes (offset + 1))
      else if tag == b'['
      then parse_array_type parse_element (at bytes (offset + 1))
      else err (invalid_tag tag offset)
]

unfoldable pub parse_field_type : ℕ → DescriptorParser → Parse TypeDescriptor
unfolding parse_tag
parse_field_type zero p = out_of_fuel
parse_field_type (suc fuel) p = parse_tag (parse_field_type fuel) p.remaining p.cursor

-- An array's element is read after every `[`, so the calls go two deep.
abbrev pub element_depth : ℕ
element_depth = 2

abbrev pub is_finished : List ℕ → Bool
is_finished [] = true
is_finished (_ ∷ _) = false

abbrev pub finish {ℓ} : {A : Type ℓ} → A → DescriptorParser → Result DescriptorError A
finish a p = if is_finished p.remaining then ok a else err (trailing_input p.cursor)

unfoldable pub parse : List ℕ → Result DescriptorError TypeDescriptor
parse input = do (descriptor, p) ← parse_field_type element_depth (new input); finish descriptor p

-- The loop of `MethodDescriptor::parse`.
unfoldable pub parse_parameters : ℕ → DescriptorParser → Parse (List TypeDescriptor)
parse_parameters zero p = out_of_fuel
parse_parameters (suc fuel) p =
    let (closed, q) = consume b')' p in
    let more = do
      (parameter, r) ← parse_field_type element_depth q
      (parameters, s) ← parse_parameters fuel r
      ok (parameter ∷ parameters, s)
    in if closed then ok ([], q) else more

unfoldable pub parse_return_type : DescriptorParser → Parse ReturnType
parse_return_type p =
    let (is_void, q) = consume b'V' p in
    let typed = do (descriptor, r) ← parse_field_type element_depth q; ok (type descriptor, r)
    in if is_void then ok (void, q) else typed

unfoldable pub parse_method : List ℕ → Result DescriptorError MethodDescriptor
parse_method input = do
  p ← expect b'(' (new input)
  (ps, q) ← parse_parameters (length input) p
  (result, r) ← parse_return_type q
  finish (record { parameters = ps; return_type = result }) r

-- `Sum for u16` adds from the left; past the range a debug build panics, which is `none`.
abbrev pub add_u16 : Option ℕ → ℕ → Option ℕ
add_u16 none n = none
add_u16 (some total) n = if ltb (total + n) (2 ^ 16) then some (total + n) else none

abbrev pub sum_slots : Option ℕ → List TypeDescriptor → Option ℕ
sum_slots total [] = total
sum_slots total (parameter ∷ rest) = sum_slots (add_u16 total (slot_width parameter)) rest

unfoldable pub parameter_slot_count : MethodDescriptor → Option ℕ
parameter_slot_count m = sum_slots (some 0) m.parameters
