-- ===== src/Types/Descriptor/Correct.antt =====
-- The parsers of src/types/descriptor.rs against the printed form of the descriptors.
use ferro_jtype.Prelude.{ℕ, ◌≡◌, ◌≢◌, ◌↔◌, List, length}
use ferro_jtype.Prelude.Result.{ok, err, out_of_fuel, Ends-ok, Ends-err, Ends-out_of_fuel}
use ferro_jtype.Types.Descriptor.{
  TypeDescriptor, MethodDescriptor, DescriptorError, parse, parse_method,
}
use ferro_jtype.Types.Descriptor.Print.{IsWellFormed, IsWellFormedMethod, print, print_method}
use ferro_jtype.Types.Descriptor.RoundTrip.{parse-print_rest, parse_method-print_lem}
use ferro_jtype.Types.Descriptor.Sound.Outcome.{IsWithin}
use ferro_jtype.Types.Descriptor.Sound.{parse-Ends}
use ferro_jtype.Types.Descriptor.SoundMethod.{parse_method-Ends}

-- The field parser returns a descriptor exactly when the descriptor is well formed (its names are
-- internal names in UTF-8, its arrays have 1 to 255 dimensions and an element that is no array)
-- and the input is its print, so the descriptor is unique and nothing of the input is dropped.
pub parse-eq-ok_iff :
    (input : List ℕ) (d : TypeDescriptor)
    → (parse input ≡ ok d) ↔ ((input ≡ print d) × IsWellFormed d)
parse-eq-ok_iff input d = (λ h. Ends-ok (parse-Ends input) h, λ (p, w). rw p (parse-print_rest d w))

-- The method parser returns a descriptor exactly when its parameters and its return type are well
-- formed and the input is the print of the whole.
pub parse_method-eq-ok_iff :
    (input : List ℕ) (m : MethodDescriptor)
    → (parse_method input ≡ ok m) ↔ ((input ≡ print_method m) × IsWellFormedMethod m)
parse_method-eq-ok_iff input m =
    (λ h. Ends-ok (parse_method-Ends input) h, λ (p, w). rw p (parse_method-print_lem m w))

-- Neither parser runs out of fuel, on any input: two nested calls are enough for a field type, and
-- as many rounds as the input has bytes for the parameters.
pub parse-ne-out_of_fuel :
    (input : List ℕ) → (parse input ≢ out_of_fuel) × (parse_method input ≢ out_of_fuel)
parse-ne-out_of_fuel input =
    (Ends-out_of_fuel (parse-Ends input), Ends-out_of_fuel (parse_method-Ends input))

-- The offset in an error of the field parser points into the input: an unexpected end is reported at
-- the end, an invalid tag and trailing input at a byte of it, and a missing character at a byte or
-- at the end.
pub parse-IsWithin :
    (input : List ℕ) (e : DescriptorError) → parse input ≡ err e → IsWithin (length input) e
parse-IsWithin input e h = Ends-err (parse-Ends input) h

-- The offset in an error of the method parser points into the input, in the same way.
pub parse_method-IsWithin :
    (input : List ℕ) (e : DescriptorError) → parse_method input ≡ err e → IsWithin (length input) e
parse_method-IsWithin input e h = Ends-err (parse_method-Ends input) h
