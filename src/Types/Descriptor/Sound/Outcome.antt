-- ===== src/Types/Descriptor/Sound/Outcome.antt =====
-- What a read of a descriptor leaves: the text read, a well-formed type, and offsets of errors that
-- lie in the input.
use ferro_jtype.Prelude.{ℕ, ◌+◌, ◌≤◌, ◌<◌, ◌≡◌, List, ◌++◌, length}
use ferro_jtype.Prelude.Result.{Ends}
use ferro_jtype.Types.Descriptor.{
  TypeDescriptor, Parse, DescriptorError, unexpected_end, expected, invalid_tag,
  too_many_array_dimensions, trailing_input, invalid_class_name, DescriptorParser,
}
use ferro_jtype.Types.Descriptor.Print.{IsWellFormed, print}

abbrev pub stop : DescriptorParser → ℕ
stop p = p.cursor + length p.remaining

-- The offset of an error, in an input that ends at `n`.
abbrev pub IsWithin : ℕ → DescriptorError → Type 0
IsWithin n (unexpected_end offset) = offset ≡ n
IsWithin n (expected _ offset) = offset ≤ n
IsWithin n (invalid_tag _ offset) = offset < n
IsWithin n too_many_array_dimensions = Unit
IsWithin n (trailing_input offset) = offset < n
IsWithin n (invalid_class_name _) = Unit

-- From `p` to `q` the parser read `text`.
pub record Consumes (p q : DescriptorParser) (text : List ℕ) : Type 0 where
  pub split : p.remaining ≡ text ++ q.remaining
  pub moved : q.cursor ≡ p.cursor + length text

-- What a successful read of a type leaves.
pub record Reads (p : DescriptorParser) (r : TypeDescriptor × DescriptorParser) : Type 0 where
  pub consumed : Consumes p r.1 (print r.0)
  pub shape : IsWellFormed r.0

abbrev pub IsRead : (p : DescriptorParser) → ℕ → Parse TypeDescriptor → Type 0
IsRead p z = Ends (Reads p) (IsWithin z)
