-- ===== src/Types/Descriptor/Print.antt =====
-- The descriptors that the parser can return, and the text that each of them is read from.
use ferro_jtype.Prelude.{
  ℕ, suc, ◌+◌, ◌≤◌, ◌<◌, ◌≡◌, refl, Bool, true, false, List, [], ◌∷◌, ◌++◌, length, length-append,
  replicate, length-replicate, any, All, arith,
}
use ferro_jtype.Types.ClassName.{as_str, is_forbidden}
use ferro_jtype.Types.Primitive.{
  PrimitiveType, boolean, byte, char, short, int, float, long, double,
}
use ferro_jtype.Types.Utf8.{is_utf8}
use ferro_jtype.Types.Descriptor.{
  TypeDescriptor, primitive, reference, array, ReturnType, void, type, MethodDescriptor,
}

abbrev pub tag_of : PrimitiveType → ℕ
tag_of boolean = b'Z'
tag_of byte = b'B'
tag_of char = b'C'
tag_of short = b'S'
tag_of int = b'I'
tag_of float = b'F'
tag_of long = b'J'
tag_of double = b'D'

-- An internal name: not empty, UTF-8, and none of the characters that `ClassName::parse` rejects.
pub record IsName (name : List ℕ) : Type 0 where
  pub text : is_utf8 name ≡ true
  pub nonempty : 0 < length name
  pub allowed : any is_forbidden name ≡ false

abbrev pub IsElement : TypeDescriptor → Type 0
IsElement (array _ _) = ⊥
IsElement _ = Unit

-- Names are internal names; an array has 1 to 255 dimensions and an element that is no array.
abbrev pub IsWellFormed : TypeDescriptor → Type 0
IsWellFormed (primitive p) = Unit
IsWellFormed (reference c) = IsName (as_str c)
IsWellFormed (array d e) = (1 ≤ d) × (d ≤ 255) × IsElement e × IsWellFormed e

abbrev pub IsWellFormedReturn : ReturnType → Type 0
IsWellFormedReturn void = Unit
IsWellFormedReturn (type d) = IsWellFormed d

pub record IsWellFormedMethod (m : MethodDescriptor) : Type 0 where
  pub parameters : All IsWellFormed m.parameters
  pub return_type : IsWellFormedReturn m.return_type

unfoldable pub print : TypeDescriptor → List ℕ
print (primitive p) = tag_of p ∷ []
print (reference c) = b'L' ∷ (as_str c ++ b';' ∷ [])
print (array d e) = replicate d b'[' ++ print e

unfoldable pub print_all : List TypeDescriptor → List ℕ
print_all [] = []
print_all (d ∷ ds) = print d ++ print_all ds

unfoldable pub print_return : ReturnType → List ℕ
print_return void = b'V' ∷ []
print_return (type d) = print d

unfoldable pub print_method : MethodDescriptor → List ℕ
unfolding print_return
print_method m = b'(' ∷ (print_all m.parameters ++ b')' ∷ print_return m.return_type)

pub length-print_pos : (d : TypeDescriptor) → 0 < length (print d)
unfolding print
length-print_pos (primitive p) = omega arith
length-print_pos (reference c) = omega arith
length-print_pos (array d e) =
    omega (arith, length-append (replicate d b'[') (print e), length-print_pos e)

pub length-append_bytes : (xs ys : List ℕ) → length (xs ++ ys) ≡ length xs + length ys
length-append_bytes = length-append

pub length-replicate_bytes : (n b : ℕ) → length (replicate n b) ≡ n
length-replicate_bytes = length-replicate

-- for `omega`, on bytes
pub ruleset lengths = (arith, length-append_bytes)
