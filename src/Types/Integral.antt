-- ===== src/Types/Integral.antt =====
-- src/types/integral.rs: the set of source-level candidates of an integral value, a bit mask in a
-- `u8`. Every set that the program makes uses the five low bits.
pub mod Laws
use Prim.Native.Nat.{bit_and, bit_or}
use ferro_jtype.Prelude.{
  ℕ, Bool, true, false, not, ◌&&◌, Option, none, some, ◌==◌, if◌then◌else◌, ℕ_discrete,
}
use ferro_jtype.Prelude.Int.{ℤ, pos, negsuc, lebℤ}
use ferro_jtype.Types.Primitive.{PrimitiveType, boolean, byte, char, short, int}

pub data IntegralTypeSet : Type 0 where
  mask : ℕ → IntegralTypeSet

abbrev pub bits : IntegralTypeSet → ℕ
bits (mask b) = b

unfoldable pub IntegralTypeSet-discrete : Discrete IntegralTypeSet
IntegralTypeSet-discrete = hlevel ℕ_discrete

abbrev pub boolean_set : IntegralTypeSet
boolean_set = mask 1

abbrev pub byte_set : IntegralTypeSet
byte_set = mask 2

abbrev pub char_set : IntegralTypeSet
char_set = mask 4

abbrev pub short_set : IntegralTypeSet
short_set = mask 8

abbrev pub int_set : IntegralTypeSet
int_set = mask 16

-- `IntegralTypeSet::ALL`
abbrev pub all_set : IntegralTypeSet
all_set = mask (bit_or (bit_or (bit_or (bit_or 1 2) 4) 8) 16)

abbrev has_bit : ℕ → ℕ → Bool
has_bit b bit = not (bit_and b bit == 0)

unfoldable pub contains : IntegralTypeSet → PrimitiveType → Bool
contains s boolean = has_bit (bits s) 1
contains s byte = has_bit (bits s) 2
contains s char = has_bit (bits s) 4
contains s short = has_bit (bits s) 8
contains s int = has_bit (bits s) 16
contains s _ = false

unfoldable pub exact_type : IntegralTypeSet → Option PrimitiveType
exact_type s =
    if bits s == 1
    then some boolean
    else if bits s == 2
    then some byte
    else if bits s == 4
    then some char
    else if bits s == 8
    then some short
    else if bits s == 16
    then some int
    else none

unfoldable pub is_exact : IntegralTypeSet → Bool
unfolding exact_type
is_exact s = elim (exact_type s) [ some _ ↦ true | none ↦ false ]

unfoldable pub from_primitive : PrimitiveType → Option IntegralTypeSet
from_primitive boolean = some boolean_set
from_primitive byte = some byte_set
from_primitive char = some char_set
from_primitive short = some short_set
from_primitive int = some int_set
from_primitive _ = none

unfoldable pub union : IntegralTypeSet → IntegralTypeSet → IntegralTypeSet
union a b = mask (bit_or (bits a) (bits b))

-- `lo <= value <= hi`: what `try_from` of an `i32` succeeds on.
abbrev pub in_range : ℤ → ℤ → ℤ → Bool
in_range lo hi value = lebℤ lo value && lebℤ value hi

unfoldable pub for_constant : ℤ → IntegralTypeSet
unfolding union
for_constant value =
    let s0 = int_set in
    let s1 = if in_range (pos 0) (pos 1) value then union s0 boolean_set else s0 in
    let s2 = if in_range (negsuc 127) (pos 127) value then union s1 byte_set else s1 in
    let s3 = if in_range (negsuc 32767) (pos 32767) value then union s2 short_set else s2 in
    if in_range (pos 0) (pos 65535) value then union s3 char_set else s3
