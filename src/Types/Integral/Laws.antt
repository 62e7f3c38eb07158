-- ===== src/Types/Integral/Laws.antt =====
-- The masks of src/types/integral.rs as sets of primitive types.
use ferro_jtype.Prelude.{
  ℕ, zero, suc, max, ◌*◌, ◌%◌, not, ◌<◌, ◌≡◌, ◌↔◌, refl, Bool, true, false, ◌||◌, some, ◌==◌,
  as_bool, subst, arith,
}
use Prim.Native.Nat.{bit_or}
use ferro_jtype.Prelude.Bits.{
  half-bit_or, bit_or-mod, bit_and-1, bit_and-2, bit_and-4, bit_and-8, bit_and-16,
}
use ferro_jtype.Prelude.Int.{ℤ, pos, negsuc}
use ferro_jtype.Types.Primitive.{
  PrimitiveType, boolean, byte, char, short, int, PrimitiveType-discrete,
}
use ferro_jtype.Types.Integral.{
  IntegralTypeSet, mask, boolean_set, byte_set, char_set, short_set, int_set, contains, exact_type,
  from_primitive, union, for_constant, in_range,
}

set_max :
    (x y w : ℕ)
    → x < 2
    → y < 2
    → 0 < w
    → not (max x y * w == 0) ≡ (not (x * w == 0) || not (y * w == 0))
set_max zero zero w hx hy h = ground arith
set_max zero (suc y) w hx hy h = ground arith
set_max (suc x) zero w hx hy h = ground arith
set_max (suc x) (suc y) w hx hy h = ground arith

-- A digit of weight `w`, as `has_bit` tests it, is set in `a | b` if it is set in one of them.
or_set :
    (a b w : ℕ)
    → 0 < w
    → not (bit_or a b % 2 * w == 0) ≡ (not (a % 2 * w == 0) || not (b % 2 * w == 0))
or_set a b w h = rw (bit_or-mod a b) (set_max (a % 2) (b % 2) w (omega arith) (omega arith) h)

-- A union holds a primitive type exactly when one of its parts does.
pub contains-union :
    (s t : IntegralTypeSet) (p : PrimitiveType)
    → contains (union s t) p ≡ (contains s p || contains t p)
unfolding contains union
contains-union (mask a) (mask b) boolean =
    ground (arith, bit_and-1 (bit_or a b), bit_and-1 a, bit_and-1 b, bit_or-mod a b)
contains-union (mask a) (mask b) byte =
    rw (bit_and-2 (bit_or a b), bit_and-2 a, bit_and-2 b, half-bit_or a b)
      (or_set _ _ 2 (omega arith))
contains-union (mask a) (mask b) char =
    rw (bit_and-4 (bit_or a b), bit_and-4 a, bit_and-4 b)
      (simp half-bit_or (or_set _ _ 4 (omega arith)))
contains-union (mask a) (mask b) short =
    rw (bit_and-8 (bit_or a b), bit_and-8 a, bit_and-8 b)
      (simp half-bit_or (or_set _ _ 8 (omega arith)))
contains-union (mask a) (mask b) int =
    rw (bit_and-16 (bit_or a b), bit_and-16 a, bit_and-16 b)
      (simp half-bit_or (or_set _ _ 16 (omega arith)))
contains-union (mask a) (mask b) _ = refl

-- The values of a primitive type that the JVM keeps as an `int`, as the language defines them.
abbrev pub holds : PrimitiveType → ℤ → Bool
holds boolean v = in_range (pos 0) (pos 1) v
holds byte v = in_range (negsuc 127) (pos 127) v
holds char v = in_range (pos 0) (pos 65535) v
holds short v = in_range (negsuc 32767) (pos 32767) v
holds int v = true
holds _ v = false

-- The candidates of a constant are exactly the integral types that can hold it.
pub contains-for_constant : (v : ℤ) (p : PrimitiveType) → contains (for_constant v) p ≡ holds p v
unfolding contains for_constant
contains-for_constant (pos n) boolean = ground arith
contains-for_constant (pos n) p = ground arith
contains-for_constant (negsuc n) boolean = ground arith
contains-for_constant (negsuc n) p = ground arith

-- `p` is the only candidate.
abbrev pub IsOnly : IntegralTypeSet → PrimitiveType → Type 0
IsOnly s p = (q : PrimitiveType) → contains s q ≡ as_bool (PrimitiveType-discrete q p)

exact_type-from_primitive :
    (s : IntegralTypeSet) (p : PrimitiveType) → exact_type s ≡ some p → from_primitive p ≡ some s
unfolding exact_type from_primitive
exact_type-from_primitive (mask b) boolean h = ground arith
exact_type-from_primitive (mask b) p h = ground arith

boolean-IsOnly : IsOnly boolean_set boolean
unfolding contains PrimitiveType-discrete
boolean-IsOnly boolean = refl
boolean-IsOnly q = refl

byte-IsOnly : IsOnly byte_set byte
unfolding contains PrimitiveType-discrete
byte-IsOnly boolean = refl
byte-IsOnly q = refl

char-IsOnly : IsOnly char_set char
unfolding contains PrimitiveType-discrete
char-IsOnly boolean = refl
char-IsOnly q = refl

short-IsOnly : IsOnly short_set short
unfolding contains PrimitiveType-discrete
short-IsOnly boolean = refl
short-IsOnly q = refl

int-IsOnly : IsOnly int_set int
unfolding contains PrimitiveType-discrete
int-IsOnly boolean = refl
int-IsOnly q = refl

from_primitive-IsOnly :
    (s : IntegralTypeSet) (p : PrimitiveType) → from_primitive p ≡ some s → IsOnly s p
unfolding from_primitive
from_primitive-IsOnly s boolean h =
    let e : boolean_set ≡ s = cc in subst (λ s. IsOnly s boolean) e boolean-IsOnly
from_primitive-IsOnly s byte h =
    let e : byte_set ≡ s = cc in subst (λ s. IsOnly s byte) e byte-IsOnly
from_primitive-IsOnly s char h =
    let e : char_set ≡ s = cc in subst (λ s. IsOnly s char) e char-IsOnly
from_primitive-IsOnly s short h =
    let e : short_set ≡ s = cc in subst (λ s. IsOnly s short) e short-IsOnly
from_primitive-IsOnly s int h = let e : int_set ≡ s = cc in subst (λ s. IsOnly s int) e int-IsOnly
from_primitive-IsOnly s _ h = cc

from_primitive-exact_type :
    (s : IntegralTypeSet) (p : PrimitiveType) → from_primitive p ≡ some s → exact_type s ≡ some p
unfolding exact_type from_primitive
from_primitive-exact_type (mask b) boolean h = ground arith
from_primitive-exact_type (mask b) p h = ground arith

-- A set reports an exact type exactly when it is the set made of that type.
pub exact_type_iff :
    (s : IntegralTypeSet) (p : PrimitiveType)
    → (exact_type s ≡ some p) ↔ (from_primitive p ≡ some s)
exact_type_iff s p = (exact_type-from_primitive s p, from_primitive-exact_type s p)

-- A set that reports an exact type holds that primitive type and no other.
pub exact_type-IsOnly :
    (s : IntegralTypeSet) (p : PrimitiveType) → exact_type s ≡ some p → IsOnly s p
exact_type-IsOnly s p h = from_primitive-IsOnly s p (exact_type-from_primitive s p h)
