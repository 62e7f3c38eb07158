-- ===== src/Prelude/Bits.antt =====
-- `|` and `&` on native numbers, digit by digit: the masks of src/types/integral.rs at variables.
use Prim.Native.Nat.{
  ℕ, zero, suc, ◌+◌, ◌*◌, ◌/◌, ◌%◌, ◌≤◌, min, max, bit_and, bit_or, digits, bitwise,
  bit_and-bitwise, bit_or-bitwise,
}
use mathlib.Core.Path.{◌≡◌, refl}
use native.Mathlib.Omega.{arith}

-- Any two amounts of fuel that cover the number give the same digits.
enough_digits :
    (rest : ℕ → ℕ) (digit : ℕ → ℕ → ℕ) (k a b : ℕ) (j : ℕ)
    → a ≤ k
    → a ≤ j
    → digits rest digit k a b ≡ digits rest digit j a b
enough_digits rest digit zero zero b zero hk hj = refl
enough_digits rest digit zero zero b (suc j) hk hj = refl
enough_digits rest digit (suc k) zero b zero hk hj = refl
enough_digits rest digit (suc k) zero b (suc j) hk hj = refl
enough_digits rest digit zero (suc a) b j hk hj = absurd (omega arith)
enough_digits rest digit (suc k) (suc a) b zero hk hj = absurd (omega arith)
enough_digits rest digit (suc k) (suc a) b (suc j) hk hj =
    let halves = enough_digits rest digit k (suc a / 2) (b / 2) j (omega arith) (omega arith) in
    rw halves

lowest_digit :
    (rest : ℕ → ℕ) (digit : ℕ → ℕ → ℕ) (a b : ℕ)
    → bitwise rest digit (suc a) b
      ≡ bitwise rest digit (suc a / 2) (b / 2) * 2 + digit (suc a % 2) (b % 2)
lowest_digit rest digit a b =
    let halves =
      enough_digits rest digit a (suc a / 2) (b / 2) (suc a / 2) (omega arith) (omega arith) in
    omega (arith, halves)

or_digit : (a b : ℕ) → bit_or a b ≡ bit_or (a / 2) (b / 2) * 2 + max (a % 2) (b % 2)
or_digit zero b = simp bit_or-bitwise (omega arith)
or_digit (suc a) b = simp bit_or-bitwise (lowest_digit (λ m. m) max a b)

and_digit : (a b : ℕ) → bit_and a b ≡ bit_and (a / 2) (b / 2) * 2 + min (a % 2) (b % 2)
and_digit zero b = simp bit_and-bitwise (omega arith)
and_digit (suc a) b = simp bit_and-bitwise (lowest_digit (λ m. 0) min a b)

or_comm_below : (n a b : ℕ) → a ≤ n → b ≤ n → bit_or a b ≡ bit_or b a
or_comm_below zero zero zero ha hb = refl
or_comm_below zero (suc a) b ha hb = absurd (omega arith)
or_comm_below zero zero (suc b) ha hb = absurd (omega arith)
or_comm_below (suc n) a b ha hb =
    omega (
      arith,
      or_digit a b,
      or_digit b a,
      or_comm_below n (a / 2) (b / 2) (omega arith) (omega arith),
    )

pub bit_or_comm : (a b : ℕ) → bit_or a b ≡ bit_or b a
bit_or_comm a b = or_comm_below (a + b) a b (omega arith) (omega arith)

and_zero_below : (n a : ℕ) → a ≤ n → bit_and a 0 ≡ 0
and_zero_below zero zero h = refl
and_zero_below zero (suc a) h = absurd (omega arith)
and_zero_below (suc n) a h = omega (arith, and_digit a 0, and_zero_below n (a / 2) (omega arith))

pub bit_and-1 : (a : ℕ) → bit_and a 1 ≡ a % 2
bit_and-1 a = omega (arith, and_digit a 1, and_zero_below (a / 2) (a / 2) (omega arith))

pub bit_and-2 : (a : ℕ) → bit_and a 2 ≡ a / 2 % 2 * 2
bit_and-2 a = omega (arith, and_digit a 2, bit_and-1 (a / 2))

pub bit_and-4 : (a : ℕ) → bit_and a 4 ≡ a / 2 / 2 % 2 * 4
bit_and-4 a = omega (arith, and_digit a 4, bit_and-2 (a / 2))

pub bit_and-8 : (a : ℕ) → bit_and a 8 ≡ a / 2 / 2 / 2 % 2 * 8
bit_and-8 a = omega (arith, and_digit a 8, bit_and-4 (a / 2))

pub bit_and-16 : (a : ℕ) → bit_and a 16 ≡ a / 2 / 2 / 2 / 2 % 2 * 16
bit_and-16 a = omega (arith, and_digit a 16, bit_and-8 (a / 2))

pub half-bit_or : (a b : ℕ) → bit_or a b / 2 ≡ bit_or (a / 2) (b / 2)
half-bit_or a b = omega (arith, or_digit a b)

pub bit_or-mod : (a b : ℕ) → bit_or a b % 2 ≡ max (a % 2) (b % 2)
bit_or-mod a b = omega (arith, or_digit a b)
