-- ===== src/Types/Utf8.antt =====
-- `std::str::from_utf8`, as far as src/types/descriptor.rs uses it: whether bytes are UTF-8.
use ferro_jtype.Prelude.{
  ℕ, zero, suc, Bool, true, false, ◌&&◌, List, [], ◌∷◌, Option, none, some, ltb, leb, ◌==◌,
  if◌then◌else◌,
}

-- Of a leading byte: how many bytes continue it, and the range of the next one.
abbrev lead : ℕ → Option (ℕ × ℕ × ℕ)
lead b =
    if ltb b 0x80
    then some (0, 0x80, 0xBF)
    else if ltb b 0xC2
    then none
    else if ltb b 0xE0
    then some (1, 0x80, 0xBF)
    else if b == 0xE0
    then some (2, 0xA0, 0xBF)
    else if b == 0xED
    then some (2, 0x80, 0x9F)
    else if ltb b 0xF0
    then some (2, 0x80, 0xBF)
    else if b == 0xF0
    then some (3, 0x90, 0xBF)
    else if ltb b 0xF4
    then some (3, 0x80, 0xBF)
    else if b == 0xF4
    then some (3, 0x80, 0x8F)
    else none

-- `pending` continuation bytes are due, the first of them from `lo` to `hi`.
scan : ℕ → ℕ → ℕ → List ℕ → Bool
scan zero lo hi [] = true
scan (suc pending) lo hi [] = false
scan zero lo hi (b ∷ bytes) = elim (lead b) [ some (n, l, h) ↦ scan n l h bytes | none ↦ false ]
scan (suc pending) lo hi (b ∷ bytes) = leb lo b && leb b hi && scan pending 0x80 0xBF bytes

unfoldable pub is_utf8 : List ℕ → Bool
unfolding scan
is_utf8 bytes = scan 0 0x80 0xBF bytes
