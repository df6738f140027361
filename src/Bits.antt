-- ===== src/Bits.antt =====
-- Unsigned words of a fixed width as their bits, the lowest first, and tables of words.
pub mod Linear
use loon_agent.Prelude.{ℕ, zero, suc, ◌+◌, ◌*◌, ◌/◌, ◌%◌, Bool, true, false, ◌==◌, if◌then◌else◌}
use mathlib.Core.Bool.{xor}

abbrev pub Bits : ℕ → Type 0
Bits zero = Unit {0}
Bits (suc n) = Bool × Bits n

-- A table of words of width `w`.
abbrev pub Rows : ℕ → ℕ → Type 0
Rows w zero = Unit {0}
Rows w (suc n) = Bits w × Rows w n

abbrev pub zeros : (n : ℕ) → Bits n
zeros zero = tt
zeros (suc n) = (false, zeros n)

abbrev pub ones : (n : ℕ) → Bits n
ones zero = tt
ones (suc n) = (true, ones n)

abbrev pub xor_bits : (n : ℕ) → Bits n → Bits n → Bits n
xor_bits zero _ _ = tt
xor_bits (suc n) (a, v) (b, w) = (xor a b, xor_bits n v w)

-- `v << 1`, with `low` in the place of the lowest bit.
abbrev pub shl_with : (n : ℕ) → Bool → Bits n → Bits n
shl_with zero low _ = tt
shl_with (suc n) low (b, v) = (low, shl_with n b v)

-- `v >> 1` of a word whose lowest bit has been taken off.
abbrev pub widen : (n : ℕ) → Bits n → Bits (suc n)
widen zero _ = (false, tt)
widen (suc n) (b, v) = (b, widen n v)

-- The lowest bits of a number.
abbrev pub bits_of : (n : ℕ) → ℕ → Bits n
bits_of zero x = tt
bits_of (suc n) x = (x % 2 == 1, bits_of n (x / 2))

abbrev pub is_zero : (n : ℕ) → Bits n → Bool
is_zero zero _ = true
is_zero (suc n) (b, v) = if b then false else is_zero n v

abbrev pub map_rows : (w u n : ℕ) → (Bits w → Bits u) → Rows w n → Rows u n
map_rows w u zero f _ = tt
map_rows w u (suc n) f (row, rows) = (f row, map_rows w u n f rows)

abbrev pub value_of : (n : ℕ) → Bits n → ℕ
value_of zero _ = 0
value_of (suc n) (b, v) = (if b then 1 else 0) + 2 * value_of n v
