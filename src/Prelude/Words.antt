-- ===== src/Prelude/Words.antt =====
-- 64-bit words as bit patterns: a number below 2 ^ 64. An int64 is read in two's complement.
use Prim.Native.Nat.{ℕ, ◌+◌, ◌-◌, ◌%◌, ◌^◌}
use mathlib.Core.Bool.{Bool}
use loon_agent.Prelude.Tests.{ltb, leb}

abbrev pub word : ℕ
word = 2 ^ 64

-- `a + b` and `a - b` on int64 or uint64; the bit patterns are the same.
abbrev pub add64 : ℕ → ℕ → ℕ
add64 a b = (a + b) % word

abbrev pub sub64 : ℕ → ℕ → ℕ
sub64 a b = (a + word - b) % word

-- The order of int64: the sign bit flipped, it is that of the patterns.
abbrev pub biased : ℕ → ℕ
biased a = (a + 2 ^ 63) % word

abbrev pub lt_signed : ℕ → ℕ → Bool
lt_signed a b = ltb (biased a) (biased b)

abbrev pub le_signed : ℕ → ℕ → Bool
le_signed a b = leb (biased a) (biased b)
