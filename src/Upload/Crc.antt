-- ===== src/Upload/Crc.antt =====
-- services/upload_usenet.go: crc32CombineIEEE with its matrices over the bits, and the CRC-32 of
-- hash/crc32 that its values stand for.
pub mod Matrix
pub mod Combine
use loon_agent.Prelude.{
  ℕ, zero, suc, ◌/◌, ◌%◌, true, false, List, [], ◌∷◌, ◌==◌, if◌then◌else◌, Bytes,
}
use loon_agent.Bits.{Bits, Rows, zeros, ones, xor_bits, shl_with, widen, bits_of, is_zero, map_rows}

abbrev pub Word32 : Type 0
Word32 = Bits 32

-- 0xedb88320, the polynomial of IEEE with its bits reflected.
abbrev pub ieee : Word32
ieee = bits_of 32 0xedb88320

-- The loop of gf2MatrixTimes: the rows at the bits of the vector that are set, until none is left.
abbrev pub times_loop : (w n : ℕ) → Bits w → Rows w n → Bits n → Bits w
times_loop w zero sum _ _ = sum
times_loop w (suc n) sum (row, rows) (b, vec) =
    let rest = times_loop w n (if b then xor_bits w sum row else sum) rows vec in
    if is_zero (suc n) (b, vec) then sum else rest

abbrev pub gf2_matrix_times : (w n : ℕ) → Rows w n → Bits n → Bits w
gf2_matrix_times w n mat vec = times_loop w n (zeros w) mat vec

abbrev pub gf2_matrix_square : (n : ℕ) → Rows n n → Rows n n
gf2_matrix_square n mat = map_rows n n n (gf2_matrix_times n n mat) mat

-- `n` rows from `row` on, each the one before shifted by a bit.
abbrev pub powers : (w n : ℕ) → Bits w → Rows w n
powers w zero row = tt
powers w (suc n) row = (row, powers w n (shl_with w false row))

-- The operator of one zero bit, as a table.
abbrev pub one_bit : (n : ℕ) → Bits (suc n) → Rows (suc n) (suc n)
one_bit n poly = (poly, powers (suc n) n (true, zeros n))

-- The loop over the bits of the length, two in a round. A length has at most one bit in each.
unfoldable pub combine_loop : (n : ℕ) → ℕ → Rows n n → Bits n → ℕ → Bits n
combine_loop n zero odd crc l = crc
combine_loop n (suc rounds) odd crc l =
    let even = gf2_matrix_square n odd in
    let crc_even = if l % 2 == 1 then gf2_matrix_times n n even crc else crc in
    let l_odd = l / 2 in
    let odd_next = gf2_matrix_square n even in
    let crc_odd = if l_odd % 2 == 1 then gf2_matrix_times n n odd_next crc_even else crc_even in
    let l_next = l_odd / 2 in
    let rest = combine_loop n rounds odd_next crc_odd l_next in
    if l_odd == 0 then crc_even else if l_next == 0 then crc_odd else rest

-- The lengths are never negative; `l` rounds are enough.
unfoldable pub crc32_combine : Word32 → Word32 → ℕ → Word32
crc32_combine crc1 crc2 len2 =
    let odd = one_bit 31 ieee in
    let even = gf2_matrix_square 32 odd in
    let odd_next = gf2_matrix_square 32 even in
    if len2 == 0 then crc1 else xor_bits 32 (combine_loop 32 len2 odd_next crc1 len2) crc2

-- The register of hash/crc32: a zero bit, a byte, and a text.
abbrev pub shift : (n : ℕ) → Bits (suc n) → Bits (suc n) → Bits (suc n)
shift n poly (b, v) = if b then xor_bits (suc n) poly (widen n v) else widen n v

abbrev pub iterate {ℓ} : {A : Type ℓ} → ℕ → (A → A) → A → A
iterate zero f x = x
iterate (suc n) f x = iterate n f (f x)

abbrev pub shift_byte : (n : ℕ) → Bits (suc n) → Bits (suc n) → Bits (suc n)
shift_byte n poly = iterate 8 (shift n poly)

abbrev pub register : (n : ℕ) → Bits (suc n) → Bits (suc n) → Bytes → Bits (suc n)
register n poly v [] = v
register n poly v (b ∷ bytes) =
    register n poly (shift_byte n poly (xor_bits (suc n) v (bits_of (suc n) b))) bytes

-- crc32.ChecksumIEEE
unfoldable pub crc32 : Bytes → Word32
crc32 bytes = xor_bits 32 (ones 32) (register 31 ieee (ones 32) bytes)
