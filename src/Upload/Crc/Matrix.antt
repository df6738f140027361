-- ===== src/Upload/Crc/Matrix.antt =====
-- services/upload_usenet.go: the matrices of crc32CombineIEEE.
use loon_agent.Prelude.{
  ℕ, zero, suc, ◌≡◌, refl, sym, ap, ◌∙◌, inl, inr, Bool, true, false, if◌then◌else◌, Bool-cases,
}
use mathlib.Core.Bool.{xor}
use loon_agent.Bits.{Bits, Rows, zeros, xor_bits, shl_with, widen, is_zero, map_rows}
use loon_agent.Bits.Linear.{
  xor_bits_assoc, xor_bits_self, xor_bits-zeros, zeros-xor_bits, xor_bits-swap, shl_with-zeros,
  IsLinear,
}
use loon_agent.Upload.Crc.{times_loop, gf2_matrix_times, gf2_matrix_square, powers, one_bit, shift}

-- The sum of the rows at the bits that are set.
abbrev pub combination : (w n : ℕ) → Rows w n → Bits n → Bits w
combination w zero _ _ = zeros w
combination w (suc n) (row, rows) (b, vec) =
    xor_bits w (if b then row else zeros w) (combination w n rows vec)

combination-zero :
    (w n : ℕ) (mat : Rows w n) (vec : Bits n)
    → is_zero n vec ≡ true
    → combination w n mat vec ≡ zeros w
combination-zero w zero mat vec h = refl
combination-zero w (suc n) (row, rows) (true, vec) h = cc
combination-zero w (suc n) (row, rows) (false, vec) h =
    zeros-xor_bits w (combination w n rows vec) ∙ combination-zero w n rows vec h

plus_if :
    (w : ℕ) (b : Bool) (sum row : Bits w)
    → (if b then xor_bits w sum row else sum) ≡ xor_bits w sum (if b then row else zeros w)
plus_if w true sum row = refl
plus_if w false sum row = sym (xor_bits-zeros w sum)

times_loop_lem :
    (w n : ℕ) (sum : Bits w) (mat : Rows w n) (vec : Bits n)
    → times_loop w n sum mat vec ≡ xor_bits w sum (combination w n mat vec)
times_loop_lem w zero sum mat vec = sym (xor_bits-zeros w sum)
times_loop_lem w (suc n) sum (row, rows) (b, vec) = elim (Bool-cases (is_zero (suc n) (b, vec))) [
  | inl stop ↦ rw stop (
      sym (xor_bits-zeros w sum)
      ∙ ap (xor_bits w sum) (sym (combination-zero w (suc n) (row, rows) (b, vec) stop)))
  | inr more ↦ rw more (
      times_loop_lem w n (if b then xor_bits w sum row else sum) rows vec
      ∙ (ap (λ x. xor_bits w x (combination w n rows vec)) (plus_if w b sum row)
          ∙ xor_bits_assoc w sum (if b then row else zeros w) (combination w n rows vec)))
]

pub gf2_matrix_times_lem :
    (w n : ℕ) (mat : Rows w n) (vec : Bits n)
    → gf2_matrix_times w n mat vec ≡ combination w n mat vec
gf2_matrix_times_lem w n mat vec =
    times_loop_lem w n (zeros w) mat vec ∙ zeros-xor_bits w (combination w n mat vec)

-- A linear map of a combination is the combination of the mapped rows.
combination-map_rows :
    (w u n : ℕ) (f : Bits w → Bits u) (mat : Rows w n) (vec : Bits n)
    → IsLinear w u f
    → combination u n (map_rows w u n f mat) vec ≡ f (combination w n mat vec)
combination-map_rows w u zero f mat vec lin = sym lin.1
combination-map_rows w u (suc n) f (row, rows) (true, vec) lin =
    ap (xor_bits u (f row)) (combination-map_rows w u n f rows vec lin)
    ∙ sym (lin.0 row (combination w n rows vec))
combination-map_rows w u (suc n) f (row, rows) (false, vec) lin =
    ap (xor_bits u (zeros u)) (combination-map_rows w u n f rows vec lin)
    ∙ (zeros-xor_bits u (f (combination w n rows vec))
        ∙ ap f (sym (zeros-xor_bits w (combination w n rows vec))))

if_xor :
    (w : ℕ) (a b : Bool) (row : Bits w)
    → (if xor a b then row else zeros w)
      ≡ xor_bits w (if a then row else zeros w) (if b then row else zeros w)
unfolding xor
if_xor w true true row = sym (xor_bits_self w row)
if_xor w true false row = sym (xor_bits-zeros w row)
if_xor w false true row = sym (zeros-xor_bits w row)
if_xor w false false row = sym (zeros-xor_bits w (zeros w))

combination-xor_bits :
    (w n : ℕ) (mat : Rows w n) (u v : Bits n)
    → combination w n mat (xor_bits n u v)
      ≡ xor_bits w (combination w n mat u) (combination w n mat v)
combination-xor_bits w zero mat u v = sym (zeros-xor_bits w (zeros w))
combination-xor_bits w (suc n) (row, rows) (a, u) (b, v) =
    ap (λ x. xor_bits w x (combination w n rows (xor_bits n u v))) (if_xor w a b row)
    ∙ (ap (xor_bits w (xor_bits w (if a then row else zeros w) (if b then row else zeros w)))
          (combination-xor_bits w n rows u v)
        ∙ xor_bits-swap w (if a then row else zeros w) (if b then row else zeros w)
            (combination w n rows u) (combination w n rows v))

is_zero-zeros : (n : ℕ) → is_zero n (zeros n) ≡ true
is_zero-zeros zero = refl
is_zero-zeros (suc n) = is_zero-zeros n

pub times-IsLinear : (w n : ℕ) (mat : Rows w n) → IsLinear n w (gf2_matrix_times w n mat)
times-IsLinear w n mat = (
  λ u v.
      gf2_matrix_times_lem w n mat (xor_bits n u v)
      ∙ (combination-xor_bits w n mat u v
          ∙ (ap (λ x. xor_bits w x (combination w n mat v)) (sym (gf2_matrix_times_lem w n mat u))
              ∙ ap (xor_bits w (gf2_matrix_times w n mat u))
                  (sym (gf2_matrix_times_lem w n mat v)))),
  gf2_matrix_times_lem w n mat (zeros n) ∙ combination-zero w n mat (zeros n) (is_zero-zeros n),
)

-- The square of a matrix applies it twice.
pub times-gf2_matrix_square :
    (n : ℕ) (mat : Rows n n) (vec : Bits n)
    → gf2_matrix_times n n (gf2_matrix_square n mat) vec
      ≡ gf2_matrix_times n n mat (gf2_matrix_times n n mat vec)
times-gf2_matrix_square n mat vec =
    gf2_matrix_times_lem n n (gf2_matrix_square n mat) vec
    ∙ (combination-map_rows n n n (gf2_matrix_times n n mat) mat vec (times-IsLinear n n mat)
        ∙ ap (gf2_matrix_times n n mat) (sym (gf2_matrix_times_lem n n mat vec)))

powers-shifted :
    (w n : ℕ) (row : Bits w)
    → powers (suc w) n (false, row) ≡ map_rows w (suc w) n (λ r. (false, r)) (powers w n row)
powers-shifted w zero row = refl
powers-shifted w (suc n) row =
    ap (λ rows. ((false, row), rows)) (powers-shifted w n (shl_with w false row))

low-IsLinear : (w : ℕ) → IsLinear w (suc w) (λ r. (false, r))
unfolding xor
low-IsLinear w = (λ u v. refl, refl)

put_low :
    (n : ℕ) (b : Bool) (v : Bits n)
    → xor_bits (suc n) (if b then (true, zeros n) else zeros (suc n)) (false, v) ≡ (b, v)
unfolding xor
put_low n true v = ap (λ x. (true, x)) (zeros-xor_bits n v)
put_low n false v = ap (λ x. (false, x)) (zeros-xor_bits n v)

-- The rows 1, 2, 4, ... are those of the identity.
combination-powers :
    (n : ℕ) (vec : Bits n)
    → combination (suc n) n (powers (suc n) n (true, zeros n)) vec ≡ widen n vec
combination-powers zero vec = refl
combination-powers (suc n) (b, vec) =
    let one : Bits (suc n) = (true, zeros n) in
    let w = suc (suc n) in
    let low : Bits w = if b then (true, zeros (suc n)) else zeros w in
    ap (λ (r : Bits n). xor_bits w low (combination w n (powers w n (false, (true, r))) vec))
      (shl_with-zeros n)
    ∙ (ap (λ rows. xor_bits w low (combination w n rows vec)) (powers-shifted (suc n) n one)
        ∙ (ap (xor_bits w low) (
              combination-map_rows (suc n) w n (λ r. (false, r)) (powers (suc n) n one) vec
                (low-IsLinear (suc n)))
            ∙ (ap (λ (v : Bits (suc n)). xor_bits w low (false, v)) (combination-powers n vec)
                ∙ put_low (suc n) b (widen n vec))))

combination-one_bit :
    (n : ℕ) (poly v : Bits (suc n))
    → combination (suc n) (suc n) (one_bit n poly) v ≡ shift n poly v
combination-one_bit n poly (true, v) = ap (xor_bits (suc n) poly) (combination-powers n v)
combination-one_bit n poly (false, v) =
    ap (xor_bits (suc n) (zeros (suc n))) (combination-powers n v)
    ∙ zeros-xor_bits (suc n) (widen n v)

-- The first matrix is the operator of one zero bit.
pub times-one_bit :
    (n : ℕ) (poly v : Bits (suc n))
    → gf2_matrix_times (suc n) (suc n) (one_bit n poly) v ≡ shift n poly v
times-one_bit n poly v =
    gf2_matrix_times_lem (suc n) (suc n) (one_bit n poly) v ∙ combination-one_bit n poly v
