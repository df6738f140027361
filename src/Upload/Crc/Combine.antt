-- ===== src/Upload/Crc/Combine.antt =====
-- services/upload_usenet.go: crc32CombineIEEE gives the CRC of the joined text.
use loon_agent.Prelude.{
  ℕ, zero, suc, ◌/◌, ◌%◌, ◌≤◌, ◌≡◌, refl, sym, ap, ◌∙◌, fun_ext, Bool, true, false, [], ◌∷◌, ◌++◌,
  ◌==◌, if◌then◌else◌, arith, Bytes, length, ==_iff,
}
use mathlib.Core.List.{append-nil}
use loon_agent.Bits.{Bits, Rows, ones, zeros, xor_bits, bits_of}
use loon_agent.Bits.Linear.{xor_bits_assoc, xor_bits_comm, xor_bits-cancel, xor_bits_self, IsLinear}
use loon_agent.Upload.Crc.{
  Word32, ieee, gf2_matrix_times, gf2_matrix_square, one_bit, combine_loop, crc32_combine, shift,
  iterate, shift_byte, register, crc32,
}
use loon_agent.Upload.Crc.Matrix.{times-gf2_matrix_square, times-one_bit, times-IsLinear}

module _ {ℓ} {A : Type ℓ} where
  if_apply :
      (b : Bool) (f g : A → A) (x : A) → f (if b then g x else x) ≡ (if b then f (g x) else f x)
  if_apply true f g x = refl
  if_apply false f g x = refl

  if_either :
      (b : Bool) (x y z : A) → (b ≡ true → x ≡ z) → (b ≡ false → y ≡ z) → (if b then x else y) ≡ z
  if_either true x y z h k = h refl
  if_either false x y z h k = k refl

  -- The lowest bit of a count taken apart: the rest counts pairs.
  iterate-half :
      (l : ℕ) (g : A → A) (x : A)
      → iterate l g x ≡ iterate (l / 2) (λ y. g (g y)) (if l % 2 == 1 then g x else x)
  iterate-half zero g x = refl
  iterate-half (suc zero) g x = refl
  iterate-half (suc (suc l)) g x =
      let half : (suc (suc l) / 2 ≡ suc (l / 2)) = omega arith in
      let low : (suc (suc l) % 2 ≡ l % 2) = omega arith in
      iterate-half l g (g (g x))
      ∙ (ap (iterate (l / 2) (λ y. g (g y))) (sym (if_apply (l % 2 == 1) (λ y. g (g y)) g x))
          ∙ rw (half, low) refl)

step :
    (n : ℕ) (mat : Rows n n) (crc : Bits n) (l : ℕ)
    → iterate l (gf2_matrix_times n n mat) crc
      ≡ iterate
          (l / 2)
          (gf2_matrix_times n n (gf2_matrix_square n mat))
          (if l % 2 == 1 then gf2_matrix_times n n mat crc else crc)
step n mat crc l =
    iterate-half l (gf2_matrix_times n n mat) crc
    ∙ ap (λ f. iterate (l / 2) f (if l % 2 == 1 then gf2_matrix_times n n mat crc else crc))
        (fun_ext (λ v. sym (times-gf2_matrix_square n mat v)))

quarter_le : (l rounds : ℕ) → l ≤ suc rounds → ((l / 2 == 0) ≡ false) → l / 2 / 2 ≤ rounds
quarter_le l rounds h more = ground arith

combine_loop_lem :
    (n rounds : ℕ) (odd : Rows n n) (crc : Bits n) (l : ℕ)
    → l ≤ rounds
    → combine_loop n rounds odd crc l
      ≡ iterate l (gf2_matrix_times n n (gf2_matrix_square n odd)) crc
unfolding combine_loop
combine_loop_lem n zero odd crc zero h = refl
combine_loop_lem n zero odd crc (suc l) h = absurd (omega arith)
combine_loop_lem n (suc rounds) odd crc l h =
    let even = gf2_matrix_square n odd in
    let crc_even = if l % 2 == 1 then gf2_matrix_times n n even crc else crc in
    let odd_next = gf2_matrix_square n even in
    let crc_odd = if l / 2 % 2 == 1 then gf2_matrix_times n n odd_next crc_even else crc_even in
    let goal = iterate l (gf2_matrix_times n n even) crc in
    let rest = combine_loop n rounds odd_next crc_odd (l / 2 / 2) in
    let halved = sym (step n even crc l) in
    let quartered = sym (step n odd_next crc_even (l / 2)) ∙ halved in
    if_either (l / 2 == 0) crc_even (if l / 2 / 2 == 0 then crc_odd else rest) goal
      (λ stop.
        ap (λ m. iterate m (gf2_matrix_times n n odd_next) crc_even)
          (sym ((==_iff (l / 2) 0).0 stop))
        ∙ halved)
      (λ more.
        if_either (l / 2 / 2 == 0) crc_odd rest goal
          (λ stop.
            ap (λ m. iterate m (gf2_matrix_times n n (gf2_matrix_square n odd_next)) crc_odd)
              (sym ((==_iff (l / 2 / 2) 0).0 stop))
            ∙ quartered)
          (λ again.
            combine_loop_lem n rounds odd_next crc_odd (l / 2 / 2) (quarter_le l rounds h more)
            ∙ quartered))

iterate-IsLinear : (n k : ℕ) (f : Bits n → Bits n) → IsLinear n n f → IsLinear n n (iterate k f)
iterate-IsLinear n zero f lin = (λ u v. refl, refl)
iterate-IsLinear n (suc k) f lin =
    let rest = iterate-IsLinear n k f lin in
    (λ u v. ap (iterate k f) (lin.0 u v) ∙ rest.0 (f u) (f v), ap (iterate k f) lin.1 ∙ rest.1)

shift-IsLinear : (n : ℕ) (poly : Bits (suc n)) → IsLinear (suc n) (suc n) (shift n poly)
shift-IsLinear n poly =
    let lin = times-IsLinear (suc n) (suc n) (one_bit n poly) in
    let eq = times-one_bit n poly in
    (
      λ u v.
          sym (eq (xor_bits (suc n) u v))
          ∙ (lin.0 u v
              ∙ (ap (λ x. xor_bits (suc n) x (gf2_matrix_times (suc n) (suc n) (one_bit n poly) v))
                    (eq u)
                  ∙ ap (xor_bits (suc n) (shift n poly u)) (eq v))),
      sym (eq (zeros (suc n))) ∙ lin.1,
    )

-- A register that starts elsewhere differs, at the end, by the difference shifted past the text.
register-xor_bits :
    (n : ℕ) (poly u v : Bits (suc n)) (bytes : Bytes)
    → register n poly (xor_bits (suc n) u v) bytes
      ≡ xor_bits (suc n) (register n poly u bytes) (iterate (length bytes) (shift_byte n poly) v)
register-xor_bits n poly u v [] = refl
register-xor_bits n poly u v (b ∷ bytes) =
    let w = suc n in
    let byte = bits_of w b in
    let lin = iterate-IsLinear w 8 (shift n poly) (shift-IsLinear n poly) in
    ap (λ x. register n poly x bytes)
      (ap (shift_byte n poly) (
          xor_bits_assoc w u v byte
          ∙ (ap (xor_bits w u) (xor_bits_comm w v byte) ∙ sym (xor_bits_assoc w u byte v)))
        ∙ lin.0 (xor_bits w u byte) v)
    ∙ register-xor_bits n poly (shift_byte n poly (xor_bits w u byte)) (shift_byte n poly v) bytes

register-append :
    (n : ℕ) (poly v : Bits (suc n)) (a b : Bytes)
    → register n poly v (a ++ b) ≡ register n poly (register n poly v a) b
register-append n poly v [] b = refl
register-append n poly v (c ∷ a) b =
    register-append n poly (shift_byte n poly (xor_bits (suc n) v (bits_of (suc n) c))) a b

square_twice :
    (n : ℕ) (mat : Rows n n) (f : Bits n → Bits n)
    → ((v : Bits n) → gf2_matrix_times n n mat v ≡ f v)
    → (v : Bits n) → gf2_matrix_times n n (gf2_matrix_square n mat) v ≡ f (f v)
square_twice n mat f h v =
    times-gf2_matrix_square n mat v ∙ (ap (gf2_matrix_times n n mat) (h v) ∙ h (f v))

-- The third square of the first matrix is the operator of one byte.
byte_matrix :
    (n : ℕ) (poly v : Bits (suc n))
    → (let square = gf2_matrix_square (suc n) in
        gf2_matrix_times (suc n) (suc n) (square (square (square (one_bit n poly)))) v)
      ≡ shift_byte n poly v
byte_matrix n poly v =
    let w = suc n in
    let m1 = one_bit n poly in
    let s = shift n poly in
    square_twice w (gf2_matrix_square w (gf2_matrix_square w m1)) (λ x. s (s (s (s x))))
      (square_twice w (gf2_matrix_square w m1) (λ x. s (s x))
        (square_twice w m1 s (times-one_bit n poly)))
      v

combine_lem :
    (crc : Word32) (l : ℕ)
    → combine_loop 32 l (gf2_matrix_square 32 (gf2_matrix_square 32 (one_bit 31 ieee))) crc l
      ≡ iterate l (shift_byte 31 ieee) crc
combine_lem crc l =
    combine_loop_lem 32 l (gf2_matrix_square 32 (gf2_matrix_square 32 (one_bit 31 ieee))) crc l
      (omega arith)
    ∙ ap (λ f. iterate l f crc) (fun_ext (byte_matrix 31 ieee))

crc32_combine_pos :
    (crc1 crc2 : Word32) (l : ℕ)
    → (l == 0) ≡ false
    → crc32_combine crc1 crc2 l ≡ xor_bits 32 (iterate l (shift_byte 31 ieee) crc1) crc2
unfolding crc32_combine
crc32_combine_pos crc1 crc2 l h = rw h (ap (λ x. xor_bits 32 x crc2) (combine_lem crc1 l))

pub crc32-nil : crc32 [] ≡ zeros 32
unfolding crc32
crc32-nil = xor_bits_self 32 (ones 32)

-- The register of the joined text runs over the second from where the first has left it.
crc32-append :
    (a b : Bytes)
    → crc32 (a ++ b) ≡ xor_bits 32 (iterate (length b) (shift_byte 31 ieee) (crc32 a)) (crc32 b)
unfolding crc32
crc32-append a b =
    let run : Word32 → Bytes → Word32 = register 31 ieee in
    let start : Word32 = run (ones 32) a in
    let first : Word32 = xor_bits 32 (ones 32) start in
    let second : Word32 = run (ones 32) b in
    let moved : Word32 = iterate (length b) (shift_byte 31 ieee) first in
    ap (xor_bits 32 (ones 32)) (
      register-append 31 ieee (ones 32) a b
      ∙ (ap (λ v. run v b) (sym (xor_bits-cancel 32 (ones 32) start))
          ∙ register-xor_bits 31 ieee (ones 32) first b))
    ∙ (sym (xor_bits_assoc 32 (ones 32) second moved)
        ∙ xor_bits_comm 32 (xor_bits 32 (ones 32) second) moved)

-- The CRC-32 of two texts, one behind the other, is what crc32CombineIEEE makes of the CRC-32 of
-- each and the length of the second, whatever the texts.
pub crc32_combine-crc32 :
    (a b : Bytes) → crc32_combine (crc32 a) (crc32 b) (length b) ≡ crc32 (a ++ b)
crc32_combine-crc32 a [] = unfold crc32_combine in ap crc32 (sym (append-nil a))
crc32_combine-crc32 a (c ∷ b) =
    crc32_combine_pos (crc32 a) (crc32 (c ∷ b)) (length (c ∷ b)) (ground arith)
    ∙ sym (crc32-append a (c ∷ b))
