-- ===== src/Bits/Linear.antt =====
-- Words under exclusive or are a vector space over the bits.
use loon_agent.Prelude.{ℕ, zero, suc, ◌≡◌, refl, sym, ap, ◌∙◌, Bool, true, false}
use mathlib.Core.Bool.{xor}
use loon_agent.Bits.{Bits, zeros, xor_bits, widen, shl_with}

xor_assoc : (a b c : Bool) → xor (xor a b) c ≡ xor a (xor b c)
unfolding xor
xor_assoc true true true = refl
xor_assoc true true false = refl
xor_assoc true false true = refl
xor_assoc true false false = refl
xor_assoc false true true = refl
xor_assoc false true false = refl
xor_assoc false false true = refl
xor_assoc false false false = refl

xor_comm : (a b : Bool) → xor a b ≡ xor b a
unfolding xor
xor_comm true true = refl
xor_comm true false = refl
xor_comm false true = refl
xor_comm false false = refl

xor_self : (a : Bool) → xor a a ≡ false
unfolding xor
xor_self true = refl
xor_self false = refl

xor-false : (a : Bool) → xor a false ≡ a
unfolding xor
xor-false true = refl
xor-false false = refl

pub xor_bits_assoc :
    (n : ℕ) (u v w : Bits n) → xor_bits n (xor_bits n u v) w ≡ xor_bits n u (xor_bits n v w)
xor_bits_assoc zero _ _ _ = refl
xor_bits_assoc (suc n) (a, u) (b, v) (c, w) =
    ap (λ x. (x, xor_bits n (xor_bits n u v) w)) (xor_assoc a b c)
    ∙ ap (λ x. (xor a (xor b c), x)) (xor_bits_assoc n u v w)

pub xor_bits_comm : (n : ℕ) (u v : Bits n) → xor_bits n u v ≡ xor_bits n v u
xor_bits_comm zero _ _ = refl
xor_bits_comm (suc n) (a, u) (b, v) =
    ap (λ x. (x, xor_bits n u v)) (xor_comm a b) ∙ ap (λ x. (xor b a, x)) (xor_bits_comm n u v)

pub xor_bits_self : (n : ℕ) (u : Bits n) → xor_bits n u u ≡ zeros n
xor_bits_self zero _ = refl
xor_bits_self (suc n) (a, u) =
    ap (λ x. (x, xor_bits n u u)) (xor_self a) ∙ ap (λ x. (false, x)) (xor_bits_self n u)

pub xor_bits-zeros : (n : ℕ) (u : Bits n) → xor_bits n u (zeros n) ≡ u
xor_bits-zeros zero tt = refl
xor_bits-zeros (suc n) (a, u) =
    ap (λ x. (x, xor_bits n u (zeros n))) (xor-false a) ∙ ap (λ x. (a, x)) (xor_bits-zeros n u)

pub zeros-xor_bits : (n : ℕ) (u : Bits n) → xor_bits n (zeros n) u ≡ u
zeros-xor_bits n u = xor_bits_comm n (zeros n) u ∙ xor_bits-zeros n u

-- Taking a summand off again.
pub xor_bits-cancel : (n : ℕ) (u v : Bits n) → xor_bits n u (xor_bits n u v) ≡ v
xor_bits-cancel n u v =
    sym (xor_bits_assoc n u u v)
    ∙ (ap (λ x. xor_bits n x v) (xor_bits_self n u) ∙ zeros-xor_bits n v)

-- Four summands in another order.
pub xor_bits-swap :
    (n : ℕ) (a b c d : Bits n)
    → xor_bits n (xor_bits n a b) (xor_bits n c d) ≡ xor_bits n (xor_bits n a c) (xor_bits n b d)
xor_bits-swap n a b c d =
    xor_bits_assoc n a b (xor_bits n c d)
    ∙ (ap (xor_bits n a) (
          sym (xor_bits_assoc n b c d)
          ∙ (ap (λ x. xor_bits n x d) (xor_bits_comm n b c) ∙ xor_bits_assoc n c b d))
        ∙ sym (xor_bits_assoc n a c (xor_bits n b d)))

pub widen-xor_bits :
    (n : ℕ) (u v : Bits n) → widen n (xor_bits n u v) ≡ xor_bits (suc n) (widen n u) (widen n v)
widen-xor_bits zero _ _ = ap (λ x. (x, tt)) (sym (xor_self false))
widen-xor_bits (suc n) (a, u) (b, v) = ap (λ x. (xor a b, x)) (widen-xor_bits n u v)

pub shl_with-zeros : (n : ℕ) → shl_with n false (zeros n) ≡ zeros n
shl_with-zeros zero = refl
shl_with-zeros (suc n) = ap (λ x. (false, x)) (shl_with-zeros n)

-- A map of words that keeps sums and zero.
abbrev pub IsLinear : (n m : ℕ) → (Bits n → Bits m) → Type 0
IsLinear n m f =
    ((u v : Bits n) → f (xor_bits n u v) ≡ xor_bits m (f u) (f v)) × (f (zeros n) ≡ zeros m)
