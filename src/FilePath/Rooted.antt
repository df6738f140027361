-- ===== src/FilePath/Rooted.antt =====
-- filepath.Clean of a rooted path leaves no ".." in it.
use loon_agent.Prelude.{
  ℕ, ◌≡◌, refl, sym, ap, ◌∙◌, inl, inr, Bool, true, false, ◌&&◌, not, List, [], ◌∷◌, ◌++◌, arith,
  Bytes, equal, equal_iff, contains, all, all-append, Bool-cases,
}
use mathlib.Core.List.{reverse, reverse-append}
use loon_agent.FilePath.{
  is_slash, split_slash, dot_dot, clean_part, clean_parts, join_slash, starts_rooted, clean,
}
use loon_agent.FilePath.Shorter.{split_slash-cons}

abbrev has_no_slash : Bytes → Bool
has_no_slash = all (λ c. not (is_slash c))

abbrev is_element : Bytes → Bool
is_element part = has_no_slash part && not (equal part dot_dot)

split_slash-cons_slash :
    (c : ℕ) (s : Bytes) → is_slash c ≡ true → split_slash (c ∷ s) ≡ [] ∷ split_slash s
split_slash-cons_slash c s h =
    let (p, ps, e) = split_slash-cons s in rw (e, split_slash) (rw h refl)

split_slash-cons_other :
    (c : ℕ) (s p : Bytes) (ps : List Bytes)
    → is_slash c ≡ false
    → split_slash s ≡ p ∷ ps
    → split_slash (c ∷ s) ≡ (c ∷ p) ∷ ps
split_slash-cons_other c s p ps h e = rw (e, split_slash) (rw h refl)

with_head :
    (c : ℕ) (p : Bytes) (ps : List Bytes)
    → is_slash c ≡ false
    → all has_no_slash (p ∷ ps) ≡ true
    → all has_no_slash ((c ∷ p) ∷ ps) ≡ true
with_head c p ps h k = ground arith

split_slash-has_no_slash : (s : Bytes) → all has_no_slash (split_slash s) ≡ true
split_slash-has_no_slash [] = refl
split_slash-has_no_slash (c ∷ s) = elim (Bool-cases (is_slash c)) [
  | inl slash ↦
      ap (all has_no_slash) (split_slash-cons_slash c s slash) ∙ split_slash-has_no_slash s
  | inr other ↦
      let (p, ps, e) = split_slash-cons s in
      ap (all has_no_slash) (split_slash-cons_other c s p ps other e)
      ∙ with_head c p ps other (ap (all has_no_slash) (sym e) ∙ split_slash-has_no_slash s)
]

clean_part-is_element :
    (out : List Bytes) (part : Bytes)
    → has_no_slash part ≡ true
    → all is_element out ≡ true
    → all is_element (clean_part true out part) ≡ true
clean_part-is_element [] part h k = ground arith
clean_part-is_element (top ∷ rest) part h k = ground arith

clean_parts-is_element :
    (out ps : List Bytes)
    → all has_no_slash ps ≡ true
    → all is_element out ≡ true
    → all is_element (clean_parts true out ps) ≡ true
clean_parts-is_element out [] h k = k
clean_parts-is_element out (p ∷ ps) h k =
    clean_parts-is_element (clean_part true out p) ps (ground arith)
      (clean_part-is_element out p (ground arith) k)

all-reverse : (p : Bytes → Bool) (xs : List Bytes) → all p xs ≡ true → all p (reverse xs) ≡ true
all-reverse p [] h = refl
all-reverse p (x ∷ xs) h =
    ap (all p) (reverse-append (x ∷ []) xs)
    ∙ (all-append p (reverse xs) (x ∷ []) ∙ ground (arith, all-reverse p xs))

split_slash-append :
    (p s : Bytes) → has_no_slash p ≡ true → split_slash (p ++ (b'/' ∷ s)) ≡ p ∷ split_slash s
split_slash-append [] s h = split_slash-cons_slash b'/' s refl
split_slash-append (c ∷ p) s h =
    split_slash-cons_other c (p ++ (b'/' ∷ s)) p (split_slash s) (ground arith)
      (split_slash-append p s (ground arith))

split_slash-one : (p : Bytes) → has_no_slash p ≡ true → split_slash p ≡ p ∷ []
split_slash-one [] h = refl
split_slash-one (c ∷ p) h =
    split_slash-cons_other c p p [] (ground arith) (split_slash-one p (ground arith))

no_dot_dot : (ps : List Bytes) → all is_element ps ≡ true → contains ps dot_dot ≡ false
no_dot_dot [] h = refl
no_dot_dot (p ∷ ps) h = ground (arith, no_dot_dot ps, equal_iff dot_dot p, equal_iff p dot_dot)

split_slash-join_slash :
    (p : Bytes) (ps : List Bytes)
    → all is_element (p ∷ ps) ≡ true
    → split_slash (join_slash (p ∷ ps)) ≡ p ∷ ps
split_slash-join_slash p [] h = split_slash-one p (ground arith)
split_slash-join_slash p (q ∷ qs) h =
    split_slash-append p (join_slash (q ∷ qs)) (ground arith)
    ∙ ap (λ rest. p ∷ rest) (split_slash-join_slash q qs (ground arith))

joined-no_dot_dot :
    (ps : List Bytes)
    → all is_element ps ≡ true
    → contains (split_slash (join_slash ps)) dot_dot ≡ false
joined-no_dot_dot [] h = refl
joined-no_dot_dot (p ∷ ps) h =
    ap (λ x. contains x dot_dot) (split_slash-join_slash p ps h) ∙ no_dot_dot (p ∷ ps) h

-- The cleaned form of a rooted path has no element "..".
pub clean-no_dot_dot :
    (p : Bytes) → starts_rooted p ≡ true → contains (split_slash (clean p)) dot_dot ≡ false
unfolding clean
clean-no_dot_dot p h =
    let parts = reverse (clean_parts true [] (split_slash p)) in
    rw h (
      ap (λ x. contains x dot_dot) (split_slash-cons_slash b'/' (join_slash parts) refl)
      ∙ joined-no_dot_dot parts (
          all-reverse is_element (clean_parts true [] (split_slash p))
            (clean_parts-is_element [] (split_slash p) (split_slash-has_no_slash p) refl)))
