-- ===== src/FilePath/Shorter.antt =====
-- filepath.Dir shortens a path, so that a loop that climbs by it ends.
use loon_agent.Prelude.{
  ℕ, suc, ◌+◌, ◌-◌, ◌≤◌, ◌<◌, ◌≡◌, refl, ap, ◌∙◌, ◌⊎◌, inl, inr, Bool, true, false, List, [], ◌∷◌,
  arith, Bytes, codes, equal, equal_iff, length, length-append, sum_by, sum_by-append, any,
  Bool-cases,
}
use mathlib.Core.List.{reverse, reverse-append}
use loon_agent.FilePath.{
  is_slash, split_slash, dot_dot, clean_part, clean_parts, join_slash, clean, up_to_last_slash, dir,
}

-- The bytes of the parts, each with a slash behind it.
abbrev weight : List Bytes → ℕ
weight = sum_by (λ part. suc (length part))

-- The same without the empty parts.
abbrev cost : List Bytes → ℕ
cost [] = 0
cost ([] ∷ ps) = cost ps
cost ((c ∷ s) ∷ ps) = suc (length (c ∷ s)) + cost ps

abbrev cost_of : Bytes → ℕ
cost_of [] = 0
cost_of (c ∷ s) = suc (length (c ∷ s))

clean_part-weight :
    (rooted : Bool) (out : List Bytes) (part : Bytes)
    → weight (clean_part rooted out part) ≤ weight out + cost_of part
clean_part-weight rooted [] [] = omega arith
clean_part-weight rooted (o ∷ os) [] = omega arith
clean_part-weight rooted [] (c ∷ s) = ground (arith, equal_iff (c ∷ s) dot_dot)
clean_part-weight rooted (o ∷ os) (c ∷ s) = ground (arith, equal_iff (c ∷ s) dot_dot)

clean_parts-weight :
    (rooted : Bool) (out ps : List Bytes)
    → weight (clean_parts rooted out ps) ≤ weight out + cost ps
clean_parts-weight rooted out [] = omega arith
clean_parts-weight rooted out ([] ∷ ps) = omega (
  arith,
  clean_part-weight rooted out [],
  clean_parts-weight rooted (clean_part rooted out []) ps,
)
clean_parts-weight rooted out ((c ∷ s) ∷ ps) = omega (
  arith,
  clean_part-weight rooted out (c ∷ s),
  clean_parts-weight rooted (clean_part rooted out (c ∷ s)) ps,
)

length-join_slash :
    (p : Bytes) (ps : List Bytes) → suc (length (join_slash (p ∷ ps))) ≡ weight (p ∷ ps)
length-join_slash p [] = omega arith
length-join_slash p (q ∷ qs) =
    omega (arith, length-append p (b'/' ∷ join_slash (q ∷ qs)), length-join_slash q qs)

length-join_slash_le : (ps : List Bytes) → length (join_slash ps) ≤ weight ps - 1
length-join_slash_le [] = omega arith
length-join_slash_le (p ∷ ps) = omega (arith, length-join_slash p ps)

weight-reverse : (ps : List Bytes) → weight (reverse ps) ≡ weight ps
weight-reverse [] = refl
weight-reverse (p ∷ ps) =
    ap weight (reverse-append (p ∷ []) ps)
    ∙ omega
        (arith, sum_by-append (λ part. suc (length part)) (reverse ps) (p ∷ []), weight-reverse ps)

abbrev ends_slash : Bytes → Bool
ends_slash [] = false
ends_slash (c ∷ []) = is_slash c
ends_slash (_ ∷ d ∷ s) = ends_slash (d ∷ s)

weight-split_slash : (p : Bytes) → weight (split_slash p) ≡ suc (length p)
weight-split_slash [] = refl
weight-split_slash (c ∷ s) = ground (arith, weight-split_slash s)

cost-le-weight : (ps : List Bytes) → cost ps ≤ weight ps
cost-le-weight [] = omega arith
cost-le-weight ([] ∷ ps) = omega (arith, cost-le-weight ps)
cost-le-weight ((c ∷ s) ∷ ps) = omega (arith, cost-le-weight ps)

pub split_slash-cons : (s : Bytes) → (p : Bytes) × (ps : List Bytes) × (split_slash s ≡ p ∷ ps)
split_slash-cons [] = ([], [], refl)
split_slash-cons (c ∷ s) =
    let (p, ps, e) = split_slash-cons s in
    elim (Bool-cases (is_slash c)) [
      | inl slash ↦ ([], p ∷ ps, rw (e, split_slash) (rw slash refl))
      | inr other ↦ (c ∷ p, ps, rw (e, split_slash) (rw other refl))
    ]

cost-split_slash_root :
    (c : ℕ) (s : Bytes) → is_slash c ≡ true → cost (split_slash (c ∷ s)) ≡ cost (split_slash s)
cost-split_slash_root c s h = let (p, ps, e) = split_slash-cons s in rw (e, split_slash) (rw h refl)

abbrev parts_after : List Bytes → List Bytes
parts_after [] = []
parts_after (_ ∷ ps) = ps

parts_after-step :
    (c : ℕ) (s p : Bytes) (ps : List Bytes)
    → split_slash s ≡ p ∷ ps
    → suc (cost ps) ≤ weight ps
    → suc (cost (parts_after (split_slash (c ∷ s)))) ≤ weight (parts_after (split_slash (c ∷ s)))
parts_after-step c s [] ps e h = rw (e, split_slash) (ground arith)
parts_after-step c s (b ∷ bs) ps e h = rw (e, split_slash) (ground arith)

-- A path that ends in a slash has an empty last part.
ends_slash-parts_after :
    (p : Bytes)
    → ends_slash p ≡ true
    → suc (cost (parts_after (split_slash p))) ≤ weight (parts_after (split_slash p))
ends_slash-parts_after [] h = cc
ends_slash-parts_after (c ∷ []) h = ground arith
ends_slash-parts_after (c ∷ d ∷ s) h =
    let (p, ps, e) = split_slash-cons (d ∷ s) in
    parts_after-step c (d ∷ s) p ps e (rw e at (ends_slash-parts_after (d ∷ s) h))

with_first :
    (q : Bytes) (qs : List Bytes)
    → suc (cost qs) ≤ weight qs
    → suc (cost (q ∷ qs)) ≤ weight (q ∷ qs)
with_first [] qs h = omega arith
with_first (c ∷ s) qs h = omega arith

cost-split_slash_ends :
    (p : Bytes) → ends_slash p ≡ true → suc (cost (split_slash p)) ≤ weight (split_slash p)
cost-split_slash_ends p h =
    let (q, qs, e) = split_slash-cons p in
    rw e (with_first q qs (rw e at (ends_slash-parts_after p h)))

abbrev clean_body : Bool → Bytes → Bytes
clean_body rooted p = join_slash (reverse (clean_parts rooted [] (split_slash p)))

length-clean_body :
    (rooted : Bool) (p : Bytes) → length (clean_body rooted p) ≤ cost (split_slash p) - 1
length-clean_body rooted p =
    let out = clean_parts rooted [] (split_slash p) in
    omega (
      arith,
      length-join_slash_le (reverse out),
      weight-reverse out,
      clean_parts-weight rooted [] (split_slash p),
    )

clean_rooted :
    (c : ℕ) (s : Bytes) → is_slash c ≡ true → clean (c ∷ s) ≡ b'/' ∷ clean_body true (c ∷ s)
unfolding clean
clean_rooted c s h = rw h refl

clean_relative :
    (c : ℕ) (s : Bytes)
    → is_slash c ≡ false
    → (clean (c ∷ s) ≡ codes ".") ⊎ (clean (c ∷ s) ≡ clean_body false (c ∷ s))
unfolding clean
clean_relative c s h = elim (Bool-cases (equal (clean_body false (c ∷ s)) [])) [
  | inl empty ↦ inl (rw h (rw empty refl))
  | inr kept ↦ inr (rw h (rw kept refl))
]

length-clean_rooted :
    (c d : ℕ) (s : Bytes)
    → is_slash c ≡ true
    → ends_slash (d ∷ s) ≡ true
    → length (clean (c ∷ d ∷ s)) < length (c ∷ d ∷ s)
length-clean_rooted c d s root ends = omega (
  arith,
  ap length (clean_rooted c (d ∷ s) root),
  length-clean_body true (c ∷ d ∷ s),
  cost-split_slash_root c (d ∷ s) root,
  cost-split_slash_ends (d ∷ s) ends,
  weight-split_slash (d ∷ s),
)

length-clean_relative :
    (c : ℕ) (s : Bytes)
    → ends_slash (c ∷ s) ≡ true
    → length (clean_body false (c ∷ s)) < length (c ∷ s)
length-clean_relative c s ends = omega (
  arith,
  length-clean_body false (c ∷ s),
  cost-split_slash_ends (c ∷ s) ends,
  weight-split_slash (c ∷ s),
)

-- Clean shortens a path of two bytes or more that ends in a slash, or makes it ".".
clean_shorter :
    (c d : ℕ) (s : Bytes)
    → ends_slash (d ∷ s) ≡ true
    → (length (clean (c ∷ d ∷ s)) < length (c ∷ d ∷ s)) ⊎ (clean (c ∷ d ∷ s) ≡ codes ".")
clean_shorter c d s ends = elim (Bool-cases (is_slash c)) [
  | inl root ↦ inl (length-clean_rooted c d s root ends)
  | inr relative ↦ elim (clean_relative c (d ∷ s) relative) [
    | inl dot ↦ inr dot
    | inr body ↦ inl (rw body (length-clean_relative c (d ∷ s) ends))
  ]
]

is_slash_eq : (c : ℕ) → is_slash c ≡ true → c ≡ b'/'
is_slash_eq c h = ground arith

ends_slash-cons : (c : ℕ) (s : Bytes) → ends_slash s ≡ true → ends_slash (c ∷ s) ≡ true
ends_slash-cons c [] h = cc
ends_slash-cons c (d ∷ s) h = h

up_to_last_slash-none : (p : Bytes) → any is_slash p ≡ false → up_to_last_slash p ≡ []
up_to_last_slash-none [] h = refl
up_to_last_slash-none (c ∷ s) h = rw h refl

up_to_last_slash-some :
    (p : Bytes)
    → any is_slash p ≡ true
    → (ends_slash (up_to_last_slash p) ≡ true) × (length (up_to_last_slash p) ≤ length p)
up_to_last_slash-some [] h = cc
up_to_last_slash-some (c ∷ s) h = elim (Bool-cases (any is_slash s)) [
  | inl later ↦
      let (e, l) = up_to_last_slash-some s later in
      rw h (ends_slash-cons c (up_to_last_slash s) e, omega arith)
  | inr last ↦ rw h (rw (up_to_last_slash-none s last) (ground arith, omega arith))
]

clean-head :
    (h : Bytes)
    → ends_slash h ≡ true
    → (length (clean h) < length h) ⊎ ((clean h ≡ codes ".") ⊎ (h ≡ codes "/"))
clean-head [] ends = cc
clean-head (c ∷ []) ends = inr (inr (ap (λ x. x ∷ []) (is_slash_eq c ends)))
clean-head (c ∷ d ∷ s) ends = elim (clean_shorter c d s ends) [
  | inl less ↦ inl less
  | inr dot ↦ inr (inl dot)
]

dir-root : (p : Bytes) → up_to_last_slash p ≡ codes "/" → dir p ≡ codes "/"
unfolding dir clean
dir-root p e = rw e refl

dir-flat : (p : Bytes) → up_to_last_slash p ≡ [] → dir p ≡ codes "."
unfolding dir clean
dir-flat p e = rw e refl

dir_eq : (p : Bytes) → dir p ≡ clean (up_to_last_slash p)
unfolding dir
dir_eq p = refl

-- The directory of a path is shorter, or ".", or "/".
pub dir-shorter :
    (p : Bytes) → (length (dir p) < length p) ⊎ ((dir p ≡ codes ".") ⊎ (dir p ≡ codes "/"))
dir-shorter p = elim (Bool-cases (any is_slash p)) [
  | inl slash ↦
      let (ends, le) = up_to_last_slash-some p slash in
      (elim (clean-head (up_to_last_slash p) ends) [
        | inl less ↦ inl (omega (arith, ap length (dir_eq p)))
        | inr (inl dot) ↦ inr (inl (dir_eq p ∙ dot))
        | inr (inr root) ↦ inr (inr (dir-root p root))
      ])
  | inr flat ↦ inr (inl (dir-flat p (up_to_last_slash-none p flat)))
]
