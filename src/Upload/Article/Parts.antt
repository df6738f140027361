-- ===== src/Upload/Article/Parts.antt =====
-- services/upload_usenet.go: the parts of a file that have registered their CRC.
use loon_agent.Prelude.{
  ℕ, zero, suc, ◌+◌, ◌≤◌, ◌≡◌, refl, ap, ◌∙◌, inl, inr, Bool-cases, Bool, true, false, ◌&&◌, ◌||◌,
  not, Option, none, some, [], ◌∷◌, arith, length, ltb, leb, ◌==◌, ==_iff, if◌then◌else◌, Bytes,
}
use loon_agent.Upload.Article.{PartCrcInfo, Parts, find_info, put_info, info_of}

abbrev is_some {ℓ} : {A : Type ℓ} → Option A → Bool
is_some none = false
is_some (some _) = true

-- How many of the numbers 1 to `n` are in a set.
abbrev pub count : ℕ → (ℕ → Bool) → ℕ
count zero r = 0
count (suc n) r = count n r + (if r (suc n) then 1 else 0)

abbrev pub all_up_to : ℕ → (ℕ → Bool) → Bool
all_up_to zero r = true
all_up_to (suc n) r = all_up_to n r && r (suc n)

count_le : (n : ℕ) (r : ℕ → Bool) → count n r ≤ n
count_le zero r = omega arith
count_le (suc n) r = ground (arith, count_le n r)

pub count_full : (n : ℕ) (r : ℕ → Bool) → ltb (count n r) n ≡ not (all_up_to n r)
count_full zero r = refl
count_full (suc n) r = ground (arith, count_full n r, count_le n r)

pub all_up_to-member :
    (n : ℕ) (r : ℕ → Bool) (k : ℕ) → all_up_to n r ≡ true → (leb 1 k && leb k n) ≡ true → r k ≡ true
all_up_to-member zero r k h b = absurd (ground arith)
all_up_to-member (suc n) r k h b = elim (Bool-cases (k == suc n)) [
  | inl last ↦ ap r ((==_iff k (suc n)).0 last) ∙ ground arith
  | inr earlier ↦ all_up_to-member n r k (ground arith) (ground arith)
]

count_none : (n : ℕ) → 0 ≡ count n (λ k. false)
count_none zero = refl
count_none (suc n) = omega (arith, count_none n)

abbrev pub insert : ℕ → (ℕ → Bool) → ℕ → Bool
insert k r j = (k == j) || r j

count-insert :
    (n : ℕ) (r : ℕ → Bool) (k : ℕ)
    → count n (insert k r) ≡ count n r + (if r k then 0 else if leb 1 k && leb k n then 1 else 0)
count-insert zero r k = ground arith
count-insert (suc n) r k = elim (Bool-cases (k == suc n)) [
  | inl last ↦ let same = ap r ((==_iff k (suc n)).0 last) in ground (arith, count-insert n r k)
  | inr earlier ↦ ground (arith, count-insert n r k)
]

find_info-put_info :
    (parts : Parts) (k : ℕ) (new : PartCrcInfo) (j : ℕ)
    → find_info (put_info parts k new) j ≡ (if k == j then some new else find_info parts j)
unfolding find_info put_info
find_info-put_info [] k new j = refl
find_info-put_info ((i, info) ∷ parts) k new j =
    ground (arith, ==_iff k j, ==_iff i k, ==_iff i j, find_info-put_info parts k new j)

length-put_info :
    (parts : Parts) (k : ℕ) (new : PartCrcInfo)
    → length (put_info parts k new) ≡ length parts + (if is_some (find_info parts k) then 0 else 1)
unfolding find_info put_info
length-put_info [] k new = refl
length-put_info ((i, info) ∷ parts) k new = ground (arith, length-put_info parts k new)

-- The parts of the set `r` have registered, each with the CRC of its chunk.
abbrev pub Holds : ℕ → (ℕ → Bytes) → (ℕ → Bool) → Parts → Type 0
Holds n chunk r parts =
    (length parts ≡ count n r)
    × ((k : ℕ) → find_info parts k ≡ (if r k then some (info_of (chunk k)) else none))

pub empty-Holds : (n : ℕ) (chunk : ℕ → Bytes) → Holds n chunk (λ k. false) []
unfolding find_info
empty-Holds n chunk = (count_none n, λ k. refl)

is_some_if :
    (b : Bool) (info : PartCrcInfo) (o : Option PartCrcInfo)
    → o ≡ (if b then some info else none)
    → is_some o ≡ b
is_some_if true info o h = ap is_some h
is_some_if false info o h = ap is_some h

pub put_info-Holds :
    (n : ℕ) (chunk : ℕ → Bytes) (r : ℕ → Bool) (parts : Parts) (k : ℕ)
    → (leb 1 k && leb k n) ≡ true
    → Holds n chunk r parts
    → Holds n chunk (insert k r) (put_info parts k (info_of (chunk k)))
put_info-Holds n chunk r parts k range (len, infos) =
    let known = is_some_if (r k) (info_of (chunk k)) (find_info parts k) (infos k) in
    (
      ground (arith, length-put_info parts k (info_of (chunk k)), count-insert n r k),
      λ j. find_info-put_info parts k (info_of (chunk k)) j ∙ (elim (Bool-cases (k == j)) [
        | inl same ↦ rw same (ap (λ i. some (info_of (chunk i))) ((==_iff k j).0 same))
        | inr other ↦ rw other (infos j)
      ]),
    )
