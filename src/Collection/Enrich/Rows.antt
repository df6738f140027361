-- ===== src/Collection/Enrich/Rows.antt =====
-- services/collection_scanner.go: what enrich is to make of the rows, each for itself.
use loon_agent.Prelude.{
  ℕ, zero, suc, ◌+◌, ◌*◌, ◌/◌, ◌≤◌, ◌<◌, ◌≡◌, refl, ap, ◌∙◌, inl, inr, Bool, true, false, none,
  some, List, [], ◌∷◌, ◌++◌, ◌||◌, map, length, leb, take, drop, take-full, if◌then◌else◌, arith,
  Bytes,
}
use loon_agent.Collection.{CollectionItem}
use loon_agent.Collection.Enrich.{TitleMatchResult, Site, merge_result, merge_results, titles_of}

pub merge-answers :
    (answer : Bytes → TitleMatchResult) (batch : List CollectionItem)
    → merge_results batch (map answer (titles_of batch))
      ≡ map (λ it. merge_result it (answer it.filename)) batch
unfolding merge_results
merge-answers answer [] = refl
merge-answers answer (it ∷ batch) =
    ap (λ rest. merge_result it (answer it.filename) ∷ rest) (merge-answers answer batch)

-- A site that answers each title by itself, and fails for some batches.
abbrev pub site_of : (Bytes → TitleMatchResult) → (ℕ → Bool) → Site
site_of answer fails k titles = if fails k then none else some (map answer titles)

module _ (answer : Bytes → TitleMatchResult) (fails : ℕ → Bool) (stop : ℕ) where
  abbrev row_at : ℕ → CollectionItem → CollectionItem
  row_at n it =
      if leb stop (n / 200) || fails (n / 200) then it else merge_result it (answer it.filename)

  -- The rows from position `n` on, each for itself.
  unfoldable pub enriched_at : ℕ → List CollectionItem → List CollectionItem
  enriched_at n [] = []
  enriched_at n (it ∷ items) = row_at n it ∷ enriched_at (suc n) items

  -- The failures of `n` batches from batch `k` on, before the stop.
  unfoldable pub failures : ℕ → ℕ → ℕ
  failures k zero = 0
  failures k (suc n) =
      let rest = failures (suc k) n in
      if leb stop k then 0 else (if fails k then suc rest else rest)

  pub enriched_at-append :
      (n : ℕ) (xs ys : List CollectionItem)
      → enriched_at n (xs ++ ys) ≡ enriched_at n xs ++ enriched_at (n + length xs) ys
  unfolding enriched_at
  enriched_at-append n [] ys = ap (λ k. enriched_at k ys) (omega arith)
  enriched_at-append n (it ∷ xs) ys =
      ap (λ rest. row_at n it ∷ rest)
        (enriched_at-append (suc n) xs ys
          ∙ ap (λ k. enriched_at (suc n) xs ++ enriched_at k ys) (omega arith))

  pub enriched_at-drop :
      (n m : ℕ) (xs : List CollectionItem)
      → enriched_at (n + length (take m xs)) (drop m xs) ≡ enriched_at (n + m) (drop m xs)
  unfolding enriched_at
  enriched_at-drop n m xs = elim (take-full m xs) [
    | inl nothing_left ↦ rw nothing_left refl
    | inr full ↦ rw full refl
  ]

  pub enriched_at-stopped :
      (n : ℕ) (items : List CollectionItem) → stop ≤ n / 200 → enriched_at n items ≡ items
  unfolding enriched_at
  enriched_at-stopped n [] h = refl
  enriched_at-stopped n (it ∷ items) h =
      let over : leb stop (n / 200) ≡ true = ground arith in
      rw over (ap (λ rest. it ∷ rest) (enriched_at-stopped (suc n) items (omega arith)))

  row_at-batch :
      (k i n : ℕ) (it : CollectionItem)
      → n ≡ k * 200 + i
      → i < 200
      → row_at n it ≡ row_at (k * 200) it
  row_at-batch k i n it e h =
      let a : n / 200 ≡ k = omega arith in
      let b : (k * 200) / 200 ≡ k = omega arith in rw (a, b) refl

  pub enriched_at-failed :
      (k i n : ℕ) (batch : List CollectionItem)
      → fails k ≡ true
      → n ≡ k * 200 + i
      → i + length batch ≤ 200
      → enriched_at n batch ≡ batch
  unfolding enriched_at
  enriched_at-failed k i n [] f e h = refl
  enriched_at-failed k i n (it ∷ batch) f e h =
      let a : n / 200 ≡ k = omega arith in
      let off : leb stop k || fails k ≡ true = ground arith in
      rw (a, off)
        (ap (λ rest. it ∷ rest)
          (enriched_at-failed k (suc i) (suc n) batch f (omega arith) (omega arith)))

  pub enriched_at-answered :
      (k i n : ℕ) (batch : List CollectionItem)
      → leb stop k ≡ false
      → fails k ≡ false
      → n ≡ k * 200 + i
      → i + length batch ≤ 200
      → enriched_at n batch ≡ map (λ it. merge_result it (answer it.filename)) batch
  unfolding enriched_at
  enriched_at-answered k i n [] s f e h = refl
  enriched_at-answered k i n (it ∷ batch) s f e h =
      let a : n / 200 ≡ k = omega arith in
      let on : leb stop k || fails k ≡ false = ground arith in
      rw (a, on)
        (ap (λ rest. merge_result it (answer it.filename) ∷ rest)
          (enriched_at-answered k (suc i) (suc n) batch s f (omega arith) (omega arith)))
