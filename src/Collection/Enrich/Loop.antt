-- ===== src/Collection/Enrich/Loop.antt =====
-- services/collection_scanner.go: the loop of enrich over the batches.
use loon_agent.Prelude.{
  ℕ, zero, suc, ◌+◌, ◌-◌, ◌*◌, ◌/◌, ◌≤◌, ◌<◌, ◌≡◌, refl, sym, ap, ◌∙◌, inl, inr, Bool, true, false,
  List, [], ◌∷◌, ◌++◌, ◌&&◌, map, length, leb, ltb, take, drop, take-drop, length-take_le,
  length-drop, arith, Bytes, Bool-cases,
}
use loon_agent.Collection.{CollectionItem}
use loon_agent.Collection.Enrich.{
  TitleMatchResult, Site, Enriched, merge_results, merge_batch, titles_of, enrich_from, enrich,
}
use loon_agent.Collection.Enrich.Rows.{
  site_of, merge-answers, enriched_at, failures, enriched_at-append, enriched_at-drop,
  enriched_at-stopped, enriched_at-failed, enriched_at-answered,
}

-- How many batches there are for so many rows.
unfoldable pub batches : ℕ → ℕ
batches n = (n + 199) / 200

batches-suc : (n : ℕ) → 0 < n → batches n ≡ suc (batches (n - 200))
unfolding batches
batches-suc n h = omega arith

batches-zero : (n : ℕ) → n ≡ 0 → batches n ≡ 0
unfolding batches
batches-zero n h = omega arith

no_cut : (stop n : ℕ) → (ltb stop (0 + batches n) && ltb 0 n) ≡ ltb stop (batches n)
no_cut stop n = elim (Bool-cases (ltb 0 n)) [
  | inl some_rows ↦ ground arith
  | inr nothing_left ↦ (let z = batches-zero n (ground arith) in ground arith)
]

module _ (answer : Bytes → TitleMatchResult) (fails : ℕ → Bool) (stop : ℕ) where
  more_batches :
      (k n d : ℕ)
      → leb stop k ≡ false
      → 0 < n
      → d ≡ n - 200
      → (ltb stop (k + batches n) && ltb 0 n) ≡ (ltb stop (suc k + batches d) && ltb 0 d)
  more_batches k n d h some_rows e =
      let b : batches n ≡ suc (batches d) =
        batches-suc n some_rows ∙ ap (λ m. suc (batches m)) (sym e) in
      elim (Bool-cases (ltb 0 d)) [
        | inl left ↦ ground arith
        | inr nothing_left ↦ (let z = batches-zero d (ground arith) in ground arith)
      ]

  -- What the loop has to give for the rows from batch `k` on.
  record Merges (k : ℕ) (items : List CollectionItem) (e : Enriched) : Type 0 where
    rows : e.items ≡ enriched_at answer fails stop (k * 200) items
    errors : e.batch_errors ≡ failures answer fails stop k (batches (length items))
    cut : e.interrupted ≡ (ltb stop (k + batches (length items)) && ltb 0 (length items))

  site : Site
  site = site_of answer fails

  Merges-nothing :
      (k : ℕ) → Merges k [] (record { items = []; batch_errors = 0; interrupted = false })
  unfolding enriched_at failures batches
  Merges-nothing k = record { rows = refl; errors = refl; cut = ground arith }

  Merges-stopped :
      (k : ℕ) (it : CollectionItem) (items : List CollectionItem)
      → leb stop k ≡ true
      → Merges k (it ∷ items) (record { items = it ∷ items; batch_errors = 0; interrupted = true })
  unfolding failures
  Merges-stopped k it items h =
      let b : batches (length (it ∷ items)) ≡ suc (batches (length (it ∷ items) - 200)) =
        batches-suc (length (it ∷ items)) (omega arith) in
      record {
        rows = sym (enriched_at-stopped answer fails stop (k * 200) (it ∷ items) (ground arith));
        errors = rw (b, h) refl;
        cut = ground (arith, b);
      }

  Merges-batch :
      (k : ℕ) (xs : List CollectionItem) (rest : Enriched)
      → leb stop k ≡ false
      → 0 < length xs
      → Merges (suc k) (drop 200 xs) rest
      → Merges k xs (merge_batch (take 200 xs) (site k (titles_of (take 200 xs))) rest)
  unfolding failures site
  Merges-batch k xs rest h some_rows m =
      let b : batches (length xs) ≡ suc (batches (length xs - 200)) =
        batches-suc (length xs) some_rows in
      let d : length (drop 200 xs) ≡ length xs - 200 = length-drop 200 xs in
      let l : length (take 200 xs) ≤ 200 = length-take_le 200 xs in
      let parts : enriched_at answer fails stop (k * 200) xs
          ≡ enriched_at answer fails stop (k * 200) (take 200 xs)
            ++ enriched_at answer fails stop (suc k * 200) (drop 200 xs) =
        ap (enriched_at answer fails stop (k * 200)) (sym (take-drop 200 xs))
        ∙ (enriched_at-append answer fails stop (k * 200) (take 200 xs) (drop 200 xs)
            ∙ ap (λ r. enriched_at answer fails stop (k * 200) (take 200 xs) ++ r)
                (enriched_at-drop answer fails stop (k * 200) 200 xs
                  ∙ ap (λ n. enriched_at answer fails stop n (drop 200 xs)) (omega arith))) in
      let more = more_batches k (length xs) (length (drop 200 xs)) h some_rows d in
      elim (Bool-cases (fails k)) [
        | inl down ↦ rw down (record {
          rows = sym (
              parts
              ∙ ap (λ r. r ++ enriched_at answer fails stop (suc k * 200) (drop 200 xs))
                  (enriched_at-failed answer fails stop k 0 (k * 200) (take 200 xs) down
                    (omega arith) (omega arith))
              ∙ ap (λ r. take 200 xs ++ r) (sym m.rows));
          errors =
              rw (b, h, down)
                (ap suc (m.errors ∙ ap (λ n. failures answer fails stop (suc k) (batches n)) d));
          cut = m.cut ∙ sym more;
        })
        | inr up ↦ rw up (record {
          rows = sym (
              parts
              ∙ ap (λ r. r ++ enriched_at answer fails stop (suc k * 200) (drop 200 xs))
                  (enriched_at-answered answer fails stop k 0 (k * 200) (take 200 xs) h up
                      (omega arith) (omega arith)
                    ∙ sym (merge-answers answer (take 200 xs)))
              ∙ ap (λ r. merge_results (take 200 xs) (map answer (titles_of (take 200 xs))) ++ r)
                  (sym m.rows));
          errors =
              rw (b, h, up) (m.errors ∙ ap (λ n. failures answer fails stop (suc k) (batches n)) d);
          cut = m.cut ∙ sym more;
        })
      ]

  enrich_from-Merges :
      (fuel k : ℕ) (items : List CollectionItem)
      → length items ≤ fuel
      → Merges k items (enrich_from site (leb stop) fuel k items)
  unfolding enrich_from
  enrich_from-Merges zero k [] h = Merges-nothing k
  enrich_from-Merges zero k (it ∷ items) h = absurd (omega arith)
  enrich_from-Merges (suc fuel) k [] h = Merges-nothing k
  enrich_from-Merges (suc fuel) k (it ∷ items) h = elim (Bool-cases (leb stop k)) [
    | inl over ↦ rw over (Merges-stopped k it items over)
    | inr live ↦ rw live (
        Merges-batch k (it ∷ items)
          (enrich_from site (leb stop) fuel (suc k) (drop 200 (it ∷ items))) live (omega arith)
          (enrich_from-Merges fuel (suc k) (drop 200 (it ∷ items))
            (omega (arith, length-drop 200 (it ∷ items)))))
  ]

-- With a site that answers each title by itself and fails for the batches that `fails` names, and a
-- context that is done from batch `stop` on, enrich gives the row at position n the answer for its
-- file name, unless batch n / 200 fails or comes after the stop; that row is then unchanged. It counts
-- the batches before the stop that fail, and is interrupted if there is a batch at the stop.
pub enrich_lem :
    (answer : Bytes → TitleMatchResult) (fails : ℕ → Bool) (stop : ℕ) (items : List CollectionItem)
    → ((enrich (site_of answer fails) (leb stop) items).items
        ≡ enriched_at answer fails stop 0 items)
      × (((enrich (site_of answer fails) (leb stop) items).batch_errors
            ≡ failures answer fails stop 0 (batches (length items)))
          × ((enrich (site_of answer fails) (leb stop) items).interrupted
              ≡ ltb stop (batches (length items))))
unfolding enrich site
enrich_lem answer fails stop items =
    let m = enrich_from-Merges answer fails stop (length items) 0 items (omega arith) in
    (m.rows, (m.errors, m.cut ∙ no_cut stop (length items)))
