-- ===== src/Collection/Enrich.antt =====
-- services/collection_scanner.go: the site's answers are merged into the rows, batch by batch.
pub mod Rows
pub mod Loop
use loon_agent.Prelude.{
  ℕ, zero, suc, ◌+◌, ◌-◌, ◌*◌, ◌/◌, ◌≤◌, ◌<◌, ◌≡◌, refl, sym, ap, ◌∙◌, inl, inr, Bool, true, false,
  Option, none, some, List, [], ◌∷◌, ◌++◌, ◌||◌, ◌&&◌, map, length, leb, ltb, take, drop, take-drop,
  length-take_le, length-drop, take-full, if◌then◌else◌, arith, Bytes, Bool-cases,
}
use loon_agent.Collection.{CollectionItem}

-- client.TitleMatchResult, the fields that are read here.
pub record TitleMatchResult : Type 0 where
  pub matched : Bool
  pub aid : ℕ
  pub anime_title : Bytes
  pub mal_id : ℕ
  pub anilist_id : ℕ
  pub format : Bytes
  pub cover_url : Bytes
  pub resolution_hint : Bytes
  pub source_hint : Bytes

abbrev pub collection_batch_size : ℕ
collection_batch_size = 200

-- What the site returns for the titles of a batch, which is counted from 0; `none` is an error.
abbrev pub Site : Type 0
Site = ℕ → List Bytes → Option (List TitleMatchResult)

abbrev pub merge_result : CollectionItem → TitleMatchResult → CollectionItem
merge_result it r = record it {
  matched = r.matched;
  aid = r.aid;
  anime_title = r.anime_title;
  mal_id = r.mal_id;
  anilist_id = r.anilist_id;
  format = r.format;
  cover_url = r.cover_url;
  resolution_hint = r.resolution_hint;
  source_hint = r.source_hint;
}

-- By position; rows without a result stay as they are.
unfoldable pub merge_results : List CollectionItem → List TitleMatchResult → List CollectionItem
merge_results [] rs = []
merge_results (it ∷ batch) [] = it ∷ batch
merge_results (it ∷ batch) (r ∷ rs) = merge_result it r ∷ merge_results batch rs

pub record Enriched : Type 0 where
  pub items : List CollectionItem
  pub batch_errors : ℕ
  pub interrupted : Bool

abbrev pub titles_of : List CollectionItem → List Bytes
titles_of = map (λ it. it.filename)

abbrev pub merge_batch : List CollectionItem → Option (List TitleMatchResult) → Enriched → Enriched
merge_batch batch none rest = record rest {
  items = batch ++ rest.items;
  batch_errors = suc rest.batch_errors;
}
merge_batch batch (some results) rest = record rest {
  items = merge_results batch results ++ rest.items;
}

-- `done` tells before which batches the context is done; `fuel` batches are left, and as many as
-- there are rows are enough.
unfoldable pub enrich_from : Site → (ℕ → Bool) → ℕ → ℕ → List CollectionItem → Enriched
unfolding merge_results
enrich_from site done zero k items = record { items = items; batch_errors = 0; interrupted = false }
enrich_from site done (suc fuel) k [] = record { items = []; batch_errors = 0; interrupted = false }
enrich_from site done (suc fuel) k (it ∷ items) =
    let batch = take collection_batch_size (it ∷ items) in
    let rest = enrich_from site done fuel (suc k) (drop collection_batch_size (it ∷ items)) in
    if done k
    then record { items = it ∷ items; batch_errors = 0; interrupted = true }
    else merge_batch batch (site k (titles_of batch)) rest

unfoldable pub enrich : Site → (ℕ → Bool) → List CollectionItem → Enriched
unfolding enrich_from
enrich site done items = enrich_from site done (length items) 0 items
