-- ===== src/Collection/Whole.antt =====
-- services/collection_scanner.go: what a scan that ends well has made of the tree.
use loon_agent.Prelude.{
  ℕ, ◌≡◌, refl, ap, ◌∙◌, Bool, true, false, some, List, [], leb, Bytes, equal, trim_space,
}
use loon_agent.FileTree.{Node}
use loon_agent.FileTree.Files.{files_in}
use loon_agent.Collection.{CollectionItem}
use loon_agent.Collection.Walk.{
  walked, walk_collection, sort_items, candidates, walk_collection_lem,
}
use loon_agent.Collection.Enrich.{TitleMatchResult}
use loon_agent.Collection.Enrich.Rows.{site_of, enriched_at}
use loon_agent.Collection.Enrich.Loop.{enrich_lem}
use loon_agent.Collection.Scanner.{
  CollectionScanner, Surroundings, finished, snapshot_of, begin_scan, end_scan, scan_body, scan,
}

-- The rows of a scan: one for each candidate in the tree, sorted, with the site's answers.
unfoldable pub scanned_rows :
    (Bytes → TitleMatchResult) → (ℕ → Bool) → ℕ → Bytes → Node → List CollectionItem
unfolding enriched_at
scanned_rows answer fails stop root tree =
    enriched_at answer fails stop 0 (sort_items (candidates root (files_in [] tree)))

-- A tree that os.Stat finds, a file that can be written, and a site that answers each title by
-- itself.
abbrev pub wired :
    (Bytes → TitleMatchResult) → (ℕ → Bool) → ℕ → (Bytes → Bool) → Node → Surroundings
wired answer fails stop done_at tree = record {
  tree = some tree;
  done_at = done_at;
  done_before = leb stop;
  site = some (site_of answer fails);
  writable = true;
}

-- A scan that is not refused, of a root that is named and that os.Stat finds, whose walk is not
-- interrupted and whose snapshot can be written, ends without error, and has replaced the snapshot
-- in memory and in the file: by one row for each video file of the tree that is not empty, in the
-- order of the relative paths, with the answers of a site that answers each title by itself, except
-- in batches that fail or come after the context is done. What was there before, the overrides and
-- the selection among it, is gone.
pub scan_lem :
    (answer : Bytes → TitleMatchResult) (fails : ℕ → Bool) (stop : ℕ) (done_at : Bytes → Bool)
    (root : Bytes) (tree : Node) (items : List CollectionItem) (cs : CollectionScanner)
    → cs.scanning ≡ false
    → equal (trim_space root) [] ≡ false
    → walk_collection (trim_space root) done_at tree ≡ walked items
    → ((scan (wired answer fails stop done_at tree) root cs).0 ≡ finished)
      × (((scan (wired answer fails stop done_at tree) root cs).1.snap
            ≡ some (
                snapshot_of
                  (trim_space root)
                  (scanned_rows answer fails stop (trim_space root) tree)))
          × (((scan (wired answer fails stop done_at tree) root cs).1.stored
                ≡ some (
                    snapshot_of
                      (trim_space root)
                      (scanned_rows answer fails stop (trim_space root) tree)))
              × ((scan (wired answer fails stop done_at tree) root cs).1.scanning ≡ false)))
unfolding scan begin_scan end_scan scan_body scanned_rows
scan_lem answer fails stop done_at root tree items cs idle named w =
    let e =
      (enrich_lem answer fails stop items).0
      ∙ ap (enriched_at answer fails stop 0)
          (walk_collection_lem (trim_space root) done_at tree items w) in
    rw idle (rw named (rw w (rw e (refl, (refl, (refl, refl))))))
