-- ===== src/Inventory/Tests.antt =====
-- Runs of the inventory on a small library.
use loon_agent.Prelude.{ℕ, ◌≡◌, refl, true, false, some, List, [], ◌∷◌, all, String, codes}
use loon_agent.FileTree.{FileInfo, Kind, Node, file, dir, locked, nil, cons, child_path}
use loon_agent.Inventory.{
  InventoryOptions, InventoryResult, scanned, default_inventory_excludes, sort_files,
  scan_inventory, sanitise_scan_tag, at_least_one, batch_inventory,
}
use loon_agent.Inventory.Bounds.{WithinIfScanned, scan_inventory-WithinIfScanned}
use loon_agent.Inventory.Library.{library, reported, unread}
use loon_agent.Inventory.Complete.{scan_inventory_lem}
use loon_agent.Inventory.Batches.{flattened, is_batch, batch_inventory_lem}

abbrev named : String → ℕ → FileInfo
named name size = record { name = codes name; size = size; kind = Kind.regular }

abbrev tree : Node
tree = dir (codes "lib") (
    cons (file (named "b.mkv" 9)) (
      cons (dir (codes "@eaDir") (cons (file (named "b.jpg" 9)) nil)) (
        cons (dir (codes "a") (cons (file (named "x.mkv" 5)) (cons (file (named "x.nfo" 5)) nil)))
          (cons (locked (codes "c")) nil))))

abbrev opts : ℕ → InventoryOptions
opts bound = record {
  min_size_bytes = 2;
  exclude_exts = default_inventory_excludes;
  max_files = bound;
}

abbrev whole : InventoryResult
whole = record {
  files =
      record { rel_path = codes "a/x.mkv"; size_bytes = 5 }
      ∷ record { rel_path = codes "b.mkv"; size_bytes = 9 }
      ∷ [];
  truncated = false;
  skipped = 1;
}

scan_test : scan_inventory (codes "/lib") (opts 0) (some tree) ≡ scanned whole
unfolding scan_inventory child_path
scan_test = refl

cut_test :
    scan_inventory (codes "/lib") (opts 1) (some tree)
    ≡ scanned (record {
      files = record { rel_path = codes "b.mkv"; size_bytes = 9 } ∷ [];
      truncated = true;
      skipped = 0;
    })
unfolding scan_inventory child_path
cut_test = refl

scan_inventory_lem_example :
    (whole.files ≡ sort_files (reported (opts 0) (library [] tree)))
    × (whole.skipped ≡ unread [] tree)
scan_inventory_lem_example = scan_inventory_lem (codes "/lib") (opts 0) tree whole scan_test refl

scan_inventory-WithinIfScanned_example :
    WithinIfScanned (opts 1) (scan_inventory (codes "/lib") (opts 1) (some tree))
scan_inventory-WithinIfScanned_example =
    scan_inventory-WithinIfScanned (codes "/lib") (opts 1) (some tree)

abbrev five : List ℕ
five = 1 ∷ 2 ∷ 3 ∷ 4 ∷ 5 ∷ []

batch_inventory_lem_test :
    (flattened (batch_inventory five 2) ≡ five)
    × (all (is_batch (at_least_one 2)) (batch_inventory five 2) ≡ true)
batch_inventory_lem_test = batch_inventory_lem five 2

tag_test : sanitise_scan_tag (codes "[My] Films!") ≡ codes "My--Films"
unfolding sanitise_scan_tag
tag_test = refl

tag_root_test : sanitise_scan_tag (codes "...") ≡ codes "root"
unfolding sanitise_scan_tag
tag_root_test = refl
