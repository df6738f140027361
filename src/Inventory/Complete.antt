-- ===== src/Inventory/Complete.antt =====
-- services/inventory_scan.go: a walk of ScanInventory that was not cut short has missed nothing.
use loon_agent.Prelude.{
  ◌≡◌, sym, ap, ◌∙◌, subst, inl, inr, false, some, [], arith, Bytes, equal, trim_space, Bool-cases,
}
use mathlib.Core.Bool.{true≢false}
use loon_agent.FileTree.{
  Node, file, dir, locked, lost, go, skip_dir, skip_all, fail, at_root, walk, walk_node,
}
use loon_agent.Inventory.{
  InventoryOptions, InventoryResult, Scanned, scanned, refused, inventory_visit, sort_files,
  sorted_result, no_files, scan_tree, scan_inventory,
}
use loon_agent.Inventory.Library.{library, unread, reported, Adds, Result}
use loon_agent.Inventory.Tracks.{NodeTracks, walk_node-Tracks}

-- What a result says that was not cut short.
abbrev IsComplete : InventoryOptions → Node → Scanned → Type 0
IsComplete opts x (scanned res) =
    res.truncated ≡ false
    → (res.files ≡ sort_files (reported opts (library [] x))) × (res.skipped ≡ unread [] x)
IsComplete opts x (refused e) = Unit {0}

Adds-IsComplete :
    (opts : InventoryOptions) (x : Node) (t : InventoryResult)
    → Adds opts (library [] x) (unread [] x) no_files t
    → IsComplete opts x (scanned (record t { files = sort_files t.files }))
Adds-IsComplete opts x t h = λ _. (ap sort_files h.added, omega (arith, h.counted))

sorted-IsComplete :
    (opts : InventoryOptions) (x : Node) (r : Result)
    → NodeTracks opts x (library [] x) (unread [] x) no_files r
    → IsComplete opts x (sorted_result (at_root r))
unfolding NodeTracks
sorted-IsComplete opts x (t, go) h = Adds-IsComplete opts x t h
sorted-IsComplete opts x (t, skip_all) h = λ whole. absurd (true≢false (sym h ∙ whole))
sorted-IsComplete opts (file i) (t, skip_dir) h = absurd (true≢false h)
sorted-IsComplete opts (dir n entries) (t, skip_dir) h = Adds-IsComplete opts (dir n entries) t h
sorted-IsComplete opts (locked n) (t, skip_dir) h = Adds-IsComplete opts (locked n) t h
sorted-IsComplete opts (lost n) (t, skip_dir) h = Adds-IsComplete opts (lost n) t h
sorted-IsComplete opts x (t, fail e) h = tt

walk-IsComplete :
    (opts : InventoryOptions) (x : Node)
    → IsComplete opts x (sorted_result (walk (inventory_visit opts) x no_files))
unfolding walk
walk-IsComplete opts x =
    sorted-IsComplete opts x (walk_node (inventory_visit opts) [] x no_files)
      (walk_node-Tracks opts [] x no_files)

scan_tree-IsComplete :
    (opts : InventoryOptions) (x : Node) → IsComplete opts x (scan_tree opts (some x))
unfolding scan_tree
scan_tree-IsComplete opts (file i) = tt
scan_tree-IsComplete opts (dir n entries) = walk-IsComplete opts (dir n entries)
scan_tree-IsComplete opts (locked n) = walk-IsComplete opts (locked n)
scan_tree-IsComplete opts (lost n) = tt

scan-IsComplete :
    (root : Bytes) (opts : InventoryOptions) (x : Node)
    → IsComplete opts x (scan_inventory root opts (some x))
unfolding scan_inventory
scan-IsComplete root opts x = elim (Bool-cases (equal (trim_space root) [])) [
  | inl empty ↦ rw empty tt
  | inr named ↦ rw named (scan_tree-IsComplete opts x)
]

-- A scan that ScanInventory does not call truncated reports all the regular files of the library
-- that pass the filters, sorted by their paths: those outside the hidden and tooling
-- directories below the root. It counts the directories and entries there that it could not read.
-- Symbolic links, also those to regular files, and other irregular entries are in neither.
pub scan_inventory_lem :
    (root : Bytes) (opts : InventoryOptions) (x : Node) (res : InventoryResult)
    → scan_inventory root opts (some x) ≡ scanned res
    → res.truncated ≡ false
    → (res.files ≡ sort_files (reported opts (library [] x))) × (res.skipped ≡ unread [] x)
scan_inventory_lem root opts x res e whole =
    subst (IsComplete opts x) e (scan-IsComplete root opts x) whole
