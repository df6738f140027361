-- ===== src/Inventory/Bounds.antt =====
-- services/inventory_scan.go: what ScanInventory reports.
use loon_agent.Prelude.{
  ℕ, suc, ◌≤◌, ◌<◌, ◌≡◌, ◌≢◌, refl, ap, ◌∙◌, inl, inr, Bool, true, false, ◌&&◌, not, Option, none,
  some, List, [], ◌∷◌, arith, length, length-append, all, all-append, Bytes, equal, trim_space,
  Bool-cases,
}
use loon_agent.FileTree.{
  Node, file, dir, locked, lost, Visit, on_file, on_dir, on_locked, on_lost, Outcome, go, skip_dir,
  skip_all, fail, walk,
}
use loon_agent.FileTree.Keeps.{walk-keeps}
use loon_agent.Inventory.{
  InventoryOptions, InventoryFile, InventoryResult, InventoryError, Scanned, scanned, refused,
  is_reported, max_reached, is_regular, is_tooling, append_file, inventory_visit, insert_file,
  sort_files, sorted_result, no_files, scan_tree, scan_inventory,
}

abbrev pub is_wanted : InventoryOptions → InventoryFile → Bool
is_wanted opts f = is_reported opts f.rel_path f.size_bytes

-- Only wanted files are reported, never more than the bound if there is one, and a walk that was
-- cut short has reached the bound.
abbrev pub IsWithin : InventoryOptions → InventoryResult → Type 0
IsWithin opts res =
    (all (is_wanted opts) res.files ≡ true)
    × (0 < opts.max_files → length res.files ≤ opts.max_files)
    × (res.truncated ≡ true → (0 < opts.max_files) × (length res.files ≡ opts.max_files))

room_left :
    (opts : InventoryOptions) (res : InventoryResult)
    → max_reached opts res ≡ false
    → 0 < opts.max_files
    → length res.files ≢ opts.max_files
room_left opts res room pos full = ground arith

append_file-IsWithin :
    (opts : InventoryOptions) (res : InventoryResult) (path : Bytes) (size : ℕ)
    → max_reached opts res ≡ false
    → is_reported opts path size ≡ true
    → IsWithin opts res
    → IsWithin opts (append_file res path size)
append_file-IsWithin opts res path size room wanted (all_wanted, bound, cut) =
    let f : InventoryFile = record { rel_path = path; size_bytes = size } in
    (
      all-append (is_wanted opts) res.files (f ∷ []) ∙ ground arith,
      λ h. ground (arith, length-append res.files (f ∷ []), bound h),
      λ t. absurd (room_left opts res room (cut t).0 (cut t).1),
    )

reached :
    (opts : InventoryOptions) (res : InventoryResult)
    → max_reached opts res ≡ true
    → (0 < opts.max_files → length res.files ≤ opts.max_files)
    → (0 < opts.max_files) × (length res.files ≡ opts.max_files)
reached opts res full bound =
    let pos : (0 < opts.max_files) = ground arith in let le = bound pos in (pos, ground arith)

cut_short :
    (opts : InventoryOptions) (res : InventoryResult)
    → max_reached opts res ≡ true
    → IsWithin opts res
    → IsWithin opts (record res { truncated = true })
cut_short opts res full (all_wanted, bound, cut) =
    (all_wanted, bound, λ _. reached opts res full bound)

visit-IsWithin :
    (opts : InventoryOptions) (path : Bytes) (v : Visit) (res : InventoryResult)
    → IsWithin opts res
    → IsWithin opts (inventory_visit opts path v res).0
unfolding inventory_visit
visit-IsWithin opts path (on_locked n) res h = h
visit-IsWithin opts path (on_lost n) res h = h
visit-IsWithin opts path (on_dir n) res h =
    elim (Bool-cases (not (equal path []) && is_tooling n)) [
      | inl skipped ↦ rw skipped h
      | inr entered ↦ rw entered h
    ]
visit-IsWithin opts path (on_file i) res h = elim (Bool-cases (is_regular i.kind)) [
  | inl regular ↦ rw regular (elim (Bool-cases (max_reached opts res)) [
    | inl full ↦ rw full (cut_short opts res full h)
    | inr room ↦ rw room (elim (Bool-cases (is_reported opts path i.size)) [
      | inl wanted ↦ rw wanted (append_file-IsWithin opts res path i.size room wanted h)
      | inr noise ↦ rw noise h
    ])
  ])
  | inr special ↦ rw special h
]

insert_file-all :
    (p : InventoryFile → Bool) (f : InventoryFile) (fs : List InventoryFile)
    → all p (insert_file f fs) ≡ (p f && all p fs)
unfolding insert_file
insert_file-all p f [] = refl
insert_file-all p f (g ∷ gs) = ground (arith, insert_file-all p f gs)

insert_file-length :
    (f : InventoryFile) (fs : List InventoryFile) → length (insert_file f fs) ≡ suc (length fs)
unfolding insert_file
insert_file-length f [] = refl
insert_file-length f (g ∷ gs) = ground (arith, insert_file-length f gs)

sort_files-all :
    (p : InventoryFile → Bool) (fs : List InventoryFile) → all p (sort_files fs) ≡ all p fs
unfolding sort_files
sort_files-all p [] = refl
sort_files-all p (f ∷ fs) =
    insert_file-all p f (sort_files fs) ∙ ap (λ b. p f && b) (sort_files-all p fs)

sort_files-length : (fs : List InventoryFile) → length (sort_files fs) ≡ length fs
unfolding sort_files
sort_files-length [] = refl
sort_files-length (f ∷ fs) = insert_file-length f (sort_files fs) ∙ ap suc (sort_files-length fs)

sort-IsWithin :
    (opts : InventoryOptions) (res : InventoryResult)
    → IsWithin opts res
    → IsWithin opts (record res { files = sort_files res.files })
sort-IsWithin opts res (all_wanted, bound, cut) = (
  sort_files-all (is_wanted opts) res.files ∙ all_wanted,
  λ h. omega (arith, sort_files-length res.files, bound h),
  λ t. ((cut t).0, sort_files-length res.files ∙ (cut t).1),
)

-- What the result of a scan says, if it is one.
abbrev pub WithinIfScanned : InventoryOptions → Scanned → Type 0
WithinIfScanned opts (scanned res) = IsWithin opts res
WithinIfScanned opts (refused e) = Unit {0}

sorted_result-WithinIfScanned :
    (opts : InventoryOptions) (r : InventoryResult × Outcome InventoryError)
    → IsWithin opts r.0
    → WithinIfScanned opts (sorted_result r)
sorted_result-WithinIfScanned opts (res, go) h = sort-IsWithin opts res h
sorted_result-WithinIfScanned opts (res, skip_dir) h = sort-IsWithin opts res h
sorted_result-WithinIfScanned opts (res, skip_all) h = sort-IsWithin opts res h
sorted_result-WithinIfScanned opts (res, fail e) h = tt

walk-WithinIfScanned :
    (opts : InventoryOptions) (root : Node)
    → WithinIfScanned opts (sorted_result (walk (inventory_visit opts) root no_files))
walk-WithinIfScanned opts root =
    sorted_result-WithinIfScanned opts (walk (inventory_visit opts) root no_files) (
      walk-keeps (IsWithin opts) (inventory_visit opts) (visit-IsWithin opts) root no_files
        (refl, λ h. omega arith, λ t. cc))

scan_tree-WithinIfScanned :
    (opts : InventoryOptions) (tree : Option Node) → WithinIfScanned opts (scan_tree opts tree)
unfolding scan_tree
scan_tree-WithinIfScanned opts none = tt
scan_tree-WithinIfScanned opts (some (lost n)) = tt
scan_tree-WithinIfScanned opts (some (file i)) = tt
scan_tree-WithinIfScanned opts (some (dir n entries)) = walk-WithinIfScanned opts (dir n entries)
scan_tree-WithinIfScanned opts (some (locked n)) = walk-WithinIfScanned opts (locked n)

-- Whatever the tree, what ScanInventory reports are files that pass the filters of the options, at
-- most MaxFiles of them if that is a bound; and it says that it was truncated only if it has
-- reached such a bound.
pub scan_inventory-WithinIfScanned :
    (root : Bytes) (opts : InventoryOptions) (tree : Option Node)
    → WithinIfScanned opts (scan_inventory root opts tree)
unfolding scan_inventory
scan_inventory-WithinIfScanned root opts tree = elim (Bool-cases (equal (trim_space root) [])) [
  | inl empty ↦ rw empty tt
  | inr named ↦ rw named (scan_tree-WithinIfScanned opts tree)
]
