-- ===== src/Inventory/Tracks.antt =====
-- services/inventory_scan.go: what the walk of ScanInventory adds at each entry.
use loon_agent.Prelude.{
  ℕ, ◌+◌, ◌≡◌, refl, sym, inl, inr, true, false, ◌&&◌, not, List, [], ◌∷◌, ◌++◌, arith,
  if◌then◌else◌, Bytes, equal, Bool-cases,
}
use mathlib.Core.List.{append-nil}
use mathlib.Core.Bool.{true≢false}
use loon_agent.FileTree.{
  FileInfo, Node, file, dir, locked, lost, Nodes, nil, cons, on_file, on_dir, on_locked, on_lost,
  go, skip_dir, skip_all, fail, after_dir, after_entry, walk_node, walk_nodes, child_path,
  node_name,
}
use loon_agent.FileTree.Files.{Found}
use loon_agent.Inventory.{
  InventoryOptions, InventoryResult, is_reported, max_reached, is_regular, is_tooling, skip_one,
  inventory_visit,
}
use loon_agent.Inventory.Library.{
  library, library_below, unread, unread_below, Adds, Adds-nothing, Adds-both, Result,
}

-- How the walk of one entry ends, and of the entries of a directory.
unfoldable pub NodeTracks :
    InventoryOptions → Node → List Found → ℕ → InventoryResult → Result → Type 0
NodeTracks opts x fs n s (t, go) = Adds opts fs n s t
NodeTracks opts x fs n s (t, skip_all) = t.truncated ≡ true
NodeTracks opts x fs n s (t, fail e) = true ≡ false
NodeTracks opts (file i) fs n s (t, skip_dir) = true ≡ false
NodeTracks opts (dir _ _) fs n s (t, skip_dir) = Adds opts fs n s t
NodeTracks opts (locked _) fs n s (t, skip_dir) = Adds opts fs n s t
NodeTracks opts (lost _) fs n s (t, skip_dir) = Adds opts fs n s t

unfoldable pub NodesTracks : InventoryOptions → List Found → ℕ → InventoryResult → Result → Type 0
NodesTracks opts fs n s (t, go) = Adds opts fs n s t
NodesTracks opts fs n s (t, skip_all) = t.truncated ≡ true
NodesTracks opts fs n s (t, skip_dir) = true ≡ false
NodesTracks opts fs n s (t, fail e) = true ≡ false

module _ (opts : InventoryOptions) (fs gs : List Found) (m n : ℕ) (s : InventoryResult) where
  continues :
      (t : InventoryResult) (r : Result)
      → Adds opts fs m s t
      → NodesTracks opts gs n t r
      → NodesTracks opts (fs ++ gs) (m + n) s r
  unfolding NodesTracks
  continues t (u, go) a h = Adds-both opts fs gs m n s t u a h
  continues t (u, skip_all) a h = h
  continues t (u, skip_dir) a h = h
  continues t (u, fail e) a h = h

  after_entry-Tracks :
      (x : Node) (r : Result) (k : InventoryResult → Result)
      → NodeTracks opts x fs m s r
      → ((t : InventoryResult) → NodesTracks opts gs n t (k t))
      → NodesTracks opts (fs ++ gs) (m + n) s (after_entry x r k)
  unfolding NodeTracks NodesTracks
  after_entry-Tracks (file _) (t, go) k h f = continues t (k t) h (f t)
  after_entry-Tracks (dir _ _) (t, go) k h f = continues t (k t) h (f t)
  after_entry-Tracks (locked _) (t, go) k h f = continues t (k t) h (f t)
  after_entry-Tracks (lost _) (t, go) k h f = continues t (k t) h (f t)
  after_entry-Tracks (file _) (t, skip_dir) k h f = absurd (true≢false h)
  after_entry-Tracks (dir _ _) (t, skip_dir) k h f = continues t (k t) h (f t)
  after_entry-Tracks (locked _) (t, skip_dir) k h f = continues t (k t) h (f t)
  after_entry-Tracks (lost _) (t, skip_dir) k h f = continues t (k t) h (f t)
  after_entry-Tracks (file _) (t, skip_all) k h f = h
  after_entry-Tracks (dir _ _) (t, skip_all) k h f = h
  after_entry-Tracks (locked _) (t, skip_all) k h f = h
  after_entry-Tracks (lost _) (t, skip_all) k h f = h
  after_entry-Tracks (file _) (t, fail e) k h f = absurd (true≢false h)
  after_entry-Tracks (dir _ _) (t, fail e) k h f = absurd (true≢false h)
  after_entry-Tracks (locked _) (t, fail e) k h f = absurd (true≢false h)
  after_entry-Tracks (lost _) (t, fail e) k h f = absurd (true≢false h)

file-Tracks :
    (opts : InventoryOptions) (path : Bytes) (i : FileInfo) (s : InventoryResult)
    → NodeTracks opts
        (file i)
        (record { path = path; info = i } ∷ [])
        0
        s
        (inventory_visit opts path (on_file i) s)
unfolding NodeTracks inventory_visit
file-Tracks opts path i s = elim (Bool-cases (is_regular i.kind)) [
  | inl regular ↦ rw regular (elim (Bool-cases (max_reached opts s)) [
    | inl full ↦ rw full refl
    | inr room ↦ rw room (elim (Bool-cases (is_reported opts path i.size)) [
      | inl wanted ↦
          rw wanted
            (record { added = rw (regular, wanted) refl; same_cut = refl; counted = omega arith })
      | inr noise ↦ rw noise (record {
        added = rw (regular, noise) (sym (append-nil s.files));
        same_cut = refl;
        counted = omega arith;
      })
    ])
  ])
  | inr special ↦ rw special (record {
    added = rw special (sym (append-nil s.files));
    same_cut = refl;
    counted = omega arith;
  })
]

inside-Tracks :
    (opts : InventoryOptions) (n : Bytes) (entries : Nodes) (fs : List Found) (k : ℕ)
    (s : InventoryResult) (r : Result)
    → NodesTracks opts fs k s r
    → NodeTracks opts (dir n entries) fs k s r
unfolding NodeTracks NodesTracks
inside-Tracks opts n entries fs k s (t, go) h = h
inside-Tracks opts n entries fs k s (t, skip_all) h = h
inside-Tracks opts n entries fs k s (t, skip_dir) h = absurd (true≢false h)
inside-Tracks opts n entries fs k s (t, fail e) h = h

unreadable : (opts : InventoryOptions) (s : InventoryResult) → Adds opts [] 1 s (skip_one s)
unreadable opts s = record {
  added = sym (append-nil s.files);
  same_cut = refl;
  counted = omega arith;
}

nil-Tracks : (opts : InventoryOptions) (s : InventoryResult) → NodesTracks opts [] 0 s (s, go)
unfolding NodesTracks
nil-Tracks opts s = Adds-nothing opts s

locked-Tracks :
    (opts : InventoryOptions) (p n : Bytes) (s : InventoryResult)
    → NodeTracks opts (locked n) [] 1 s (inventory_visit opts p (on_locked n) s)
unfolding NodeTracks inventory_visit
locked-Tracks opts p n s = unreadable opts s

lost-Tracks :
    (opts : InventoryOptions) (p n : Bytes) (s : InventoryResult)
    → NodeTracks opts (lost n) [] 1 s (inventory_visit opts p (on_lost n) s)
unfolding NodeTracks inventory_visit
lost-Tracks opts p n s = unreadable opts s

dir-Tracks :
    (opts : InventoryOptions) (p n : Bytes) (entries : Nodes) (s : InventoryResult)
    (fs : List Found) (k : ℕ) (inside : InventoryResult → Result)
    → NodesTracks opts fs k s (inside s)
    → NodeTracks opts
        (dir n entries)
        (if not (equal p []) && is_tooling n then [] else fs)
        (if not (equal p []) && is_tooling n then 0 else k)
        s
        (after_dir (inventory_visit opts p (on_dir n) s) inside)
unfolding NodeTracks inventory_visit
dir-Tracks opts p n entries s fs k inside h = elim (Bool-cases (not (equal p []) && is_tooling n)) [
  | inl left ↦ rw left (Adds-nothing opts s)
  | inr entered ↦ rw entered (inside-Tracks opts n entries fs k s (inside s) h)
]

module _ (opts : InventoryOptions) where
  mutual
    unfolding walk_node walk_nodes library library_below unread unread_below

    pub walk_node-Tracks :
        (p : Bytes) (x : Node) (s : InventoryResult)
        → NodeTracks opts x (library p x) (unread p x) s (walk_node (inventory_visit opts) p x s)
    walk_node-Tracks p (file i) s = file-Tracks opts p i s
    walk_node-Tracks p (locked n) s = locked-Tracks opts p n s
    walk_node-Tracks p (lost n) s = lost-Tracks opts p n s
    walk_node-Tracks p (dir n entries) s =
        dir-Tracks opts p n entries s (library_below p entries) (unread_below p entries)
          (λ t. walk_nodes (inventory_visit opts) p entries t) (walk_nodes-Tracks p entries s)

    walk_nodes-Tracks :
        (p : Bytes) (xs : Nodes) (s : InventoryResult)
        → NodesTracks opts
            (library_below p xs)
            (unread_below p xs)
            s
            (walk_nodes (inventory_visit opts) p xs s)
    walk_nodes-Tracks p nil s = nil-Tracks opts s
    walk_nodes-Tracks p (cons x xs) s =
        after_entry-Tracks opts (library (child_path p (node_name x)) x) (library_below p xs)
          (unread (child_path p (node_name x)) x) (unread_below p xs) s x
          (walk_node (inventory_visit opts) (child_path p (node_name x)) x s)
          (λ t. walk_nodes (inventory_visit opts) p xs t)
          (walk_node-Tracks (child_path p (node_name x)) x s) (λ t. walk_nodes-Tracks p xs t)
