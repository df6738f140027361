-- ===== src/Inventory/Library.antt =====
-- services/inventory_scan.go: the files that a walk of ScanInventory is to report.
use loon_agent.Prelude.{
  ℕ, ◌+◌, ◌≡◌, refl, sym, ap, ◌∙◌, inl, inr, ◌&&◌, not, List, [], ◌∷◌, ◌++◌, arith, if◌then◌else◌,
  Bytes, equal, Bool-cases,
}
use mathlib.Core.List.{append_assoc, append-nil}
use loon_agent.FileTree.{
  Node, file, dir, locked, lost, Nodes, nil, cons, Outcome, child_path, node_name,
}
use loon_agent.FileTree.Files.{Found}
use loon_agent.Inventory.{
  InventoryOptions, InventoryFile, InventoryResult, InventoryError, is_reported, is_regular,
  is_tooling,
}

-- The files of a library in the order of the walk, without those of the tooling directories.
unfoldable mutual
  pub library : Bytes → Node → List Found
  library path (file i) = record { path = path; info = i } ∷ []
  library path (dir n entries) =
      let inside = library_below path entries in
      if not (equal path []) && is_tooling n then [] else inside
  library path (locked n) = []
  library path (lost n) = []

  pub library_below : Bytes → Nodes → List Found
  library_below path nil = []
  library_below path (cons x xs) =
      library (child_path path (node_name x)) x ++ library_below path xs

-- The directories that cannot be listed, and the entries that cannot be looked at.
unfoldable mutual
  pub unread : Bytes → Node → ℕ
  unread path (file i) = 0
  unread path (dir n entries) =
      let inside = unread_below path entries in
      if not (equal path []) && is_tooling n then 0 else inside
  unread path (locked n) = 1
  unread path (lost n) = 1

  pub unread_below : Bytes → Nodes → ℕ
  unread_below path nil = 0
  unread_below path (cons x xs) = unread (child_path path (node_name x)) x + unread_below path xs

abbrev pub row_of : Found → InventoryFile
row_of f = record { rel_path = f.path; size_bytes = f.info.size }

abbrev pub reported : InventoryOptions → List Found → List InventoryFile
reported opts [] = []
reported opts (f ∷ fs) =
    let rest = reported opts fs in
    if is_regular f.info.kind && is_reported opts f.path f.info.size then row_of f ∷ rest else rest

pub reported-append :
    (opts : InventoryOptions) (fs gs : List Found)
    → reported opts (fs ++ gs) ≡ reported opts fs ++ reported opts gs
reported-append opts [] gs = refl
reported-append opts (f ∷ fs) gs =
    elim (Bool-cases (is_regular f.info.kind && is_reported opts f.path f.info.size)) [
      | inl wanted ↦ rw wanted (ap (λ xs. row_of f ∷ xs) (reported-append opts fs gs))
      | inr noise ↦ rw noise (reported-append opts fs gs)
    ]

-- From state `s` to `t`, the wanted ones of the files are added, and the unread entries counted.
pub record Adds (opts : InventoryOptions) (fs : List Found) (n : ℕ) (s t : InventoryResult)
    : Type 0 where
  pub added : t.files ≡ s.files ++ reported opts fs
  pub same_cut : t.truncated ≡ s.truncated
  pub counted : t.skipped ≡ s.skipped + n

pub Adds-nothing : (opts : InventoryOptions) (s : InventoryResult) → Adds opts [] 0 s s
Adds-nothing opts s = record {
  added = sym (append-nil s.files);
  same_cut = refl;
  counted = omega arith;
}

pub Adds-both :
    (opts : InventoryOptions) (fs gs : List Found) (m n : ℕ) (s t u : InventoryResult)
    → Adds opts fs m s t
    → Adds opts gs n t u
    → Adds opts (fs ++ gs) (m + n) s u
Adds-both opts fs gs m n s t u a b = record {
  added =
      b.added
      ∙ (ap (λ xs. xs ++ reported opts gs) a.added
          ∙ (append_assoc s.files (reported opts fs) (reported opts gs)
              ∙ ap (λ xs. s.files ++ xs) (sym (reported-append opts fs gs))));
  same_cut = b.same_cut ∙ a.same_cut;
  counted = omega (arith, a.counted, b.counted);
}

abbrev pub Result : Type 0
Result = InventoryResult × Outcome InventoryError
