-- ===== src/Inventory.antt =====
-- services/inventory_scan.go: the walk over a library, and the batches that it is sent in.
pub mod Bounds
pub mod Library
pub mod Tracks
pub mod Complete
pub mod Batches
mod Tests
use loon_agent.Prelude.{
  ℕ, zero, suc, ◌+◌, Bool, true, false, ◌&&◌, ◌||◌, not, Option, none, some, List, [], ◌∷◌, ◌++◌,
  length, ltb, leb, ◌==◌, if◌then◌else◌, Bytes, codes, equal, contains, has_prefix, to_lower,
  trim_space, trim_left, trim_right, precedes, take, drop, sum_by,
}
use loon_agent.FilePath.{ext, base, is_slash}
use loon_agent.FileTree.{
  Kind, regular, symlink, irregular, FileInfo, Node, file, dir, locked, lost, on_file, on_dir,
  on_locked, on_lost, Outcome, go, skip_dir, skip_all, fail, Visitor, walk,
}

-- A bound of 0 is none, and so is an empty list of extensions.
pub record InventoryOptions : Type 0 where
  pub min_size_bytes : ℕ
  pub exclude_exts : List Bytes
  pub max_files : ℕ

-- What is parsed from the path is left out.
pub record InventoryFile : Type 0 where
  pub rel_path : Bytes
  pub size_bytes : ℕ

pub record InventoryResult : Type 0 where
  pub files : List InventoryFile
  pub truncated : Bool
  pub skipped : ℕ

pub data InventoryError : Type 0 where
  empty_root unresolved not_a_directory walk_failed : InventoryError

pub data Scanned : Type 0 where
  scanned : InventoryResult → Scanned
  refused : InventoryError → Scanned

abbrev pub default_inventory_excludes : List Bytes
default_inventory_excludes =
    codes ".nfo"
    ∷ codes ".sfv"
    ∷ codes ".md5"
    ∷ codes ".txt"
    ∷ codes ".url"
    ∷ codes ".lnk"
    ∷ codes ".db"
    ∷ codes ".ds_store"
    ∷ codes ".part"
    ∷ codes ".!qb"
    ∷ codes ".tmp"
    ∷ []

abbrev pub is_reported : InventoryOptions → Bytes → ℕ → Bool
is_reported opts path size =
    not (contains opts.exclude_exts (to_lower (ext path)))
    && not (ltb 0 opts.min_size_bytes && ltb size opts.min_size_bytes)

abbrev pub max_reached : InventoryOptions → InventoryResult → Bool
max_reached opts res = ltb 0 opts.max_files && leb opts.max_files (length res.files)

abbrev pub is_regular : Kind → Bool
is_regular regular = true
is_regular symlink = false
is_regular irregular = false

abbrev pub is_tooling : Bytes → Bool
is_tooling name =
    has_prefix name (codes ".") || equal name (codes "@eaDir") || equal name (codes "lost+found")

abbrev pub skip_one : InventoryResult → InventoryResult
skip_one res = record res { skipped = suc res.skipped }

abbrev pub append_file : InventoryResult → Bytes → ℕ → InventoryResult
append_file res path size = record res {
  files = res.files ++ (record { rel_path = path; size_bytes = size } ∷ []);
}

-- The path is the one relative to the root, with forward slashes.
unfoldable pub inventory_visit : InventoryOptions → Visitor InventoryResult InventoryError
unfolding ext
inventory_visit opts path (on_locked n) res = (skip_one res, skip_dir)
inventory_visit opts path (on_lost n) res = (skip_one res, go)
inventory_visit opts path (on_dir n) res =
    if not (equal path []) && is_tooling n then (res, skip_dir) else (res, go)
inventory_visit opts path (on_file i) res =
    if not (is_regular i.kind)
    then (res, go)
    else if max_reached opts res
    then (record res { truncated = true }, skip_all)
    else if is_reported opts path i.size
    then (append_file res path i.size, go)
    else (res, go)

unfoldable pub insert_file : InventoryFile → List InventoryFile → List InventoryFile
insert_file f [] = f ∷ []
insert_file f (g ∷ gs) =
    let rest = insert_file f gs in if precedes g.rel_path f.rel_path then g ∷ rest else f ∷ g ∷ gs

unfoldable pub sort_files : List InventoryFile → List InventoryFile
unfolding insert_file
sort_files [] = []
sort_files (f ∷ fs) = insert_file f (sort_files fs)

abbrev pub sorted_result : InventoryResult × Outcome InventoryError → Scanned
sorted_result (res, fail e) = refused e
sorted_result (res, go) = scanned (record res { files = sort_files res.files })
sorted_result (res, skip_dir) = scanned (record res { files = sort_files res.files })
sorted_result (res, skip_all) = scanned (record res { files = sort_files res.files })

abbrev pub no_files : InventoryResult
no_files = record { files = []; truncated = false; skipped = 0 }

-- `none` is a root that os.Stat does not find.
unfoldable pub scan_tree : InventoryOptions → Option Node → Scanned
unfolding inventory_visit sort_files walk
scan_tree opts none = refused unresolved
scan_tree opts (some (lost n)) = refused unresolved
scan_tree opts (some (file i)) = refused not_a_directory
scan_tree opts (some (dir n entries)) =
    sorted_result (walk (inventory_visit opts) (dir n entries) no_files)
scan_tree opts (some (locked n)) = sorted_result (walk (inventory_visit opts) (locked n) no_files)

unfoldable pub scan_inventory : Bytes → InventoryOptions → Option Node → Scanned
unfolding scan_tree
scan_inventory root opts tree =
    if equal (trim_space root) [] then refused empty_root else scan_tree opts tree

abbrev pub total_bytes : InventoryResult → ℕ
total_bytes res = sum_by (λ f. f.size_bytes) res.files

abbrev is_tag_byte : ℕ → Bool
is_tag_byte c =
    (leb 97 c && leb c 122)
    || (leb 65 c && leb c 90)
    || (leb 48 c && leb c 57)
    || (c == b'-')
    || (c == b'_')

-- The loop of sanitiseScanTag over the runes of a text, with room for `left` bytes; every rune
-- gives one byte.
unfoldable pub tag_bytes : ℕ → Bytes → Bytes
tag_bytes zero s = []
tag_bytes (suc left) [] = []
tag_bytes (suc left) (c ∷ s) = (if is_tag_byte c then c else b'-') ∷ tag_bytes left s

abbrev is_dash : ℕ → Bool
is_dash c = c == b'-'

unfoldable pub sanitise_scan_tag : Bytes → Bytes
unfolding tag_bytes
sanitise_scan_tag s =
    let out = trim_right is_dash (trim_left is_dash (tag_bytes 24 s)) in
    if equal out [] then codes "root" else out

-- The loop of BatchInventory, with `fuel` batches to go; the length of the list is enough.
unfoldable pub batches_from {ℓ} : {A : Type ℓ} → ℕ → ℕ → List A → List (List A)
batches_from zero size files = []
batches_from (suc fuel) size [] = []
batches_from (suc fuel) size (f ∷ files) =
    take size (f ∷ files) ∷ batches_from fuel size (drop size (f ∷ files))

abbrev pub at_least_one : ℕ → ℕ
at_least_one zero = 1
at_least_one (suc n) = suc n

unfoldable pub batch_inventory {ℓ} : {A : Type ℓ} → List A → ℕ → List (List A)
unfolding batches_from
batch_inventory files size = batches_from (length files) (at_least_one size) files
