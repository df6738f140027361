-- ===== src/Collection/Walk.antt =====
-- services/collection_scanner.go: the walk that gathers the rows.
use loon_agent.Prelude.{
  ℕ, ◌≡◌, refl, sym, ap, ◌∙◌, subst, inl, inr, Bool, false, ◌&&◌, not, List, [], ◌∷◌, ◌++◌, ◌==◌,
  if◌then◌else◌, Bytes, codes, contains, to_lower, precedes, Bool-cases,
}
use mathlib.Core.List.{append-nil, append_assoc}
use loon_agent.FilePath.{ext, clean}
use loon_agent.FileTree.{
  FileInfo, Node, on_file, on_dir, on_locked, on_lost, Outcome, go, skip_dir, skip_all, fail,
  Visitor, walk,
}
use loon_agent.FileTree.Files.{Found, files_in, fold_files}
use loon_agent.FileTree.Ends.{Ends, walk-Ends}
use loon_agent.Collection.{CollectionItem}

pub data ScanError : Type 0 where
  root_missing root_inaccessible cancelled persist_failed : ScanError
  batches_failed : ℕ → ScanError

abbrev pub collection_video_exts : List Bytes
collection_video_exts =
    codes "mkv"
    ∷ codes "mp4"
    ∷ codes "avi"
    ∷ codes "mov"
    ∷ codes "wmv"
    ∷ codes "flv"
    ∷ codes "webm"
    ∷ codes "m4v"
    ∷ codes "ts"
    ∷ codes "m2ts"
    ∷ codes "cbz"
    ∷ codes "cbr"
    ∷ []

-- strings.TrimPrefix(s, ".")
abbrev trim_dot : Bytes → Bytes
trim_dot [] = []
trim_dot (c ∷ s) = if c == b'.' then s else c ∷ s

abbrev pub item_ext : Bytes → Bytes
item_ext name = to_lower (trim_dot (ext name))

-- filepath.Join of the root and a path below it, which is empty for the root itself.
abbrev below_root : Bytes → Bytes → Bytes
below_root root [] = root
below_root root (c ∷ s) = clean (root ++ (b'/' ∷ c ∷ s))

-- filepath.Rel of such a path.
abbrev rel_of : Bytes → Bytes
rel_of [] = codes "."
rel_of (c ∷ s) = c ∷ s

abbrev pub found_item : Bytes → Bytes → FileInfo → CollectionItem
found_item root p i = record {
  path = below_root root p;
  rel_path = rel_of p;
  filename = i.name;
  size_bytes = i.size;
  ext = item_ext i.name;
  matched = false;
  aid = 0;
  anime_title = [];
  mal_id = 0;
  anilist_id = 0;
  format = [];
  cover_url = [];
  resolution_hint = [];
  source_hint = [];
  override_aid = 0;
  override_resolution = [];
  override_source = [];
  override_season = [];
  override_episode = [];
  selected = false;
  upload_status = [];
  upload_detail = [];
}

-- `done` tells at which paths the walk meets a context that is done.
unfoldable pub collection_visit : Bytes → (Bytes → Bool) → Visitor (List CollectionItem) ScanError
unfolding ext clean
collection_visit root done p (on_dir n) items = (items, go)
collection_visit root done p (on_locked n) items = (items, go)
collection_visit root done p (on_lost n) items =
    if done p then (items, fail cancelled) else (items, go)
collection_visit root done p (on_file i) items =
    if done p
    then (items, fail cancelled)
    else if not (contains collection_video_exts (item_ext i.name))
    then (items, go)
    else if i.size == 0
    then (items, go)
    else (items ++ (found_item root p i ∷ []), go)

unfoldable pub insert_item : CollectionItem → List CollectionItem → List CollectionItem
insert_item it [] = it ∷ []
insert_item it (j ∷ js) =
    let rest = insert_item it js in
    if precedes j.rel_path it.rel_path then j ∷ rest else it ∷ j ∷ js

unfoldable pub sort_items : List CollectionItem → List CollectionItem
unfolding insert_item
sort_items [] = []
sort_items (it ∷ items) = insert_item it (sort_items items)

pub data Walked : Type 0 where
  walked : List CollectionItem → Walked
  failed : ScanError → Walked

abbrev sorted_walk : List CollectionItem × Outcome ScanError → Walked
sorted_walk (items, fail e) = failed e
sorted_walk (items, go) = walked (sort_items items)
sorted_walk (items, skip_dir) = walked (sort_items items)
sorted_walk (items, skip_all) = walked (sort_items items)

unfoldable pub walk_collection : Bytes → (Bytes → Bool) → Node → Walked
unfolding collection_visit sort_items walk
walk_collection root done tree = sorted_walk (walk (collection_visit root done) tree [])

-- The files that are to become rows.
abbrev pub is_candidate : FileInfo → Bool
is_candidate i = contains collection_video_exts (item_ext i.name) && not (i.size == 0)

abbrev pub candidates : Bytes → List Found → List CollectionItem
candidates root [] = []
candidates root (f ∷ fs) =
    let rest = candidates root fs in
    if is_candidate f.info then found_item root f.path f.info ∷ rest else rest

abbrev add_candidate : Bytes → Bytes → FileInfo → List CollectionItem → List CollectionItem
add_candidate root p i items = if is_candidate i then items ++ (found_item root p i ∷ []) else items

fold_files-candidates :
    (root : Bytes) (items : List CollectionItem) (fs : List Found)
    → fold_files (add_candidate root) items fs ≡ items ++ candidates root fs
unfolding fold_files
fold_files-candidates root items [] = sym (append-nil items)
fold_files-candidates root items (f ∷ fs) = elim (Bool-cases (is_candidate f.info)) [
  | inl wanted ↦ rw wanted (
      fold_files-candidates root (items ++ (found_item root f.path f.info ∷ [])) fs
      ∙ append_assoc items (found_item root f.path f.info ∷ []) (candidates root fs))
  | inr other ↦ rw other (fold_files-candidates root items fs)
]

module _ (root : Bytes) (done : Bytes → Bool) where
  visit_file-Ends :
      (p : Bytes) (i : FileInfo) (items : List CollectionItem)
      → Ends
          (add_candidate root)
          items
          (record { path = p; info = i } ∷ [])
          (collection_visit root done p (on_file i) items)
  unfolding collection_visit fold_files
  visit_file-Ends p i items = elim (Bool-cases (done p)) [
    | inl over ↦ rw over tt
    | inr live ↦ rw live (elim (Bool-cases (contains collection_video_exts (item_ext i.name))) [
      | inl video ↦ rw video (elim (Bool-cases (i.size == 0)) [
        | inl hollow ↦ rw hollow (rw (video, hollow) refl)
        | inr full ↦ rw full (rw (video, full) refl)
      ])
      | inr other ↦ rw other (rw other refl)
    ])
  ]

  visit_lost-Ends :
      (p n : Bytes) (items : List CollectionItem)
      → Ends (add_candidate root) items [] (collection_visit root done p (on_lost n) items)
  unfolding collection_visit fold_files
  visit_lost-Ends p n items = elim (Bool-cases (done p)) [
    | inl over ↦ rw over tt
    | inr live ↦ rw live refl
  ]

  visit_dir :
      (p n : Bytes) (items : List CollectionItem)
      → collection_visit root done p (on_dir n) items ≡ (items, go)
  unfolding collection_visit
  visit_dir p n items = refl

  visit_locked :
      (p n : Bytes) (items : List CollectionItem)
      → collection_visit root done p (on_locked n) items ≡ (items, go)
  unfolding collection_visit
  visit_locked p n items = refl

  abbrev Gathers : Node → Walked → Type 0
  Gathers tree (walked items) = items ≡ sort_items (candidates root (files_in [] tree))
  Gathers tree (failed e) = Unit {0}

  sorted_walk-Gathers :
      (tree : Node) (r : List CollectionItem × Outcome ScanError)
      → Ends (add_candidate root) [] (files_in [] tree) r
      → Gathers tree (sorted_walk r)
  sorted_walk-Gathers tree (items, go) h =
      ap sort_items (h ∙ fold_files-candidates root [] (files_in [] tree))
  sorted_walk-Gathers tree (items, fail e) h = tt
  sorted_walk-Gathers tree (items, skip_dir) h = absurd h
  sorted_walk-Gathers tree (items, skip_all) h = absurd h

  walk-Gathers : (tree : Node) → Gathers tree (walk_collection root done tree)
  unfolding walk_collection
  walk-Gathers tree = sorted_walk-Gathers tree (walk (collection_visit root done) tree []) (
      walk-Ends (add_candidate root) (collection_visit root done) visit_file-Ends visit_dir
        visit_locked visit_lost-Ends tree [])

-- A walk that returns rows has one for every file of the tree with an extension of the list and a
-- size that is not zero, in the order of the relative paths, and no others.
pub walk_collection_lem :
    (root : Bytes) (done : Bytes → Bool) (tree : Node) (items : List CollectionItem)
    → walk_collection root done tree ≡ walked items
    → items ≡ sort_items (candidates root (files_in [] tree))
walk_collection_lem root done tree items e =
    subst (Gathers root done tree) e (walk-Gathers root done tree)
