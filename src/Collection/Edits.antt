-- ===== src/Collection/Edits.antt =====
-- services/collection_scanner.go: the calls of the Collection page on the snapshot.
use loon_agent.Prelude.{
  ℕ, suc, Bool, true, false, not, ◌&&◌, ◌||◌, Option, none, some, List, [], ◌∷◌, ◌==◌, any,
  if◌then◌else◌, Bytes, codes, equal, trim_space,
}
use loon_agent.Dict.{Dict, get, put, remove}
use loon_agent.Collection.{
  CollectionItem, FolderOverride, CollectionSnapshot, override_or_zero, folder_of,
}
use loon_agent.Collection.Scanner.{CollectionScanner, persist_snapshot}

-- What the calls of the page return.
pub data Reply : Type 0 where
  ok no_snapshot not_found write_failed : Reply
  queued : ℕ → Reply

abbrev written : Bool → Reply
written true = ok
written false = write_failed

-- The snapshot is changed in place, and written.
abbrev pub changed : Bool → CollectionSnapshot → CollectionScanner → Reply × CollectionScanner
changed writable snap cs =
    (written writable, persist_snapshot writable snap (record cs { snap = some snap }))

-- The first row with the path is changed.
unfoldable pub at_path :
    Bytes → (CollectionItem → CollectionItem) → List CollectionItem → List CollectionItem
at_path path f [] = []
at_path path f (it ∷ items) =
    let rest = at_path path f items in if equal it.path path then f it ∷ items else it ∷ rest

abbrev pub has_item : Bytes → List CollectionItem → Bool
has_item path = any (λ it. equal it.path path)

-- The loop over the rows that UpdateOverrides and SetSelected share.
abbrev pub edit_row :
    Bool
    → Bytes
    → (CollectionItem → CollectionItem)
    → Option CollectionSnapshot
    → CollectionScanner
    → Reply × CollectionScanner
edit_row writable path f none cs = (no_snapshot, cs)
edit_row writable path f (some snap) cs =
    if has_item path snap.items
    then changed writable (record snap { items = at_path path f snap.items }) cs
    else (not_found, cs)

pub record Overrides : Type 0 where
  pub aid : ℕ
  pub resolution : Bytes
  pub source : Bytes
  pub season : Bytes
  pub episode : Bytes

abbrev pub with_overrides : Overrides → CollectionItem → CollectionItem
with_overrides o it = record it {
  override_aid = o.aid;
  override_resolution = trim_space o.resolution;
  override_source = trim_space o.source;
  override_season = trim_space o.season;
  override_episode = trim_space o.episode;
}

unfoldable pub update_overrides :
    Bool → Bytes → Overrides → CollectionScanner → Reply × CollectionScanner
unfolding at_path
update_overrides writable path o cs = edit_row writable path (with_overrides o) cs.snap cs

unfoldable pub set_selected : Bool → Bytes → Bool → CollectionScanner → Reply × CollectionScanner
unfolding at_path
set_selected writable path selected cs =
    edit_row writable path (λ it. record it { selected = selected }) cs.snap cs

abbrev pub is_blank : FolderOverride → Bool
is_blank f =
    (f.aid == 0)
    && equal f.season []
    && equal f.resolution []
    && equal f.source []
    && not f.selected

abbrev pub store_override : Bytes → FolderOverride → Dict FolderOverride → Dict FolderOverride
store_override folder f m = if is_blank f then remove m folder else put m folder f

abbrev pub with_folder_values : ℕ → Bytes → Bytes → Bytes → FolderOverride → FolderOverride
with_folder_values aid season resolution source f = record f {
  aid = aid;
  season = trim_space season;
  resolution = trim_space resolution;
  source = trim_space source;
}

abbrev pub edit_folders :
    Bool
    → (Dict FolderOverride → Dict FolderOverride)
    → Option CollectionSnapshot
    → CollectionScanner
    → Reply × CollectionScanner
edit_folders writable f none cs = (no_snapshot, cs)
edit_folders writable f (some snap) cs =
    changed writable (record snap { folder_overrides = f snap.folder_overrides }) cs

unfoldable pub set_folder_override :
    Bool → Bytes → ℕ → Bytes → Bytes → Bytes → CollectionScanner → Reply × CollectionScanner
unfolding get put remove
set_folder_override writable folder aid season resolution source cs =
    edit_folders writable
      (λ m.
        store_override folder
          (with_folder_values aid season resolution source (override_or_zero (get m folder))) m)
      cs.snap cs

abbrev pub with_selected : Bool → FolderOverride → FolderOverride
with_selected selected f = record f { selected = selected }

unfoldable pub select_folder : Bool → Bytes → Bool → CollectionScanner → Reply × CollectionScanner
unfolding get put
select_folder writable folder selected cs =
    edit_folders writable
      (λ m. put m folder (with_selected selected (override_or_zero (get m folder)))) cs.snap cs

-- Whether the next upload takes a row.
abbrev pub is_picked : Dict FolderOverride → CollectionItem → Bool
is_picked m it = it.selected || (override_or_zero (get m (folder_of it))).selected

abbrev pub queue_row : CollectionItem → CollectionItem
queue_row it = record it {
  selected = false;
  upload_status = codes "queued";
  upload_detail = codes "Waiting for upload worker";
}

-- The loop over the rows, with the number of those that are queued.
unfoldable pub queue_rows : Dict FolderOverride → List CollectionItem → ℕ × List CollectionItem
unfolding get folder_of
queue_rows m [] = (0, [])
queue_rows m (it ∷ items) =
    let (n, rest) = queue_rows m items in
    if is_picked m it then (suc n, queue_row it ∷ rest) else (n, it ∷ rest)

unfoldable pub unselect_folders : Dict FolderOverride → Dict FolderOverride
unselect_folders [] = []
unselect_folders ((k, f) ∷ m) =
    (k, if f.selected then with_selected false f else f) ∷ unselect_folders m

abbrev pub queue_written : Bool → ℕ → Reply
queue_written true n = queued n
queue_written false n = write_failed

abbrev queue_in : Bool → Option CollectionSnapshot → CollectionScanner → Reply × CollectionScanner
queue_in writable none cs = (no_snapshot, cs)
queue_in writable (some snap) cs =
    let (n, items) = queue_rows snap.folder_overrides snap.items in
    let after = record snap {
      items = items;
      folder_overrides = unselect_folders snap.folder_overrides;
    } in
    if n == 0 then (queued 0, record cs { snap = some after }) else (
      queue_written writable n,
      persist_snapshot writable after (record cs { snap = some after }),
    )

unfoldable pub queue_selected_uploads : Bool → CollectionScanner → Reply × CollectionScanner
unfolding queue_rows unselect_folders
queue_selected_uploads writable cs = queue_in writable cs.snap cs
