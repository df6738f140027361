-- ===== src/Collection/Tests.antt =====
-- Runs of services/collection_scanner.go on small collections, and the theorems there.
use loon_agent.Prelude.{
  ℕ, ◌≤◌, ◌≡◌, refl, Bool, true, false, Option, none, some, List, [], ◌∷◌, length, leb, Bytes,
  codes,
}
use loon_agent.FileTree.{child_path, regular, Node, file, dir, nil, cons}
use loon_agent.FilePath.{clean, ext}
use loon_agent.Dict.{get}
use loon_agent.Collection.{CollectionItem, CollectionSnapshot, override_or_zero, folder_of}
use loon_agent.Collection.Walk.{found_item, walked, walk_collection}
use loon_agent.Collection.Enrich.{TitleMatchResult, enrich}
use loon_agent.Collection.Enrich.Rows.{site_of, enriched_at, failures}
use loon_agent.Collection.Enrich.Loop.{batches, enrich_lem}
use loon_agent.Collection.Scanner.{
  CollectionScanner, Surroundings, finished, snapshot_of, new_collection_scanner, begin_scan, scan,
}
use loon_agent.Collection.Edits.{queued, select_folder, set_folder_override, queue_selected_uploads}
use loon_agent.Collection.Cascade.{effective, cascaded, set_folder_override-effective}
use loon_agent.Collection.Queue.{
  picked_count, after_uploads, queue_selected_uploads_lem, queue_selected_uploads-twice,
}
use loon_agent.Collection.Saved.{next, scans}
use loon_agent.Collection.Running
use loon_agent.Collection.Whole.{scanned_rows, wired, scan_lem}

abbrev of_size : Bytes → ℕ → Node
of_size name n = file (record { name = name; size = n; kind = regular })

abbrev shelf : Node
shelf = dir (codes "media") (
    cons
      (dir (codes "Show") (
        cons (of_size (codes "02.MKV") 7)
          (cons (of_size (codes "01.mkv") 5) (cons (of_size (codes "01.nfo") 1) nil))))
      (cons (of_size (codes "Film.mp4") 9) (cons (of_size (codes "stub.mp4") 0) nil)))

abbrev never : Bytes → Bool
never p = false

abbrev no_failure : ℕ → Bool
no_failure k = false

abbrev known : Bytes → TitleMatchResult
known name = record {
  matched = true;
  aid = length name;
  anime_title = name;
  mal_id = 0;
  anilist_id = 0;
  format = codes "TV";
  cover_url = [];
  resolution_hint = codes "1080p";
  source_hint = codes "BD";
}

abbrev idle : CollectionScanner
idle = record { snap = none; scanning = false; last_scan_err = none; stored = none }

abbrev shelf_rows : List CollectionItem
shelf_rows =
    found_item (codes "/media") (codes "Film.mp4")
      (record { name = codes "Film.mp4"; size = 9; kind = regular })
    ∷ found_item (codes "/media") (codes "Show/01.mkv")
        (record { name = codes "01.mkv"; size = 5; kind = regular })
    ∷ found_item (codes "/media") (codes "Show/02.MKV")
        (record { name = codes "02.MKV"; size = 7; kind = regular })
    ∷ []

shelf_walk : walk_collection (codes "/media") never shelf ≡ walked shelf_rows
unfolding walk_collection child_path clean ext
shelf_walk = refl

abbrev shelf_snap : CollectionSnapshot
shelf_snap = snapshot_of (codes "/media") (scanned_rows known no_failure 9 (codes "/media") shelf)

abbrev shelf_scan : Surroundings
shelf_scan = wired known no_failure 9 never shelf

scan_lem_example :
    ((scan shelf_scan (codes " /media ") idle).0 ≡ finished)
    × (((scan shelf_scan (codes " /media ") idle).1.snap ≡ some shelf_snap)
        × (((scan shelf_scan (codes " /media ") idle).1.stored ≡ some shelf_snap)
            × ((scan shelf_scan (codes " /media ") idle).1.scanning ≡ false)))
scan_lem_example =
    scan_lem known no_failure 9 never (codes " /media ") shelf shelf_rows idle refl refl shelf_walk

enrich_lem_test :
    ((enrich (site_of known no_failure) (leb 9) shelf_rows).items
      ≡ enriched_at known no_failure 9 0 shelf_rows)
    × (((enrich (site_of known no_failure) (leb 9) shelf_rows).batch_errors ≡ 0)
        × ((enrich (site_of known no_failure) (leb 9) shelf_rows).interrupted ≡ false))
unfolding failures batches
enrich_lem_test = enrich_lem known no_failure 9 shelf_rows

-- The folder "Show" is selected, and its files are from now on of entry 42, season 1.
abbrev listed : CollectionScanner
listed = record idle { snap = some (snapshot_of (codes "/media") shelf_rows) }

abbrev in_show : CollectionItem
in_show =
    found_item (codes "/media") (codes "Show/01.mkv")
      (record { name = codes "01.mkv"; size = 5; kind = regular })

set_folder_override-effective_example :
    effective
      (set_folder_override true (codes "Show") 42 (codes " 1 ") [] (codes "WEB") listed).1.snap
      in_show
    ≡ record { aid = 42; season = codes "1"; resolution = []; source = codes "WEB" }
unfolding folder_of cascaded
set_folder_override-effective_example =
    set_folder_override-effective true (codes "Show") 42 (codes " 1 ") [] (codes "WEB") listed
      (snapshot_of (codes "/media") shelf_rows) in_show refl

abbrev picked : CollectionScanner
picked = (select_folder true (codes "Show") true listed).1

abbrev picked_snap : CollectionSnapshot
picked_snap = record (snapshot_of (codes "/media") shelf_rows) {
  folder_overrides =
      (codes "Show", record { aid = 0; season = []; resolution = []; source = []; selected = true })
      ∷ [];
}

picked_test : picked.snap ≡ some picked_snap
unfolding select_folder
picked_test = refl

two_picked : picked_count picked_snap.folder_overrides picked_snap.items ≡ 2
unfolding folder_of get
two_picked = refl

queue_selected_uploads_lem_example : queue_selected_uploads true picked ≡ (
  queued 2,
  record picked {
    snap = some (after_uploads picked_snap);
    stored = some (after_uploads picked_snap);
  },
)
unfolding folder_of get
queue_selected_uploads_lem_example = queue_selected_uploads_lem true picked picked_snap picked_test

queue_selected_uploads-twice_example :
    queue_selected_uploads true (queue_selected_uploads false picked).1
    ≡ (queued 0, (queue_selected_uploads false picked).1)
queue_selected_uploads-twice_example =
    queue_selected_uploads-twice false true picked picked_snap picked_test

-- A folder with no file of its own is selected, and nothing is queued: the selection is dropped in
-- memory alone, and is back after a restart.
abbrev nothing_there : CollectionScanner
nothing_there = (queue_selected_uploads true (select_folder true (codes "Empty") true listed).1).1

is_selected : Bytes → Option CollectionSnapshot → Bool
is_selected folder none = false
is_selected folder (some snap) = (override_or_zero (get snap.folder_overrides folder)).selected

dropped_in_memory : is_selected (codes "Empty") nothing_there.snap ≡ false
unfolding is_selected folder_of get select_folder queue_selected_uploads
dropped_in_memory = refl

back_after_restart :
    is_selected (codes "Empty") (new_collection_scanner some nothing_there.stored).snap ≡ true
unfolding is_selected folder_of get new_collection_scanner select_folder queue_selected_uploads
back_after_restart = refl

Reach-one_scan_example : (1 ≤ 1) × (true ≡ true)
unfolding begin_scan
Reach-one_scan_example =
    Running.Reach-one_scan (record { scanner = record idle { scanning = true }; scans = 1 })
      (Running.next _ _ (Running.start idle refl)
        (Running.begins (record idle { scanning = true }) refl))
