-- ===== src/Collection/Scanner.antt =====
-- services/collection_scanner.go: the state of the scanner, and Scan.
use loon_agent.Prelude.{
  ℕ, zero, suc, Bool, true, false, Option, none, some, List, [], length, if◌then◌else◌, Bytes,
  equal, trim_space,
}
use loon_agent.FileTree.{Node}
use loon_agent.Dict.{empty}
use loon_agent.Collection.{CollectionItem, CollectionSnapshot}
use loon_agent.Collection.Walk.{
  ScanError, root_missing, root_inaccessible, persist_failed, batches_failed, Walked, walked,
  failed, walk_collection,
}
use loon_agent.Collection.Enrich.{Site, Enriched, enrich}

-- `stored` is the JSON file; the mutex makes each call one step.
pub record CollectionScanner : Type 0 where
  pub snap : Option CollectionSnapshot
  pub scanning : Bool
  pub last_scan_err : Option ScanError
  pub stored : Option CollectionSnapshot

-- `reread` is what json.Unmarshal makes of what json.MarshalIndent wrote, `none` being its error.
unfoldable pub new_collection_scanner :
    (CollectionSnapshot → Option CollectionSnapshot) → Option CollectionSnapshot → CollectionScanner
new_collection_scanner reread none = record {
  snap = none;
  scanning = false;
  last_scan_err = none;
  stored = none;
}
new_collection_scanner reread (some file) = record {
  snap = reread file;
  scanning = false;
  last_scan_err = none;
  stored = some file;
}

-- The temporary file and the rename: when a step of it fails, the old file stays.
abbrev pub persist_snapshot : Bool → CollectionSnapshot → CollectionScanner → CollectionScanner
persist_snapshot true snap cs = record cs { stored = some snap }
persist_snapshot false snap cs = cs

abbrev pub set_last_err : ScanError → CollectionScanner → CollectionScanner
set_last_err e cs = record cs { last_scan_err = some e }

-- What a scan meets: the tree at its root, `none` if os.Stat fails; where and before which batch
-- the context is done; the site, if one is wired; and whether the file can be written.
pub record Surroundings : Type 0 where
  pub tree : Option Node
  pub done_at : Bytes → Bool
  pub done_before : ℕ → Bool
  pub site : Option Site
  pub writable : Bool

-- `none` is the refusal of a second scan.
unfoldable pub begin_scan : CollectionScanner → Option CollectionScanner
begin_scan cs =
    if cs.scanning then none else some (record cs { scanning = true; last_scan_err = none })

unfoldable pub end_scan : CollectionScanner → CollectionScanner
end_scan cs = record cs { scanning = false }

-- The error that enrich leaves in the state: none if it was interrupted.
abbrev note_errors : Enriched → CollectionScanner → CollectionScanner
note_errors e cs =
    if e.interrupted
    then cs
    else elim e.batch_errors [ zero ↦ cs | suc n ↦ set_last_err (batches_failed (suc n)) cs ]

abbrev pub snapshot_of : Bytes → List CollectionItem → CollectionSnapshot
snapshot_of root items = record {
  scan_root = root;
  total_count = length items;
  items = items;
  folder_overrides = empty;
}

abbrev pub refuse : ScanError → CollectionScanner → Option ScanError × CollectionScanner
refuse e cs = (some e, set_last_err e cs)

-- The snapshot is swapped in before it is written.
abbrev pub swap_in :
    Bool → CollectionSnapshot → CollectionScanner → Option ScanError × CollectionScanner
swap_in true snap cs = (none, record cs { snap = some snap; stored = some snap })
swap_in false snap cs = refuse persist_failed (record cs { snap = some snap })

abbrev pub with_items :
    Surroundings → Bytes → Walked → CollectionScanner → Option ScanError × CollectionScanner
with_items env root (failed e) cs = refuse e cs
with_items env root (walked items) cs = elim env.site [
  | none ↦ swap_in env.writable (snapshot_of root items) cs
  | some site ↦
      let enriched = enrich site env.done_before items in
      swap_in env.writable (snapshot_of root enriched.items) (note_errors enriched cs)
]

abbrev pub with_tree :
    Surroundings → Bytes → Option Node → CollectionScanner → Option ScanError × CollectionScanner
with_tree env root none cs = refuse root_inaccessible cs
with_tree env root (some tree) cs = with_items env root (walk_collection root env.done_at tree) cs

-- Scan between its two critical sections; an error of `none` is nil.
unfoldable pub scan_body :
    Surroundings → Bytes → CollectionScanner → Option ScanError × CollectionScanner
unfolding walk_collection enrich
scan_body env root cs =
    if equal (trim_space root) []
    then refuse root_missing cs
    else with_tree env (trim_space root) env.tree cs

pub data ScanResult : Type 0 where
  in_progress finished : ScanResult
  failed_with : ScanError → ScanResult

abbrev scan_result : Option ScanError → ScanResult
scan_result none = finished
scan_result (some e) = failed_with e

abbrev pub after_begin :
    Surroundings
    → Bytes
    → CollectionScanner
    → Option CollectionScanner
    → ScanResult × CollectionScanner
after_begin env root cs none = (in_progress, cs)
after_begin env root cs (some begun) =
    let (e, t) = scan_body env root begun in (scan_result e, end_scan t)

-- A scan that no other call interleaves with.
unfoldable pub scan : Surroundings → Bytes → CollectionScanner → ScanResult × CollectionScanner
unfolding begin_scan end_scan scan_body
scan env root cs = after_begin env root cs (begin_scan cs)
