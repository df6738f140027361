-- ===== src/Collection/Saved.antt =====
-- services/collection_scanner.go: the file and the snapshot in memory, over any sequence of calls.
use loon_agent.Prelude.{ℕ, ◌≡◌, Bool, true, Option, none, some, Bytes}
use loon_agent.Dict.{Dict}
use loon_agent.Collection.{CollectionSnapshot}
use loon_agent.Collection.Scanner.{CollectionScanner, Surroundings, new_collection_scanner, scan}
use loon_agent.Collection.Edits.{
  Overrides, update_overrides, set_selected, set_folder_override, select_folder,
  queue_selected_uploads,
}
use loon_agent.Collection.Queue.{unselected}

-- A call of the page, a scan that no other call interleaves with, or a restart of the agent, while
-- the file can be written, and read back as it was written.
pub data Step (cs : CollectionScanner) : CollectionScanner → Type 0 where
  overrides : (path : Bytes) (o : Overrides) → Step cs (update_overrides true path o cs).1
  selects : (path : Bytes) (b : Bool) → Step cs (set_selected true path b cs).1
  sets_folder :
      (folder : Bytes) (aid : ℕ) (season resolution source : Bytes)
      → Step cs (set_folder_override true folder aid season resolution source cs).1
  selects_folder : (folder : Bytes) (b : Bool) → Step cs (select_folder true folder b cs).1
  queues : Step cs (queue_selected_uploads true cs).1
  scans : (env : Surroundings) (root : Bytes) → env.writable ≡ true → Step cs (scan env root cs).1
  restarts : Step cs (new_collection_scanner some cs.stored)

pub data Reach : CollectionScanner → Type 0 where
  fresh : Reach (new_collection_scanner some none)
  next : (s t : CollectionScanner) → Reach s → Step s t → Reach t

-- A snapshot without the selections of folders.
unfoldable pub without_picks : Option CollectionSnapshot → Option CollectionSnapshot
without_picks none = none
without_picks (some snap) =
    some (record snap { folder_overrides = unselected snap.folder_overrides })

abbrev pub Agrees : CollectionScanner → Type 0
Agrees cs = without_picks cs.snap ≡ without_picks cs.stored

-- What a call does to the snapshots: nothing, or the file gets what is in memory.
data Settles (s t : CollectionScanner) : Type 0 where
  same : t.snap ≡ s.snap → t.stored ≡ s.stored → Settles s t
  saved : t.snap ≡ t.stored → Settles s t
