-- ===== src/Collection/Queue.antt =====
-- services/collection_scanner.go: what QueueSelectedUploads takes, and what it leaves.
use loon_agent.Prelude.{
  ◌||◌, codes, ◌∙◌, ℕ, ◌≡◌, refl, ap, inl, inr, Bool, true, false, some, List, [], ◌∷◌, map, filter,
  length, ◌==◌, if◌then◌else◌, arith, Bytes, equal, Bool-cases,
}
use loon_agent.Dict.{Dict, get}
use loon_agent.Collection.{
  CollectionItem, FolderOverride, CollectionSnapshot, override_or_zero, folder_of,
}
use loon_agent.Collection.Scanner.{CollectionScanner, persist_snapshot}
use loon_agent.Collection.Edits.{
  queued, queue_written, with_selected, is_picked, queue_rows, unselect_folders,
  queue_selected_uploads,
}

-- A row that was selected, or whose parent folder was.
abbrev pub was_selected : Dict FolderOverride → CollectionItem → Bool
was_selected m it = it.selected || (override_or_zero (get m (folder_of it))).selected

abbrev pub after_queue : Dict FolderOverride → CollectionItem → CollectionItem
after_queue m it =
    if was_selected m it
    then record it {
      selected = false;
      upload_status = codes "queued";
      upload_detail = codes "Waiting for upload worker";
    }
    else it

abbrev pub picked_count : Dict FolderOverride → List CollectionItem → ℕ
picked_count m items = length (filter (was_selected m) items)

-- The folders, none of them selected.
abbrev pub unselected : Dict FolderOverride → Dict FolderOverride
unselected [] = []
unselected ((k, f) ∷ m) = (k, record f { selected = false }) ∷ unselected m

unselect_folders-unselected : (m : Dict FolderOverride) → unselect_folders m ≡ unselected m
unfolding unselect_folders
unselect_folders-unselected [] = refl
unselect_folders-unselected ((k, f) ∷ m) = elim (Bool-cases f.selected) [
  | inl on ↦ rw on (ap (λ r. (k, with_selected false f) ∷ r) (unselect_folders-unselected m))
  | inr off ↦ rw (off, unselect_folders-unselected m) refl
]

queue_rows_lem :
    (m : Dict FolderOverride) (items : List CollectionItem)
    → queue_rows m items ≡ (picked_count m items, map (after_queue m) items)
unfolding queue_rows
queue_rows_lem m [] = refl
queue_rows_lem m (it ∷ items) = elim (Bool-cases (is_picked m it)) [
  | inl picked ↦ rw (picked, queue_rows_lem m items) refl
  | inr other ↦ rw (other, queue_rows_lem m items) refl
]

get-unselected :
    (m : Dict FolderOverride) (k : Bytes)
    → (override_or_zero (get (unselected m) k)).selected ≡ false
unfolding get
get-unselected [] k = refl
get-unselected ((j, f) ∷ m) k = elim (Bool-cases (equal j k)) [
  | inl here ↦ rw here refl
  | inr there ↦ rw there (get-unselected m k)
]

pub unselected_twice : (m : Dict FolderOverride) → unselected (unselected m) ≡ unselected m
unselected_twice [] = refl
unselected_twice ((k, f) ∷ m) =
    ap (λ r. (k, record f { selected = false }) ∷ r) (unselected_twice m)

unselect_twice : (m : Dict FolderOverride) → unselect_folders (unselected m) ≡ unselected m
unselect_twice m = unselect_folders-unselected (unselected m) ∙ unselected_twice m

module _ (m : Dict FolderOverride) where
  not_picked : (it : CollectionItem) → is_picked (unselected m) (after_queue m it) ≡ false
  unfolding folder_of
  not_picked it = elim (Bool-cases (is_picked m it)) [
    | inl picked ↦ rw picked (get-unselected m (folder_of it))
    | inr other ↦
        let s : it.selected ≡ false = ground arith in
        rw other (rw (s, get-unselected m (folder_of it)) refl)
  ]

  nothing_picked :
      (items : List CollectionItem)
      → queue_rows (unselected m) (map (after_queue m) items) ≡ (0, map (after_queue m) items)
  unfolding queue_rows
  nothing_picked [] = refl
  nothing_picked (it ∷ items) = rw (not_picked it, nothing_picked items) refl

-- The snapshot after the call.
unfoldable pub after_uploads : CollectionSnapshot → CollectionSnapshot
after_uploads snap = record snap {
  items = map (after_queue snap.folder_overrides) snap.items;
  folder_overrides = unselected snap.folder_overrides;
}

-- QueueSelectedUploads on a snapshot: the rows that are selected, or whose folder is, are queued and
-- no longer selected, the others stay as they are, and no folder stays selected. Unless the write
-- fails it returns how many they were; the file is written only if there was one.
pub queue_selected_uploads_lem :
    (writable : Bool) (cs : CollectionScanner) (snap : CollectionSnapshot)
    → cs.snap ≡ some snap
    → queue_selected_uploads writable cs ≡ (
        if picked_count snap.folder_overrides snap.items == 0
        then (queued 0, record cs { snap = some (after_uploads snap) })
        else (
          queue_written writable (picked_count snap.folder_overrides snap.items),
          persist_snapshot writable
              (after_uploads snap)
              (record cs { snap = some (after_uploads snap) }),
        ))
unfolding queue_selected_uploads after_uploads
queue_selected_uploads_lem writable cs snap e =
    rw
      (
        e,
        queue_rows_lem snap.folder_overrides snap.items,
        unselect_folders-unselected snap.folder_overrides,
      )
      refl

after_uploads-queued :
    (writable : Bool) (cs : CollectionScanner) (snap : CollectionSnapshot)
    → cs.snap ≡ some (after_uploads snap)
    → queue_selected_uploads writable cs ≡ (queued 0, cs)
unfolding queue_selected_uploads after_uploads
after_uploads-queued writable cs snap e =
    rw (e, nothing_picked snap.folder_overrides snap.items, unselect_twice snap.folder_overrides)
      refl

persist-snap :
    (writable : Bool) (snap : CollectionSnapshot) (cs : CollectionScanner)
    → (persist_snapshot writable snap cs).snap ≡ cs.snap
persist-snap true snap cs = refl
persist-snap false snap cs = refl

queue-snap :
    (writable : Bool) (cs : CollectionScanner) (snap : CollectionSnapshot)
    → cs.snap ≡ some snap
    → (queue_selected_uploads writable cs).1.snap ≡ some (after_uploads snap)
queue-snap writable cs snap e =
    rw (queue_selected_uploads_lem writable cs snap e)
      (elim (Bool-cases (picked_count snap.folder_overrides snap.items == 0)) [
        | inl nothing ↦ rw nothing refl
        | inr some_rows ↦ rw some_rows (persist-snap writable (after_uploads snap) _)
      ])

-- After a call of QueueSelectedUploads on a snapshot, written or not, the next call queues nothing
-- and changes nothing.
pub queue_selected_uploads-twice :
    (writable again : Bool) (cs : CollectionScanner) (snap : CollectionSnapshot)
    → cs.snap ≡ some snap
    → queue_selected_uploads again (queue_selected_uploads writable cs).1
      ≡ (queued 0, (queue_selected_uploads writable cs).1)
queue_selected_uploads-twice writable again cs snap e =
    after_uploads-queued again (queue_selected_uploads writable cs).1 snap
      (queue-snap writable cs snap e)
