-- ===== src/Offline/Watcher.antt =====
-- services/network_offline_watcher.go: a tick of the watcher.
use loon_agent.Prelude.{
  ℕ, ◌+◌, ◌-◌, ◌*◌, ◌^◌, Bool, true, ◌||◌, ◌&&◌, not, ◌++◌, Option, none, some, List, [], ◌∷◌,
  if◌then◌else◌, ltb, length, take, Bytes, codes, has_prefix, has_suffix,
}
use loon_agent.FilePath.{ext, clean}
use loon_agent.Storage.Offline.{Draft, Table, source_path_exists, create_offline_job}
use loon_agent.Storage.Watches.{ListedWatch, WatchTable, list_active_watches}
use loon_agent.Storage.Groups.{GroupTable}

-- 30 seconds, in nanoseconds.
abbrev pub watcher_quiet_period : ℕ
watcher_quiet_period = 30 * 10 ^ 9

-- An entry of a watch folder: the time of its last change, `none` if Info fails, the times at which
-- it is looked at and at which its job is created, and whether the database fails the two calls.
pub record Entry : Type 0 where
  pub name : Bytes
  pub is_dir : Bool
  pub modified : Option ℕ
  pub seen_at : ℕ
  pub created_at : ℕ
  pub lookup_fails : Bool
  pub insert_fails : Bool

abbrev pub is_partial : Bytes → Bool
is_partial name =
    has_prefix name (codes ".") || has_suffix name (codes ".part") || has_suffix name (codes ".tmp")

-- time.Since(modified) < watcherQuietPeriod, for a time after now as well.
abbrev pub is_recent : ℕ → Option ℕ → Bool
is_recent now none = true
is_recent now (some t) = ltb now (t + watcher_quiet_period)

-- strings.TrimSuffix(name, filepath.Ext(name))
unfoldable pub title_from_entry : Bytes → Bool → Bytes
unfolding ext
title_from_entry name is_dir = if is_dir then name else take (length name - length (ext name)) name

unfoldable pub entry_path : ListedWatch → Entry → Bytes
entry_path w e = clean (w.watch.path ++ (b'/' ∷ e.name))

unfoldable pub draft_of : ListedWatch → Entry → Draft
unfolding entry_path title_from_entry
draft_of w e = record {
  source_path = entry_path w e;
  title = title_from_entry e.name e.is_dir;
  group_id = w.watch.group_id;
  group_name_at_creation = w.group_name;
  status = none;
  phase = [];
  progress = 0;
  created_at = none;
}

-- The entry is ready to become a job: the file is neither partial nor still being written.
abbrev pub is_ready : Entry → Bool
is_ready e = not (is_partial e.name) && not (is_recent e.seen_at e.modified)

abbrev pub queued_or : Table → Option (ℕ × Table) → Table
queued_or t none = t
queued_or t (some (id, u)) = u

-- One round of the loop of scanOneWatch.
unfoldable pub scan_entry : ListedWatch → Entry → Table → Table
unfolding draft_of source_path_exists create_offline_job
scan_entry w e t =
    if is_partial e.name
    then t
    else if is_recent e.seen_at e.modified
    then t
    else if e.lookup_fails
    then t
    else if source_path_exists (entry_path w e) t
    then t
    else if e.insert_fails
    then t
    else queued_or t (create_offline_job e.created_at (draft_of w e) t)

unfoldable pub scan_entries : ListedWatch → List Entry → Table → Table
unfolding scan_entry
scan_entries w [] t = t
scan_entries w (e ∷ es) t = scan_entries w es (scan_entry w e t)

-- `none` is an error of os.ReadDir.
unfoldable pub scan_one_watch : ListedWatch → Option (List Entry) → Table → Table
unfolding scan_entries
scan_one_watch w none t = t
scan_one_watch w (some es) t = scan_entries w es t

-- The loop of scanAllWatches over what os.ReadDir finds under each path.
unfoldable pub scan_watches : (Bytes → Option (List Entry)) → List ListedWatch → Table → Table
unfolding scan_one_watch
scan_watches read_dir [] t = t
scan_watches read_dir (w ∷ ws) t =
    scan_watches read_dir ws (scan_one_watch w (read_dir w.watch.path) t)

unfoldable pub scan_all_watches :
    (Bytes → Option (List Entry)) → GroupTable → WatchTable → Table → Table
unfolding scan_watches list_active_watches
scan_all_watches read_dir groups watches t =
    scan_watches read_dir (list_active_watches groups watches) t
