-- ===== src/Offline/Rounds.antt =====
-- services/network_offline_watcher.go: a round of the watcher creates a job or does nothing.
use loon_agent.Prelude.{
  ℕ, ◌≡◌, refl, sym, inl, inr, Bool, true, false, ◌&&◌, not, Option, none, some, List, [], ◌∷◌,
  ◌++◌, arith, subst, if◌then◌else◌, Bytes, Option-cases,
}
use mathlib.Core.List.{Memᴰ}
use loon_agent.FilePath.{clean}
use loon_agent.Storage.Offline.{Draft, Table, source_path_exists, create_offline_job}
use loon_agent.Storage.Offline.Reach.{Reach, next, creates}
use loon_agent.Storage.Watches.{ListedWatch, WatchTable, list_active_watches}
use loon_agent.Storage.Groups.{GroupTable}
use loon_agent.Offline.Watcher.{
  Entry, is_partial, is_recent, is_ready, entry_path, draft_of, title_from_entry, queued_or,
  scan_entry, scan_entries, scan_one_watch, scan_watches, scan_all_watches,
}

draft-status : (w : ListedWatch) (e : Entry) → (draft_of w e).status ≡ none
unfolding draft_of
draft-status w e = refl

pub draft-path : (w : ListedWatch) (e : Entry) → (draft_of w e).source_path ≡ entry_path w e
unfolding draft_of
draft-path w e = refl

-- The nest of the guards of a round: partial, recent, lookup failed, there already, insert failed.
abbrev pub guarded : Bool → Bool → Bool → Bool → Bool → Table → Table → Table
guarded a b c d f t u =
    if a then t else if b then t else if c then t else if d then t else if f then t else u

guarded-keeps :
    (P : Table → Type 0) (a b c d f : Bool) (t u : Table)
    → P t
    → ((not a && not b) ≡ true → d ≡ false → P u)
    → P (guarded a b c d f t u)
guarded-keeps P true b c d f t u h k = h
guarded-keeps P false true c d f t u h k = h
guarded-keeps P false false true d f t u h k = h
guarded-keeps P false false false true f t u h k = h
guarded-keeps P false false false false true t u h k = h
guarded-keeps P false false false false false t u h k = k refl refl

-- What a round keeps: either nothing happens, or the entry is ready, no job has its path, and one
-- job is created.
pub scan_entry-either :
    (P : Table → Type 0) (w : ListedWatch) (e : Entry) (t : Table)
    → P t
    → (is_ready e ≡ true
        → source_path_exists (entry_path w e) t ≡ false
        → (id : ℕ) (u : Table) → create_offline_job e.created_at (draft_of w e) t ≡ some (id, u)
        → P u)
    → P (scan_entry w e t)
unfolding scan_entry
scan_entry-either P w e t same new =
    guarded-keeps P (is_partial e.name) (is_recent e.seen_at e.modified) e.lookup_fails
      (source_path_exists (entry_path w e) t) e.insert_fails t _ same
      (λ ready new_path. elim (Option-cases (create_offline_job e.created_at (draft_of w e) t)) [
        | inl none_made ↦ subst (λ o. P (queued_or t o)) (sym none_made) same
        | inr ((id, u), made) ↦
            subst (λ o. P (queued_or t o)) (sym made) (new ready new_path id u made)
      ])

module _ (P : Table → Type 0)
    (keeps : (w : ListedWatch) (e : Entry) (t : Table) → P t → P (scan_entry w e t)) where
  pub scan_entries-keeps :
      (w : ListedWatch) (es : List Entry) (t : Table) → P t → P (scan_entries w es t)
  unfolding scan_entries
  scan_entries-keeps w [] t h = h
  scan_entries-keeps w (e ∷ es) t h = scan_entries-keeps w es (scan_entry w e t) (keeps w e t h)

-- The job of a ready entry of a watch folder.
abbrev pub job_for : ListedWatch → Entry → Draft
job_for w e = record {
  source_path = clean (w.watch.path ++ (b'/' ∷ e.name));
  title = title_from_entry e.name e.is_dir;
  group_id = w.watch.group_id;
  group_name_at_creation = w.group_name;
  status = none;
  phase = [];
  progress = 0;
  created_at = none;
}

module _ (read_dir : Bytes → Option (List Entry)) (ws : List ListedWatch) (t : Table) where
  -- Tables that come from `t` by creating jobs alone: each for an entry that a listed folder holds,
  -- that is neither partial nor recent, and whose path no job has so far.
  pub data Creations : Table → Type 0 where
    no_creation : Creations t
    creation :
        (w : ListedWatch) (es : List Entry) (e : Entry) (id : ℕ) (u v : Table)
        → Creations u
        → Memᴰ w ws
        → read_dir w.watch.path ≡ some es
        → Memᴰ e es
        → is_partial e.name ≡ false
        → is_recent e.seen_at e.modified ≡ false
        → source_path_exists (job_for w e).source_path u ≡ false
        → create_offline_job e.created_at (job_for w e) u ≡ some (id, v)
        → Creations v

  scan_entry-Creations :
      (w : ListedWatch) (es : List Entry) (e : Entry) (u : Table)
      → Memᴰ w ws
      → read_dir w.watch.path ≡ some es
      → Memᴰ e es
      → Creations u
      → Creations (scan_entry w e u)
  unfolding draft_of entry_path
  scan_entry-Creations w es e u listed there held h =
      scan_entry-either Creations w e u h (λ ready new_path id v made.
        creation w es e id u v h listed there held (ground arith) (ground arith) new_path made)

  scan_entries-Creations :
      (w : ListedWatch) (es left : List Entry) (u : Table)
      → Memᴰ w ws
      → read_dir w.watch.path ≡ some es
      → ((e : Entry) → Memᴰ e left → Memᴰ e es)
      → Creations u
      → Creations (scan_entries w left u)
  unfolding scan_entries
  scan_entries-Creations w es [] u listed there held h = h
  scan_entries-Creations w es (e ∷ left) u listed there held h =
      scan_entries-Creations w es left (scan_entry w e u) listed there (λ f m. held f (Memᴰ.tail m))
        (scan_entry-Creations w es e u listed there (held e (Memᴰ.head refl)) h)

  scan_one-Creations :
      (w : ListedWatch) (o : Option (List Entry)) (u : Table)
      → Memᴰ w ws
      → read_dir w.watch.path ≡ o
      → Creations u
      → Creations (scan_one_watch w o u)
  unfolding scan_one_watch
  scan_one-Creations w none u listed there h = h
  scan_one-Creations w (some es) u listed there h =
      scan_entries-Creations w es es u listed there (λ e m. m) h

  scan_watches-Creations :
      (left : List ListedWatch) (u : Table)
      → ((w : ListedWatch) → Memᴰ w left → Memᴰ w ws)
      → Creations u
      → Creations (scan_watches read_dir left u)
  unfolding scan_watches
  scan_watches-Creations [] u listed h = h
  scan_watches-Creations (w ∷ left) u listed h =
      scan_watches-Creations left (scan_one_watch w (read_dir w.watch.path) u)
        (λ v m. listed v (Memᴰ.tail m))
        (scan_one-Creations w (read_dir w.watch.path) u (listed w (Memᴰ.head refl)) refl h)

  Creations-Reach : {u : Table} → Reach t → Creations u → Reach u
  Creations-Reach r no_creation = r
  Creations-Reach r (creation w es e id u v c _ _ _ _ _ _ made) =
      next u v (Creations-Reach r c) (creates e.created_at (job_for w e) id v refl made)

-- A tick of the watcher only creates jobs, one after the other, whatever the folders hold and
-- wherever the file system or the database fails: each for an entry that os.ReadDir finds in the
-- folder of an active watch, that is neither partial nor recent, and whose path no job has when it
-- is created. So it takes a table that can be reached to one.
pub scan_all_watches-Creations :
    (read_dir : Bytes → Option (List Entry)) (groups : GroupTable) (watches : WatchTable)
    (t : Table)
    → Reach t
    → Creations read_dir
        (list_active_watches groups watches)
        t
        (scan_all_watches read_dir groups watches t)
      × Reach (scan_all_watches read_dir groups watches t)
unfolding scan_all_watches
scan_all_watches-Creations read_dir groups watches t r =
    let ws = list_active_watches groups watches in
    let made = scan_watches-Creations read_dir ws t ws t (λ w m. m) no_creation in
    (made, Creations-Reach read_dir ws t r made)
