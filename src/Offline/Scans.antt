-- ===== src/Offline/Scans.antt =====
-- services/network_offline_watcher.go: which jobs the watcher adds to the queue.
use loon_agent.Prelude.{
  ℕ, ◌≡◌, refl, ap, ◌∙◌, Bool, true, false, ◌&&◌, ◌||◌, not, some, List, [], ◌∷◌, any, all, arith,
  Bytes, equal, equal_refl,
}
use loon_agent.Storage.Offline.{
  OfflineJob, Draft, Table, has_path, row_of, source_path_exists, create_offline_job,
}
use mathlib.Core.List.{Memᴰ}
use loon_agent.Storage.Offline.Rows.{mem-any}
use loon_agent.Storage.Offline.Reach.{create-fresh}
use loon_agent.Storage.Watches.{ListedWatch}
use loon_agent.Offline.Watcher.{
  Entry, is_partial, is_recent, is_ready, entry_path, draft_of, queued_or, scan_entry, scan_entries,
  scan_one_watch,
}
use loon_agent.Offline.Rounds.{draft-path, guarded, scan_entry-either, scan_entries-keeps}

-- A job with the path is in the table, or the entry is not ready, or the database fails on it.
abbrev pub is_settled : ListedWatch → Table → Entry → Bool
is_settled w t e =
    not (is_ready e) || e.lookup_fails || e.insert_fails || source_path_exists (entry_path w e) t

row-path : (now id : ℕ) (j : Draft) → (row_of now id j).source_path ≡ j.source_path
row-path now id j = refl

new-exists :
    (now : ℕ) (j : Draft) (id : ℕ) (p : Bytes) (t u : Table)
    → create_offline_job now j t ≡ some (id, u)
    → source_path_exists p u ≡ (equal j.source_path p || source_path_exists p t)
unfolding source_path_exists
new-exists now j id p t u h =
    let (_, e) = create-fresh now j id t u h in ap (λ v. any (has_path p) v.rows) e

exists-scan_entry :
    (p : Bytes) (w : ListedWatch) (e : Entry) (t : Table)
    → source_path_exists p t ≡ true
    → source_path_exists p (scan_entry w e t) ≡ true
exists-scan_entry p w e t h =
    scan_entry-either (λ u. source_path_exists p u ≡ true) w e t h
      (λ _ _ id u made. ground (arith, new-exists e.created_at (draft_of w e) id p t u made))

settled-scan_entry :
    (w v : ListedWatch) (e f : Entry) (t : Table)
    → is_settled w t e ≡ true
    → is_settled w (scan_entry v f t) e ≡ true
settled-scan_entry w v e f t h = ground (arith, exists-scan_entry (entry_path w e) v f t)

settled-entries :
    (w : ListedWatch) (es : List Entry) (e : Entry) (t : Table)
    → is_settled w t e ≡ true
    → is_settled w (scan_entries w es t) e ≡ true
settled-entries w es e t h =
    scan_entries-keeps (λ u. is_settled w u e ≡ true) (λ v f u k. settled-scan_entry w v e f u k) w
      es t h

created :
    (now : ℕ) (j : Draft) (t : Table)
    → source_path_exists j.source_path t ≡ false
    → source_path_exists j.source_path (queued_or t (create_offline_job now j t)) ≡ true
unfolding source_path_exists create_offline_job
created now j t h = rw h (rw (equal_refl j.source_path) refl)

guarded-settles :
    (P : Table → Bool) (a b c d f : Bool) (t u : Table)
    → P t ≡ d
    → (d ≡ false → P u ≡ true)
    → (not (not a && not b) || c || f || P (guarded a b c d f t u)) ≡ true
guarded-settles P true b c d f t u h k = refl
guarded-settles P false true c d f t u h k = refl
guarded-settles P false false true d f t u h k = refl
guarded-settles P false false false d true t u h k = refl
guarded-settles P false false false true false t u h k = h
guarded-settles P false false false false false t u h k = k refl

guarded-same :
    (a b c d f : Bool) (t u : Table)
    → (not (not a && not b) || c || f || d) ≡ true
    → guarded a b c d f t u ≡ t
guarded-same true b c d f t u h = refl
guarded-same false true c d f t u h = refl
guarded-same false false true d f t u h = refl
guarded-same false false false true f t u h = refl
guarded-same false false false false true t u h = refl
guarded-same false false false false false t u h = cc

scan_entry-settles :
    (w : ListedWatch) (e : Entry) (t : Table) → is_settled w (scan_entry w e t) e ≡ true
unfolding scan_entry
scan_entry-settles w e t =
    guarded-settles (source_path_exists (entry_path w e)) (is_partial e.name)
      (is_recent e.seen_at e.modified) e.lookup_fails (source_path_exists (entry_path w e) t)
      e.insert_fails t (queued_or t (create_offline_job e.created_at (draft_of w e) t)) refl
      (λ h. created e.created_at (draft_of w e) t h)

settled-same :
    (w : ListedWatch) (e : Entry) (t : Table) → is_settled w t e ≡ true → scan_entry w e t ≡ t
unfolding scan_entry
settled-same w e t h =
    guarded-same (is_partial e.name) (is_recent e.seen_at e.modified) e.lookup_fails
      (source_path_exists (entry_path w e) t) e.insert_fails t _ h

settled_all-same :
    (w : ListedWatch) (es : List Entry) (t : Table)
    → all (is_settled w t) es ≡ true
    → scan_entries w es t ≡ t
unfolding scan_entries
settled_all-same w [] t h = refl
settled_all-same w (e ∷ es) t h =
    ap (scan_entries w es) (settled-same w e t (ground arith))
    ∙ settled_all-same w es t (ground arith)

scan_entries-settles :
    (w : ListedWatch) (es : List Entry) (t : Table)
    → all (is_settled w (scan_entries w es t)) es ≡ true
unfolding scan_entries
scan_entries-settles w [] t = refl
scan_entries-settles w (e ∷ es) t =
    rw (settled-entries w es e (scan_entry w e t) (scan_entry-settles w e t))
      (scan_entries-settles w es (scan_entry w e t))

-- A ready entry has the path.
abbrev pub is_wanted : ListedWatch → List Entry → Bytes → Bool
is_wanted w es p = any (λ e. is_ready e && equal (entry_path w e) p) es

wanted-more :
    (w : ListedWatch) (x : Entry) (all_entries es : List Entry)
    → all (λ e. not (is_ready e) || is_wanted w all_entries (entry_path w e)) es ≡ true
    → all (λ e. not (is_ready e) || is_wanted w (x ∷ all_entries) (entry_path w e)) es ≡ true
wanted-more w x all_entries [] h = refl
wanted-more w x all_entries (e ∷ es) h = ground (arith, wanted-more w x all_entries es)

all_wanted :
    (w : ListedWatch) (es : List Entry)
    → all (λ e. not (is_ready e) || is_wanted w es (entry_path w e)) es ≡ true
all_wanted w [] = refl
all_wanted w (e ∷ es) =
    ground (arith, equal_refl (entry_path w e), wanted-more w e es es (all_wanted w es))

module _ (w : ListedWatch) (test : Bytes → Bool) where
  abbrev Passes : Table → Type 0
  Passes t = all (λ r. test r.source_path) t.rows ≡ true

  scan_entry-Passes :
      (e : Entry) (t : Table)
      → (not (is_ready e) || test (entry_path w e)) ≡ true
      → Passes t
      → Passes (scan_entry w e t)
  scan_entry-Passes e t h k = scan_entry-either Passes w e t k (λ ready _ id u made.
      let (_, f) = create-fresh e.created_at (draft_of w e) id t u made in
      let p : test (draft_of w e).source_path ≡ true = ap test (draft-path w e) ∙ (ground arith) in
      rw f (rw p k))

  scan_entries-Passes :
      (es : List Entry) (t : Table)
      → all (λ e. not (is_ready e) || test (entry_path w e)) es ≡ true
      → Passes t
      → Passes (scan_entries w es t)
  unfolding scan_entries
  scan_entries-Passes [] t h k = k
  scan_entries-Passes (e ∷ es) t h k =
      scan_entries-Passes es (scan_entry w e t) (ground arith)
        (scan_entry-Passes e t (ground arith) k)

all-Mem :
    (p : OfflineJob → Bool) (rs : List OfflineJob)
    → ((r : OfflineJob) → Memᴰ r rs → p r ≡ true)
    → all p rs ≡ true
all-Mem p [] f = refl
all-Mem p (r ∷ rs) f = rw (f r (Memᴰ.head refl)) (all-Mem p rs (λ q m. f q (Memᴰ.tail m)))

-- The path was in the table before, or a ready entry has it.
abbrev pub is_expected : ListedWatch → List Entry → Table → Bytes → Bool
is_expected w es t p = source_path_exists p t || is_wanted w es p

own-is_expected :
    (w : ListedWatch) (es : List Entry) (t : Table)
    → all (λ r. is_expected w es t r.source_path) t.rows ≡ true
unfolding source_path_exists
own-is_expected w es t =
    all-Mem (λ r. is_expected w es t r.source_path) t.rows
      (λ r m. rw (mem-any (has_path r.source_path) r t.rows m (equal_refl r.source_path)) refl)

expected-more :
    (w : ListedWatch) (all_entries es : List Entry) (t : Table)
    → all (λ e. not (is_ready e) || is_wanted w all_entries (entry_path w e)) es ≡ true
    → all (λ e. not (is_ready e) || is_expected w all_entries t (entry_path w e)) es ≡ true
expected-more w all_entries [] t h = refl
expected-more w all_entries (e ∷ es) t h = ground (arith, expected-more w all_entries es t)

-- After the scan of a watch folder there is a job for each of its entries, unless its name is
-- hidden or partial, it was changed in the last 30 seconds or could not be looked at, or the
-- database failed on it. Every job is of a path that had one before, or of an entry that is neither
-- hidden nor partial and has been left alone for 30 seconds. A second scan of the same entries adds
-- no job.
pub scan_one_watch_lem :
    (w : ListedWatch) (es : List Entry) (t : Table)
    → (all (is_settled w (scan_one_watch w (some es) t)) es ≡ true)
      × ((all (λ r. is_expected w es t r.source_path) (scan_one_watch w (some es) t).rows ≡ true)
          × (scan_one_watch w (some es) (scan_one_watch w (some es) t)
              ≡ scan_one_watch w (some es) t))
unfolding scan_one_watch
scan_one_watch_lem w es t = (
  scan_entries-settles w es t,
  (
    scan_entries-Passes w (is_expected w es t) es t (expected-more w es es t (all_wanted w es))
        (own-is_expected w es t),
    settled_all-same w es (scan_entries w es t) (scan_entries-settles w es t),
  ),
)
