-- ===== src/Upload/Stage/Count.antt =====
-- services/upload_obfuscate.go: what countStagedFiles returns.
use loon_agent.Prelude.{◌≡◌, refl, ◌∙◌, ap, Bool, true, false, [], Bytes, if◌then◌else◌}
use loon_agent.FileTree.{
  FileInfo, Node, file, dir, locked, lost, Outcome, go, skip_dir, skip_all, fail, walk, walk_node,
  at_root,
}
use loon_agent.Upload.Stage.{
  StageCounts, StageError, walk_error, no_counts, tally, ok, err, content_visit, count_file,
  counted, count_staged_files,
}
use loon_agent.Upload.Stage.Shipped.{
  shipped, is_readable, counts_of, add_all, add_all-counts_of, Tallies, Tracks,
}
use loon_agent.Upload.Stage.Tracking.{node-Tracks}
use loon_agent.Upload.Stage.Ending.{Goes, Ends, node-Ends}

count_file-Tallies :
    (p : Bytes) (i : FileInfo) (c : StageCounts)
    → Tallies (λ d. d) (tally c i.size) (count_file p i c)
unfolding count_file
count_file-Tallies p i c = refl

count_file-Goes : (p : Bytes) (i : FileInfo) (c : StageCounts) → Goes true (count_file p i c)
unfolding count_file
count_file-Goes p i c = tt

counted-Ends :
    (b : Bool) (x : Node) (c : StageCounts) (r : StageCounts × Outcome StageError)
    → Tracks (λ d. d) x c r
    → Ends b x r
    → counted (at_root r) ≡ (if b then ok c else err walk_error)
counted-Ends true (file _) c (s, go) t e = ap ok t
counted-Ends true (dir _ _) c (s, go) t e = ap ok t
counted-Ends true (locked _) c (s, go) t e = ap ok t
counted-Ends true (lost _) c (s, go) t e = ap ok t
counted-Ends true (dir _ _) c (s, skip_dir) t e = ap ok t
counted-Ends true (file _) c (s, skip_dir) t e = absurd e
counted-Ends true (locked _) c (s, skip_dir) t e = absurd e
counted-Ends true (lost _) c (s, skip_dir) t e = absurd e
counted-Ends true (file _) c (s, skip_all) t e = absurd e
counted-Ends true (dir _ _) c (s, skip_all) t e = absurd e
counted-Ends true (locked _) c (s, skip_all) t e = absurd e
counted-Ends true (lost _) c (s, skip_all) t e = absurd e
counted-Ends true (file _) c (s, fail x) t e = absurd e
counted-Ends true (dir _ _) c (s, fail x) t e = absurd e
counted-Ends true (locked _) c (s, fail x) t e = absurd e
counted-Ends true (lost _) c (s, fail x) t e = absurd e
counted-Ends false (file _) c (s, go) t e = absurd e
counted-Ends false (dir _ _) c (s, go) t e = absurd e
counted-Ends false (locked _) c (s, go) t e = absurd e
counted-Ends false (lost _) c (s, go) t e = absurd e
counted-Ends false (file _) c (s, skip_dir) t e = absurd e
counted-Ends false (dir _ _) c (s, skip_dir) t e = absurd e
counted-Ends false (locked _) c (s, skip_dir) t e = absurd e
counted-Ends false (lost _) c (s, skip_dir) t e = absurd e
counted-Ends false (file _) c (s, skip_all) t e = absurd e
counted-Ends false (dir _ _) c (s, skip_all) t e = absurd e
counted-Ends false (locked _) c (s, skip_all) t e = absurd e
counted-Ends false (lost _) c (s, skip_all) t e = absurd e
counted-Ends false (file _) c (s, fail x) t e = ap err e
counted-Ends false (dir _ _) c (s, fail x) t e = ap err e
counted-Ends false (locked _) c (s, fail x) t e = ap err e
counted-Ends false (lost _) c (s, fail x) t e = ap err e

-- On a tree that the walk can read, countStagedFiles returns the number of the files that pass the
-- guards outside the agent's own directories and the sum of their sizes as an int64; on any other
-- tree it returns the walk error.
pub count_staged_files_total :
    (root : Node)
    → count_staged_files root
      ≡ (if is_readable root then ok (counts_of (shipped root)) else err walk_error)
unfolding count_staged_files
count_staged_files_total root = rw (← add_all-counts_of (shipped root)) (
    unfold walk in
    counted-Ends (is_readable root) root (add_all no_counts (shipped root))
      (walk_node (content_visit count_file) [] root no_counts)
      (node-Tracks (λ d. d) count_file count_file-Tallies [] root no_counts)
      (node-Ends count_file count_file-Goes [] root no_counts))

pub count_staged_files-readable :
    (root : Node)
    → is_readable root ≡ true
    → count_staged_files root ≡ ok (counts_of (shipped root))
count_staged_files-readable root h = count_staged_files_total root ∙ rw h refl
