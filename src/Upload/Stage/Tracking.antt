-- ===== src/Upload/Stage/Tracking.antt =====
-- Any walk with the guards of the staging walks and an action that tallies keeps the tally of the
-- shipped files, and where the action never fails it ends well just on a readable tree.
use loon_agent.Prelude.{refl, Bytes, contains, Bool-cases, inl, inr}
use loon_agent.FileTree.{
  FileInfo, Node, file, dir, locked, lost, Nodes, nil, cons, on_file, Outcome, go, skip_dir,
  skip_all, fail, walk_node, walk_nodes, child_path, node_name,
}
use loon_agent.Upload.Content.{agent_managed_dirs}
use loon_agent.Upload.Stage.{StageCounts, StageError, tally, is_skipped, content_visit}
use loon_agent.Upload.Stage.Shipped.{
  shipped, shipped_all, add_all, add_all-append, Tallies, Tracks, Tracks-after_entry,
}

module _ {S : Type 0} (want : S → StageCounts) (act : Bytes → FileInfo → S → S × Outcome StageError)
    (tallies : (p : Bytes) (i : FileInfo) (s : S)
      → Tallies want (tally (want s) i.size) (act p i s)) where
  on_file-Tallies :
      (p : Bytes) (i : FileInfo) (s : S)
      → Tallies want (add_all (want s) (shipped (file i))) (content_visit act p (on_file i) s)
  unfolding content_visit shipped add_all
  on_file-Tallies p i s = elim (Bool-cases (is_skipped i)) [
    | inl skipped ↦ rw skipped refl
    | inr kept ↦ rw kept (tallies p i s)
  ]

  file-Tracks :
      (i : FileInfo) (c : StageCounts) (r : S × Outcome StageError)
      → Tallies want c r
      → Tracks want (file i) c r
  file-Tracks i c (s, go) h = h
  file-Tracks i c (s, skip_dir) h = h
  file-Tracks i c (s, skip_all) h = h
  file-Tracks i c (s, fail e) h = h

  dir-Tracks :
      (n : Bytes) (entries : Nodes) (c : StageCounts) (r : S × Outcome StageError)
      → Tallies want c r
      → Tracks want (dir n entries) c r
  dir-Tracks n entries c (s, go) h = h
  dir-Tracks n entries c (s, skip_dir) h = absurd h
  dir-Tracks n entries c (s, skip_all) h = h
  dir-Tracks n entries c (s, fail e) h = h

  on_dir-Tracks :
      (p n : Bytes) (entries : Nodes) (s : S)
      → Tallies want
          (add_all (want s) (shipped_all entries))
          (walk_nodes (content_visit act) p entries s)
      → Tracks want
          (dir n entries)
          (add_all (want s) (shipped (dir n entries)))
          (walk_node (content_visit act) p (dir n entries) s)
  unfolding walk_node content_visit shipped add_all
  on_dir-Tracks p n entries s h = elim (Bool-cases (contains agent_managed_dirs n)) [
    | inl own ↦ rw own refl
    | inr other ↦ rw other (dir-Tracks n entries _ (walk_nodes (content_visit act) p entries s) h)
  ]

  mutual
    unfolding walk_node walk_nodes content_visit shipped add_all

    pub node-Tracks :
        (p : Bytes) (x : Node) (s : S)
        → Tracks want x (add_all (want s) (shipped x)) (walk_node (content_visit act) p x s)
    node-Tracks p (file i) s =
        file-Tracks i _ (content_visit act p (on_file i) s) (on_file-Tallies p i s)
    node-Tracks p (dir n entries) s = on_dir-Tracks p n entries s (nodes-Tallies p entries s)
    node-Tracks p (locked n) s = tt
    node-Tracks p (lost n) s = tt

    pub nodes-Tallies :
        (p : Bytes) (xs : Nodes) (s : S)
        → Tallies want (add_all (want s) (shipped_all xs)) (walk_nodes (content_visit act) p xs s)
    nodes-Tallies p nil s = refl
    nodes-Tallies p (cons x xs) s = rw add_all-append (
        Tracks-after_entry want x (walk_node (content_visit act) (child_path p (node_name x)) x s)
          (λ t. walk_nodes (content_visit act) p xs t) _ _
          (node-Tracks (child_path p (node_name x)) x s) (λ t e. rw (← e) (nodes-Tallies p xs t)))
