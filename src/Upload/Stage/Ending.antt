-- ===== src/Upload/Stage/Ending.antt =====
-- How a staging walk ends: where the file action never fails, the walk fails just on a tree that
-- it cannot read.
use loon_agent.Prelude.{◌≡◌, refl, Bool, true, false, ◌&&◌, Bytes, contains, Bool-cases, inl, inr}
use loon_agent.FileTree.{
  FileInfo, Node, file, dir, locked, lost, Nodes, nil, cons, on_file, Outcome, go, skip_dir,
  skip_all, fail, walk_node, walk_nodes, child_path, node_name, after_entry,
}
use loon_agent.Upload.Content.{agent_managed_dirs}
use loon_agent.Upload.Stage.{StageError, walk_error, is_skipped, content_visit}
use loon_agent.Upload.Stage.Shipped.{is_readable, are_readable}

module _ {S : Type 0} where
  -- `Goes b r`: if `b`, the walk goes on after `r`, and if not, it fails with the walk error.
  abbrev pub Goes : Bool → S × Outcome StageError → Type 0
  Goes true (s, go) = Unit
  Goes false (s, fail e) = e ≡ walk_error
  Goes _ _ = ⊥

  -- The same for an entry, where a directory may be left.
  abbrev pub Ends : Bool → Node → S × Outcome StageError → Type 0
  Ends true (dir _ _) (s, skip_dir) = Unit
  Ends true _ (s, go) = Unit
  Ends false _ (s, fail e) = e ≡ walk_error
  Ends _ _ _ = ⊥

  Goes-Ends : (b : Bool) (x : Node) (r : S × Outcome StageError) → Goes b r → Ends b x r
  Goes-Ends true (file _) (s, go) h = h
  Goes-Ends true (dir _ _) (s, go) h = h
  Goes-Ends true (locked _) (s, go) h = h
  Goes-Ends true (lost _) (s, go) h = h
  Goes-Ends true _ (s, skip_dir) h = absurd h
  Goes-Ends true _ (s, skip_all) h = absurd h
  Goes-Ends true _ (s, fail e) h = absurd h
  Goes-Ends false _ (s, go) h = absurd h
  Goes-Ends false _ (s, skip_dir) h = absurd h
  Goes-Ends false _ (s, skip_all) h = absurd h
  Goes-Ends false (file _) (s, fail e) h = h
  Goes-Ends false (dir _ _) (s, fail e) h = h
  Goes-Ends false (locked _) (s, fail e) h = h
  Goes-Ends false (lost _) (s, fail e) h = h

  Ends-after_entry :
      (a b : Bool) (x : Node) (r : S × Outcome StageError) (k : S → S × Outcome StageError)
      → Ends a x r
      → ((s : S) → Goes b (k s))
      → Goes (a && b) (after_entry x r k)
  Ends-after_entry true b (file _) (s, go) k h f = f s
  Ends-after_entry true b (dir _ _) (s, go) k h f = f s
  Ends-after_entry true b (locked _) (s, go) k h f = f s
  Ends-after_entry true b (lost _) (s, go) k h f = f s
  Ends-after_entry true b (dir _ _) (s, skip_dir) k h f = f s
  Ends-after_entry false b (file _) (s, fail e) k h f = h
  Ends-after_entry false b (dir _ _) (s, fail e) k h f = h
  Ends-after_entry false b (locked _) (s, fail e) k h f = h
  Ends-after_entry false b (lost _) (s, fail e) k h f = h
  Ends-after_entry true b (file _) (s, skip_dir) k h f = absurd h
  Ends-after_entry true b (locked _) (s, skip_dir) k h f = absurd h
  Ends-after_entry true b (lost _) (s, skip_dir) k h f = absurd h
  Ends-after_entry true b (file _) (s, skip_all) k h f = absurd h
  Ends-after_entry true b (dir _ _) (s, skip_all) k h f = absurd h
  Ends-after_entry true b (locked _) (s, skip_all) k h f = absurd h
  Ends-after_entry true b (lost _) (s, skip_all) k h f = absurd h
  Ends-after_entry true b (file _) (s, fail e) k h f = absurd h
  Ends-after_entry true b (dir _ _) (s, fail e) k h f = absurd h
  Ends-after_entry true b (locked _) (s, fail e) k h f = absurd h
  Ends-after_entry true b (lost _) (s, fail e) k h f = absurd h
  Ends-after_entry false b (file _) (s, go) k h f = absurd h
  Ends-after_entry false b (dir _ _) (s, go) k h f = absurd h
  Ends-after_entry false b (locked _) (s, go) k h f = absurd h
  Ends-after_entry false b (lost _) (s, go) k h f = absurd h
  Ends-after_entry false b (file _) (s, skip_dir) k h f = absurd h
  Ends-after_entry false b (dir _ _) (s, skip_dir) k h f = absurd h
  Ends-after_entry false b (locked _) (s, skip_dir) k h f = absurd h
  Ends-after_entry false b (lost _) (s, skip_dir) k h f = absurd h
  Ends-after_entry false b (file _) (s, skip_all) k h f = absurd h
  Ends-after_entry false b (dir _ _) (s, skip_all) k h f = absurd h
  Ends-after_entry false b (locked _) (s, skip_all) k h f = absurd h
  Ends-after_entry false b (lost _) (s, skip_all) k h f = absurd h

module _ {S : Type 0} (act : Bytes → FileInfo → S → S × Outcome StageError)
    (goes : (p : Bytes) (i : FileInfo) (s : S) → Goes true (act p i s)) where
  file-Ends : (p : Bytes) (i : FileInfo) (s : S) → Goes true (content_visit act p (on_file i) s)
  unfolding content_visit
  file-Ends p i s = elim (Bool-cases (is_skipped i)) [
    | inl skipped ↦ rw skipped tt
    | inr kept ↦ rw kept (goes p i s)
  ]

  dir-Ends :
      (p n : Bytes) (entries : Nodes) (s : S)
      → Goes (are_readable entries) (walk_nodes (content_visit act) p entries s)
      → Ends
          (is_readable (dir n entries))
          (dir n entries)
          (walk_node (content_visit act) p (dir n entries) s)
  unfolding walk_node content_visit is_readable
  dir-Ends p n entries s h = elim (Bool-cases (contains agent_managed_dirs n)) [
    | inl own ↦ rw own tt
    | inr other ↦ rw other (
        Goes-Ends {S = S} (are_readable entries) (dir n entries)
          (walk_nodes (content_visit act) p entries s) h)
  ]

  mutual
    unfolding walk_node walk_nodes content_visit is_readable are_readable

    pub node-Ends :
        (p : Bytes) (x : Node) (s : S)
        → Ends (is_readable x) x (walk_node (content_visit act) p x s)
    node-Ends p (file i) s =
        Goes-Ends true (file i) (content_visit act p (on_file i) s) (file-Ends p i s)
    node-Ends p (dir n entries) s = dir-Ends p n entries s (nodes-Goes p entries s)
    node-Ends p (locked n) s = refl
    node-Ends p (lost n) s = refl

    pub nodes-Goes :
        (p : Bytes) (xs : Nodes) (s : S)
        → Goes (are_readable xs) (walk_nodes (content_visit act) p xs s)
    nodes-Goes p nil s = tt
    nodes-Goes p (cons x xs) s =
        Ends-after_entry (is_readable x) (are_readable xs) x
          (walk_node (content_visit act) (child_path p (node_name x)) x s)
          (λ t. walk_nodes (content_visit act) p xs t) (node-Ends (child_path p (node_name x)) x s)
          (λ t. nodes-Goes p xs t)
