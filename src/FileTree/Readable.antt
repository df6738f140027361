-- ===== src/FileTree/Readable.antt =====
-- A walk that stops at an error meets none in a tree whose every entry can be read.
use loon_agent.Prelude.{◌≡◌, refl, ◌∙◌, Bool, true, false, ◌&&◌, [], arith, Bytes}
use loon_agent.FileTree.{
  FileInfo, Node, file, dir, locked, lost, Nodes, nil, cons, on_file, on_dir, go, Visitor, walk,
  walk_node, walk_nodes, child_path, node_name,
}
use loon_agent.FileTree.Keeps.{after_entry-go}
use loon_agent.FileTree.Files.{files_in, files_below, fold_files, fold_files-append}

unfoldable mutual
  pub is_readable : Node → Bool
  is_readable (file i) = true
  is_readable (dir n entries) = are_readable entries
  is_readable (locked n) = false
  is_readable (lost n) = false

  pub are_readable : Nodes → Bool
  are_readable nil = true
  are_readable (cons x xs) = is_readable x && are_readable xs

module _ {S E : Type 0} (visit : Visitor S E) (step : Bytes → FileInfo → S → S)
    (at_file : (p : Bytes) (i : FileInfo) (s : S) → visit p (on_file i) s ≡ (step p i s, go))
    (at_dir : (p n : Bytes) (s : S) → visit p (on_dir n) s ≡ (s, go)) where
  mutual
    unfolding walk_node walk_nodes files_in files_below fold_files is_readable are_readable

    walk_node-readable :
        (p : Bytes) (x : Node) (s : S)
        → is_readable x ≡ true
        → walk_node visit p x s ≡ (fold_files step s (files_in p x), go)
    walk_node-readable p (file i) s h = at_file p i s
    walk_node-readable p (dir n entries) s h = rw at_dir (walk_nodes-readable p entries s h)
    walk_node-readable p (locked n) s h = cc
    walk_node-readable p (lost n) s h = cc

    walk_nodes-readable :
        (p : Bytes) (xs : Nodes) (s : S)
        → are_readable xs ≡ true
        → walk_nodes visit p xs s ≡ (fold_files step s (files_below p xs), go)
    walk_nodes-readable p nil s h = refl
    walk_nodes-readable p (cons x xs) s h =
        rw (walk_node-readable (child_path p (node_name x)) x s (ground arith), fold_files-append)
          (after_entry-go x _ (λ t. walk_nodes visit p xs t)
            ∙ walk_nodes-readable p xs (fold_files step s (files_in (child_path p (node_name x)) x))
                (ground arith))

  pub walk-readable :
      (root : Node) (s : S)
      → is_readable root ≡ true
      → walk visit root s ≡ (fold_files step s (files_in [] root), go)
  unfolding walk
  walk-readable root s h = rw (walk_node-readable [] root s h) refl
