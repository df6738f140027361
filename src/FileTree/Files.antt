-- ===== src/FileTree/Files.antt =====
-- A walk that passes over directories and errors is a fold over the files of the tree.
use loon_agent.Prelude.{◌≡◌, refl, ◌∙◌, List, [], ◌∷◌, ◌++◌, Bytes}
use loon_agent.FileTree.{
  FileInfo, Node, file, dir, locked, lost, Nodes, nil, cons, on_file, on_dir, on_locked, on_lost,
  go, Visitor, walk, walk_node, walk_nodes, child_path, node_name,
}
use loon_agent.FileTree.Keeps.{after_entry-go}

pub record Found : Type 0 where
  pub path : Bytes
  pub info : FileInfo

-- Every file of a tree with its path, in the order of the walk.
unfoldable mutual
  pub files_in : Bytes → Node → List Found
  files_in path (file i) = record { path = path; info = i } ∷ []
  files_in path (dir n entries) = files_below path entries
  files_in path (locked n) = []
  files_in path (lost n) = []

  pub files_below : Bytes → Nodes → List Found
  files_below path nil = []
  files_below path (cons x xs) = files_in (child_path path (node_name x)) x ++ files_below path xs

unfoldable pub fold_files {ℓ} : {S : Type ℓ} → (Bytes → FileInfo → S → S) → S → List Found → S
fold_files step s [] = s
fold_files step s (f ∷ fs) = fold_files step (step f.path f.info s) fs

pub fold_files-append {ℓ} :
    {S : Type ℓ} (step : Bytes → FileInfo → S → S) (s : S) (xs ys : List Found)
    → fold_files step s (xs ++ ys) ≡ fold_files step (fold_files step s xs) ys
unfolding fold_files
fold_files-append step s [] ys = refl
fold_files-append step s (x ∷ xs) ys = fold_files-append step (step x.path x.info s) xs ys

module _ {S E : Type 0} (visit : Visitor S E) (step : Bytes → FileInfo → S → S)
    (at_file : (p : Bytes) (i : FileInfo) (s : S) → visit p (on_file i) s ≡ (step p i s, go))
    (at_dir : (p n : Bytes) (s : S) → visit p (on_dir n) s ≡ (s, go))
    (at_locked : (p n : Bytes) (s : S) → visit p (on_locked n) s ≡ (s, go))
    (at_lost : (p n : Bytes) (s : S) → visit p (on_lost n) s ≡ (s, go)) where
  mutual
    unfolding walk_node walk_nodes files_in files_below fold_files

    walk_node-fold_files :
        (p : Bytes) (x : Node) (s : S)
        → walk_node visit p x s ≡ (fold_files step s (files_in p x), go)
    walk_node-fold_files p (file i) s = at_file p i s
    walk_node-fold_files p (dir n entries) s = rw at_dir (walk_nodes-fold_files p entries s)
    walk_node-fold_files p (locked n) s = at_locked p n s
    walk_node-fold_files p (lost n) s = at_lost p n s

    walk_nodes-fold_files :
        (p : Bytes) (xs : Nodes) (s : S)
        → walk_nodes visit p xs s ≡ (fold_files step s (files_below p xs), go)
    walk_nodes-fold_files p nil s = refl
    walk_nodes-fold_files p (cons x xs) s =
        rw (walk_node-fold_files (child_path p (node_name x)) x s, fold_files-append)
          (after_entry-go x _ (λ t. walk_nodes visit p xs t)
            ∙ walk_nodes-fold_files p xs
                (fold_files step s (files_in (child_path p (node_name x)) x)))

  pub walk-fold_files :
      (root : Node) (s : S) → walk visit root s ≡ (fold_files step s (files_in [] root), go)
  unfolding walk
  walk-fold_files root s = rw (walk_node-fold_files [] root s) refl
