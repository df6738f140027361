-- ===== src/FileTree/Ends.antt =====
-- A walk whose function at each file goes on or fails is, when it ends well, a fold over the files.
use loon_agent.Prelude.{◌≡◌, refl, subst, List, [], ◌∷◌, ◌++◌, Bytes}
use loon_agent.FileTree.{
  FileInfo, Node, file, dir, locked, lost, Nodes, nil, cons, on_file, on_dir, on_locked, on_lost,
  Outcome, go, skip_dir, skip_all, fail, Visitor, walk, walk_node, walk_nodes, child_path,
  node_name, after_entry, at_root,
}
use loon_agent.FileTree.Files.{Found, files_in, files_below, fold_files, fold_files-append}

module _ {S E : Type 0} (step : Bytes → FileInfo → S → S) where
  -- Having gone on, the walk has made the step for each of the files; it ends no directory early.
  abbrev pub Ends : S → List Found → S × Outcome E → Type 0
  Ends s fs (t, go) = t ≡ fold_files step s fs
  Ends s fs (t, fail e) = Unit {0}
  Ends s fs (t, skip_dir) = ⊥
  Ends s fs (t, skip_all) = ⊥

  Ends-both :
      (s t : S) (fs gs : List Found) (r : S × Outcome E)
      → t ≡ fold_files step s fs
      → Ends t gs r
      → Ends s (fs ++ gs) r
  Ends-both s t fs gs (u, go) e h =
      rw (fold_files-append step s fs gs) (subst (λ v. u ≡ fold_files step v gs) e h)
  Ends-both s t fs gs (u, fail x) e h = tt
  Ends-both s t fs gs (u, skip_dir) e h = h
  Ends-both s t fs gs (u, skip_all) e h = h

  after_entry-Ends :
      (x : Node) (s : S) (fs gs : List Found) (r : S × Outcome E) (k : S → S × Outcome E)
      → Ends s fs r
      → ((t : S) → Ends t gs (k t))
      → Ends s (fs ++ gs) (after_entry x r k)
  after_entry-Ends (file _) s fs gs (t, go) k h f = Ends-both s t fs gs (k t) h (f t)
  after_entry-Ends (dir _ _) s fs gs (t, go) k h f = Ends-both s t fs gs (k t) h (f t)
  after_entry-Ends (locked _) s fs gs (t, go) k h f = Ends-both s t fs gs (k t) h (f t)
  after_entry-Ends (lost _) s fs gs (t, go) k h f = Ends-both s t fs gs (k t) h (f t)
  after_entry-Ends (file _) s fs gs (t, fail e) k h f = tt
  after_entry-Ends (dir _ _) s fs gs (t, fail e) k h f = tt
  after_entry-Ends (locked _) s fs gs (t, fail e) k h f = tt
  after_entry-Ends (lost _) s fs gs (t, fail e) k h f = tt
  after_entry-Ends x s fs gs (t, skip_dir) k h f = absurd h
  after_entry-Ends x s fs gs (t, skip_all) k h f = absurd h

  at_root-Ends : (s : S) (fs : List Found) (r : S × Outcome E) → Ends s fs r → Ends s fs (at_root r)
  at_root-Ends s fs (t, go) h = h
  at_root-Ends s fs (t, fail e) h = h
  at_root-Ends s fs (t, skip_dir) h = absurd h
  at_root-Ends s fs (t, skip_all) h = absurd h

  module _ (visit : Visitor S E)
      (at_file : (p : Bytes) (i : FileInfo) (s : S)
        → Ends s (record { path = p; info = i } ∷ []) (visit p (on_file i) s))
      (at_dir : (p n : Bytes) (s : S) → visit p (on_dir n) s ≡ (s, go))
      (at_locked : (p n : Bytes) (s : S) → visit p (on_locked n) s ≡ (s, go))
      (at_lost : (p n : Bytes) (s : S) → Ends s [] (visit p (on_lost n) s)) where
    mutual
      unfolding walk_node walk_nodes files_in files_below fold_files

      walk_node-Ends :
          (p : Bytes) (x : Node) (s : S) → Ends s (files_in p x) (walk_node visit p x s)
      walk_node-Ends p (file i) s = at_file p i s
      walk_node-Ends p (dir n entries) s = rw at_dir (walk_nodes-Ends p entries s)
      walk_node-Ends p (locked n) s = rw at_locked refl
      walk_node-Ends p (lost n) s = at_lost p n s

      walk_nodes-Ends :
          (p : Bytes) (xs : Nodes) (s : S) → Ends s (files_below p xs) (walk_nodes visit p xs s)
      walk_nodes-Ends p nil s = refl
      walk_nodes-Ends p (cons x xs) s =
          after_entry-Ends x s (files_in (child_path p (node_name x)) x) (files_below p xs)
            (walk_node visit (child_path p (node_name x)) x s) (λ t. walk_nodes visit p xs t)
            (walk_node-Ends (child_path p (node_name x)) x s) (λ t. walk_nodes-Ends p xs t)

    pub walk-Ends : (root : Node) (s : S) → Ends s (files_in [] root) (walk visit root s)
    unfolding walk
    walk-Ends root s =
        at_root-Ends s (files_in [] root) (walk_node visit [] root s) (walk_node-Ends [] root s)
