-- ===== src/FileTree/Keeps.antt =====
-- What every call of the walk function keeps, the walk keeps.
use loon_agent.Prelude.{◌≡◌, refl, Bytes, []}
use loon_agent.FileTree.{
  Node, file, dir, locked, lost, Nodes, nil, cons, Visit, on_file, on_dir, on_locked, on_lost,
  Outcome, go, skip_dir, skip_all, fail, Visitor, walk_node, walk_nodes, walk, child_path,
  node_name, after_dir, after_entry, at_root,
}

pub after_entry-go {ℓ} :
    {S E : Type ℓ} (x : Node) (s : S) (k : S → S × Outcome E) → after_entry x (s, go) k ≡ k s
after_entry-go (file _) s k = refl
after_entry-go (dir _ _) s k = refl
after_entry-go (locked _) s k = refl
after_entry-go (lost _) s k = refl

module _ {S E : Type 0} (P : S → Type 0) where
  after_dir-keeps :
      (r : S × Outcome E) (k : S → S × Outcome E)
      → P r.0
      → ((s : S) → P s → P (k s).0)
      → P (after_dir r k).0
  after_dir-keeps (s, go) k h f = f s h
  after_dir-keeps (s, skip_dir) k h f = h
  after_dir-keeps (s, skip_all) k h f = h
  after_dir-keeps (s, fail e) k h f = h

  after_entry-keeps :
      (x : Node) (r : S × Outcome E) (k : S → S × Outcome E)
      → P r.0
      → ((s : S) → P s → P (k s).0)
      → P (after_entry x r k).0
  after_entry-keeps (file _) (s, go) k h f = f s h
  after_entry-keeps (file _) (s, skip_dir) k h f = h
  after_entry-keeps (file _) (s, skip_all) k h f = h
  after_entry-keeps (file _) (s, fail e) k h f = h
  after_entry-keeps (dir _ _) (s, go) k h f = f s h
  after_entry-keeps (dir _ _) (s, skip_dir) k h f = f s h
  after_entry-keeps (dir _ _) (s, skip_all) k h f = h
  after_entry-keeps (dir _ _) (s, fail e) k h f = h
  after_entry-keeps (locked _) (s, go) k h f = f s h
  after_entry-keeps (locked _) (s, skip_dir) k h f = f s h
  after_entry-keeps (locked _) (s, skip_all) k h f = h
  after_entry-keeps (locked _) (s, fail e) k h f = h
  after_entry-keeps (lost _) (s, go) k h f = f s h
  after_entry-keeps (lost _) (s, skip_dir) k h f = f s h
  after_entry-keeps (lost _) (s, skip_all) k h f = h
  after_entry-keeps (lost _) (s, fail e) k h f = h

  at_root-keeps : (r : S × Outcome E) → P r.0 → P (at_root r).0
  at_root-keeps (s, go) h = h
  at_root-keeps (s, skip_dir) h = h
  at_root-keeps (s, skip_all) h = h
  at_root-keeps (s, fail e) h = h

  module _ (visit : Visitor S E)
      (keeps : (p : Bytes) (v : Visit) (s : S) → P s → P (visit p v s).0) where
    mutual
      unfolding walk_node walk_nodes

      walk_node-keeps : (p : Bytes) (x : Node) (s : S) → P s → P (walk_node visit p x s).0
      walk_node-keeps p (file i) s h = keeps p (on_file i) s h
      walk_node-keeps p (dir n entries) s h =
          after_dir-keeps (visit p (on_dir n) s) (λ t. walk_nodes visit p entries t)
            (keeps p (on_dir n) s h) (λ t q. walk_nodes-keeps p entries t q)
      walk_node-keeps p (locked n) s h = keeps p (on_locked n) s h
      walk_node-keeps p (lost n) s h = keeps p (on_lost n) s h

      walk_nodes-keeps : (p : Bytes) (xs : Nodes) (s : S) → P s → P (walk_nodes visit p xs s).0
      walk_nodes-keeps p nil s h = h
      walk_nodes-keeps p (cons x xs) s h =
          after_entry-keeps x (walk_node visit (child_path p (node_name x)) x s)
            (λ t. walk_nodes visit p xs t) (walk_node-keeps (child_path p (node_name x)) x s h)
            (λ t q. walk_nodes-keeps p xs t q)

    pub walk-keeps : (root : Node) (s : S) → P s → P (walk visit root s).0
    unfolding walk
    walk-keeps root s h = at_root-keeps (walk_node visit [] root s) (walk_node-keeps [] root s h)
