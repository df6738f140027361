-- ===== src/FileTree.antt =====
-- A directory tree as `filepath.Walk` of Go meets it, and the walk itself.
pub mod Keeps
pub mod Files
pub mod Readable
pub mod Ends
use loon_agent.Prelude.{ℕ, [], ◌∷◌, ◌++◌, Bytes}

pub data Kind : Type 0 where
  regular symlink irregular : Kind

pub record FileInfo : Type 0 where
  pub name : Bytes
  pub size : ℕ
  pub kind : Kind

-- `locked` is a directory that cannot be listed, and `lost` an entry whose lstat fails.
-- The entries of a directory stand in the order of their names, as Walk visits them.
mutual
  pub data Node : Type 0 where
    file : FileInfo → Node
    dir : Bytes → Nodes → Node
    locked : Bytes → Node
    lost : Bytes → Node

  pub data Nodes : Type 0 where
    nil : Nodes
    cons : Node → Nodes → Nodes

-- The arguments of a call of the walk function, without the path.
pub data Visit : Type 0 where
  on_file : FileInfo → Visit
  on_dir : Bytes → Visit
  on_locked : Bytes → Visit
  on_lost : Bytes → Visit

-- What the walk function returns: nil, filepath.SkipDir, filepath.SkipAll or another error.
pub data Outcome {ℓ} (E : Type ℓ) : Type ℓ where
  go : Outcome E
  skip_dir : Outcome E
  skip_all : Outcome E
  fail : E → Outcome E

abbrev pub Visitor {ℓ} : Type ℓ → Type ℓ → Type ℓ
Visitor S E = Bytes → Visit → S → S × Outcome E

-- A path below `parent`, relative to the root of the walk, whose own path is empty.
unfoldable pub child_path : Bytes → Bytes → Bytes
child_path [] name = name
child_path (c ∷ s) name = (c ∷ s) ++ (b'/' ∷ name)

abbrev pub node_name : Node → Bytes
node_name (file i) = i.name
node_name (dir n _) = n
node_name (locked n) = n
node_name (lost n) = n

module _ {ℓ} {S E : Type ℓ} where
  abbrev pub after_dir : S × Outcome E → (S → S × Outcome E) → S × Outcome E
  after_dir (s, go) k = k s
  after_dir (s, skip_dir) k = (s, skip_dir)
  after_dir (s, skip_all) k = (s, skip_all)
  after_dir (s, fail e) k = (s, fail e)

  -- SkipDir from a directory, or from an entry with no info, ends that entry alone; from a file it
  -- ends the directory that holds the file.
  abbrev pub after_entry : Node → S × Outcome E → (S → S × Outcome E) → S × Outcome E
  after_entry (file _) (s, skip_dir) k = (s, skip_dir)
  after_entry _ (s, skip_dir) k = k s
  after_entry _ (s, go) k = k s
  after_entry _ (s, skip_all) k = (s, skip_all)
  after_entry _ (s, fail e) k = (s, fail e)

  abbrev pub at_root : S × Outcome E → S × Outcome E
  at_root (s, skip_dir) = (s, go)
  at_root (s, skip_all) = (s, go)
  at_root (s, go) = (s, go)
  at_root (s, fail e) = (s, fail e)

module _ {ℓ} {S E : Type ℓ} (visit : Visitor S E) where
  unfoldable mutual
    pub walk_node : Bytes → Node → S → S × Outcome E
    walk_node path (file i) s = visit path (on_file i) s
    walk_node path (dir n entries) s =
        after_dir (visit path (on_dir n) s) (λ t. walk_nodes path entries t)
    walk_node path (locked n) s = visit path (on_locked n) s
    walk_node path (lost n) s = visit path (on_lost n) s

    pub walk_nodes : Bytes → Nodes → S → S × Outcome E
    walk_nodes path nil s = (s, go)
    walk_nodes path (cons x xs) s =
        after_entry x (walk_node (child_path path (node_name x)) x s) (λ t. walk_nodes path xs t)

  -- filepath.Walk: the error that it returns is `fail e`, and nil is `go`.
  unfoldable pub walk : Node → S → S × Outcome E
  unfolding walk_node walk_nodes
  walk root s = at_root (walk_node [] root s)
