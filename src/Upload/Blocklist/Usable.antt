-- ===== src/Upload/Blocklist/Usable.antt =====
-- services/disk_blocklist.go: DirHasUsableFiles.
use loon_agent.Prelude.{
  ◌≡◌, refl, ap, ◌∙◌, inl, inr, Bool, true, false, ◌||◌, not, [], ◌==◌, any, any-append, arith,
  Bytes, Bool-cases,
}
use loon_agent.FileTree.{
  Node, file, dir, locked, lost, Nodes, nil, cons, Outcome, go, fail, walk, at_root, walk_node,
  walk_nodes, child_path, node_name, after_entry,
}
use loon_agent.FileTree.Files.{Found, files_in, files_below}
use loon_agent.Upload.Blocklist.{usable_visit, dir_has_usable_files}

abbrev pub is_usable : Found → Bool
is_usable f = not (f.info.size == 0)

abbrev ended : Bool → Bool × Outcome (Unit {0})
ended true = (true, fail tt)
ended false = (false, go)

after_entry-ended :
    (x : Node) (b : Bool) (k : Bool → Bool × Outcome (Unit {0})) (c : Bool)
    → k false ≡ ended c
    → after_entry x (ended b) k ≡ ended (b || c)
after_entry-ended (file _) true k c h = refl
after_entry-ended (dir _ _) true k c h = refl
after_entry-ended (locked _) true k c h = refl
after_entry-ended (lost _) true k c h = refl
after_entry-ended (file _) false k c h = h
after_entry-ended (dir _ _) false k c h = h
after_entry-ended (locked _) false k c h = h
after_entry-ended (lost _) false k c h = h

mutual
  unfolding walk_node walk_nodes files_in files_below usable_visit

  walk_node-usable :
      (p : Bytes) (x : Node)
      → walk_node usable_visit p x false ≡ ended (any is_usable (files_in p x))
  walk_node-usable p (file i) = ground arith
  walk_node-usable p (dir n entries) = walk_nodes-usable p entries
  walk_node-usable p (locked n) = refl
  walk_node-usable p (lost n) = refl

  walk_nodes-usable :
      (p : Bytes) (xs : Nodes)
      → walk_nodes usable_visit p xs false ≡ ended (any is_usable (files_below p xs))
  walk_nodes-usable p nil = refl
  walk_nodes-usable p (cons x xs) =
      rw (walk_node-usable (child_path p (node_name x)) x, any-append)
        (after_entry-ended x (any is_usable (files_in (child_path p (node_name x)) x))
          (λ t. walk_nodes usable_visit p xs t) (any is_usable (files_below p xs))
          (walk_nodes-usable p xs))

-- DirHasUsableFiles says whether any file below the directory is not empty, whatever entries of
-- the tree cannot be read.
pub dir_has_usable_files_lem :
    (root : Node) → dir_has_usable_files root ≡ any is_usable (files_in [] root)
unfolding dir_has_usable_files walk
dir_has_usable_files_lem root =
    ap (λ r. (at_root r).0) (walk_node-usable [] root)
    ∙ (elim (Bool-cases (any is_usable (files_in [] root))) [
      | inl hit ↦ rw hit refl
      | inr miss ↦ rw miss refl
    ])
