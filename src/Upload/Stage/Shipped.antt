-- ===== src/Upload/Stage/Shipped.antt =====
-- What a staging walk should take from a tree, written without the walk.
use loon_agent.Prelude.{
  ℕ, ◌+◌, ◌%◌, ◌≡◌, refl, ◌∙◌, Bool, true, false, ◌&&◌, List, [], ◌∷◌, ◌++◌, if◌then◌else◌,
  contains, length, sum_by, word, arith,
}
use loon_agent.FileTree.{
  FileInfo, Node, file, dir, locked, lost, Nodes, nil, cons, Outcome, go, skip_dir, skip_all, fail,
  after_entry,
}
use loon_agent.Upload.Content.{agent_managed_dirs}
use loon_agent.Upload.Stage.{StageCounts, StageError, no_counts, tally, is_skipped}

-- The files that pass the guards, outside the directories of the agent's own.
unfoldable mutual
  pub shipped : Node → List FileInfo
  shipped (file i) = if is_skipped i then [] else i ∷ []
  shipped (dir n entries) =
      let below = shipped_all entries in if contains agent_managed_dirs n then [] else below
  shipped (locked n) = []
  shipped (lost n) = []

  pub shipped_all : Nodes → List FileInfo
  shipped_all nil = []
  shipped_all (cons x xs) = shipped x ++ shipped_all xs

-- No entry that the walk visits gives an error.
unfoldable mutual
  pub is_readable : Node → Bool
  is_readable (file i) = true
  is_readable (dir n entries) =
      let below = are_readable entries in if contains agent_managed_dirs n then true else below
  is_readable (locked n) = false
  is_readable (lost n) = false

  pub are_readable : Nodes → Bool
  are_readable nil = true
  are_readable (cons x xs) = is_readable x && are_readable xs

abbrev pub total_size : List FileInfo → ℕ
total_size = sum_by (λ i. i.size)

-- Their number, and their bytes as an int64 adds them up.
unfoldable pub counts_of : List FileInfo → StageCounts
counts_of files = record { files = length files; bytes = total_size files % word }

unfoldable pub add_all : StageCounts → List FileInfo → StageCounts
add_all c [] = c
add_all c (i ∷ is) = add_all (tally c i.size) is

pub add_all-append :
    (c : StageCounts) (xs ys : List FileInfo) → add_all c (xs ++ ys) ≡ add_all (add_all c xs) ys
unfolding add_all
add_all-append c [] ys = refl
add_all-append c (x ∷ xs) ys = add_all-append (tally c x.size) xs ys

add_all_fields :
    (c : StageCounts) (xs : List FileInfo)
    → c.bytes % word ≡ c.bytes
    → add_all c xs
      ≡ record { files = c.files + length xs; bytes = (c.bytes + total_size xs) % word }
unfolding add_all
add_all_fields c [] h = ground arith
add_all_fields c (x ∷ xs) h = add_all_fields (tally c x.size) xs (omega arith) ∙ ground arith

pub add_all-counts_of : (xs : List FileInfo) → add_all no_counts xs ≡ counts_of xs
unfolding counts_of
add_all-counts_of xs = add_all_fields no_counts xs (omega arith) ∙ ground arith

-- A file action that keeps a tally: where it goes on, the tally has the file.
module _ {S : Type 0} (want : S → StageCounts) where
  abbrev pub Tallies : StageCounts → S × Outcome StageError → Type 0
  Tallies c (s, go) = want s ≡ c
  Tallies c (s, skip_dir) = ⊥
  Tallies c (s, skip_all) = ⊥
  Tallies c (s, fail e) = Unit

  abbrev pub Tracks : Node → StageCounts → S × Outcome StageError → Type 0
  Tracks (dir _ _) c (s, skip_dir) = want s ≡ c
  Tracks _ c (s, skip_dir) = ⊥
  Tracks _ c (s, go) = want s ≡ c
  Tracks _ c (s, skip_all) = ⊥
  Tracks _ c (s, fail e) = Unit

  pub Tracks-after_entry :
      (x : Node) (r : S × Outcome StageError) (k : S → S × Outcome StageError) (c d : StageCounts)
      → Tracks x c r
      → ((s : S) → want s ≡ c → Tallies d (k s))
      → Tallies d (after_entry x r k)
  Tracks-after_entry (file _) (s, go) k c d h f = f s h
  Tracks-after_entry (file _) (s, skip_dir) k c d h f = absurd h
  Tracks-after_entry (dir _ _) (s, skip_dir) k c d h f = f s h
  Tracks-after_entry (locked _) (s, skip_dir) k c d h f = absurd h
  Tracks-after_entry (lost _) (s, skip_dir) k c d h f = absurd h
  Tracks-after_entry (dir _ _) (s, go) k c d h f = f s h
  Tracks-after_entry (locked _) (s, go) k c d h f = f s h
  Tracks-after_entry (lost _) (s, go) k c d h f = f s h
  Tracks-after_entry (file _) (s, skip_all) k c d h f = h
  Tracks-after_entry (dir _ _) (s, skip_all) k c d h f = h
  Tracks-after_entry (locked _) (s, skip_all) k c d h f = h
  Tracks-after_entry (lost _) (s, skip_all) k c d h f = h
  Tracks-after_entry (file _) (s, fail e) k c d h f = h
  Tracks-after_entry (dir _ _) (s, fail e) k c d h f = h
  Tracks-after_entry (locked _) (s, fail e) k c d h f = h
  Tracks-after_entry (lost _) (s, fail e) k c d h f = h
