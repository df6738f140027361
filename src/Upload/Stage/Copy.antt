-- ===== src/Upload/Stage/Copy.antt =====
-- services/upload_obfuscate.go: what CopyFiles and ObfuscateFiles have staged when they return.
use loon_agent.Prelude.{
  ℕ, ◌+◌, ◌++◌, ◌≡◌, refl, ap, ◌∙◌, Bool, some, [], Bytes, arith, Bool-cases, Option-cases, inl,
  inr,
}
use loon_agent.FilePath.{ext}
use loon_agent.FileTree.{
  FileInfo, Node, file, dir, locked, lost, Nodes, Outcome, go, skip_dir, skip_all, fail, at_root,
}
use loon_agent.Upload.Stage.{
  StageCounts, StageError, tally, ok, count_staged_files, audit_staged, Staging, Place, FileSystem,
  copy_bytes, link_or_copy, copy_to, copy_file, obfuscate_file, audited, copy_files,
  obfuscate_files,
}
use loon_agent.Upload.Stage.Shipped.{shipped, counts_of, add_all-counts_of, Tallies, Tracks}
use loon_agent.Upload.Stage.Tracking.{node-Tracks}

abbrev wanted : Staging → StageCounts
wanted s = s.want

audit_sound : (t : Node) (c : StageCounts) → audit_staged t c ≡ ok tt → count_staged_files t ≡ ok c
unfolding audit_staged
audit_sound t c h = ground arith

audit_passes : (t : Node) (c : StageCounts) → count_staged_files t ≡ ok c → audit_staged t c ≡ ok tt
unfolding audit_staged
audit_passes t c h = ground arith

audited_sound :
    (x : Node) (c : StageCounts) (r : Staging × Outcome StageError)
    → Tracks wanted x c r
    → (audited (at_root r)).1 ≡ ok tt
    → count_staged_files (audited (at_root r)).0.dst ≡ ok c
audited_sound (file _) c (s, go) t h = audit_sound s.dst s.want h ∙ ap ok t
audited_sound (dir _ _) c (s, go) t h = audit_sound s.dst s.want h ∙ ap ok t
audited_sound (locked _) c (s, go) t h = audit_sound s.dst s.want h ∙ ap ok t
audited_sound (lost _) c (s, go) t h = audit_sound s.dst s.want h ∙ ap ok t
audited_sound (dir _ _) c (s, skip_dir) t h = audit_sound s.dst s.want h ∙ ap ok t
audited_sound (file _) c (s, skip_dir) t h = absurd t
audited_sound (locked _) c (s, skip_dir) t h = absurd t
audited_sound (lost _) c (s, skip_dir) t h = absurd t
audited_sound (file _) c (s, skip_all) t h = absurd t
audited_sound (dir _ _) c (s, skip_all) t h = absurd t
audited_sound (locked _) c (s, skip_all) t h = absurd t
audited_sound (lost _) c (s, skip_all) t h = absurd t
audited_sound _ c (s, fail e) t h = cc

module _ (place : Place) (is_cancelled : Bytes → Bool) where
  copy_to-Tallies :
      (to p : Bytes) (i : FileInfo) (s : Staging)
      → Tallies wanted (tally s.want i.size) (copy_to place is_cancelled to p i s)
  unfolding copy_to
  copy_to-Tallies to p i s = elim (Bool-cases (is_cancelled p)) [
    | inl stop ↦ rw stop tt
    | inr on ↦
        rw on
          (elim (Option-cases (place p to i s.dst)) [ inl e ↦ rw e tt | inr (t, e) ↦ rw e refl ])
  ]

module _ (fs : FileSystem) (is_cancelled : Bytes → Bool) where
  module _ (n : Bytes) (entries : Nodes) (dst : Node) where
    -- If CopyFiles returns nil for a directory, whatever the copy calls of the system have done, the
    -- staging tree holds as many shippable files, of as many bytes, as the source does.
    pub copy_files_sound :
        (copy_files fs is_cancelled (some (dir n entries)) dst).1 ≡ ok tt
        → count_staged_files (copy_files fs is_cancelled (some (dir n entries)) dst).0.dst
          ≡ ok (counts_of (shipped (dir n entries)))
    unfolding copy_files copy_file
    copy_files_sound h = rw (← add_all-counts_of (shipped (dir n entries))) (
        audited_sound (dir n entries) _ _
          (node-Tracks wanted (copy_file fs is_cancelled)
            (λ p i s. copy_to-Tallies (link_or_copy fs) is_cancelled p p i s) [] (dir n entries) _)
          h)

    -- If ObfuscateFiles returns nil for a directory, whatever the random names are and the copy
    -- calls have done, the staging tree holds as many shippable files, of as many bytes, as the
    -- source does.
    pub obfuscate_files_sound :
        (random : ℕ → Bytes)
        → (obfuscate_files fs is_cancelled random (some (dir n entries)) dst).1 ≡ ok tt
        → count_staged_files
            (obfuscate_files fs is_cancelled random (some (dir n entries)) dst).0.dst
          ≡ ok (counts_of (shipped (dir n entries)))
    unfolding obfuscate_files obfuscate_file
    obfuscate_files_sound random h = rw (← add_all-counts_of (shipped (dir n entries))) (
        audited_sound (dir n entries) _ _
          (node-Tracks wanted (obfuscate_file fs is_cancelled random)
            (λ p i s.
              copy_to-Tallies (copy_bytes fs) is_cancelled (random s.drawn ++ ext i.name) p i
                (record s { drawn = s.drawn + 1 }))
            [] (dir n entries) _)
          h)
