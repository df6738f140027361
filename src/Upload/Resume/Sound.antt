-- ===== src/Upload/Resume/Sound.antt =====
-- services/resume_validation.go: which directories ValidatePartialDownload accepts.
use loon_agent.Prelude.{
  ℕ, suc, ◌+◌, ◌/◌, ◌%◌, ◌^◌, ◌≤◌, ◌<◌, ◌≡◌, ◌↔◌, ◌⊎◌, refl, ap, sym, ◌∙◌, inl, inr, Bool, true,
  false, ◌&&◌, not, some, List, [], ◌∷◌, filter, sum_by, length, arith, Bytes, word, add64,
  Bool-cases,
}
use loon_agent.FileTree.{
  FileInfo, Node, file, dir, locked, lost, Nodes, nil, cons, Outcome, go, skip_dir, skip_all, fail,
  walk, walk_node, walk_nodes, child_path, node_name, after_entry, at_root,
}
use loon_agent.FileTree.Keeps.{after_entry-go}
use loon_agent.FileTree.Files.{Found, files_in, files_below, fold_files, fold_files-append}
use loon_agent.Upload.Resume.{
  ResumeError, Payload, is_symlink, is_payload, count_payload, resume_visit, is_enough, judge,
  no_payload, validate_partial_download,
}

-- Every entry of the tree can be read, and none is a symlink.
unfoldable mutual
  pub is_sound : Node → Bool
  is_sound (file i) = not (is_symlink i)
  is_sound (dir n entries) = are_sound entries
  is_sound (locked n) = false
  is_sound (lost n) = false

  pub are_sound : Nodes → Bool
  are_sound nil = true
  are_sound (cons x xs) = is_sound x && are_sound xs

abbrev is_failure : Payload × Outcome ResumeError → Bool
is_failure (_, fail _) = true
is_failure (_, go) = false
is_failure (_, skip_dir) = false
is_failure (_, skip_all) = false

after_entry-is_failure :
    (x : Node) (r : Payload × Outcome ResumeError) (k : Payload → Payload × Outcome ResumeError)
    → is_failure r ≡ true
    → is_failure (after_entry x r k) ≡ true
after_entry-is_failure (file _) (s, fail e) k h = refl
after_entry-is_failure (dir _ _) (s, fail e) k h = refl
after_entry-is_failure (locked _) (s, fail e) k h = refl
after_entry-is_failure (lost _) (s, fail e) k h = refl
after_entry-is_failure _ (s, go) k h = cc
after_entry-is_failure _ (s, skip_dir) k h = cc
after_entry-is_failure _ (s, skip_all) k h = cc

abbrev counted : Payload → List Found → Payload
counted = fold_files (λ _ i s. count_payload i s)

link-not_sound : (i : FileInfo) → is_sound (file i) ≡ true → is_symlink i ≡ false
unfolding is_sound
link-not_sound i h = ground arith

link-not_sound_back : (i : FileInfo) → is_sound (file i) ≡ false → is_symlink i ≡ true
unfolding is_sound
link-not_sound_back i h = ground arith

mutual
  unfolding walk_node walk_nodes files_in files_below fold_files resume_visit is_sound are_sound

  walk_node-is_sound :
      (p : Bytes) (x : Node) (s : Payload)
      → is_sound x ≡ true
      → walk_node resume_visit p x s ≡ (counted s (files_in p x), go)
  walk_node-is_sound p (file i) s h = rw (link-not_sound i h) refl
  walk_node-is_sound p (dir n entries) s h = walk_nodes-is_sound p entries s h
  walk_node-is_sound p (locked n) s h = cc
  walk_node-is_sound p (lost n) s h = cc

  walk_nodes-is_sound :
      (p : Bytes) (xs : Nodes) (s : Payload)
      → are_sound xs ≡ true
      → walk_nodes resume_visit p xs s ≡ (counted s (files_below p xs), go)
  walk_nodes-is_sound p nil s h = refl
  walk_nodes-is_sound p (cons x xs) s h =
      rw (walk_node-is_sound (child_path p (node_name x)) x s (ground arith), fold_files-append)
        (after_entry-go x _ (λ t. walk_nodes resume_visit p xs t)
          ∙ walk_nodes-is_sound p xs (counted s (files_in (child_path p (node_name x)) x))
              (ground arith))

mutual
  unfolding walk_node walk_nodes resume_visit is_sound are_sound

  walk_node-is_failure :
      (p : Bytes) (x : Node) (s : Payload)
      → is_sound x ≡ false
      → is_failure (walk_node resume_visit p x s) ≡ true
  walk_node-is_failure p (file i) s h = rw (link-not_sound_back i h) refl
  walk_node-is_failure p (dir n entries) s h = walk_nodes-is_failure p entries s h
  walk_node-is_failure p (locked n) s h = refl
  walk_node-is_failure p (lost n) s h = refl

  walk_nodes-is_failure :
      (p : Bytes) (xs : Nodes) (s : Payload)
      → are_sound xs ≡ false
      → is_failure (walk_nodes resume_visit p xs s) ≡ true
  walk_nodes-is_failure p nil s h = cc
  walk_nodes-is_failure p (cons x xs) s h = elim (Bool-cases (is_sound x)) [
    | inl sound ↦ rw (walk_node-is_sound (child_path p (node_name x)) x s sound) (
        ap is_failure (after_entry-go x _ (λ t. walk_nodes resume_visit p xs t))
        ∙ walk_nodes-is_failure p xs (counted s (files_in (child_path p (node_name x)) x))
            (ground arith))
    | inr foul ↦
        after_entry-is_failure x (walk_node resume_visit (child_path p (node_name x)) x s)
          (λ t. walk_nodes resume_visit p xs t)
          (walk_node-is_failure (child_path p (node_name x)) x s foul)
  ]

judge-is_failure :
    (expected : ℕ) (r : Payload × Outcome ResumeError)
    → is_failure r ≡ true
    → judge expected (at_root r) ≡ false
judge-is_failure expected (s, fail e) h = refl
judge-is_failure expected (s, go) h = cc
judge-is_failure expected (s, skip_dir) h = cc
judge-is_failure expected (s, skip_all) h = cc

-- The regular files of a tree that are not empty.
abbrev pub payload_of : List Found → List Found
payload_of = filter (λ f. is_payload f.info)

abbrev pub payload_bytes : List Found → ℕ
payload_bytes fs = sum_by (λ f. f.info.size) (payload_of fs)

abbrev extended : Payload → List Found → Payload
extended s fs = record {
  file_count = s.file_count + length (payload_of fs);
  total_bytes = (s.total_bytes + payload_bytes fs) % word;
}

count_payload-hit :
    (i : FileInfo) (s : Payload)
    → is_payload i ≡ true
    → count_payload i s
      ≡ record { file_count = suc s.file_count; total_bytes = add64 s.total_bytes i.size }
unfolding count_payload
count_payload-hit i s h = rw h refl

count_payload-miss : (i : FileInfo) (s : Payload) → is_payload i ≡ false → count_payload i s ≡ s
unfolding count_payload
count_payload-miss i s h = rw h refl

abbrev with_file : FileInfo → Payload → Payload
with_file i s = record { file_count = suc s.file_count; total_bytes = add64 s.total_bytes i.size }

extended-hit :
    (s : Payload) (f : Found) (fs : List Found)
    → is_payload f.info ≡ true
    → extended (with_file f.info s) fs ≡ extended s (f ∷ fs)
extended-hit s f fs h = rw h (ground arith)

counted-extended :
    (s : Payload) (fs : List Found)
    → s.total_bytes % word ≡ s.total_bytes
    → counted s fs ≡ extended s fs
unfolding fold_files
counted-extended s [] h = ground arith
counted-extended s (f ∷ fs) h = elim (Bool-cases (is_payload f.info)) [
  | inl hit ↦
      ap (λ t. counted t fs) (count_payload-hit f.info s hit)
      ∙ (counted-extended (with_file f.info s) fs (omega arith) ∙ extended-hit s f fs hit)
  | inr miss ↦
      ap (λ t. counted t fs) (count_payload-miss f.info s miss) ∙ rw miss (counted-extended s fs h)
]

judge_dir :
    (n : Bytes) (entries : Nodes) (expected : ℕ)
    → is_sound (dir n entries) ≡ true
    → validate_partial_download (some (dir n entries)) expected
      ≡ is_enough expected (extended no_payload (files_in [] (dir n entries)))
unfolding validate_partial_download walk
judge_dir n entries expected h =
    ap (λ r. judge expected (at_root r)) (walk_node-is_sound [] (dir n entries) no_payload h)
    ∙ ap (is_enough expected)
        (counted-extended no_payload (files_in [] (dir n entries)) (omega arith))

judge_foul :
    (n : Bytes) (entries : Nodes) (expected : ℕ)
    → is_sound (dir n entries) ≡ false
    → validate_partial_download (some (dir n entries)) expected ≡ false
unfolding validate_partial_download walk
judge_foul n entries expected h =
    judge-is_failure expected (walk_node resume_visit [] (dir n entries) no_payload)
      (walk_node-is_failure [] (dir n entries) no_payload h)

true_ne_false : true ≡ false → ⊥
true_ne_false h = cc

-- The size check of ValidatePartialDownload, where no int64 overflows.
abbrev pub IsPlausible : ℕ → ℕ → Type 0
IsPlausible expected total =
    (expected ≡ 0) ⊎ ((expected / 2 ≤ total) × (total ≤ expected + expected / 2))

is_enough-true :
    (expected count total : ℕ)
    → total < 2 ^ 63
    → expected + expected / 2 < 2 ^ 63
    → is_enough expected (record { file_count = count; total_bytes = total }) ≡ true
    → (0 < count) × IsPlausible expected total
is_enough-true expected count total ht he h = ground arith

is_enough_back :
    (expected count total : ℕ)
    → total < 2 ^ 63
    → expected + expected / 2 < 2 ^ 63
    → 0 < count
    → IsPlausible expected total
    → is_enough expected (record { file_count = count; total_bytes = total }) ≡ true
is_enough_back expected count total ht he hc hp = ground arith

abbrev payload_record : List Found → Payload
payload_record fs = record { file_count = length (payload_of fs); total_bytes = payload_bytes fs }

extended_small :
    (fs : List Found) → payload_bytes fs < 2 ^ 63 → extended no_payload fs ≡ payload_record fs
extended_small fs h = ground arith

-- If the sizes of the payload, and half as much again as the expected size, are int64 without
-- overflow, then ValidatePartialDownload accepts a directory exactly when every entry below it
-- can be read, none is a symlink, some regular file is not empty, and the payload has between
-- 50% and 150% of the expected size, or no size is expected.
pub validate_partial_download_iff :
    (n : Bytes) (entries : Nodes) (expected : ℕ)
    → payload_bytes (files_in [] (dir n entries)) < 2 ^ 63
    → expected + expected / 2 < 2 ^ 63
    → (validate_partial_download (some (dir n entries)) expected ≡ true) ↔ (
        (is_sound (dir n entries) ≡ true)
        × ((0 < length (payload_of (files_in [] (dir n entries))))
            × IsPlausible expected (payload_bytes (files_in [] (dir n entries)))))
validate_partial_download_iff n entries expected ht he =
    let fs = files_in [] (dir n entries) in
    elim (Bool-cases (is_sound (dir n entries))) [
      | inl sound ↦
          let e =
            judge_dir n entries expected sound ∙ ap (is_enough expected) (extended_small fs ht) in
          (
            λ h. (
              sound,
              is_enough-true expected (length (payload_of fs)) (payload_bytes fs) ht he (sym e ∙ h),
            ),
            λ (_, (c, p)).
                e ∙ is_enough_back expected (length (payload_of fs)) (payload_bytes fs) ht he c p,
          )
      | inr foul ↦
          let e = judge_foul n entries expected foul in
          (
            λ h. absurd (true_ne_false (sym h ∙ e)),
            λ (sound, _). absurd (true_ne_false (sym sound ∙ foul)),
          )
    ]
