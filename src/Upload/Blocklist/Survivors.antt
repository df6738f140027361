-- ===== src/Upload/Blocklist/Survivors.antt =====
-- services/disk_blocklist.go: what RemoveBlockedFiles deletes, and that ExpectedAfterBlocklist
-- expects the rest.
use loon_agent.Prelude.{
  ℕ, suc, ◌+◌, ◌≡◌, refl, ap, sym, ◌∙◌, inl, inr, Bool, true, false, ◌||◌, not, Option, List, [],
  ◌∷◌, ◌++◌, ◌==◌, map, any, all, all-append, any_right, ◌&&◌, filter, length, arith, Bytes, equal,
  equal_iff, contains, to_lower, if◌then◌else◌, Bool-cases,
}
use mathlib.Core.List.{append_assoc, append-nil}
use loon_agent.Dict.{Dict, get, put, get-put}
use loon_agent.FilePath.{ext, is_slash}
use loon_agent.FileTree.{Node, Nodes, dir, file, cons, nil, locked, lost, child_path, node_name}
use loon_agent.FileTree.Files.{Found, files_in, files_below, fold_files}
use loon_agent.FileTree.Readable.{is_readable, walk-readable}
use loon_agent.Upload.Blocklist.{
  Swept, count_in, extension_of, remove_one, remove_visit, or_default, no_sweep,
  remove_blocked_files, ExpectedFile, expected_after_blocklist,
}

abbrev pub is_blocked : List Bytes → Found → Bool
is_blocked blocklist f = contains blocklist (extension_of f.info)

abbrev pub blocked_files : Option (List Bytes) → Node → List Found
blocked_files blocklist root = filter (is_blocked (or_default blocklist)) (files_in [] root)

abbrev pub count_of : Bytes → List Found → ℕ
count_of e [] = 0
count_of e (f ∷ fs) = (if equal (extension_of f.info) e then 1 else 0) + count_of e fs

-- The records that a sweep leaves, when it goes through `fs` from `s`.
abbrev sweep_all : List Bytes → Swept → List Found → Swept
sweep_all blocklist = fold_files (remove_one blocklist)

abbrev struck : Found → Swept → Swept
struck f s = record {
  removed = suc s.removed;
  by_ext = put s.by_ext (extension_of f.info) (suc (count_in s.by_ext (extension_of f.info)));
  gone = s.gone ++ (f.path ∷ []);
}

sweep_all-hit :
    (bl : List Bytes) (s : Swept) (f : Found) (fs : List Found)
    → is_blocked bl f ≡ true
    → sweep_all bl s (f ∷ fs) ≡ sweep_all bl (struck f s) fs
unfolding fold_files remove_one
sweep_all-hit bl s f fs h = ap (λ t. sweep_all bl t fs) (rw h refl)

sweep_all-miss :
    (bl : List Bytes) (s : Swept) (f : Found) (fs : List Found)
    → is_blocked bl f ≡ false
    → sweep_all bl s (f ∷ fs) ≡ sweep_all bl s fs
unfolding fold_files remove_one
sweep_all-miss bl s f fs h = ap (λ t. sweep_all bl t fs) (rw h refl)

sweep_all-gone :
    (bl : List Bytes) (s : Swept) (fs : List Found)
    → (sweep_all bl s fs).gone ≡ s.gone ++ map (λ f. f.path) (filter (is_blocked bl) fs)
unfolding fold_files
sweep_all-gone bl s [] = sym (append-nil s.gone)
sweep_all-gone bl s (f ∷ fs) = elim (Bool-cases (is_blocked bl f)) [
  | inl hit ↦
      rw (sweep_all-hit bl s f fs hit, hit)
        (sweep_all-gone bl (struck f s) fs
          ∙ append_assoc s.gone (f.path ∷ []) (map (λ f. f.path) (filter (is_blocked bl) fs)))
  | inr miss ↦ rw (sweep_all-miss bl s f fs miss, miss) (sweep_all-gone bl s fs)
]

sweep_all-removed :
    (bl : List Bytes) (s : Swept) (fs : List Found)
    → (sweep_all bl s fs).removed ≡ s.removed + length (filter (is_blocked bl) fs)
unfolding fold_files
sweep_all-removed bl s [] = omega arith
sweep_all-removed bl s (f ∷ fs) = elim (Bool-cases (is_blocked bl f)) [
  | inl hit ↦
      rw (sweep_all-hit bl s f fs hit, hit) (sweep_all-removed bl (struck f s) fs ∙ omega arith)
  | inr miss ↦ rw (sweep_all-miss bl s f fs miss, miss) (sweep_all-removed bl s fs)
]

count_in-put :
    (d : Dict ℕ) (k e : Bytes)
    → count_in (put d k (suc (count_in d k))) e ≡ (if equal k e then 1 else 0) + count_in d e
count_in-put d k e =
    rw (get-put d k (suc (count_in d k)) e, count_in) (ground (arith, equal_iff k e))

sweep_all-by_ext :
    (bl : List Bytes) (s : Swept) (fs : List Found) (e : Bytes)
    → count_in (sweep_all bl s fs).by_ext e
      ≡ count_in s.by_ext e + count_of e (filter (is_blocked bl) fs)
unfolding fold_files
sweep_all-by_ext bl s [] e = omega arith
sweep_all-by_ext bl s (f ∷ fs) e = elim (Bool-cases (is_blocked bl f)) [
  | inl hit ↦
      rw (sweep_all-hit bl s f fs hit, hit)
        (sweep_all-by_ext bl (struck f s) fs e
          ∙ omega (arith, count_in-put s.by_ext (extension_of f.info) e))
  | inr miss ↦ rw (sweep_all-miss bl s f fs miss, miss) (sweep_all-by_ext bl s fs e)
]

remove_blocked-fold :
    (blocklist : Option (List Bytes)) (root : Node)
    → is_readable root ≡ true
    → remove_blocked_files blocklist root
      ≡ sweep_all (or_default blocklist) no_sweep (files_in [] root)
unfolding remove_blocked_files
remove_blocked-fold blocklist root h =
    ap (λ r. r.0)
      (walk-readable {E = Unit {0}} (remove_visit (or_default blocklist))
        (remove_one (or_default blocklist)) (λ p i s. unfold remove_visit in refl)
        (λ p n s. unfold remove_visit in refl) root no_sweep h)

-- In a tree whose every entry can be read, RemoveBlockedFiles removes exactly the files with a
-- blocked extension, in the order of the walk; it returns how many there are, and how many of
-- each extension.
pub remove_blocked_files_lem :
    (blocklist : Option (List Bytes)) (root : Node)
    → is_readable root ≡ true
    → (let s = remove_blocked_files blocklist root in
        (s.gone ≡ map (λ f. f.path) (blocked_files blocklist root))
        × ((s.removed ≡ length (blocked_files blocklist root))
            × ((e : Bytes) → count_in s.by_ext e ≡ count_of e (blocked_files blocklist root))))
unfolding get
remove_blocked_files_lem blocklist root h =
    let bl = or_default blocklist in
    let fs = files_in [] root in
    rw (remove_blocked-fold blocklist root h) (
      sweep_all-gone bl no_sweep fs,
      (
        sweep_all-removed bl no_sweep fs ∙ omega arith,
        λ e. sweep_all-by_ext bl no_sweep fs e ∙ omega arith,
      ),
    )

ext-none : (name : Bytes) → any (λ d. is_slash d || (d == b'.')) name ≡ false → ext name ≡ []
unfolding ext
ext-none [] h = refl
ext-none (c ∷ s) h = ground arith

ext-slash : (name : Bytes) → ext (b'/' ∷ name) ≡ ext name
unfolding ext
ext-slash name = elim (Bool-cases (any (λ d. is_slash d || (d == b'.')) name)) [
  | inl later ↦ rw later refl
  | inr flat ↦ rw flat (sym (ext-none name flat))
]

ext-later :
    (c : ℕ) (s : Bytes) → any (λ d. is_slash d || (d == b'.')) s ≡ true → ext (c ∷ s) ≡ ext s
unfolding ext
ext-later c s h = rw h refl

-- The extension of a path is that of its last name.
ext-below : (q name : Bytes) → ext (q ++ (b'/' ∷ name)) ≡ ext name
ext-below [] name = ext-slash name
ext-below (c ∷ q) name =
    ext-later c (q ++ (b'/' ∷ name))
      (any_right (λ d. is_slash d || (d == b'.')) q (b'/' ∷ name) refl)
    ∙ ext-below q name

ext-child_path : (p name : Bytes) → ext (child_path p name) ≡ ext name
unfolding child_path
ext-child_path [] name = refl
ext-child_path (c ∷ s) name = ext-below (c ∷ s) name

abbrev same_ext : Found → Bool
same_ext f = equal (ext f.path) (ext f.info.name)

mutual
  unfolding files_in files_below

  files_in-same_ext :
      (p : Bytes) (x : Node) → all same_ext (files_in (child_path p (node_name x)) x) ≡ true
  files_in-same_ext p (file i) =
      rw ((equal_iff (ext (child_path p i.name)) (ext i.name)).1 (ext-child_path p i.name)) refl
  files_in-same_ext p (dir n entries) = files_below-same_ext (child_path p n) entries
  files_in-same_ext p (locked n) = refl
  files_in-same_ext p (lost n) = refl

  files_below-same_ext : (p : Bytes) (xs : Nodes) → all same_ext (files_below p xs) ≡ true
  files_below-same_ext p nil = refl
  files_below-same_ext p (cons x xs) =
      rw (all-append same_ext (files_in (child_path p (node_name x)) x) (files_below p xs))
        (rw (files_in-same_ext p x) (files_below-same_ext p xs))

abbrev pub is_on_disk : List Found → Bytes → Bool
is_on_disk fs p = any (λ f. equal p f.path) fs

abbrev has_blocked : List Bytes → Bytes → Bool
has_blocked bl p = contains bl (to_lower (ext p))

has_blocked-found :
    (bl : List Bytes) (f : Found) (p : Bytes)
    → same_ext f ≡ true
    → equal p f.path ≡ true
    → is_blocked bl f ≡ has_blocked bl p
has_blocked-found bl f p same here =
    let e : ext p ≡ ext f.info.name =
      ap ext ((equal_iff p f.path).0 here) ∙ (equal_iff (ext f.path) (ext f.info.name)).0 same in
    sym (ap (λ x. contains bl (to_lower x)) e)

contains-gone :
    (bl : List Bytes) (fs : List Found) (p : Bytes)
    → all same_ext fs ≡ true
    → contains (map (λ f. f.path) (filter (is_blocked bl) fs)) p
      ≡ (is_on_disk fs p && has_blocked bl p)
contains-gone bl [] p h = refl
contains-gone bl (f ∷ fs) p h =
    let rest = contains-gone bl fs p (ground arith) in
    let same : same_ext f ≡ true = ground arith in
    elim (Bool-cases (equal p f.path)) [
      | inl here ↦ (elim (Bool-cases (has_blocked bl p)) [
        | inl hit ↦ rw (has_blocked-found bl f p same here, hit) (rw here refl)
        | inr miss ↦
            rw (has_blocked-found bl f p same here, miss) (rw (here, rest, miss) (ground arith))
      ])
      | inr other ↦ (elim (Bool-cases (is_blocked bl f)) [
        | inl hit ↦ rw (hit, other) rest
        | inr miss ↦ rw (miss, other) rest
      ])
    ]

gone-on_disk :
    (blocklist : Option (List Bytes)) (n : Bytes) (entries : Nodes) (p : Bytes)
    → is_readable (dir n entries) ≡ true
    → is_on_disk (files_in [] (dir n entries)) p ≡ true
    → contains (remove_blocked_files blocklist (dir n entries)).gone p
      ≡ has_blocked (or_default blocklist) p
gone-on_disk blocklist n entries p h here =
    let (g, (c, b)) = remove_blocked_files_lem blocklist (dir n entries) h in
    rw g (
      contains-gone (or_default blocklist) (files_in [] (dir n entries)) p
        (unfold files_in in files_below-same_ext [] entries)
      ∙ rw here refl)

-- If every declared file stands below a directory whose every entry can be read, then what
-- ExpectedAfterBlocklist keeps is what RemoveBlockedFiles, with the same blocklist, does not
-- remove, and what it counts as excluded is what that removes.
pub expected_after_blocklist_lem :
    (blocklist : Option (List Bytes)) (n : Bytes) (entries : Nodes) (files : List ExpectedFile)
    → is_readable (dir n entries) ≡ true
    → all (λ e. is_on_disk (files_in [] (dir n entries)) e.path) files ≡ true
    → (let gone = (remove_blocked_files blocklist (dir n entries)).gone in
        expected_after_blocklist blocklist files ≡ (
          filter (λ e. not (contains gone e.path)) files,
          length (filter (λ e. contains gone e.path) files),
        ))
unfolding expected_after_blocklist
expected_after_blocklist_lem blocklist n entries [] h d = refl
expected_after_blocklist_lem blocklist n entries (e ∷ files) h d =
    let g = gone-on_disk blocklist n entries e.path h (ground arith) in
    let rest = expected_after_blocklist_lem blocklist n entries files h (ground arith) in
    elim (Bool-cases (has_blocked (or_default blocklist) e.path)) [
      | inl hit ↦ rw (g, hit) (rw rest refl)
      | inr miss ↦ rw (g, miss) (rw rest refl)
    ]
