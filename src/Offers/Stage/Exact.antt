-- ===== src/Offers/Stage/Exact.antt =====
-- services/offer_stage.go: a filtered request is staged exactly.
use loon_agent.Prelude.{
  ◌≤◌, ◌<◌, ◌≡◌, refl, inl, inr, Bool, true, false, ◌&&◌, ◌||◌, not, none, some, List, [], ◌∷◌, all,
  filter, length, arith, Bytes, equal, equal_iff, contains, Bool-cases,
}
use loon_agent.FileTree.{
  Nodes, dir, Visit, on_file, on_dir, on_locked, on_lost, Outcome, go, skip_dir, skip_all, fail,
  walk,
}
use loon_agent.FileTree.Keeps.{walk-keeps}
use loon_agent.Offers.Stage.{
  OfferStageError, wanted_of, stage_named, offer_visit, complete, stage_local_content,
}

abbrev pub are_different : List Bytes → Bool
are_different [] = true
are_different (n ∷ ns) = not (contains ns n) && are_different ns

-- Different names, each of them wanted.
abbrev pub IsSelection : List Bytes → List Bytes → Type 0
IsSelection wanted names = (are_different names ≡ true) × (all (contains wanted) names ≡ true)

without : Bytes → List Bytes → List Bytes
without n = filter (λ m. not (equal n m))

contains-without :
    (n x : Bytes) (ys : List Bytes)
    → equal n x ≡ false
    → contains ys x ≡ true
    → contains (without n ys) x ≡ true
unfolding without
contains-without n x [] ne h = h
contains-without n x (y ∷ ys) ne h =
    ground (arith, contains-without n x ys ne, equal_iff n y, equal_iff x y, equal_iff n x)

length-without_le : (n : Bytes) (ys : List Bytes) → length (without n ys) ≤ length ys
unfolding without
length-without_le n [] = omega arith
length-without_le n (y ∷ ys) = ground (arith, length-without_le n ys)

length-without :
    (n : Bytes) (ys : List Bytes) → contains ys n ≡ true → length (without n ys) < length ys
unfolding without
length-without n [] h = cc
length-without n (y ∷ ys) h = ground (arith, length-without n ys, length-without_le n ys)

all-without :
    (n : Bytes) (ys xs : List Bytes)
    → contains xs n ≡ false
    → all (contains ys) xs ≡ true
    → all (contains (without n ys)) xs ≡ true
all-without n ys [] h a = refl
all-without n ys (x ∷ xs) h a = ground (arith, contains-without n x ys, all-without n ys xs)

-- Different names of a list are no more than the list has.
length-selection : (xs ys : List Bytes) → IsSelection ys xs → length xs ≤ length ys
length-selection [] ys s = omega arith
length-selection (x ∷ xs) ys (d, a) =
    let rest =
      length-selection xs (without x ys)
        (ground arith, all-without x ys xs (ground arith) (ground arith)) in
    omega (arith, rest, length-without x ys (ground arith))

-- As many different names of a list as it has are all of them.
selection-all :
    (xs ys : List Bytes) (y : Bytes)
    → IsSelection ys xs
    → length xs ≡ length ys
    → contains ys y ≡ true
    → contains xs y ≡ true
selection-all xs ys y (d, a) e h = elim (Bool-cases (contains xs y)) [
  | inl found ↦ found
  | inr missing ↦
      let few = length-selection xs (without y ys) (d, all-without y ys xs missing a) in
      absurd (omega (arith, few, length-without y ys h))
]

named-IsSelection :
    (places : Bytes → Bool) (wanted : List Bytes) (p n : Bytes) (s : List Bytes)
    → IsSelection wanted s
    → IsSelection wanted (stage_named places wanted p n s).0
named-IsSelection places wanted p n s (d, a) =
    elim (Bool-cases (not (contains wanted n) || contains s n)) [
      | inl pass ↦ rw pass (d, a)
      | inr take ↦ (elim (Bool-cases (places p)) [
        | inl fine ↦ rw (take, fine) (ground arith, ground arith)
        | inr broken ↦ rw (take, broken) (d, a)
      ])
    ]

visit-IsSelection :
    (places : Bytes → Bool) (wanted : List Bytes) (p : Bytes) (v : Visit) (s : List Bytes)
    → IsSelection wanted s
    → IsSelection wanted (offer_visit places wanted p v s).0
unfolding offer_visit
visit-IsSelection places wanted p (on_file i) s h = named-IsSelection places wanted p i.name s h
visit-IsSelection places wanted p (on_dir n) s h = h
visit-IsSelection places wanted p (on_locked n) s h = h
visit-IsSelection places wanted p (on_lost n) s h = named-IsSelection places wanted p n s h

complete_names :
    (places : Bytes → Bool) (wanted : List Bytes) (r : List Bytes × Outcome OfferStageError)
    → (complete places wanted r).0 ≡ r.0
complete_names places wanted (s, go) = refl
complete_names places wanted (s, fail e) = refl
complete_names places wanted (s, skip_dir) = refl
complete_names places wanted (s, skip_all) = refl

length-complete :
    (places : Bytes → Bool) (wanted : List Bytes) (r : List Bytes × Outcome OfferStageError)
    → (complete places wanted r).1 ≡ none
    → length (complete places wanted r).0 ≡ length wanted
length-complete places wanted (s, go) h = ground arith
length-complete places wanted (s, fail e) h = cc
length-complete places wanted (s, skip_dir) h = cc
length-complete places wanted (s, skip_all) h = cc

-- For a directory and a filter that is not empty: whatever links and copies fail, each name that
-- stageLocalContent stages is wanted, and none is staged twice.
pub stage_local_content-IsSelection :
    (places : Bytes → Bool) (n : Bytes) (ns : List Bytes) (local_path name : Bytes)
    (entries : Nodes)
    → IsSelection
        (wanted_of (n ∷ ns))
        (stage_local_content places (n ∷ ns) local_path (some (dir name entries))).0
unfolding stage_local_content
stage_local_content-IsSelection places n ns local_path name entries =
    let wanted = wanted_of (n ∷ ns) in
    rw (complete_names places wanted (walk (offer_visit places wanted) (dir name entries) [])) (
      walk-keeps (IsSelection wanted) (offer_visit places wanted) (visit-IsSelection places wanted)
        (dir name entries) [] (refl, refl))

complete_all :
    (places : Bytes → Bool) (n : Bytes) (ns : List Bytes) (local_path name : Bytes)
    (entries : Nodes)
    → (stage_local_content places (n ∷ ns) local_path (some (dir name entries))).1 ≡ none
    → length (stage_local_content places (n ∷ ns) local_path (some (dir name entries))).0
      ≡ length (wanted_of (n ∷ ns))
unfolding stage_local_content
complete_all places n ns local_path name entries h =
    length-complete places (wanted_of (n ∷ ns))
      (walk (offer_visit places (wanted_of (n ∷ ns))) (dir name entries) []) h

-- If stageLocalContent returns no error for a directory and a filter that is not empty, every
-- wanted name is staged.
pub stage_local_content_complete :
    (places : Bytes → Bool) (n : Bytes) (ns : List Bytes) (local_path name : Bytes)
    (entries : Nodes) (w : Bytes)
    → (stage_local_content places (n ∷ ns) local_path (some (dir name entries))).1 ≡ none
    → contains (wanted_of (n ∷ ns)) w ≡ true
    → contains (stage_local_content places (n ∷ ns) local_path (some (dir name entries))).0 w ≡ true
stage_local_content_complete places n ns local_path name entries w h c =
    selection-all (stage_local_content places (n ∷ ns) local_path (some (dir name entries))).0
      (wanted_of (n ∷ ns)) w (stage_local_content-IsSelection places n ns local_path name entries)
      (complete_all places n ns local_path name entries h) c
