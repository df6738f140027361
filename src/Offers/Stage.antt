-- ===== src/Offers/Stage.antt =====
-- services/offer_stage.go: the staging of local content for an offer, with its filter of names.
pub mod Exact
use loon_agent.Prelude.{
  ℕ, Bool, ◌||◌, not, Option, none, some, List, [], ◌∷◌, length, ◌==◌, if◌then◌else◌, Bytes, equal,
  contains, trim_space,
}
use loon_agent.FilePath.{base}
use loon_agent.FileTree.{
  Node, file, dir, locked, lost, on_file, on_dir, on_locked, on_lost, Outcome, go, skip_dir,
  skip_all, fail, Visitor, walk,
}

pub data OfferStageError : Type 0 where
  copy_error stat_error other_file walk_failed drifted : OfferStageError

-- The keys of `wanted`.
unfoldable pub wanted_of : List Bytes → List Bytes
wanted_of [] = []
wanted_of (n ∷ ns) =
    let rest = wanted_of ns in
    if equal (trim_space n) [] || contains rest (trim_space n) then rest else trim_space n ∷ rest

-- `places path` says whether the link, or else the copy, of the file at `path` succeeds.
module _ (places : Bytes → Bool) where
  -- A name that is wanted and not there yet is staged. The state is `found`: the names that stand in
  -- the staging directory, the last one first.
  abbrev pub stage_named :
      List Bytes → Bytes → Bytes → List Bytes → List Bytes × Outcome OfferStageError
  stage_named wanted path name found =
      if not (contains wanted name) || contains found name
      then (found, go)
      else if places path
      then (name ∷ found, go)
      else (found, fail copy_error)

  -- WalkDir knows the type of an entry from its directory, and does not call Lstat for it.
  unfoldable pub offer_visit : List Bytes → Visitor (List Bytes) OfferStageError
  offer_visit wanted path (on_file i) found = stage_named wanted path i.name found
  offer_visit wanted path (on_dir n) found = (found, go)
  offer_visit wanted path (on_locked n) found = (found, fail walk_failed)
  offer_visit wanted path (on_lost n) found = stage_named wanted path n found

  abbrev pub complete :
      List Bytes → List Bytes × Outcome OfferStageError → List Bytes × Option OfferStageError
  complete wanted (found, fail e) = (found, some e)
  complete wanted (found, go) =
      (found, if length found == length wanted then none else some drifted)
  complete wanted (found, skip_dir) = (found, some walk_failed)
  complete wanted (found, skip_all) = (found, some walk_failed)

  -- One file or the whole directory, under the base name of the source.
  abbrev pub whole : Bytes → List Bytes × Option OfferStageError
  whole local_path =
      if places local_path then (base local_path ∷ [], none) else ([], some copy_error)

  abbrev pub staged_under : List Bytes → Bytes → Option Node → List Bytes × Option OfferStageError
  staged_under wanted local_path none = ([], some stat_error)
  staged_under wanted local_path (some (lost n)) = ([], some stat_error)
  staged_under wanted local_path (some (file i)) =
      if contains wanted (base local_path) then whole local_path else ([], some other_file)
  staged_under wanted local_path (some (dir n entries)) =
      complete wanted (walk (offer_visit wanted) (dir n entries) [])
  staged_under wanted local_path (some (locked n)) =
      complete wanted (walk (offer_visit wanted) (locked n) [])

  -- stageLocalContent: the staged names, and the error. MkdirAll is taken to succeed.
  unfoldable pub stage_local_content :
      List Bytes → Bytes → Option Node → List Bytes × Option OfferStageError
  stage_local_content [] local_path source = whole local_path
  stage_local_content (n ∷ ns) local_path source =
      staged_under (wanted_of (n ∷ ns)) local_path source
