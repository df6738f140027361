-- ===== src/Collection/Cascade.antt =====
-- services/collection_scanner.go: what an edit of a folder does to the effective values of the rows.
use loon_agent.Prelude.{
  ℕ, ◌≡◌, refl, sym, inl, inr, Bool, true, false, Option, none, some, [], if◌then◌else◌, arith,
  Bytes, equal, trim_space, Bool-cases,
}
use loon_agent.Dict.{Dict, get, get-put, get-remove}
use loon_agent.Collection.{
  CollectionItem, FolderOverride, CollectionSnapshot, override_or_zero, is_set, is_positive, aid_or,
  resolution_or, source_or, season_or, folder_entry, folder_of, effective_aid, effective_resolution,
  effective_source, effective_season,
}
use loon_agent.Collection.Scanner.{CollectionScanner}
use loon_agent.Collection.Edits.{
  changed, is_blank, store_override, with_folder_values, set_folder_override,
}

abbrev kept_entry : FolderOverride → Option FolderOverride
kept_entry f = if is_blank f then none else some f

get-store_override :
    (folder : Bytes) (f : FolderOverride) (m : Dict FolderOverride) (j : Bytes)
    → get (store_override folder f m) j ≡ (if equal folder j then kept_entry f else get m j)
get-store_override folder f m j = elim (Bool-cases (is_blank f)) [
  | inl blank ↦ rw (blank, get-remove m folder j) refl
  | inr full ↦ rw (full, get-put m folder f j) refl
]

pub changed-snap :
    (w : Bool) (snap : CollectionSnapshot) (cs : CollectionScanner)
    → (changed w snap cs).1.snap ≡ some snap
changed-snap true snap cs = refl
changed-snap false snap cs = refl

-- An entry that is dropped has no value that would count.
aid_or-kept :
    (hint : ℕ) (f : FolderOverride)
    → aid_or hint (kept_entry f) ≡ (if is_positive f.aid then f.aid else hint)
aid_or-kept hint f = elim (Bool-cases (is_blank f)) [
  | inl blank ↦ (let zero_aid : f.aid ≡ 0 = ground arith in rw (blank, zero_aid) refl)
  | inr full ↦ rw full refl
]

resolution_or-kept :
    (hint : Bytes) (f : FolderOverride)
    → resolution_or hint (kept_entry f) ≡ (if is_set f.resolution then f.resolution else hint)
resolution_or-kept hint f = elim (Bool-cases (is_blank f)) [
  | inl blank ↦ rw blank (ground arith)
  | inr full ↦ rw full refl
]

source_or-kept :
    (hint : Bytes) (f : FolderOverride)
    → source_or hint (kept_entry f) ≡ (if is_set f.source then f.source else hint)
source_or-kept hint f = elim (Bool-cases (is_blank f)) [
  | inl blank ↦ rw blank (ground arith)
  | inr full ↦ rw full refl
]

season_or-kept :
    (hint : Bytes) (f : FolderOverride)
    → season_or hint (kept_entry f) ≡ (if is_set f.season then f.season else hint)
season_or-kept hint f = elim (Bool-cases (is_blank f)) [
  | inl blank ↦ rw blank (ground arith)
  | inr full ↦ rw full refl
]

-- The four values that a snapshot gives for a row.
pub record Effective : Type 0 where
  pub aid : ℕ
  pub season : Bytes
  pub resolution : Bytes
  pub source : Bytes

unfoldable pub effective : Option CollectionSnapshot → CollectionItem → Effective
effective snap it = record {
  aid = effective_aid snap it;
  season = effective_season snap it;
  resolution = effective_resolution snap it;
  source = effective_source snap it;
}

-- The row's own value, or else the folder's new one, or else the site's hint, of which there is
-- none for the season and the source.
unfoldable pub cascaded : ℕ → Bytes → Bytes → Bytes → CollectionItem → Effective
cascaded aid season resolution source it = record {
  aid =
      if is_positive it.override_aid
      then it.override_aid
      else if is_positive aid
      then aid
      else it.aid;
  season =
      if is_set it.override_season
      then it.override_season
      else if is_set (trim_space season)
      then trim_space season
      else [];
  resolution =
      if is_set it.override_resolution
      then it.override_resolution
      else if is_set (trim_space resolution)
      then trim_space resolution
      else it.resolution_hint;
  source =
      if is_set it.override_source
      then it.override_source
      else if is_set (trim_space source)
      then trim_space source
      else [];
}

-- The values depend on the entry of the row's folder alone.
unfoldable values_of : Option FolderOverride → CollectionItem → Effective
values_of o it = record {
  aid = if is_positive it.override_aid then it.override_aid else aid_or it.aid o;
  season = if is_set it.override_season then it.override_season else season_or [] o;
  resolution =
      if is_set it.override_resolution
      then it.override_resolution
      else resolution_or it.resolution_hint o;
  source = if is_set it.override_source then it.override_source else source_or [] o;
}

effective-values :
    (snap : Option CollectionSnapshot) (it : CollectionItem)
    → effective snap it ≡ values_of (folder_entry snap (folder_of it)) it
unfolding effective effective_aid effective_season effective_resolution effective_source values_of
effective-values snap it = refl

values_of-kept :
    (aid : ℕ) (season resolution source : Bytes) (f : FolderOverride) (it : CollectionItem)
    → values_of (kept_entry (with_folder_values aid season resolution source f)) it
      ≡ cascaded aid season resolution source it
unfolding values_of cascaded
values_of-kept aid season resolution source f it =
    let g = with_folder_values aid season resolution source f in
    rw
      (
        aid_or-kept it.aid g,
        season_or-kept [] g,
        resolution_or-kept it.resolution_hint g,
        source_or-kept [] g,
      )
      refl

-- SetFolderOverride on a snapshot, whether or not it can be written: for the rows of the folder the
-- effective values are then their own overrides, or else the folder's new ones, or else, for the AID
-- and the resolution, the hints of the row, and nothing for the season and the source; for the rows
-- of other folders they are what they were.
pub set_folder_override-effective :
    (writable : Bool) (folder : Bytes) (aid : ℕ) (season resolution source : Bytes)
    (cs : CollectionScanner) (snap : CollectionSnapshot) (it : CollectionItem)
    → cs.snap ≡ some snap
    → effective (set_folder_override writable folder aid season resolution source cs).1.snap it ≡ (
        if equal folder (folder_of it)
        then cascaded aid season resolution source it
        else effective cs.snap it)
unfolding set_folder_override
set_folder_override-effective writable folder aid season resolution source cs snap it e =
    let m = snap.folder_overrides in
    let f = with_folder_values aid season resolution source (override_or_zero (get m folder)) in
    rw (e, changed-snap, effective-values, get-store_override folder f m (folder_of it))
      (elim (Bool-cases (equal folder (folder_of it))) [
        | inl inside ↦
            rw inside
              (values_of-kept aid season resolution source (override_or_zero (get m folder)) it)
        | inr outside ↦ rw outside (sym (effective-values (some snap) it))
      ])
