-- ===== src/Collection.antt =====
-- services/collection_scanner.go: the rows of a collection, and the values that count for a row.
pub mod Walk
pub mod Enrich
pub mod Scanner
pub mod Edits
pub mod Cascade
pub mod Queue
pub mod Saved
pub mod Running
pub mod Whole
mod Tests
use loon_agent.Prelude.{
  ℕ, Bool, true, false, not, Option, none, some, List, [], ◌∷◌, any, if◌then◌else◌, Bytes, equal,
  lt_signed,
}
use loon_agent.FilePath.{is_slash}
use loon_agent.Dict.{Dict, get}

-- Database ids are int64 bit patterns. The time of the last change, which is only shown, is left
-- out.
pub record CollectionItem : Type 0 where
  pub path : Bytes
  pub rel_path : Bytes
  pub filename : Bytes
  pub size_bytes : ℕ
  pub ext : Bytes
  pub matched : Bool
  pub aid : ℕ
  pub anime_title : Bytes
  pub mal_id : ℕ
  pub anilist_id : ℕ
  pub format : Bytes
  pub cover_url : Bytes
  pub resolution_hint : Bytes
  pub source_hint : Bytes
  pub override_aid : ℕ
  pub override_resolution : Bytes
  pub override_source : Bytes
  pub override_season : Bytes
  pub override_episode : Bytes
  pub selected : Bool
  pub upload_status : Bytes
  pub upload_detail : Bytes

pub record FolderOverride : Type 0 where
  pub aid : ℕ
  pub season : Bytes
  pub resolution : Bytes
  pub source : Bytes
  pub selected : Bool

-- A map that is nil is one without entries. The time of the scan is left out.
pub record CollectionSnapshot : Type 0 where
  pub scan_root : Bytes
  pub total_count : ℕ
  pub items : List CollectionItem
  pub folder_overrides : Dict FolderOverride

-- What the map gives for a folder without an entry.
abbrev pub no_override : FolderOverride
no_override = record { aid = 0; season = []; resolution = []; source = []; selected = false }

abbrev pub override_or_zero : Option FolderOverride → FolderOverride
override_or_zero none = no_override
override_or_zero (some f) = f

-- rel[:strings.LastIndex(rel, "/")], or nothing if there is no slash.
unfoldable pub before_last_slash : Bytes → Bytes
before_last_slash [] = []
before_last_slash (c ∷ s) =
    let rest = before_last_slash s in if any is_slash s then c ∷ rest else []

unfoldable pub folder_of : CollectionItem → Bytes
unfolding before_last_slash
folder_of it = before_last_slash it.rel_path

abbrev pub is_set : Bytes → Bool
is_set s = not (equal s [])

abbrev pub is_positive : ℕ → Bool
is_positive = lt_signed 0

-- The entry of the folder of a row, in a snapshot that may be missing.
abbrev pub folder_entry : Option CollectionSnapshot → Bytes → Option FolderOverride
folder_entry none folder = none
folder_entry (some snap) folder = get snap.folder_overrides folder

abbrev pub aid_or : ℕ → Option FolderOverride → ℕ
aid_or hint none = hint
aid_or hint (some f) = if is_positive f.aid then f.aid else hint

abbrev pub resolution_or : Bytes → Option FolderOverride → Bytes
resolution_or hint none = hint
resolution_or hint (some f) = if is_set f.resolution then f.resolution else hint

abbrev pub source_or : Bytes → Option FolderOverride → Bytes
source_or hint none = hint
source_or hint (some f) = if is_set f.source then f.source else hint

abbrev pub season_or : Bytes → Option FolderOverride → Bytes
season_or hint none = hint
season_or hint (some f) = if is_set f.season then f.season else hint

unfoldable pub effective_aid : Option CollectionSnapshot → CollectionItem → ℕ
unfolding folder_of
effective_aid snap it =
    if is_positive it.override_aid
    then it.override_aid
    else aid_or it.aid (folder_entry snap (folder_of it))

unfoldable pub effective_resolution : Option CollectionSnapshot → CollectionItem → Bytes
unfolding folder_of
effective_resolution snap it =
    if is_set it.override_resolution
    then it.override_resolution
    else resolution_or it.resolution_hint (folder_entry snap (folder_of it))

unfoldable pub effective_source : Option CollectionSnapshot → CollectionItem → Bytes
unfolding folder_of
effective_source snap it =
    if is_set it.override_source
    then it.override_source
    else source_or [] (folder_entry snap (folder_of it))

unfoldable pub effective_season : Option CollectionSnapshot → CollectionItem → Bytes
unfolding folder_of
effective_season snap it =
    if is_set it.override_season
    then it.override_season
    else season_or [] (folder_entry snap (folder_of it))
