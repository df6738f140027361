-- ===== src/Extract.antt =====
-- services/extract_zip.go and services/extract_tar.go: where the entries of an archive are written.
pub mod Confined
mod Tests
use loon_agent.Prelude.{
  ℕ, zero, suc, Bool, true, false, ◌&&◌, ◌||◌, not, Option, none, some, List, [], ◌∷◌, ◌++◌, any,
  if◌then◌else◌, Bytes, codes, equal, has_prefix, has_suffix, to_lower,
}
use loon_agent.FilePath.{clean}
use loon_agent.FilePath

-- A zip entry is a directory or is written; a tar entry of another type is passed over.
pub data EntryKind : Type 0 where
  directory regular other : EntryKind

pub record Entry : Type 0 where
  pub name : Bytes
  pub kind : EntryKind

-- What an extraction does to the file system: os.MkdirAll, and the creation of a file.
pub data Effect : Type 0 where
  make_dirs : Bytes → Effect
  write_file : Bytes → Effect

pub data ExtractError : Type 0 where
  cancelled : ExtractError
  unreadable : ExtractError
  unsafe_path : Bytes → ExtractError
  system_error : Effect → ExtractError

-- filepath.Join of two elements, the first of which is not empty.
abbrev pub join_path : Bytes → Bytes → Bytes
join_path dir_ name = clean (dir_ ++ (b'/' ∷ name))

abbrev pub is_inside : Bytes → Bytes → Bool
is_inside abs_out target = equal target abs_out || has_prefix target (abs_out ++ (b'/' ∷ []))

-- The effects of one entry, in their order.
unfoldable pub effects_of : EntryKind → Bytes → List Effect
effects_of directory target = make_dirs target ∷ []
effects_of regular target = make_dirs (FilePath.dir target) ∷ write_file target ∷ []
effects_of other target = []

-- The effects up to the first that fails.
unfoldable pub perform : (Effect → Bool) → List Effect → List Effect × Option ExtractError
perform fails [] = ([], none)
perform fails (e ∷ es) =
    let (done, failed) = perform fails es in
    if fails e then (e ∷ [], some (system_error e)) else (e ∷ done, failed)

abbrev pub then_rest :
    List Effect × Option ExtractError
    → List Effect × Option ExtractError
    → List Effect × Option ExtractError
then_rest (done, none) (more, failed) = (done ++ more, failed)
then_rest (done, some e) _ = (done, some e)

-- An entry: its effects, or the refusal of a path outside.
abbrev pub extract_entry : (Effect → Bool) → Bytes → Entry → List Effect × Option ExtractError
extract_entry fails abs_out e =
    let target = join_path abs_out e.name in
    if is_inside abs_out target
    then perform fails (effects_of e.kind target)
    else ([], some (unsafe_path e.name))

-- What the tar reader returns: a header, or an error; the end of the list is io.EOF.
pub data Header : Type 0 where
  next_entry : Entry → Header
  broken : Header

-- writeTarEntries from the entry with number `i` on; `is_done` says that the context is done before
-- an entry is read.
unfoldable pub write_tar_entries :
    (ℕ → Bool) → (Effect → Bool) → Bytes → ℕ → List Header → List Effect × Option ExtractError
unfolding effects_of perform clean
write_tar_entries is_done fails abs_out i [] =
    if is_done i then ([], some cancelled) else ([], none)
write_tar_entries is_done fails abs_out i (broken ∷ headers) =
    if is_done i then ([], some cancelled) else ([], some unreadable)
write_tar_entries is_done fails abs_out i (next_entry e ∷ headers) =
    let rest = write_tar_entries is_done fails abs_out (suc i) headers in
    if is_done i then ([], some cancelled) else then_rest (extract_entry fails abs_out e) rest

-- A zip entry that is no directory is written.
abbrev pub zip_kind : EntryKind → EntryKind
zip_kind directory = directory
zip_kind regular = regular
zip_kind other = regular

-- extractOneZIP from the entry with number `i` on; the names are those that decodeZipName returns.
unfoldable pub extract_zip_entries :
    (ℕ → Bool) → (Effect → Bool) → Bytes → ℕ → List Entry → List Effect × Option ExtractError
unfolding effects_of perform clean
extract_zip_entries is_done fails abs_out i [] = ([], none)
extract_zip_entries is_done fails abs_out i (e ∷ es) =
    let rest = extract_zip_entries is_done fails abs_out (suc i) es in
    if is_done i
    then ([], some cancelled)
    else then_rest (extract_entry fails abs_out (record e { kind = zip_kind e.kind })) rest

-- The formats of a tarball by the end of its name.
pub data TarDecomp : Type 0 where
  tar_plain tar_gzip tar_bzip2 tar_xz tar_zstd : TarDecomp

abbrev pub tar_formats : List (Bytes × TarDecomp)
tar_formats =
    (codes ".tar.gz", tar_gzip)
    ∷ (codes ".tgz", tar_gzip)
    ∷ (codes ".tar.bz2", tar_bzip2)
    ∷ (codes ".tbz2", tar_bzip2)
    ∷ (codes ".tbz", tar_bzip2)
    ∷ (codes ".tar.xz", tar_xz)
    ∷ (codes ".txz", tar_xz)
    ∷ (codes ".tar.zst", tar_zstd)
    ∷ (codes ".tzst", tar_zstd)
    ∷ (codes ".tar", tar_plain)
    ∷ []

abbrev pub first_format : List (Bytes × TarDecomp) → Bytes → Option TarDecomp
first_format [] lower = none
first_format ((suffix, dec) ∷ formats) lower =
    let later = first_format formats lower in if has_suffix lower suffix then some dec else later

unfoldable pub tar_format : Bytes → Option TarDecomp
tar_format name = first_format tar_formats (to_lower name)

-- An entry of a zip archive is stored, or packed by another method.
pub record ZipEntry : Type 0 where
  pub is_dir : Bool
  pub is_stored : Bool

-- A `none` is an archive that cannot be opened.
unfoldable pub zip_has_compressed_entry : Option (List ZipEntry) → Option Bool
zip_has_compressed_entry none = none
zip_has_compressed_entry (some es) = some (any (λ e. not e.is_dir && not e.is_stored) es)
