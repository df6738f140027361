-- ===== src/Upload/Stage.antt =====
-- services/upload_obfuscate.go: the copy of a download into the staging directory, and the audit
-- that compares the two trees. The link and copy calls of the system are the parameter `place`.
pub mod Shipped
mod Tracking
mod Ending
pub mod Count
pub mod Copy
use loon_agent.Prelude.{
  zero, suc, ℕ, ◌+◌, Bool, false, ◌||◌, [], ◌++◌, not, ◌==◌, if◌then◌else◌, Bytes, contains, add64,
  Option, none, some,
}
use loon_agent.FilePath.{ext}
use loon_agent.FileTree.{
  FileInfo, Node, file, on_file, on_dir, on_locked, on_lost, Outcome, go, skip_dir, fail, Visitor,
  walk,
}
use loon_agent.Upload.Content.{agent_managed_dirs, is_uploadable_content}

pub record StageCounts : Type 0 where
  pub files : ℕ
  pub bytes : ℕ  -- int64

pub data StageError : Type 0 where
  walk_error : StageError
  copy_failed : Bytes → StageError
  cancelled : StageError
  audit_walk_failed : StageError → StageError
  parity_mismatch : StageCounts → StageCounts → StageError
  missing_source : StageError

pub data Result {ℓ} (A : Type ℓ) : Type ℓ where
  ok : A → Result A
  err : StageError → Result A

abbrev pub no_counts : StageCounts
no_counts = record { files = 0; bytes = 0 }

abbrev pub tally : StageCounts → ℕ → StageCounts
tally c size = record { files = c.files + 1; bytes = add64 c.bytes size }

-- The guards of a staged file: `fi.Size() == 0 || !isUploadableContent(fi.Name())`.
abbrev pub is_skipped : FileInfo → Bool
is_skipped i = (i.size == 0) || not (is_uploadable_content i.name)

-- The walk function that the counter and both copiers write out: errors end the walk, directories
-- of the agent's own are left, and `act` handles a file that passes the guards.
module _ {S : Type 0} (act : Bytes → FileInfo → S → S × Outcome StageError) where
  unfoldable pub content_visit : Visitor S StageError
  content_visit path (on_file i) s = if is_skipped i then (s, go) else act path i s
  content_visit path (on_dir n) s = if contains agent_managed_dirs n then (s, skip_dir) else (s, go)
  content_visit path (on_locked n) s = (s, fail walk_error)
  content_visit path (on_lost n) s = (s, fail walk_error)

unfoldable pub count_file : Bytes → FileInfo → StageCounts → StageCounts × Outcome StageError
count_file path i c = (tally c i.size, go)

abbrev pub counted : StageCounts × Outcome StageError → Result StageCounts
counted (c, fail e) = err e
counted (c, _) = ok c

unfoldable pub count_staged_files : Node → Result StageCounts
unfolding content_visit count_file walk
count_staged_files root = counted (walk (content_visit count_file) root no_counts)

-- CountUploadableBytes, for a walk that met no error.
unfoldable pub count_uploadable_bytes : Node → Result (ℕ × ℕ)
count_uploadable_bytes root = elim (count_staged_files root) [
  | ok c ↦ ok (c.bytes, c.files)
  | err e ↦ err e
]

abbrev same_counts : StageCounts → StageCounts → Bool
same_counts a b = if a.files == b.files then a.bytes == b.bytes else false

unfoldable pub audit_staged : Node → StageCounts → Result (Unit {0})
audit_staged dst want = elim (count_staged_files dst) [
  | err e ↦ err (audit_walk_failed e)
  | ok got ↦ if same_counts got want then ok tt else err (parity_mismatch want got)
]

-- The staging tree so far, and what has been copied into it.
pub record Staging : Type 0 where
  pub dst : Node
  pub want : StageCounts
  pub drawn : ℕ  -- random names used

abbrev staging : Node → Staging
staging dst = record { dst = dst; want = no_counts; drawn = 0 }

abbrev pub audited : Staging × Outcome StageError → Staging × Result (Unit {0})
audited (s, fail e) = (s, err e)
audited (s, _) = (s, audit_staged s.dst s.want)

-- A copy of the file `i` at the first path to the second: the new tree, or none if it fails.
abbrev pub Place : Type 0
Place = Bytes → Bytes → FileInfo → Node → Option Node

-- The calls of the packages os and io: Link, whether Open works, Create, the size that Stat finds of
-- the open source, Truncate, and CopyBuffer. A call that changes the staging tree and then fails
-- ends the copy, as one that changes nothing.
pub record FileSystem : Type 0 where
  pub link : Place
  pub opens : Bytes → Bool
  pub create : Bytes → Node → Option Node
  pub stat_size : Bytes → Option ℕ
  pub truncate : Bytes → ℕ → Node → Option Node
  pub copy_buffer : Place

abbrev and_then : Option Node → (Node → Option Node) → Option Node
and_then none k = none
and_then (some t) k = k t

-- The preallocation of copyFile.
abbrev pub preallocate : FileSystem → Bytes → Option ℕ → Node → Option Node
preallocate fs to none t = some t
preallocate fs to (some zero) t = some t
preallocate fs to (some (suc n)) t = fs.truncate to (suc n) t

-- copyFile
unfoldable pub copy_bytes : FileSystem → Place
copy_bytes fs path to i t =
    if fs.opens path
    then and_then (fs.create to t)
        (λ made. and_then (preallocate fs to (fs.stat_size path) made) (fs.copy_buffer path to i))
    else none

unfoldable pub link_or_copy : FileSystem → Place
unfolding copy_bytes
link_or_copy fs path to i t = elim (fs.link path to i t) [
  | some linked ↦ some linked
  | none ↦ copy_bytes fs path to i t
]

module _ (place : Place) (is_cancelled : Bytes → Bool) where
  -- Both copiers: the cancellation test, the copy under the name `to`, the tally.
  unfoldable pub copy_to : Bytes → Bytes → FileInfo → Staging → Staging × Outcome StageError
  copy_to to path i s =
      if is_cancelled path then (s, fail cancelled) else elim (place path to i s.dst) [
        | none ↦ (s, fail (copy_failed path))
        | some dst' ↦ (record s { dst = dst'; want = tally s.want i.size }, go)
      ]

-- A source that is one file: copied under `to`, with no audit.
abbrev single : Place → Bytes → FileInfo → Staging → Staging × Result (Unit {0})
single place to i s = if is_skipped i then (s, ok tt) else elim (place [] to i s.dst) [
  | none ↦ (s, err (copy_failed i.name))
  | some dst' ↦ (record s { dst = dst' }, ok tt)
]

module _ (fs : FileSystem) (is_cancelled : Bytes → Bool) where
  unfoldable pub copy_file : Bytes → FileInfo → Staging → Staging × Outcome StageError
  unfolding copy_to link_or_copy
  copy_file path i s = copy_to (link_or_copy fs) is_cancelled path path i s

  -- CopyFiles: `none` is a source that os.Stat does not find.
  unfoldable pub copy_files : Option Node → Node → Staging × Result (Unit {0})
  unfolding content_visit copy_file walk audit_staged link_or_copy
  copy_files none dst = (staging dst, err missing_source)
  copy_files (some (file i)) dst = single (link_or_copy fs) i.name i (staging dst)
  copy_files (some src) dst = audited (walk (content_visit copy_file) src (staging dst))

  module _ (random : ℕ → Bytes) where
    unfoldable pub obfuscate_file : Bytes → FileInfo → Staging → Staging × Outcome StageError
    unfolding copy_to ext copy_bytes
    obfuscate_file path i s =
        copy_to (copy_bytes fs) is_cancelled (random s.drawn ++ ext i.name) path i
          (record s { drawn = s.drawn + 1 })

    -- ObfuscateFiles
    unfoldable pub obfuscate_files : Option Node → Node → Staging × Result (Unit {0})
    unfolding content_visit obfuscate_file walk audit_staged ext copy_bytes
    obfuscate_files none dst = (staging dst, err missing_source)
    obfuscate_files (some (file i)) dst =
        single (copy_bytes fs) (random 0 ++ ext i.name) i (staging dst)
    obfuscate_files (some src) dst = audited (walk (content_visit obfuscate_file) src (staging dst))
