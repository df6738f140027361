-- ===== src/Upload/Tests/Staging.antt =====
-- Runs of the staging copy and its audit.
use loon_agent.Prelude.{
  none, true, ℕ, ◌≡◌, refl, Bool, true, false, some, [], ◌++◌, Bytes, codes, length, ◌==◌,
  if◌then◌else◌,
}
use loon_agent.FilePath.{ext}
use loon_agent.FileTree.{FileInfo, Node, Nodes, walk, walk_node, walk_nodes, child_path}
use loon_agent.Upload.Content.{is_uploadable_content, is_agent_managed_file, is_split_archive_part}
use loon_agent.Upload.Content.CrashDumps.{uploadable_crash_dump}
use loon_agent.Upload.Stage.{
  StageError, FileSystem, link_or_copy, copy_bytes, ok, err, no_counts, content_visit, count_file,
  count_staged_files, audit_staged, copy_to, copy_file, obfuscate_file, copy_files, obfuscate_files,
}
use loon_agent.Upload.Stage.Shipped.{shipped, is_readable, counts_of}
use loon_agent.Upload.Stage.Count.{count_staged_files_total}
use loon_agent.Upload.Stage.Copy.{copy_files_sound, obfuscate_files_sound}
use loon_agent.Upload.Tests.Trees.{entries, release, stage}

abbrev beside : FileInfo → Node → Node
beside i t = Node.dir [] (Nodes.cons (Node.file i) (Nodes.cons t Nodes.nil))

-- A file system without links, that puts each copy at the top of a new tree.
abbrev put_beside : FileSystem
put_beside = record {
  link = λ p to i t. none;
  opens = λ p. true;
  create = λ to t. some t;
  stat_size = λ p. some 7;
  truncate = λ to n t. some t;
  copy_buffer = λ p to i t. some (beside i t);
}

abbrev never : Bytes → Bool
never p = false

abbrev names : ℕ → Bytes
names n = codes "x"

uploadable_crash_dump_test :
    is_uploadable_content (codes "core." ++ codes "999") ≡ (length (codes "999") == 3)
uploadable_crash_dump_test = uploadable_crash_dump (codes "999") refl

count_test : count_staged_files release ≡ ok (record { files = 2; bytes = 2097155 })
unfolding count_staged_files walk walk_node walk_nodes child_path content_visit count_file
    is_uploadable_content is_agent_managed_file is_split_archive_part ext
count_test = refl

copied_test : (copy_files put_beside never (some release) stage).1 ≡ ok tt
unfolding copy_files copy_file link_or_copy copy_bytes copy_to audit_staged count_staged_files walk
    walk_node walk_nodes child_path content_visit count_file is_uploadable_content
    is_agent_managed_file is_split_archive_part ext
copied_test = refl

obfuscated_test : (obfuscate_files put_beside never names (some release) stage).1 ≡ ok tt
unfolding obfuscate_files obfuscate_file copy_bytes copy_to audit_staged count_staged_files walk
    walk_node walk_nodes child_path content_visit count_file is_uploadable_content
    is_agent_managed_file is_split_archive_part ext
obfuscated_test = refl

-- A file system that loses each copy.
lost_copies_test :
    (copy_files (record put_beside { link = λ p to i t. some t }) never (some release) stage).1
    ≡ err (StageError.parity_mismatch (record { files = 2; bytes = 2097155 }) no_counts)
unfolding copy_files copy_file link_or_copy copy_bytes copy_to audit_staged count_staged_files walk
    walk_node walk_nodes child_path content_visit count_file is_uploadable_content
    is_agent_managed_file is_split_archive_part ext
lost_copies_test = refl

count_staged_files_total_test :
    count_staged_files release
    ≡ (if is_readable release then ok (counts_of (shipped release)) else err StageError.walk_error)
count_staged_files_total_test = count_staged_files_total release

copy_files_sound_example :
    count_staged_files (copy_files put_beside never (some release) stage).0.dst
    ≡ ok (counts_of (shipped release))
copy_files_sound_example =
    copy_files_sound put_beside never (codes "release") entries stage copied_test

obfuscate_files_sound_test :
    count_staged_files (obfuscate_files put_beside never names (some release) stage).0.dst
    ≡ ok (counts_of (shipped release))
obfuscate_files_sound_test =
    obfuscate_files_sound put_beside never (codes "release") entries stage names obfuscated_test
