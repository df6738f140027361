-- ===== src/Extract/Tests.antt =====
-- Runs of the extraction on archives that try to leave the directory.
use loon_agent.Prelude.{◌≡◌, refl, true, false, some, List, [], ◌∷◌, Bytes, String, codes, all}
use loon_agent.Extract.{
  EntryKind, directory, regular, other, Entry, make_dirs, write_file, unsafe_path, next_entry,
  Header, write_tar_entries, extract_zip_entries, tar_format, tar_gzip,
}
use loon_agent.Extract.Confined.{is_confined, extraction-is_confined}

abbrev entry : String → EntryKind → Entry
entry name kind = record { name = codes name; kind = kind }

abbrev out : Bytes
out = codes "/dl"

abbrev entries : List Entry
entries = entry "a" directory ∷ entry "a/./b" regular ∷ entry "../etc/x" regular ∷ []

abbrev headers : List Header
headers =
    next_entry (entry "a" directory)
    ∷ next_entry (entry "l" other)
    ∷ next_entry (entry "a/../../dlx" regular)
    ∷ []

zip_test : extract_zip_entries (λ i. false) (λ e. false) out 0 entries ≡ (
  make_dirs (codes "/dl/a") ∷ make_dirs (codes "/dl/a") ∷ write_file (codes "/dl/a/b") ∷ [],
  some (unsafe_path (codes "../etc/x")),
)
unfolding extract_zip_entries loon_agent.FilePath.dir
zip_test = refl

tar_test :
    write_tar_entries (λ i. false) (λ e. false) out 0 headers
    ≡ (make_dirs (codes "/dl/a") ∷ [], some (unsafe_path (codes "a/../../dlx")))
unfolding write_tar_entries
tar_test = refl

-- Below the root itself every entry is refused: the prefix is "//".
root_test :
    extract_zip_entries (λ i. false) (λ e. false) (codes "/") 0 entries
    ≡ ([], some (unsafe_path (codes "a")))
unfolding extract_zip_entries
root_test = refl

format_test : tar_format (codes "Show.TAR.GZ") ≡ some tar_gzip
unfolding tar_format
format_test = refl

extraction-is_confined_example :
    (all (is_confined out) (write_tar_entries (λ i. false) (λ e. false) out 0 headers).0 ≡ true)
    × (all (is_confined out) (extract_zip_entries (λ i. false) (λ e. false) out 0 entries).0 ≡ true)
extraction-is_confined_example =
    extraction-is_confined (λ i. false) (λ e. false) out headers entries refl
