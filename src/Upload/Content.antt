-- ===== src/Upload/Content.antt =====
-- services/upload_obfuscate.go: the allowlist that decides which files may be posted.
pub mod CrashDumps
use loon_agent.Prelude.{
  ℕ, Bool, true, false, ◌&&◌, ◌||◌, List, [], ◌∷◌, map, leb, ◌==◌, if◌then◌else◌, Bytes, codes,
  contains, has_prefix, to_lower,
}
use loon_agent.FilePath.{ext}

abbrev pub agent_managed_dirs : List Bytes
agent_managed_dirs = codes "_screenshots" ∷ codes "_subtitles" ∷ []

unfoldable pub is_agent_managed_file : Bytes → Bool
is_agent_managed_file name = has_prefix name (codes ".torrent.")

abbrev pub content_exts : List Bytes
content_exts = map codes (
    ".mkv" ∷ ".mp4" ∷ ".m4v" ∷ ".avi" ∷ ".mov" ∷ ".wmv" ∷ ".flv" ∷ ".webm" ∷ ".mpg" ∷ ".mpeg"
    ∷ ".m2ts" ∷ ".ts" ∷ ".vob" ∷ ".iso" ∷ ".ogm" ∷ ".flac" ∷ ".mp3" ∷ ".m4a" ∷ ".m4b" ∷ ".aac"
    ∷ ".ac3" ∷ ".dts" ∷ ".wav" ∷ ".ogg" ∷ ".opus" ∷ ".alac" ∷ ".ape" ∷ ".wv" ∷ ".mka" ∷ ".srt"
    ∷ ".ass" ∷ ".ssa" ∷ ".sub" ∷ ".idx" ∷ ".vtt" ∷ ".sup" ∷ ".smi" ∷ ".jpg" ∷ ".jpeg" ∷ ".png"
    ∷ ".webp" ∷ ".bmp" ∷ ".gif" ∷ ".nfo" ∷ ".sfv" ∷ ".md5" ∷ ".txt" ∷ ".cue" ∷ ".par2" ∷ ".rar"
    ∷ ".zip" ∷ ".7z" ∷ [])

abbrev pub is_digit : ℕ → Bool
is_digit c = leb b'0' c && leb c b'9'

-- A split part has four bytes: a dot, then three digits, or an r and two digits.
unfoldable pub is_split_archive_part : Bytes → Bool
is_split_archive_part (_ ∷ b ∷ c ∷ d ∷ []) =
    if is_digit b && is_digit c && is_digit d
    then true
    else if (b == b'r') && is_digit c && is_digit d
    then true
    else false
is_split_archive_part _ = false

unfoldable pub is_uploadable_content : Bytes → Bool
unfolding is_agent_managed_file is_split_archive_part ext
is_uploadable_content name =
    if is_agent_managed_file name
    then false
    else let e = to_lower (ext name) in contains content_exts e || is_split_archive_part e
