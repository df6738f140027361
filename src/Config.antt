-- ===== src/Config.antt =====
-- config/layered.go: the three sources of the settings, and config.yml written and read back.
pub mod Quoting
pub mod Lines
pub mod RoundTrip
mod Tests
use loon_agent.Prelude.{
  length, ℕ, Bool, true, false, ◌&&◌, ◌||◌, not, Option, none, some, List, [], ◌∷◌, ◌++◌, map, any,
  ltb, leb, ◌==◌, if◌then◌else◌, Bytes, codes, equal, contains, has_prefix, to_lower, is_space,
  trim_left, trim_right, trim_space, precedes, ◌/◌, ◌%◌, hex_padded,
}
use loon_agent.Dict.{Dict, get, put}

pub record Layered : Type 0 where
  pub yml : Dict Bytes
  pub env : Dict Bytes
  pub web : Dict Bytes
  pub is_writable : Bool

abbrev pub env_only_keys : List Bytes
env_only_keys =
    codes "site_url"
    ∷ codes "agent_token"
    ∷ codes "vpn_provider"
    ∷ codes "vpn_download_only"
    ∷ codes "vpn_proxy_addr"
    ∷ codes "nntp_server"
    ∷ codes "nntp_ssl"
    ∷ codes "nntp_connections"
    ∷ codes "nntp_user"
    ∷ codes "nntp_pass"
    ∷ codes "nntp_group"
    ∷ codes "nntp_poster"
    ∷ codes "nntp_from"
    ∷ codes "nntp_domain"
    ∷ []

-- bufio.ScanLines: a last line without a newline counts, an empty one does not. A carriage return
-- at the end of a line is left to TrimSpace.
unfoldable pub lines_of : Bytes → List Bytes
lines_of [] = []
lines_of (c ∷ s) =
    if c == 10
    then [] ∷ lines_of s
    else (elim (lines_of s) [ [] ↦ (c ∷ []) ∷ [] | line ∷ lines ↦ (c ∷ line) ∷ lines ])

-- A line and its newline fit into the 64 KiB that a Scanner buffers.
abbrev pub max_line : ℕ
max_line = 65535

-- A Scanner ends, with the error that loadYml does not look at, before the first line that is
-- longer.
unfoldable pub within_buffer : List Bytes → List Bytes
within_buffer [] = []
within_buffer (line ∷ lines) = if leb (length line) max_line then line ∷ within_buffer lines else []

unfoldable pub scan_lines : Bytes → List Bytes
unfolding lines_of within_buffer
scan_lines text = within_buffer (lines_of text)

-- The text before the first colon and behind it.
unfoldable pub split_colon : Bytes → Option (Bytes × Bytes)
split_colon [] = none
split_colon (c ∷ s) =
    if c == b':'
    then some ([], s)
    else (elim (split_colon s) [ none ↦ none | some (k, v) ↦ some (c ∷ k, v) ])

abbrev pub is_quote : ℕ → Bool
is_quote c = (c == 34) || (c == 39)

-- strings.Trim(v, `"'`)
abbrev pub trim_quotes : Bytes → Bytes
trim_quotes v = trim_right is_quote (trim_left is_quote v)

abbrev pub is_skipped : Bytes → Bool
is_skipped line = equal line [] || has_prefix line (codes "#")

-- A line of the file, with its white space trimmed.
abbrev pub entry_of : Bytes → Option (Bytes × Bytes)
entry_of line = if is_skipped line then none else (elim (split_colon line) [
  | none ↦ none
  | some (k, v) ↦ some (to_lower (trim_space k), trim_quotes (trim_space v))
])

abbrev pub add_entry : Option (Bytes × Bytes) → Dict Bytes → Dict Bytes
add_entry none yml = yml
add_entry (some (k, v)) yml = put yml k v

unfoldable pub load_lines : Dict Bytes → List Bytes → Dict Bytes
load_lines yml [] = yml
load_lines yml (line ∷ lines) = load_lines (add_entry (entry_of (trim_space line)) yml) lines

-- loadYml into an empty tier; a file that cannot be opened is not read.
unfoldable pub load_yml : Option Bytes → Dict Bytes
load_yml none = []
load_yml (some text) = load_lines [] (scan_lines text)

abbrev non_empty : Option Bytes → Option Bytes
non_empty none = none
non_empty (some []) = none
non_empty (some (c ∷ s)) = some (c ∷ s)

abbrev pub first_of : Option Bytes → Bytes → Bytes
first_of none other = other
first_of (some v) other = v

unfoldable pub effective : Layered → Bytes → Bytes
effective l key =
    first_of (non_empty (get l.web key))
      (first_of (non_empty (get l.env key)) (first_of (get l.yml key) []))

unfoldable pub apply_web_from : Dict Bytes → Dict Bytes → Dict Bytes
apply_web_from web [] = web
apply_web_from web ((k, v) ∷ m) = apply_web_from (put web (to_lower k) v) m

-- ApplyWeb; `m` is in the order in which the map is walked.
unfoldable pub apply_web : Layered → Dict Bytes → Layered
unfolding apply_web_from
apply_web l m = record l { web = apply_web_from [] m }

unfoldable pub merge : Dict Bytes → Dict Bytes → Dict Bytes
merge yml [] = yml
merge yml ((k, v) ∷ updates) =
    let kept = merge yml updates in
    let merged = merge (put yml (to_lower k) v) updates in
    if contains env_only_keys (to_lower k) then kept else merged

unfoldable pub insert_entry : Bytes → Bytes → Dict Bytes → Dict Bytes
insert_entry k v [] = (k, v) ∷ []
insert_entry k v ((j, w) ∷ m) =
    let rest = insert_entry k v m in if precedes j k then (j, w) ∷ rest else (k, v) ∷ (j, w) ∷ m

unfoldable pub sorted : Dict Bytes → Dict Bytes
sorted [] = []
sorted ((k, v) ∷ m) = insert_entry k v (sorted m)

abbrev needs_quotes : ℕ → Bool
needs_quotes c = (c == b':') || (c == b'#') || (c == 34) || (c == 39) || (c == 10)

-- `%q` of bytes; those of other runes are written as they are.
abbrev pub quoted_byte : ℕ → Bytes
quoted_byte c =
    if (c == 34) || (c == 92)
    then 92 ∷ c ∷ []
    else if c == 10
    then codes "\\n"
    else if c == 13
    then codes "\\r"
    else if c == 9
    then codes "\\t"
    else if c == 7
    then codes "\\a"
    else if c == 8
    then codes "\\b"
    else if c == 12
    then codes "\\f"
    else if c == 11
    then codes "\\v"
    else if ltb c 32 || (c == 127)
    then 92 ∷ b'x' ∷ hex_padded 2 c
    else c ∷ []

abbrev pub quoted_bytes : Bytes → Bytes
quoted_bytes [] = []
quoted_bytes (c ∷ s) = quoted_byte c ++ quoted_bytes s

abbrev pub quoted : Bytes → Bytes
quoted v = 34 ∷ (quoted_bytes v ++ (34 ∷ []))

abbrev pub rendered : Bytes → Bytes
rendered v = if any needs_quotes v then quoted v else v

abbrev pub line_of : Bytes → Bytes → Bytes
line_of k v = k ++ (b':' ∷ b' ' ∷ rendered v)

unfoldable pub render_entries : Dict Bytes → Bytes
render_entries [] = []
render_entries ((k, v) ∷ m) = line_of k v ++ (10 ∷ render_entries m)

abbrev dash : Bytes
dash = 226 ∷ 128 ∷ 148 ∷ []

abbrev pub banner : List Bytes
banner =
    (codes "# indexer-agent config.yml " ++ (dash ++ codes " edit with care."))
    ∷ codes "# Writes from the site UI or the local UI overwrite this file in place."
    ∷ codes "# Keys in .env (VPN_*, NNTP_*, SITE_URL, AGENT_TOKEN) are NOT managed here."
    ∷ []
    ∷ []

abbrev pub with_banner : List Bytes → Bytes → Bytes
with_banner [] text = text
with_banner (line ∷ lines) text = line ++ (10 ∷ with_banner lines text)

unfoldable pub render : Dict Bytes → Bytes
unfolding sorted render_entries
render yml = with_banner banner (render_entries (sorted yml))

-- WriteYml: the tiers behind and the text of the file, or `none` if the file is not writable. The
-- writing of the temporary file and its rename are taken to succeed; the keys it returns are left out.
unfoldable pub write_yml : Layered → Dict Bytes → Option (Layered × Bytes)
unfolding merge render
write_yml l updates =
    let next = record l { yml = merge l.yml updates } in
    if l.is_writable then some (next, render next.yml) else none
