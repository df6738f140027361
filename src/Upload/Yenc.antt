-- ===== src/Upload/Yenc.antt =====
-- services/upload_usenet.go: the encoding loop of yEncodeChunk.
pub mod Decode
pub mod Lines
use loon_agent.Prelude.{
  ℕ, ◌+◌, ◌%◌, Bool, ◌&&◌, ◌||◌, List, [], ◌∷◌, ◌++◌, ltb, leb, ◌==◌, if◌then◌else◌, Bytes,
}

abbrev pub crlf : Bytes
crlf = 13 ∷ 10 ∷ []

abbrev pub yenc_value : ℕ → ℕ
yenc_value b = (b + 42) % 256

-- A byte is escaped if it would be NUL, LF, CR or "=", or "." at the start of a line.
abbrev pub is_critical : ℕ → ℕ → Bool
is_critical line_len val =
    (val == 0) || (val == 10) || (val == 13) || (val == 61) || ((line_len == 0) && (val == 46))

abbrev pub emit : Bool → ℕ → Bytes
emit escaped val = if escaped then 61 ∷ (val + 64) % 256 ∷ [] else val ∷ []

abbrev pub advance : Bool → ℕ → ℕ
advance escaped line_len = line_len + (if escaped then 2 else 1)

-- The loop over the data, from a line that holds `line_len` bytes, and the last line break.
unfoldable pub yenc_body : ℕ → Bytes → Bytes
yenc_body line_len [] = if ltb 0 line_len then crlf else []
yenc_body line_len (b ∷ data_) =
    let val = yenc_value b in
    let escaped = is_critical line_len val in
    let len = advance escaped line_len in
    emit escaped val
    ++ ((if leb 128 len then crlf else []) ++ yenc_body (if leb 128 len then 0 else len) data_)
