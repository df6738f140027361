-- ===== src/Upload/Article.antt =====
-- services/upload_usenet.go: yEncodeChunk, with the CRC state that the parts of a file share.
-- A part is handled in two steps under the lock of its file: it registers its CRC, and then it is
-- written. Only the last part may have to wait between the two.
pub mod Parts
pub mod History
pub mod WholeFile
use loon_agent.Prelude.{
  ℕ, zero, suc, ◌+◌, ◌-◌, ◌/◌, ◌%◌, ◌*◌, Bool, Option, none, some, List, [], ◌∷◌, ◌++◌, length, ltb,
  leb, ◌==◌, if◌then◌else◌, Bytes, codes, decimal, hex_padded,
}
use loon_agent.Dict.{Dict, get, put, remove}
use loon_agent.Bits.{zeros, value_of}
use loon_agent.Upload.Crc.{Word32, crc32, crc32_combine}
use loon_agent.Upload.Yenc.{crlf, yenc_body}

abbrev pub chunk_size : ℕ
chunk_size = 700 * 1024

-- The arguments of a call of yEncodeChunk.
pub record Part : Type 0 where
  pub chunk_data : Bytes
  pub file_name : Bytes
  pub part_number : ℕ
  pub total_parts : ℕ
  pub chunk_offset : ℕ
  pub total_size : ℕ

pub record PartCrcInfo : Type 0 where
  pub pcrc : Word32
  pub part_length : ℕ

abbrev pub Parts : Type 0
Parts = List (ℕ × PartCrcInfo)

abbrev pub file_crc_key : Bytes → ℕ → Bytes
file_crc_key file_name total_size = file_name ++ (0 ∷ decimal total_size)

abbrev pub key_of : Part → Bytes
key_of p = file_crc_key p.file_name p.total_size

unfoldable pub find_info : Parts → ℕ → Option PartCrcInfo
find_info [] k = none
find_info ((j, info) ∷ parts) k = if j == k then some info else find_info parts k

unfoldable pub put_info : Parts → ℕ → PartCrcInfo → Parts
put_info [] k new = (k, new) ∷ []
put_info ((j, info) ∷ parts) k new =
    let rest = put_info parts k new in if j == k then (k, new) ∷ parts else (j, info) ∷ rest

unfoldable pub or_fresh : Option Parts → Parts
or_fresh none = []
or_fresh (some parts) = parts

-- The state of a file, a fresh one where there is none.
abbrev pub load_or_create : Dict Parts → Bytes → Parts
load_or_create states key = or_fresh (get states key)

-- A key that a Go map does not hold has the zero value.
unfoldable pub info_or_zero : Option PartCrcInfo → PartCrcInfo
info_or_zero none = record { pcrc = zeros 32; part_length = 0 }
info_or_zero (some info) = info

-- The CRC of the parts 1 to `i`, in the order of their numbers.
unfoldable pub combine_parts : Parts → ℕ → Word32
combine_parts parts zero = zeros 32
combine_parts parts (suc i) =
    let info = info_or_zero (find_info parts (suc i)) in
    crc32_combine (combine_parts parts i) info.pcrc info.part_length

abbrev pub info_of : Bytes → PartCrcInfo
info_of chunk_data = record { pcrc = crc32 chunk_data; part_length = length chunk_data }

unfoldable pub register_part : Dict Parts → Part → Dict Parts
register_part states p =
    if ltb 1 p.total_parts
    then put states (key_of p)
        (put_info (load_or_create states (key_of p)) p.part_number (info_of p.chunk_data))
    else states

-- The CRC of the whole file, if this part writes it, and the states behind; `none` while it waits.
unfoldable pub whole_file_crc : Dict Parts → Part → Option (Option Word32 × Dict Parts)
whole_file_crc states p =
    let parts = load_or_create states (key_of p) in
    if ltb 1 p.total_parts
    then (if p.part_number == p.total_parts
        then (if ltb (length parts) p.total_parts
            then none
            else some (some (combine_parts parts p.total_parts), remove states (key_of p)))
        else some (none, states))
    else if p.total_parts == 1
    then some (some (crc32 p.chunk_data), states)
    else some (none, states)

abbrev begin_line : Part → Bytes
begin_line p =
    codes "=ybegin part="
    ++ decimal p.part_number
    ++ codes " total="
    ++ decimal p.total_parts
    ++ codes " line=128 size="
    ++ decimal p.total_size
    ++ codes " name="
    ++ p.file_name
    ++ crlf

abbrev part_line : Part → Bytes
part_line p =
    codes "=ypart begin="
    ++ decimal (p.chunk_offset + 1)
    ++ codes " end="
    ++ decimal (p.chunk_offset + length p.chunk_data)
    ++ crlf

abbrev hex_crc : Word32 → Bytes
hex_crc crc = hex_padded 8 (value_of 32 crc)

abbrev end_line : Part → Option Word32 → Bytes
end_line p whole =
    codes "=yend size="
    ++ decimal (length p.chunk_data)
    ++ codes " part="
    ++ decimal p.part_number
    ++ codes " pcrc32="
    ++ hex_crc (crc32 p.chunk_data)
    ++ (elim whole [ none ↦ [] | some crc ↦ codes " crc32=" ++ hex_crc crc ])
    ++ crlf

abbrev pub article : Part → Option Word32 → Bytes
article p whole = begin_line p ++ part_line p ++ yenc_body 0 p.chunk_data ++ end_line p whole

-- The second step; `none` while the part waits.
unfoldable pub write_part : Dict Parts → Part → Option (Bytes × Dict Parts)
unfolding whole_file_crc
write_part states p = elim (whole_file_crc states p) [
  | none ↦ none
  | some (whole, next) ↦ some (article p whole, next)
]

-- A call that nothing comes between.
abbrev pub yencode_chunk : Dict Parts → Part → Option (Bytes × Dict Parts)
yencode_chunk states p = write_part (register_part states p) p
