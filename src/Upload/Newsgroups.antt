-- ===== src/Upload/Newsgroups.antt =====
-- services/upload_nzb.go: the newsgroups of an NZB.
pub mod Split
use loon_agent.Prelude.{
  ℕ, Bool, true, false, ◌&&◌, ◌||◌, not, List, [], ◌∷◌, ◌++◌, all, length, leb, ◌==◌, if◌then◌else◌,
  Bytes, equal, trim_space,
}

-- `,`, space, tab, LF and CR
abbrev pub is_separator : ℕ → Bool
is_separator c = (c == 44) || (c == 32) || (c == 9) || (c == 10) || (c == 13)

abbrev pub flushed : Bytes → List Bytes
flushed [] = []
flushed (c ∷ s) = (c ∷ s) ∷ []

-- strings.FieldsFunc; `field` is the field so far.
abbrev pub fields_from : Bytes → Bytes → List Bytes
fields_from field [] = flushed field
fields_from field (c ∷ s) =
    let ended = fields_from [] s in
    let longer = fields_from (field ++ (c ∷ [])) s in
    if is_separator c then flushed field ++ ended else longer

abbrev pub is_name_byte : ℕ → Bool
is_name_byte c =
    (leb b'a' c && leb c b'z')
    || (leb b'A' c && leb c b'Z')
    || (leb b'0' c && leb c b'9')
    || (c == b'.')
    || (c == b'+')
    || (c == b'-')
    || (c == b'_')

abbrev pub ends_in_dot : Bytes → Bool
ends_in_dot [] = false
ends_in_dot (c ∷ []) = c == b'.'
ends_in_dot (_ ∷ d ∷ s) = ends_in_dot (d ∷ s)

unfoldable pub is_valid_newsgroup_name : Bytes → Bool
is_valid_newsgroup_name [] = false
is_valid_newsgroup_name (c ∷ s) =
    if (c == b'.') || ends_in_dot (c ∷ s) then false else all is_name_byte (c ∷ s)

-- The loop of splitNNTPGroups over the fields.
unfoldable pub valid_groups : List Bytes → List Bytes
valid_groups [] = []
valid_groups (part ∷ parts) =
    let rest = valid_groups parts in
    if equal (trim_space part) []
    then rest
    else if not (is_valid_newsgroup_name (trim_space part))
    then rest
    else trim_space part ∷ rest

abbrev pub or_whole : Bytes → List Bytes → List Bytes
or_whole s [] = s ∷ []
or_whole s (g ∷ gs) = g ∷ gs

unfoldable pub split_nntp_groups : Bytes → List Bytes
unfolding valid_groups
split_nntp_groups s = or_whole s (valid_groups (fields_from [] s))
