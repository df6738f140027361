-- ===== src/FilePath.antt =====
-- path/filepath of Go on a Unix host: the functions that the agent calls on paths.
pub mod Shorter
pub mod Rooted
use loon_agent.Prelude.{
  ℕ, Bool, false, ◌||◌, List, [], ◌∷◌, ◌++◌, ◌==◌, if◌then◌else◌, Bytes, codes, equal, any,
  trim_right,
}
use mathlib.Core.List.{reverse}

abbrev pub is_slash : ℕ → Bool
is_slash c = c == b'/'

-- filepath.Ext: from the last dot, if no slash follows it.
unfoldable pub ext : Bytes → Bytes
ext [] = []
ext (c ∷ s) =
    if any (λ d. is_slash d || (d == b'.')) s then ext s else if c == b'.' then c ∷ s else []

abbrev pub after_last_slash : Bytes → Bytes
after_last_slash [] = []
after_last_slash (c ∷ s) = if any is_slash (c ∷ s) then after_last_slash s else c ∷ s

-- filepath.Base
unfoldable pub base : Bytes → Bytes
base [] = codes "."
base (c ∷ s) = elim (after_last_slash (trim_right is_slash (c ∷ s))) [
  | [] ↦ codes "/"
  | d ∷ r ↦ d ∷ r
]

-- The elements of a path, empty ones included.
abbrev pub split_slash : Bytes → List Bytes
split_slash [] = [] ∷ []
split_slash (c ∷ s) = elim (split_slash s) [
  | [] ↦ []
  | part ∷ parts ↦ if is_slash c then [] ∷ part ∷ parts else (c ∷ part) ∷ parts
]

abbrev pub dot_dot : Bytes
dot_dot = codes ".."

-- One element of Clean: `out` holds the elements kept so far, the last one first.
abbrev clean_part : Bool → List Bytes → Bytes → List Bytes
clean_part rooted out part =
    if equal part [] || equal part (codes ".")
    then out
    else if equal part dot_dot
    then (elim out [
      | [] ↦ if rooted then [] else dot_dot ∷ []
      | top ∷ rest ↦ if equal top dot_dot then dot_dot ∷ top ∷ rest else rest
    ])
    else part ∷ out

abbrev clean_parts : Bool → List Bytes → List Bytes → List Bytes
clean_parts rooted out [] = out
clean_parts rooted out (part ∷ parts) = clean_parts rooted (clean_part rooted out part) parts

abbrev join_slash : List Bytes → Bytes
join_slash [] = []
join_slash (part ∷ parts) = elim parts [ [] ↦ part | _ ∷ _ ↦ part ++ (b'/' ∷ join_slash parts) ]

abbrev pub starts_rooted : Bytes → Bool
starts_rooted [] = false
starts_rooted (c ∷ _) = is_slash c

-- filepath.Clean
unfoldable pub clean : Bytes → Bytes
clean p =
    let rooted = starts_rooted p in
    let body = join_slash (reverse (clean_parts rooted [] (split_slash p))) in
    if rooted then b'/' ∷ body else if equal body [] then codes "." else body

abbrev up_to_last_slash : Bytes → Bytes
up_to_last_slash [] = []
up_to_last_slash (c ∷ s) =
    let rest = up_to_last_slash s in if any is_slash (c ∷ s) then c ∷ rest else []

-- filepath.Dir
unfoldable pub dir : Bytes → Bytes
unfolding clean
dir p = clean (up_to_last_slash p)
