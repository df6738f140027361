-- ===== src/Upload/Newsgroups/Split.antt =====
-- services/upload_nzb.go: what splitNNTPGroups returns.
use loon_agent.Prelude.{
  ◌≡◌, ◌≢◌, ◌⊎◌, refl, inl, inr, Bool, true, false, List, [], ◌∷◌, map, all, filter, Bytes, equal,
  trim_space, Bool-cases,
}
use loon_agent.Upload.Newsgroups.{
  fields_from, is_valid_newsgroup_name, valid_groups, or_whole, split_nntp_groups,
}

-- The fields of the text, trimmed, that are newsgroup names.
abbrev pub named_in : Bytes → List Bytes
named_in s = filter is_valid_newsgroup_name (map trim_space (fields_from [] s))

empty-invalid : (name : Bytes) → equal name [] ≡ true → is_valid_newsgroup_name name ≡ false
unfolding is_valid_newsgroup_name
empty-invalid [] h = refl
empty-invalid (c ∷ s) h = cc

valid_groups-filter :
    (parts : List Bytes)
    → valid_groups parts ≡ filter is_valid_newsgroup_name (map trim_space parts)
unfolding valid_groups
valid_groups-filter [] = refl
valid_groups-filter (part ∷ parts) = elim (Bool-cases (equal (trim_space part) [])) [
  | inl blank ↦ rw (blank, empty-invalid (trim_space part) blank) (valid_groups-filter parts)
  | inr filled ↦ (elim (Bool-cases (is_valid_newsgroup_name (trim_space part))) [
    | inl good ↦ rw (filled, good) (rw (valid_groups-filter parts) refl)
    | inr bad ↦ rw (filled, bad) (valid_groups-filter parts)
  ])
]

all-filter : (p : Bytes → Bool) (xs : List Bytes) → all p (filter p xs) ≡ true
all-filter p [] = refl
all-filter p (x ∷ xs) = elim (Bool-cases (p x)) [
  | inl hit ↦ rw hit (rw (hit, all-filter p xs) refl)
  | inr miss ↦ rw miss (all-filter p xs)
]

whole_cases :
    (s : Bytes) (names : List Bytes)
    → ((or_whole s names ≡ names) × (names ≢ [])) ⊎ ((names ≡ []) × (or_whole s names ≡ s ∷ []))
whole_cases s [] = inr (refl, refl)
whole_cases s (g ∷ gs) = inl (refl, λ e. cc)

-- If some field of the text, trimmed, is a newsgroup name, splitNNTPGroups returns exactly those
-- that are, in order, so that all of them are valid; if none is, it returns the text as it stands.
pub split_nntp_groups_lem :
    (s : Bytes)
    → ((split_nntp_groups s ≡ named_in s)
        × (named_in s ≢ [])
        × (all is_valid_newsgroup_name (split_nntp_groups s) ≡ true))
      ⊎ ((named_in s ≡ []) × (split_nntp_groups s ≡ s ∷ []))
unfolding split_nntp_groups
split_nntp_groups_lem s =
    rw (valid_groups-filter (fields_from [] s)) (elim (whole_cases s (named_in s)) [
      | inl (e, some_) ↦
          inl (
            e,
            some_,
            rw e (all-filter is_valid_newsgroup_name (map trim_space (fields_from [] s))),
          )
      | inr (none_, e) ↦ inr (none_, e)
    ])
