-- ===== src/Storage/Groups/Valid.antt =====
-- storage/groups.go: what validateGroup accepts, and why it refuses.
use loon_agent.Prelude.{
  ◌<◌, ◌≡◌, refl, inl, inr, true, false, ◌||◌, List, [], ◌∷◌, any, all, length, ◌==◌, arith, Bytes,
  codes, equal, has_prefix, to_lower, trim_space, Bool-cases,
}
use loon_agent.Storage.Groups.{
  Group, name_required, newsgroup_required, invalid_source, name_taken, Checked, valid, invalid,
  local, site, clean_newsgroups, dotted, clean_bans, non_empty_or, validate_group,
}

-- The form in which groups are stored.
pub record IsNormal (g : Group) : Type 0 where
  pub named : equal g.name [] ≡ false
  pub posted : 0 < length g.newsgroups
  pub filled : any (λ n. equal n []) g.newsgroups ≡ false
  pub typed : equal g.kind [] ≡ false
  pub dots : all (λ e. has_prefix e (codes ".")) g.banned_extensions ≡ true
  pub sourced : (equal g.source local || equal g.source site) ≡ true

-- A refusal gives the first reason that holds.
abbrev pub Explains : Group → Checked → Type 0
Explains g (valid h) = IsNormal h
Explains g (invalid name_required) = equal (trim_space g.name) [] ≡ true
Explains g (invalid newsgroup_required) = length (clean_newsgroups g.newsgroups) ≡ 0
Explains g (invalid invalid_source) =
    (equal (non_empty_or g.source local) local || equal (non_empty_or g.source local) site) ≡ false
Explains g (invalid name_taken) = ⊥

non_empty_or-filled : (s d : Bytes) → equal d [] ≡ false → equal (non_empty_or s d) [] ≡ false
non_empty_or-filled s d h = elim (Bool-cases (equal s [])) [
  | inl hit ↦ rw hit h
  | inr miss ↦ rw miss miss
]

clean_newsgroups-filled : (gs : List Bytes) → any (λ n. equal n []) (clean_newsgroups gs) ≡ false
clean_newsgroups-filled [] = refl
clean_newsgroups-filled (g ∷ gs) = elim (Bool-cases (equal (trim_space g) [])) [
  | inl hit ↦ rw hit (clean_newsgroups-filled gs)
  | inr miss ↦ rw miss (rw (miss, clean_newsgroups-filled gs) refl)
]

has_prefix-none : (s : Bytes) → has_prefix s [] ≡ true
has_prefix-none [] = refl
has_prefix-none (c ∷ s) = refl

dotted-prefix : (e : Bytes) → has_prefix (dotted e) (codes ".") ≡ true
dotted-prefix e = elim (Bool-cases (has_prefix e (codes "."))) [
  | inl hit ↦ rw hit hit
  | inr miss ↦ rw miss (has_prefix-none e)
]

clean_bans-dots : (es : List Bytes) → all (λ e. has_prefix e (codes ".")) (clean_bans es) ≡ true
clean_bans-dots [] = refl
clean_bans-dots (e ∷ es) = elim (Bool-cases (equal (trim_space (to_lower e)) [])) [
  | inl hit ↦ rw hit (clean_bans-dots es)
  | inr miss ↦ rw miss (rw (dotted-prefix (trim_space (to_lower e)), clean_bans-dots es) refl)
]

-- A group that validateGroup accepts is in normal form: it has a name, at least one newsgroup and
-- none that is empty, a type, banned extensions that start with a dot, and one of the two sources.
-- A refusal is for a name that is blank, for no newsgroup that is not blank, or for another source.
pub validate_group_lem : (g : Group) → Explains g (validate_group g)
unfolding validate_group
validate_group_lem g = elim (Bool-cases (equal (trim_space g.name) [])) [
  | inl nameless ↦ rw nameless nameless
  | inr named ↦ (elim (Bool-cases (length (clean_newsgroups g.newsgroups) == 0)) [
    | inl nowhere ↦ rw (named, nowhere) (ground arith)
    | inr posted ↦ (elim (Bool-cases (equal (non_empty_or g.source local) local)) [
      | inl own ↦
          rw (named, posted, own)
            (record {
              named = named;
              posted = ground arith;
              filled = clean_newsgroups-filled g.newsgroups;
              typed = non_empty_or-filled (trim_space (to_lower g.kind)) (codes "video") refl;
              dots = clean_bans-dots g.banned_extensions;
              sourced = rw own refl;
            })
      | inr other ↦ (elim (Bool-cases (equal (non_empty_or g.source local) site)) [
        | inl pushed ↦
            rw (named, posted, other, pushed)
              (record {
                named = named;
                posted = ground arith;
                filled = clean_newsgroups-filled g.newsgroups;
                typed = non_empty_or-filled (trim_space (to_lower g.kind)) (codes "video") refl;
                dots = clean_bans-dots g.banned_extensions;
                sourced = rw (other, pushed) refl;
              })
        | inr unknown ↦ rw (named, posted, other, unknown) (rw (other, unknown) refl)
      ])
    ])
  ])
]
