-- ===== src/Storage/Groups/Edit.antt =====
-- storage/groups.go: the edits of the operator, UpdateGroup and DeleteGroup.
use loon_agent.Prelude.{
  ℕ, ◌≡◌, refl, sym, ap, ◌∙◌, inl, inr, Bool, true, false, ◌&&◌, not, Option, none, some, List, [],
  ◌∷◌, any, filter, ◌==◌, ==_iff, if◌then◌else◌, arith, Bytes, equal, equal_iff, Bool-cases,
}
use loon_agent.Storage.Groups.{
  Group, GroupError, Checked, valid, invalid, validate_group, GroupTable, is_named, has_key, bumped,
  update_row,
}
use loon_agent.Storage.Groups.Sync.{are_keyed, update_row-none}

pub data EditError : Type 0 where
  id_required group_not_found taken : EditError
  refused : GroupError → EditError

-- UPDATE groups SET ... of UpdateGroup; the version is left to the trigger.
abbrev pub edit : Group → Group → Group
edit g r = record g { id = r.id; version = bumped r.version r.version }

-- Another row has the name: UNIQUE.
abbrev pub is_taken : ℕ → Bytes → List Group → Bool
is_taken id name = any (λ r. not (has_key id r) && is_named name r)

abbrev pub edited : Checked → ℕ → GroupTable → GroupTable × Option EditError
edited (invalid e) id t = (t, some (refused e))
edited (valid g) id t =
    if not (any (has_key id) t.rows)
    then (t, some group_not_found)
    else if is_taken id g.name t.rows
    then (t, some taken)
    else (record t { rows = update_row id (edit g) t.rows }, none)

-- UpdateGroup
unfoldable pub update_group : Group → GroupTable → GroupTable × Option EditError
unfolding validate_group
update_group g t = if g.id == 0 then (t, some id_required) else edited (validate_group g) g.id t

-- DeleteGroup
unfoldable pub delete_group : ℕ → GroupTable → GroupTable × Option EditError
delete_group id t =
    if any (has_key id) t.rows
    then (record t { rows = filter (λ r. not (has_key id r)) t.rows }, none)
    else (t, some group_not_found)

-- No two rows have the same name.
abbrev pub are_apart : List Group → Bool
are_apart [] = true
are_apart (r ∷ rs) = not (any (is_named r.name) rs) && are_apart rs

-- In a list without the key, only the names count for UNIQUE.
is_taken-none :
    (id : ℕ) (name : Bytes) (rs : List Group)
    → any (has_key id) rs ≡ false
    → any (is_named name) rs ≡ is_taken id name rs
is_taken-none id name [] h = refl
is_taken-none id name (r ∷ rs) h = ground (arith, is_taken-none id name rs)

other_name :
    (g : Group) (id : ℕ) (name : Bytes) (rs : List Group)
    → equal g.name name ≡ false
    → any (is_named name) rs ≡ false
    → any (is_named name) (update_row id (edit g) rs) ≡ false
other_name g id name [] ne h = refl
other_name g id name (r ∷ rs) ne h =
    let rest = other_name g id name rs ne (ground arith) in
    elim (Bool-cases (has_key id r)) [
      | inl hit ↦ rw hit (rw (ne, rest) refl)
      | inr miss ↦ rw miss (rw rest (ground arith))
    ]

swap_ne : (a b : Bytes) → equal a b ≡ false → equal b a ≡ false
swap_ne a b h = ground (arith, equal_iff a b, equal_iff b a)

are_apart-update_row :
    (g : Group) (id next : ℕ) (rs : List Group)
    → are_keyed next rs ≡ true
    → is_taken id g.name rs ≡ false
    → are_apart rs ≡ true
    → are_apart (update_row id (edit g) rs) ≡ true
are_apart-update_row g id next [] k u a = refl
are_apart-update_row g id next (r ∷ rs) k u a = elim (Bool-cases (has_key id r)) [
  | inl hit ↦
      let e : r.id ≡ id = (==_iff r.id id).0 hit in
      let alone : any (has_key id) rs ≡ false =
        sym (ap (λ n. any (has_key n) rs) e) ∙ ground arith in
      rw hit
        (rw (update_row-none id (edit g) rs alone, is_taken-none id g.name rs alone) (ground arith))
  | inr miss ↦
      let ne : equal r.name g.name ≡ false = ground arith in
      rw miss (
        rw
          (
            other_name g id r.name rs (swap_ne r.name g.name ne) (ground arith),
            are_apart-update_row g id next rs (ground arith) (ground arith) (ground arith),
          )
          refl)
]

are_apart-edited :
    (c : Checked) (id : ℕ) (t : GroupTable)
    → are_keyed t.next_id t.rows ≡ true
    → are_apart t.rows ≡ true
    → are_apart (edited c id t).0.rows ≡ true
are_apart-edited (invalid e) id t k a = a
are_apart-edited (valid g) id t k a = elim (Bool-cases (any (has_key id) t.rows)) [
  | inr miss ↦ rw miss a
  | inl hit ↦ rw hit (elim (Bool-cases (is_taken id g.name t.rows)) [
    | inl other ↦ rw other a
    | inr free ↦ rw free (are_apart-update_row g id t.next_id t.rows k free a)
  ])
]

-- In a table with distinct ids and distinct names, UpdateGroup leaves the names distinct, whether
-- it refuses or writes, also where it renames the group.
pub are_apart-update_group :
    (g : Group) (t : GroupTable)
    → are_keyed t.next_id t.rows ≡ true
    → are_apart t.rows ≡ true
    → are_apart (update_group g t).0.rows ≡ true
unfolding update_group
are_apart-update_group g t k a = elim (Bool-cases (g.id == 0)) [
  | inl zero_id ↦ rw zero_id a
  | inr given ↦ rw given (are_apart-edited (validate_group g) g.id t k a)
]
