-- ===== src/Storage/Groups/Sync.antt =====
-- storage/groups.go: a sync with the site leaves local groups alone.
use loon_agent.Prelude.{
  ℕ, suc, ◌≡◌, refl, sym, ap, ◌∙◌, inl, inr, Bool, true, false, ◌&&◌, not, Option, none, some, List,
  [], ◌∷◌, any, filter, length, trim_space, ltb, ◌==◌, ==_iff, arith, Bytes, equal, equal_iff,
  Bool-cases,
}
use loon_agent.Storage.Groups.{
  Group, Checked, valid, invalid, local, site, validate_group, GroupTable, is_named, has_key,
  clean_newsgroups, find_named, site_update, update_row, upsert_over, upsert_checked,
  upsert_site_group, is_stale, reconcile_site_groups, push_all,
}

-- The groups that the operator made.
abbrev pub locals : List Group → List Group
locals = filter (λ r. equal r.source local)

-- No two rows have the same id, and ids are below the next one.
abbrev pub are_keyed : ℕ → List Group → Bool
are_keyed next [] = true
are_keyed next (r ∷ rs) = not (any (has_key r.id) rs) && ltb r.id next && are_keyed next rs

find_named-key :
    (name : Bytes) (r : Group) (rs : List Group)
    → find_named name rs ≡ some r
    → any (has_key r.id) rs ≡ true
find_named-key name r [] h = cc
find_named-key name r (x ∷ rs) h = elim (Bool-cases (is_named name x)) [
  | inl hit ↦ ground (arith, some_eq x r (sym (rw hit refl) ∙ h))
  | inr miss ↦ ground (arith, find_named-key name r rs (sym (rw miss refl) ∙ h))
]
  where
    some_eq : (a b : Group) → some a ≡ some b → a.id ≡ b.id
    some_eq a b e = cc

pub update_row-none :
    (id : ℕ) (f : Group → Group) (rs : List Group)
    → any (has_key id) rs ≡ false
    → update_row id f rs ≡ rs
update_row-none id f [] h = refl
update_row-none id f (r ∷ rs) h =
    let e : has_key id r ≡ false = ground arith in
    rw e (ap (λ x. r ∷ x) (update_row-none id f rs (ground arith)))

pub key_apart :
    (next : ℕ) (x r : Group) (rs : List Group)
    → any (has_key r.id) rs ≡ true
    → are_keyed next (x ∷ rs) ≡ true
    → has_key r.id x ≡ false
key_apart next x r rs m k = elim (Bool-cases (has_key r.id x)) [
  | inl hit ↦
      let twice : any (has_key x.id) rs ≡ true =
        ap (λ n. any (has_key n) rs) ((==_iff x.id r.id).0 hit) ∙ m in
      absurd (ground arith)
  | inr miss ↦ miss
]

row_or : Group → Option Group → Group
row_or x none = x
row_or x (some r) = r

found_eq : (x r : Group) → some x ≡ some r → x ≡ r
unfolding row_or
found_eq x r e = ap (row_or x) e

-- The row that is found is the only one that the update changes.
site_update-head :
    (g r : Group) (rs : List Group) (next : ℕ)
    → equal r.source local ≡ false
    → are_keyed next (r ∷ rs) ≡ true
    → locals (update_row r.id (site_update g) (r ∷ rs)) ≡ locals (r ∷ rs)
site_update-head g r rs next s k =
    rw ((==_iff r.id r.id).1 refl)
      (rw s (ap locals (update_row-none r.id (site_update g) rs (ground arith))))

site_update-locals :
    (g r : Group) (rs : List Group) (next : ℕ) (name : Bytes)
    → find_named name rs ≡ some r
    → equal r.source local ≡ false
    → are_keyed next rs ≡ true
    → locals (update_row r.id (site_update g) rs) ≡ locals rs
site_update-locals g r [] next name h s k = refl
site_update-locals g r (x ∷ rs) next name h s k = elim (Bool-cases (is_named name x)) [
  | inl hit ↦
      let e : x ≡ r = found_eq x r (sym (rw hit refl) ∙ h) in
      ap (λ y. locals (update_row y.id (site_update g) (x ∷ rs))) (sym e)
      ∙ site_update-head g x rs next (ap (λ y. equal y.source local) e ∙ s) k
  | inr miss ↦
      let later : find_named name rs ≡ some r = sym (rw miss refl) ∙ h in
      let other : has_key r.id x ≡ false =
        key_apart next x r rs (find_named-key name r rs later) k in
      let rest = site_update-locals g r rs next name later s (ground arith) in
      rw other (elim (Bool-cases (equal x.source local)) [
        | inl own ↦ rw own (ap (λ y. x ∷ y) rest)
        | inr pushed ↦ rw pushed rest
      ])
]

upsert_over-locals :
    (g : Group) (t : GroupTable) (o : Option Group) (name : Bytes)
    → equal g.source local ≡ false
    → find_named name t.rows ≡ o
    → are_keyed t.next_id t.rows ≡ true
    → locals (upsert_over g t o).0.rows ≡ locals t.rows
upsert_over-locals g t none name s h k = rw s refl
upsert_over-locals g t (some r) name s h k = elim (Bool-cases (equal r.source local)) [
  | inl own ↦ rw own refl
  | inr pushed ↦ rw pushed (site_update-locals g r t.rows t.next_id name h pushed k)
]

any-update_row :
    (k id : ℕ) (g : Group) (rs : List Group)
    → any (has_key k) (update_row id (site_update g) rs) ≡ any (has_key k) rs
any-update_row k id g [] = refl
any-update_row k id g (r ∷ rs) = elim (Bool-cases (has_key id r)) [
  | inl hit ↦ rw hit (rw (any-update_row k id g rs) refl)
  | inr miss ↦ rw miss (rw (any-update_row k id g rs) refl)
]

are_keyed-update_row :
    (next id : ℕ) (g : Group) (rs : List Group)
    → are_keyed next rs ≡ true
    → are_keyed next (update_row id (site_update g) rs) ≡ true
are_keyed-update_row next id g [] k = refl
are_keyed-update_row next id g (r ∷ rs) k =
    let rest = are_keyed-update_row next id g rs (ground arith) in
    elim (Bool-cases (has_key id r)) [
      | inl hit ↦ rw hit (rw (any-update_row r.id id g rs, rest) (ground arith))
      | inr miss ↦ rw miss (rw (any-update_row r.id id g rs, rest) (ground arith))
    ]

are_keyed-fresh :
    (next : ℕ) (rs : List Group) → are_keyed next rs ≡ true → any (has_key next) rs ≡ false
are_keyed-fresh next [] k = refl
are_keyed-fresh next (r ∷ rs) k = ground (arith, are_keyed-fresh next rs)

are_keyed-suc :
    (next : ℕ) (rs : List Group) → are_keyed next rs ≡ true → are_keyed (suc next) rs ≡ true
are_keyed-suc next [] k = refl
are_keyed-suc next (r ∷ rs) k = ground (arith, are_keyed-suc next rs)

upsert_over-keyed :
    (g : Group) (t : GroupTable) (o : Option Group)
    → are_keyed t.next_id t.rows ≡ true
    → are_keyed (upsert_over g t o).0.next_id (upsert_over g t o).0.rows ≡ true
upsert_over-keyed g t none k =
    ground (arith, are_keyed-fresh t.next_id t.rows k, are_keyed-suc t.next_id t.rows k)
upsert_over-keyed g t (some r) k = elim (Bool-cases (equal r.source local)) [
  | inl own ↦ rw own k
  | inr pushed ↦ rw pushed (are_keyed-update_row t.next_id r.id g t.rows k)
]

-- What a push keeps: the local rows, and the keys.
record Keeps (t u : GroupTable) : Type 0 where
  locals_same : locals u.rows ≡ locals t.rows
  keyed : are_keyed u.next_id u.rows ≡ true

-- A checked group that the site pushes is the site's.
abbrev FromSite : Checked → Type 0
FromSite (valid g) = equal g.source local ≡ false
FromSite (invalid e) = Unit

validate_group-FromSite : (g : Group) → FromSite (validate_group (record g { source = site }))
unfolding validate_group
validate_group-FromSite g = elim (Bool-cases (equal (trim_space g.name) [])) [
  | inl nameless ↦ rw nameless tt
  | inr named ↦ rw named (elim (Bool-cases (length (clean_newsgroups g.newsgroups) == 0)) [
    | inl nowhere ↦ rw nowhere tt
    | inr posted ↦ rw posted refl
  ])
]

upsert_checked-Keeps :
    (c : Checked) (t : GroupTable)
    → FromSite c
    → are_keyed t.next_id t.rows ≡ true
    → Keeps t (upsert_checked c t).0
upsert_checked-Keeps (invalid e) t f k = record { locals_same = refl; keyed = k }
upsert_checked-Keeps (valid g) t f k = record {
  locals_same = upsert_over-locals g t (find_named g.name t.rows) g.name f refl k;
  keyed = upsert_over-keyed g t (find_named g.name t.rows) k;
}

push_all-Keeps :
    (gs : List Group) (t : GroupTable) → are_keyed t.next_id t.rows ≡ true → Keeps t (push_all gs t)
unfolding push_all upsert_site_group
push_all-Keeps [] t k = record { locals_same = refl; keyed = k }
push_all-Keeps (g ∷ gs) t k =
    let one =
      upsert_checked-Keeps (validate_group (record g { source = site })) t
        (validate_group-FromSite g) k in
    let rest = push_all-Keeps gs (upsert_site_group g t).0 one.keyed in
    record { locals_same = rest.locals_same ∙ one.locals_same; keyed = rest.keyed }

own-not_site : (s : Bytes) → equal s local ≡ true → equal s site ≡ false
own-not_site s h = ap (λ x. equal x site) ((equal_iff s local).0 h)

reconcile-locals :
    (live_names : List Bytes) (rs : List Group)
    → locals (filter (λ r. not (is_stale live_names r)) rs) ≡ locals rs
reconcile-locals live_names [] = refl
reconcile-locals live_names (r ∷ rs) =
    let rest = reconcile-locals live_names rs in
    elim (Bool-cases (equal r.source local)) [
      | inl own ↦ rw (own-not_site r.source own) (rw own (ap (λ y. r ∷ y) rest))
      | inr pushed ↦ (elim (Bool-cases (is_stale live_names r)) [
        | inl stale ↦ rw (stale, pushed) rest
        | inr live ↦ rw live (rw pushed rest)
      ])
    ]

no_stale :
    (live_names : List Bytes) (rs : List Group)
    → any (is_stale live_names) (filter (λ r. not (is_stale live_names r)) rs) ≡ false
no_stale live_names [] = refl
no_stale live_names (r ∷ rs) = elim (Bool-cases (is_stale live_names r)) [
  | inl stale ↦ rw stale (no_stale live_names rs)
  | inr live ↦ rw live (rw (live, no_stale live_names rs) refl)
]

-- In a table with distinct ids, whatever catalog the site pushes, a full sync leaves the rows of
-- local groups as they are, also where the site has a group of the same name; and afterwards no
-- group of the site is left whose name is not in the catalog.
pub sync_lem :
    (gs : List Group) (live_names : List Bytes) (t : GroupTable)
    → are_keyed t.next_id t.rows ≡ true
    → (locals (reconcile_site_groups live_names (push_all gs t)).0.rows ≡ locals t.rows)
      × (any (is_stale live_names) (reconcile_site_groups live_names (push_all gs t)).0.rows
          ≡ false)
unfolding reconcile_site_groups
sync_lem gs live_names t k = (
  reconcile-locals live_names (push_all gs t).rows ∙ (push_all-Keeps gs t k).locals_same,
  no_stale live_names (push_all gs t).rows,
)
