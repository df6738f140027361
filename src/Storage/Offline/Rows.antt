-- ===== src/Storage/Offline/Rows.antt =====
-- storage/jobs.go: well-formed tables, and what the statements keep of their rows.
use loon_agent.Prelude.{
  ℕ, ◌≡◌, refl, sym, ap, ◌∙◌, inl, inr, Bool, true, false, ◌&&◌, ◌||◌, not, Option, none, some,
  List, [], ◌∷◌, any, all, filter, ltb, arith, Bool-cases,
}
use mathlib.Core.List.{Memᴰ}
use loon_agent.Storage.Offline.{
  OfflineJob, Table, queued, processing, completed, failed, cancelled, has_id, has_path,
  update_where,
}

abbrev pub is_some : {A : Type 0} → Option A → Bool
is_some none = false
is_some (some _) = true

-- A waiting row has no trace of an earlier run, a running one has a start, and a finished one an
-- end and a result.
abbrev pub is_tidy : OfflineJob → Bool
is_tidy r = elim r.status [
  | queued ↦
      not (is_some r.started_at)
      && not (is_some r.error)
      && not (is_some r.nzb_path)
      && not (is_some r.completed_at)
  | processing ↦
      is_some r.started_at
      && not (is_some r.error)
      && not (is_some r.nzb_path)
      && not (is_some r.completed_at)
  | completed ↦ is_some r.nzb_path && is_some r.completed_at
  | failed ↦ is_some r.error && is_some r.completed_at
  | cancelled ↦ true
]

abbrev pub are_distinct : List OfflineJob → Bool
are_distinct [] = true
are_distinct (r ∷ rs) =
    not (any (has_id r.id) rs) && not (any (has_path r.source_path) rs) && are_distinct rs

pub record IsWellFormed (t : Table) : Type 0 where
  pub distinct : are_distinct t.rows ≡ true
  pub below : all (λ r. ltb r.id t.next_id) t.rows ≡ true
  pub tidy : all is_tidy t.rows ≡ true

pub mem-any :
    (p : OfflineJob → Bool) (q : OfflineJob) (rs : List OfflineJob)
    → Memᴰ q rs
    → p q ≡ true
    → any p rs ≡ true
mem-any p q [] m h = elim m [ ]
mem-any p q (r ∷ rs) (Memᴰ.head e) h = ground (arith, ap p e)
mem-any p q (r ∷ rs) (Memᴰ.tail m) h = ground (arith, mem-any p q rs m h)

pub all-mem :
    (p : OfflineJob → Bool) (q : OfflineJob) (rs : List OfflineJob)
    → Memᴰ q rs
    → all p rs ≡ true
    → p q ≡ true
all-mem p q [] m h = elim m [ ]
all-mem p q (r ∷ rs) (Memᴰ.head e) h = ap p e ∙ ground arith
all-mem p q (r ∷ rs) (Memᴰ.tail m) h = all-mem p q rs m (ground arith)

module _ (s : OfflineJob → Bool) (f : OfflineJob → OfflineJob) where
  pub any-update_where :
      (p : OfflineJob → Bool) (rs : List OfflineJob)
      → ((r : OfflineJob) → p (f r) ≡ p r)
      → any p (update_where s f rs) ≡ any p rs
  any-update_where p [] k = refl
  any-update_where p (r ∷ rs) k = elim (Bool-cases (s r)) [
    | inl hit ↦ rw hit (rw (k r, any-update_where p rs k) refl)
    | inr miss ↦ rw miss (rw (any-update_where p rs k) refl)
  ]

  pub all-update_where :
      (p c : OfflineJob → Bool) (rs : List OfflineJob)
      → ((r : OfflineJob) → s r ≡ true → c r ≡ true → p r ≡ true → p (f r) ≡ true)
      → all c rs ≡ true
      → all p rs ≡ true
      → all p (update_where s f rs) ≡ true
  all-update_where p c [] k hc h = refl
  all-update_where p c (r ∷ rs) k hc h =
      let rest = all-update_where p c rs k (ground arith) (ground arith) in
      elim (Bool-cases (s r)) [
        | inl hit ↦ rw hit (rw (k r hit (ground arith) (ground arith), rest) refl)
        | inr miss ↦ rw miss (ground (arith, rest))
      ]

  pub are_distinct-update_where :
      (rs : List OfflineJob)
      → ((r : OfflineJob) → (f r).id ≡ r.id)
      → ((r : OfflineJob) → (f r).source_path ≡ r.source_path)
      → are_distinct rs ≡ true
      → are_distinct (update_where s f rs) ≡ true
  are_distinct-update_where [] ki kp h = refl
  are_distinct-update_where (r ∷ rs) ki kp h =
      let rest = are_distinct-update_where rs ki kp (ground arith) in
      let i = any-update_where (has_id r.id) rs (λ q. rw (ki q) refl) in
      let p = any-update_where (has_path r.source_path) rs (λ q. rw (kp q) refl) in
      elim (Bool-cases (s r)) [
        | inl hit ↦ rw hit (rw (ki r, kp r) (rw (i, p, rest) (ground arith)))
        | inr miss ↦ rw miss (rw (i, p, rest) (ground arith))
      ]

always : OfflineJob → Bool
always r = true

all-always : (rs : List OfflineJob) → all always rs ≡ true
unfolding always
all-always [] = refl
all-always (r ∷ rs) = all-always rs

-- A statement that keeps the keys, and makes the rows that it changes tidy.
pub updated-IsWellFormed :
    (s : OfflineJob → Bool) (f : OfflineJob → OfflineJob) (c : OfflineJob → Bool) (t : Table)
    → ((r : OfflineJob) → (f r).id ≡ r.id)
    → ((r : OfflineJob) → (f r).source_path ≡ r.source_path)
    → ((r : OfflineJob) → s r ≡ true → c r ≡ true → is_tidy r ≡ true → is_tidy (f r) ≡ true)
    → all c t.rows ≡ true
    → IsWellFormed t
    → IsWellFormed (record t { rows = update_where s f t.rows })
updated-IsWellFormed s f c t ki kp k hc w = record {
  distinct = are_distinct-update_where s f t.rows ki kp w.distinct;
  below =
      all-update_where s f (λ r. ltb r.id t.next_id) always t.rows (λ r _ _ h. rw (ki r) h)
        (all-always t.rows) w.below;
  tidy = all-update_where s f is_tidy c t.rows k hc w.tidy;
}

any-filter :
    (p q : OfflineJob → Bool) (rs : List OfflineJob)
    → any p rs ≡ false
    → any p (filter q rs) ≡ false
any-filter p q [] h = refl
any-filter p q (r ∷ rs) h = ground (arith, any-filter p q rs)

all-filter :
    (p q : OfflineJob → Bool) (rs : List OfflineJob) → all p rs ≡ true → all p (filter q rs) ≡ true
all-filter p q [] h = refl
all-filter p q (r ∷ rs) h = ground (arith, all-filter p q rs)

are_distinct-filter :
    (q : OfflineJob → Bool) (rs : List OfflineJob)
    → are_distinct rs ≡ true
    → are_distinct (filter q rs) ≡ true
are_distinct-filter q [] h = refl
are_distinct-filter q (r ∷ rs) h = elim (Bool-cases (q r)) [
  | inl hit ↦ rw hit (
      rw
        (
          any-filter (has_id r.id) q rs (ground arith),
          any-filter (has_path r.source_path) q rs (ground arith),
          are_distinct-filter q rs (ground arith),
        )
        refl)
  | inr miss ↦ rw miss (are_distinct-filter q rs (ground arith))
]

pub filter-IsWellFormed :
    (q : OfflineJob → Bool) (t : Table)
    → IsWellFormed t
    → IsWellFormed (record t { rows = filter q t.rows })
filter-IsWellFormed q t w = record {
  distinct = are_distinct-filter q t.rows w.distinct;
  below = all-filter (λ r. ltb r.id t.next_id) q t.rows w.below;
  tidy = all-filter is_tidy q t.rows w.tidy;
}

none_has :
    (k : ℕ) (c : OfflineJob → Bool) (rs : List OfflineJob)
    → any (has_id k) rs ≡ false
    → all (λ r. not (has_id k r) || c r) rs ≡ true
none_has k c [] h = refl
none_has k c (r ∷ rs) h = ground (arith, none_has k c rs)

pub twice :
    (r q : OfflineJob) (rs : List OfflineJob)
    → are_distinct (r ∷ rs) ≡ true
    → Memᴰ q rs
    → has_id q.id r ≡ true
    → ⊥
twice r q rs d m h = ground (arith, mem-any (has_id r.id) q rs m (ground arith))

-- In a table with distinct ids, what holds of a row holds of all rows with its id.
pub all-has_id :
    (c : OfflineJob → Bool) (q : OfflineJob) (rs : List OfflineJob)
    → are_distinct rs ≡ true
    → Memᴰ q rs
    → c q ≡ true
    → all (λ r. not (has_id q.id r) || c r) rs ≡ true
all-has_id c q [] d m h = elim m [ ]
all-has_id c q (r ∷ rs) d (Memᴰ.head e) h =
    ap (λ x. all (λ y. not (has_id x.id y) || c y) (r ∷ rs)) e
    ∙ ground (arith, none_has r.id c rs (ground arith), sym (ap c e) ∙ h)
all-has_id c q (r ∷ rs) d (Memᴰ.tail m) h =
    let rest = all-has_id c q rs (ground arith) m h in
    elim (Bool-cases (has_id q.id r)) [
      | inl hit ↦ absurd (twice r q rs d m hit)
      | inr miss ↦ rw miss rest
    ]
