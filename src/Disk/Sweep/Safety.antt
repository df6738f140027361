-- ===== src/Disk/Sweep/Safety.antt =====
-- services/disk_reserve_sweep.go: what no sweep removes.
use loon_agent.Prelude.{
  ℕ, ◌+◌, ◌≤◌, ◌<◌, ◌≡◌, ◌≢◌, refl, ◌∙◌, Bool, true, false, ◌&&◌, ◌||◌, not, Option, none, some,
  List, [], ◌∷◌, ◌++◌, arith, Bytes, equal, equal_iff, equal_refl, contains, any, any-append,
  any_right, any-mem, equal_ne, sym, all, if◌then◌else◌, Bool-cases, inl, inr,
}
use mathlib.Core.List.{Memᴰ}
use loon_agent.FilePath.{base}
use loon_agent.Dict.{get}
use loon_agent.Storage.State.{JobState, Jobs, Op, update_state, apply, run}
use loon_agent.Storage.State.Live.{removes, run-is_live, update_state-is_live, live_job}
use loon_agent.Disk.Sweep.{
  is_family, is_extended, keep_if, keep_found, climb, climb_fuel, dl, kept_by, keep_set, Entry,
  matches, is_fresh, is_swept, sweep_with_min_age, sweep_orphan_downloads_aged,
}

keep_set-kept_by :
    (jobs : Jobs) (job_name n : Bytes) (job : JobState)
    → get jobs job_name ≡ some (some job)
    → contains (kept_by job_name job) n ≡ true
    → contains (keep_set jobs) n ≡ true
unfolding keep_set get
keep_set-kept_by [] job_name n job h k = cc
keep_set-kept_by ((j, none) ∷ jobs) job_name n job h k =
    ground (arith, keep_set-kept_by jobs job_name n job)
keep_set-kept_by ((j, some other) ∷ jobs) job_name n job h k = ground (
  arith,
  keep_set-kept_by jobs job_name n job,
  any-append (equal n) (kept_by j other) (keep_set jobs),
  equal_iff j job_name,
)

module _ (jobs : Jobs) (min_age now : ℕ) (include_extended : Bool) where
  removed-any :
      (es : List Entry) (n : Bytes)
      → contains (sweep_with_min_age jobs min_age now include_extended es).1 n
        ≡ any (λ e. equal n e.name && is_swept jobs min_age now include_extended e) es
  unfolding sweep_with_min_age
  removed-any [] n = refl
  removed-any (e ∷ es) n = ground (arith, removed-any es n)

  is_swept-kept :
      (e : Entry)
      → contains (keep_set jobs) e.name ≡ true
      → is_swept jobs min_age now include_extended e ≡ false
  unfolding is_swept
  is_swept-kept e h = elim (Bool-cases (matches include_extended e.name)) [
    | inl m ↦ rw (m, h) refl
    | inr m ↦ rw m refl
  ]

  swept_not_kept :
      (n : Bytes) (e : Entry)
      → contains (keep_set jobs) n ≡ true
      → (equal n e.name && is_swept jobs min_age now include_extended e) ≡ false
  swept_not_kept n e h = elim (Bool-cases (equal n e.name)) [
    | inl same ↦ rw same (is_swept-kept e (rw ((equal_iff n e.name).0 same) at h))
    | inr other ↦ rw other refl
  ]

  any_swept_not_kept :
      (n : Bytes) (es : List Entry)
      → contains (keep_set jobs) n ≡ true
      → any (λ e. equal n e.name && is_swept jobs min_age now include_extended e) es ≡ false
  any_swept_not_kept n [] h = refl
  any_swept_not_kept n (e ∷ es) h = rw (swept_not_kept n e h) (any_swept_not_kept n es h)

  -- No sweep, at boot or later, removes a name that a job of the state protects.
  pub sweep_spares_kept :
      (es : List Entry) (job_name n : Bytes) (job : JobState)
      → get jobs job_name ≡ some (some job)
      → contains (kept_by job_name job) n ≡ true
      → contains (sweep_with_min_age jobs min_age now include_extended es).1 n ≡ false
  sweep_spares_kept es job_name n job h k =
      removed-any es n ∙ any_swept_not_kept n es (keep_set-kept_by jobs job_name n job h k)

kept_by-dl :
    (job_name : Bytes) (job : JobState)
    → job_name ≢ []
    → contains (kept_by job_name job) (dl job_name) ≡ true
unfolding kept_by
kept_by-dl [] job h = absurd (h refl)
kept_by-dl (c ∷ s) job h = rw (equal_refl (dl (c ∷ s)))

kept_by-stage :
    (job_name : Bytes) (job : JobState)
    → job.stage_path ≢ []
    → contains (kept_by job_name job) (base job.stage_path) ≡ true
unfolding kept_by
kept_by-stage job_name job ne =
    let x = base job.stage_path in
    let staged = keep_if (not (equal job.stage_path [])) x in
    let climbed = keep_found (climb (climb_fuel job.downloaded_path) job.downloaded_path) in
    let named = keep_if (not (equal job.name []) && not (equal job.name job_name)) (dl job.name) in
    let last : any (equal x) staged ≡ true = rw (equal_ne job.stage_path [] ne, equal_refl x) in
    any_right (equal x) (keep_if (not (equal job_name [])) (dl job_name))
      (named ++ (climbed ++ staged))
      (any_right (equal x) named (climbed ++ staged) (any_right (equal x) climbed staged last))

-- A task whose job, of a name that is not empty, was entered by UpdateState keeps its download directory `dl-<name>`: whatever
-- calls of the state follow, as long as none removes the job, no sweep removes that entry.
pub sweep_spares_live :
    (before : Jobs) {entered after : Jobs} (name phase details : Bytes) (ops : List Op)
    (min_age now : ℕ) (include_extended : Bool) (es : List Entry)
    → name ≢ []
    → apply before (update_state name phase details) ≡ some entered
    → all (λ op. not (removes name op)) ops ≡ true
    → run entered ops ≡ some after
    → contains (sweep_with_min_age after min_age now include_extended es).1 (dl name) ≡ false
sweep_spares_live before {entered} {after} name phase details ops min_age now include_extended es ne
      made kept ran =
    let live =
      run-is_live entered ops name kept (update_state-is_live before name phase details made) ran in
    let (job, found) = live_job after name live in
    sweep_spares_kept after min_age now include_extended es name (dl name) job found
      (kept_by-dl name job ne)

-- While a job has a staging directory, no sweep removes the entry of its name.
pub sweep_spares_stage :
    (jobs : Jobs) (name : Bytes) (job : JobState) (min_age now : ℕ) (include_extended : Bool)
    (es : List Entry)
    → get jobs name ≡ some (some job)
    → job.stage_path ≢ []
    → contains (sweep_with_min_age jobs min_age now include_extended es).1 (base job.stage_path)
      ≡ false
sweep_spares_stage jobs name job min_age now include_extended es found ne =
    sweep_spares_kept jobs min_age now include_extended es name (base job.stage_path) job found
      (kept_by-stage name job ne)

abbrev Old : ℕ → ℕ → Entry → Type 0
Old min_age now e = (t : ℕ) × (e.modified ≡ some t) × (t + min_age ≤ now)

swept_tests :
    (m kept fresh stuck : Bool)
    → (if not m then false else if kept then false else if fresh then false else not stuck) ≡ true
    → (m ≡ true) × (fresh ≡ false)
swept_tests m kept fresh stuck h = ground arith

and_true : (b c : Bool) → (b && c) ≡ true → (b ≡ true) × (c ≡ true)
and_true b c h = ground arith

or_false_and : (b c : Bool) → (b || (false && c)) ≡ true → b ≡ true
or_false_and b c h = ground arith

is_fresh-Old :
    (min_age now : ℕ) (modified : Option ℕ)
    → 0 < min_age
    → is_fresh min_age now modified ≡ false
    → (t : ℕ) × (modified ≡ some t) × (t + min_age ≤ now)
is_fresh-Old min_age now none pos h = absurd (ground arith)
is_fresh-Old min_age now (some t) pos h = (t, refl, ground arith)

aged_swept :
    (jobs : Jobs) (min_age now : ℕ) (e : Entry)
    → 0 < min_age
    → is_swept jobs min_age now false e ≡ true
    → (is_family e.name ≡ true) × Old min_age now e
unfolding is_swept
aged_swept jobs min_age now e pos h =
    let (m, old) =
      swept_tests (matches false e.name) (contains (keep_set jobs) e.name)
        (is_fresh min_age now e.modified) e.is_stuck h in
    (
      or_false_and (is_family e.name) (is_extended e.name) m,
      is_fresh-Old min_age now e.modified pos old,
    )

-- The sweep of the ticker removes only entries of the three families, whose time is at least the
-- minimum age ago.
pub aged_sweep_removes :
    (jobs : Jobs) (min_age now : ℕ) (es : List Entry) (n : Bytes)
    → 0 < min_age
    → contains (sweep_orphan_downloads_aged jobs min_age now es).1 n ≡ true
    → (e : Entry) × Memᴰ e es × (e.name ≡ n) × (is_family n ≡ true) × Old min_age now e
unfolding sweep_orphan_downloads_aged
aged_sweep_removes jobs min_age now es n pos h =
    let (e, m, p) = any-mem _ es (rw removed-any at h) in
    let (named, swept) = and_true (equal n e.name) _ p in
    let same = (equal_iff n e.name).0 named in
    let (family, old) = aged_swept jobs min_age now e pos swept in
    (e, m, sym same, rw same family, old)
