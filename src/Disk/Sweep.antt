-- ===== src/Disk/Sweep.antt =====
-- services/disk_reserve_sweep.go: the sweep of the temporary directory.
pub mod Climb
pub mod Safety
use loon_agent.Prelude.{
  ℕ, zero, suc, ◌+◌, Bool, true, false, ◌&&◌, ◌||◌, not, Option, none, some, List, [], ◌∷◌, ◌++◌,
  map, Bytes, codes, equal, contains, has_prefix, has_suffix, length, ltb, leb, if◌then◌else◌,
}
use loon_agent.Dict.{Dict}
use loon_agent.FilePath.{base, dir}
use loon_agent.Storage.State.{JobState, Jobs}

abbrev pub is_family : Bytes → Bool
is_family b =
    has_prefix b (codes "dl-") || has_prefix b (codes "stage-") || has_prefix b (codes "screens-")

-- `p != "" && p != "/" && p != "."`
abbrev pub is_terminal : Bytes → Bool
is_terminal p = equal p [] || equal p (codes "/") || equal p (codes ".")

-- How a climb ends: with the name that it finds, without one, or, of the model only, not at all
-- within the fuel.
pub data ClimbEnd : Type 0 where
  found : Bytes → ClimbEnd
  not_found : ClimbEnd
  still_climbing : ClimbEnd

-- The loop that climbs DownloadedPath to the first name of a family, with fuel.
unfoldable pub climb : ℕ → Bytes → ClimbEnd
climb zero p = still_climbing
climb (suc fuel) p =
    let higher = climb fuel (dir p) in
    if is_terminal p
    then not_found
    else if is_family (base p)
    then found (base p)
    else if equal (dir p) p
    then not_found
    else higher

-- The fuel: one round for each byte of the path, and one to stop.
abbrev pub climb_fuel : Bytes → ℕ
climb_fuel p = suc (length p)

abbrev pub keep_if : Bool → Bytes → List Bytes
keep_if true name = name ∷ []
keep_if false name = []

abbrev pub keep_found : ClimbEnd → List Bytes
keep_found (found name) = name ∷ []
keep_found _ = []

abbrev pub dl : Bytes → Bytes
dl name = codes "dl-" ++ name

-- The names that one job of the state protects.
unfoldable pub kept_by : Bytes → JobState → List Bytes
kept_by job_name job =
    keep_if (not (equal job_name [])) (dl job_name)
    ++ (keep_if (not (equal job.name []) && not (equal job.name job_name)) (dl job.name)
        ++ (keep_found (climb (climb_fuel job.downloaded_path) job.downloaded_path)
            ++ keep_if (not (equal job.stage_path [])) (base job.stage_path)))

unfoldable pub keep_set : Jobs → List Bytes
keep_set [] = []
keep_set ((job_name, none) ∷ jobs) = keep_set jobs
keep_set ((job_name, some job) ∷ jobs) = kept_by job_name job ++ keep_set jobs

-- An entry of the directory. `modified` is its time, `none` if Info fails; `is_stuck` says that
-- RemoveAll fails on it.
pub record Entry : Type 0 where
  pub name : Bytes
  pub modified : Option ℕ
  pub is_stuck : Bool

-- The families of the sweep at boot.
abbrev pub is_extended : Bytes → Bool
is_extended b =
    has_prefix b (codes "offline-")
    || has_prefix b (codes "enc-")
    || has_prefix b (codes "wrap-")
    || has_prefix b (codes "offer-")
    || has_suffix b (codes ".7z")

abbrev pub matches : Bool → Bytes → Bool
matches include_extended name = is_family name || (include_extended && is_extended name)

-- `minAge > 0` and no Info, or a time after `now - minAge`.
abbrev pub is_fresh : ℕ → ℕ → Option ℕ → Bool
is_fresh min_age now modified =
    ltb 0 min_age && (elim modified [ none ↦ true | some t ↦ ltb now (t + min_age) ])

unfoldable pub is_swept : Jobs → ℕ → ℕ → Bool → Entry → Bool
is_swept jobs min_age now include_extended e =
    if not (matches include_extended e.name)
    then false
    else if contains (keep_set jobs) e.name
    then false
    else if is_fresh min_age now e.modified
    then false
    else not e.is_stuck

-- What is left of the directory, and the names that were removed.
unfoldable pub sweep_with_min_age : Jobs → ℕ → ℕ → Bool → List Entry → List Entry × List Bytes
sweep_with_min_age jobs min_age now include_extended [] = ([], [])
sweep_with_min_age jobs min_age now include_extended (e ∷ es) =
    let (left, removed) = sweep_with_min_age jobs min_age now include_extended es in
    if is_swept jobs min_age now include_extended e
    then (left, e.name ∷ removed)
    else (e ∷ left, removed)

unfoldable pub sweep_orphan_downloads : Jobs → ℕ → List Entry → List Entry × List Bytes
unfolding sweep_with_min_age
sweep_orphan_downloads jobs now = sweep_with_min_age jobs 0 now false

unfoldable pub sweep_orphan_downloads_aged : Jobs → ℕ → ℕ → List Entry → List Entry × List Bytes
unfolding sweep_with_min_age
sweep_orphan_downloads_aged jobs min_age now = sweep_with_min_age jobs min_age now false

unfoldable pub sweep_orphan_temp_startup : Jobs → ℕ → List Entry → List Entry × List Bytes
unfolding sweep_with_min_age
sweep_orphan_temp_startup jobs now = sweep_with_min_age jobs 0 now true
