-- ===== src/Storage/Tests.antt =====
-- Runs of the queue of offline jobs and of the groups on small tables.
use loon_agent.Prelude.{
  ℕ, ◌+◌, ◌≡◌, ◌⊎◌, refl, if◌then◌else◌, le_signed, true, false, none, some, List, [], ◌∷◌, any,
  map, filter, length, String, Bytes, codes,
}
use loon_agent.Storage.Offline.{
  Status, OfflineJob, Draft, Table, Claimed, is_queued, is_processing, has_id, row_of, updated,
  start, create_offline_job, claim_next_job, oldest_queued, latest_started, requeue_stuck_jobs,
}
use Prim.Native.Nat.{min}
use loon_agent.Storage.Offline.Refine.{Move, queue_of, Step-Move}
use loon_agent.Storage.Offline.Report.{
  count_jobs_by_status, list_offline_jobs, newest_first, insert_newest, report_lem,
}
use loon_agent.Storage.Offline.Rows.{IsWellFormed}
use loon_agent.Storage.Offline.Reach.{claims, Step, Reach, Reach-IsWellFormed}
use loon_agent.Storage.Offline.Claim.{
  IsOldest, claim_next_job_lem, requeued, requeue_stuck_jobs_lem,
}
use loon_agent.Storage.Groups.{
  Group, GroupError, GroupTable, Pushed, validate_group, create_group, upsert_site_group, is_stale,
  reconcile_site_groups, push_all,
}
use loon_agent.Storage.Groups.Edit.{
  EditError, update_group, delete_group, are_apart, are_apart-update_group,
}
use loon_agent.Storage.Groups.Sync.{locals, sync_lem}
use loon_agent.Storage.Groups.Valid.{Explains, validate_group_lem}

abbrev draft : Bytes → Draft
draft path = record {
  source_path = path;
  title = path;
  group_id = none;
  group_name_at_creation = codes "anime";
  status = none;
  phase = [];
  progress = 0;
  created_at = none;
}

abbrev fresh_table : Table
fresh_table = record { rows = []; next_id = 1 }

abbrev one : Table
one = record { rows = row_of 5 1 (draft (codes "/w/a")) ∷ []; next_id = 2 }

abbrev two : Table
two = record {
  rows = row_of 7 2 (draft (codes "/w/b")) ∷ row_of 5 1 (draft (codes "/w/a")) ∷ [];
  next_id = 3;
}

two-Reach : Reach two
unfolding create_offline_job
two-Reach =
    Reach.next one two
      (Reach.next fresh_table one Reach.fresh
        (Step.creates 5 (draft (codes "/w/a")) 1 one refl refl))
      (Step.creates 7 (draft (codes "/w/b")) 2 two refl refl)

Reach-IsWellFormed_example : IsWellFormed two
Reach-IsWellFormed_example = Reach-IsWellFormed two two-Reach

unique_test : create_offline_job 9 (draft (codes "/w/a")) two ≡ none
unfolding create_offline_job
unique_test = refl

claim_test : (claim_next_job 9 two).0 ≡ Claimed.job (start 9 (row_of 5 1 (draft (codes "/w/a"))))
unfolding claim_next_job oldest_queued latest_started
claim_test = refl

claim_next_job_lem_example :
    ((claim_next_job 9 two ≡ (Claimed.nothing, two))
      × (any (λ r. is_queued r.status) two.rows ≡ false))
    ⊎ ((q : OfflineJob) × (IsOldest q two.rows
          × (claim_next_job 9 two
              ≡ (Claimed.job (start 9 q), updated (has_id q.id) (start 9) two))))
claim_next_job_lem_example = claim_next_job_lem 9 two (Reach-IsWellFormed two two-Reach) refl

abbrev crashed : Table
crashed = record {
  rows = row_of 7 2 (draft (codes "/w/b")) ∷ start 9 (row_of 5 1 (draft (codes "/w/a"))) ∷ [];
  next_id = 3;
}

requeue_stuck_jobs_lem_test :
    ((requeue_stuck_jobs crashed).1.rows ≡ map requeued crashed.rows)
    × ((any (λ r. is_processing r.status) (requeue_stuck_jobs crashed).1.rows ≡ false)
        × ((requeue_stuck_jobs crashed).0 + length (filter (λ r. is_queued r.status) crashed.rows)
            ≡ length (filter (λ r. is_queued r.status) (requeue_stuck_jobs crashed).1.rows)))
requeue_stuck_jobs_lem_test = requeue_stuck_jobs_lem crashed

requeue_test : requeue_stuck_jobs crashed ≡ (1, two)
unfolding requeue_stuck_jobs
requeue_test = refl

-- A clock that went back: a row in work has a later start, and is handed out in place of the row
-- that was claimed.
clock_test :
    (claim_next_job 3 crashed).0 ≡ Claimed.job (start 9 (row_of 5 1 (draft (codes "/w/a"))))
unfolding claim_next_job oldest_queued latest_started
clock_test = refl

abbrev group : String → String → ℕ → Group
group name source version = record {
  id = 1;
  name = codes name;
  kind = codes "video";
  newsgroups = codes "alt.binaries.test" ∷ [];
  screenshots = none;
  sample_seconds = none;
  par2_redundancy = none;
  obfuscate = none;
  watermark_text = [];
  banned_extensions = codes ".exe" ∷ [];
  source = codes source;
  version = version;
}

-- A local group, and one that the site has pushed with version 4.
abbrev groups : GroupTable
groups = record {
  rows = record (group "anime" "local" 1) { id = 2 } ∷ group "films" "site" 4 ∷ [];
  next_id = 3;
}

abbrev catalog : List Group
catalog = group "anime" "" 9 ∷ group "books" "" 2 ∷ []

sync_lem_example :
    (locals
        (reconcile_site_groups
          (codes "anime" ∷ codes "books" ∷ [])
          (push_all catalog groups)).0.rows
      ≡ locals groups.rows)
    × (any
          (is_stale (codes "anime" ∷ codes "books" ∷ []))
          (reconcile_site_groups
            (codes "anime" ∷ codes "books" ∷ [])
            (push_all catalog groups)).0.rows
        ≡ false)
sync_lem_example = sync_lem catalog (codes "anime" ∷ codes "books" ∷ []) groups refl

validate_group_lem_test :
    Explains
      (record (group " Anime " "" 1) { banned_extensions = codes " EXE" ∷ [] })
      (validate_group (record (group " Anime " "" 1) { banned_extensions = codes " EXE" ∷ [] }))
validate_group_lem_test =
    validate_group_lem (record (group " Anime " "" 1) { banned_extensions = codes " EXE" ∷ [] })

-- The site pushes the group that is stored already: the trigger takes the equal version for an
-- edit, and the row no longer has the version of the site.
repush_test : upsert_site_group (group "films" "" 4) groups ≡ (
  record groups {
    rows = record (group "anime" "local" 1) { id = 2 } ∷ group "films" "site" 5 ∷ [];
  },
  Pushed.upserted,
)
unfolding upsert_site_group validate_group
repush_test = refl

blank_test : create_group (group " " "" 1) groups ≡ (groups, some GroupError.name_required)
unfolding create_group validate_group
blank_test = refl

-- A catalog with a padded name: the group is stored under the trimmed name, which the names of the
-- catalog do not have, so the same sync removes it again.
padded_test :
    (reconcile_site_groups
      (codes " films" ∷ [])
      (push_all (group " films" "" 4 ∷ []) (record { rows = []; next_id = 1 }))).1
    ≡ 1
unfolding push_all upsert_site_group validate_group reconcile_site_groups
padded_test = refl

are_apart-update_group_test :
    are_apart (update_group (record (group "films" "local" 1) { id = 2 }) groups).0.rows ≡ true
are_apart-update_group_test =
    are_apart-update_group (record (group "films" "local" 1) { id = 2 }) groups refl refl

rename_test :
    (update_group (record (group "films" "local" 1) { id = 2 }) groups).1 ≡ some EditError.taken
unfolding update_group validate_group
rename_test = refl

delete_test : (delete_group 7 groups).1 ≡ some EditError.group_not_found
unfolding delete_group
delete_test = refl

report_lem_test :
    (count_jobs_by_status two Status.queued
        + count_jobs_by_status two Status.processing
        + count_jobs_by_status two Status.completed
        + count_jobs_by_status two Status.failed
        + count_jobs_by_status two Status.cancelled
      ≡ length two.rows)
    × (length (list_offline_jobs 0 two) ≡ min (if le_signed 0 0 then 100 else 0) (length two.rows))
report_lem_test = report_lem 0 two

listing_test : list_offline_jobs 1 two ≡ row_of 7 2 (draft (codes "/w/b")) ∷ []
unfolding list_offline_jobs newest_first insert_newest
listing_test = refl

-- Claiming on the table of two waiting jobs is a move of the abstract queue.
Step-Move_example : Move (queue_of two) (queue_of (claim_next_job 9 two).1)
Step-Move_example =
    Step-Move two (claim_next_job 9 two).1 (claims 9) (Reach-IsWellFormed two two-Reach)
