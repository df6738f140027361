-- ===== src/Disk/Tests.antt =====
-- Runs of the disk reservations and of the sweep on small inputs.
use loon_agent.Prelude.{
  ℕ, ◌+◌, ◌-◌, ◌/◌, ◌%◌, ◌≤◌, ◌<◌, ◌≡◌, ◌≢◌, refl, true, false, some, List, [], ◌∷◌, arith, String,
  Bytes, codes, contains, word,
}
use mathlib.Core.List.{Memᴰ}
use loon_agent.Dict.{get, put, remove}
use loon_agent.FilePath.{base, dir, clean}
use loon_agent.FileTree.{Kind, Node, Nodes, walk, walk_node, walk_nodes}
use loon_agent.FileTree.Files.{files_in}
use loon_agent.Storage.State.{Jobs, Op, new_job, apply, run}
use loon_agent.Disk.Reserve.{
  Reservations, no_reservations, claim, disclaim, reserve_disk, release_disk,
}
use loon_agent.Disk.Reserve.Ledger.{
  IsBalanced, total, reserve_disk-IsBalanced, release_disk-IsBalanced,
}
use loon_agent.Disk.Reserve.Interleaving.{Machine, start, Step, Reach, quiescent_counter}
use loon_agent.Disk.Free.{
  usage_visit, disk_usage, disk_usage_lem, size_of_files, free_disk_after_reservations, headroom,
  free_disk_lem,
}
use loon_agent.Disk.Sweep.{
  Entry, is_swept, keep_set, climb, found, is_family, dl, kept_by, sweep_with_min_age,
  sweep_orphan_downloads_aged,
}
use loon_agent.Disk.Sweep.Climb.{Ends, climb-Ends}
use loon_agent.Disk.Sweep.Safety.{
  sweep_spares_live, sweep_spares_kept, sweep_spares_stage, aged_sweep_removes,
}

abbrev entry : String → ℕ → Entry
entry name t = record { name = codes name; modified = some t; is_stuck = false }

abbrev listing : List Entry
listing = entry "dl-request-7" 10 ∷ entry "dl-old" 10 ∷ entry "stage-abc" 10 ∷ entry "notes" 10 ∷ []

abbrev request : Bytes
request = codes "request-7"

abbrev with_request : Jobs
with_request =
    (
      request,
      some (record (new_job request) {
        phase = codes "Downloading";
        stage_path = codes "/tmp/stage-abc";
        downloaded_path = codes "/tmp/dl-request-7/a.mkv";
      }),
    )
    ∷ []

abbrev downloading : Jobs
downloading = (request, some (record (new_job request) { phase = codes "Downloading" })) ∷ []

sweep_test : (sweep_with_min_age with_request 5 100 false listing).1 ≡ codes "dl-old" ∷ []
unfolding sweep_with_min_age is_swept keep_set kept_by climb base dir clean
sweep_test = refl

climb_test : climb 40 (codes "/tmp/dl-request-7/a.mkv") ≡ found (codes "dl-request-7")
unfolding climb base dir clean
climb_test = refl

request-filled : request ≢ []
request-filled e = cc

sweep_spares_live_example :
    contains (sweep_with_min_age downloading 5 100 false listing).1 (dl request) ≡ false
unfolding apply run get put remove
sweep_spares_live_example =
    sweep_spares_live [] {entered = downloading} {after = downloading} request (codes "Downloading")
      [] (Op.remove_job (codes "other") ∷ []) 5 100 false listing request-filled refl refl refl

sweep_spares_kept_test :
    contains (sweep_with_min_age with_request 0 100 true listing).1 (codes "stage-abc") ≡ false
unfolding get kept_by climb base dir clean
sweep_spares_kept_test =
    sweep_spares_kept with_request 0 100 true listing request (codes "stage-abc")
      (record (new_job request) {
        phase = codes "Downloading";
        stage_path = codes "/tmp/stage-abc";
        downloaded_path = codes "/tmp/dl-request-7/a.mkv";
      })
      refl refl

stage-filled : codes "/tmp/stage-abc" ≢ []
stage-filled e = cc

sweep_spares_stage_test :
    contains (sweep_with_min_age with_request 5 100 false listing).1 (base (codes "/tmp/stage-abc"))
    ≡ false
unfolding get
sweep_spares_stage_test =
    sweep_spares_stage with_request request
      (record (new_job request) {
        phase = codes "Downloading";
        stage_path = codes "/tmp/stage-abc";
        downloaded_path = codes "/tmp/dl-request-7/a.mkv";
      })
      5 100 false listing refl stage-filled

aged_sweep_removes_example :
    (e : Entry) × Memᴰ e listing
    × (e.name ≡ codes "dl-old")
    × (is_family (codes "dl-old") ≡ true)
    × ((t : ℕ) × (e.modified ≡ some t) × (t + 5 ≤ 100))
unfolding sweep_orphan_downloads_aged sweep_with_min_age is_swept keep_set kept_by climb base dir
    clean
aged_sweep_removes_example =
    aged_sweep_removes with_request 5 100 listing (codes "dl-old") (omega arith) refl

climb-Ends_example : Ends (codes "/srv/media/a") (climb 20 (codes "/srv/media/a"))
climb-Ends_example = climb-Ends 20 (codes "/srv/media/a") (omega arith)

-- A tenth more, for the multiplier.
abbrev scaled : ℕ → ℕ
scaled n = (n + n / 10) % word

abbrev reserved_once : Reservations
reserved_once = record { disk_reserved = 110; by_job = (request, 110) ∷ [] }

reserved_once-IsBalanced : IsBalanced reserved_once
unfolding get
reserved_once-IsBalanced = record { is_map = (refl, omega arith, tt); counter = refl }

reserve_disk-IsBalanced_test : IsBalanced (reserve_disk scaled request 200 reserved_once)
reserve_disk-IsBalanced_test =
    reserve_disk-IsBalanced scaled request 200 reserved_once (omega arith) reserved_once-IsBalanced

reserve_disk_test : (reserve_disk scaled request 200 reserved_once).disk_reserved ≡ 220
unfolding reserve_disk claim get put
reserve_disk_test = refl

release_disk-IsBalanced_test : IsBalanced (release_disk request reserved_once)
release_disk-IsBalanced_test =
    release_disk-IsBalanced request reserved_once reserved_once-IsBalanced

release_disk_test : release_disk request reserved_once ≡ no_reservations
unfolding release_disk disclaim get remove
release_disk_test = refl

scaled-lt : (n : ℕ) → scaled n < word
scaled-lt n = omega arith

-- A reservation and its release, each added to the counter after both maps were changed.
abbrev crossed : Machine
crossed = record { counter = 0; by_job = []; pending = [] }

crossed-Reach : Reach scaled start crossed
unfolding claim disclaim get put remove
crossed-Reach =
    Reach.next
      (Reach.next
        (Reach.next (Reach.next Reach.here (Step.claims request 100)) (Step.disclaims request))
        (Step.settles [] (110 ∷ []) (word - 110) refl))
      (Step.settles [] [] 110 refl)

quiescent_counter_example : crossed.counter ≡ total crossed.by_job % word
quiescent_counter_example = quiescent_counter scaled scaled-lt {s = crossed} crossed-Reach refl

abbrev regular_file : String → ℕ → Node
regular_file name size = Node.file (record { name = codes name; size = size; kind = Kind.regular })

abbrev temp : Node
temp =
    Node.dir (codes "temp")
      (Nodes.cons (regular_file "a" 30) (Nodes.cons (regular_file "b" 12) Nodes.nil))

disk_usage_lem_test : disk_usage temp ≡ size_of_files (files_in [] temp) % word
disk_usage_lem_test = disk_usage_lem temp

free_disk_lem_example :
    free_disk_after_reservations 100 20 temp (some 1000)
    ≡ some (headroom 100 (size_of_files (files_in [] temp) % word) 1000 - 20)
free_disk_lem_example = free_disk_lem 100 20 temp 1000 (omega arith) (omega arith) (omega arith)

free_disk_test : free_disk_after_reservations 100 20 temp (some 1000) ≡ some 38
unfolding free_disk_after_reservations disk_usage usage_visit walk walk_node walk_nodes
free_disk_test = refl
