-- ===== src/Offline/Tests.antt =====
-- Runs of the offline pipeline, and the theorems there.
use loon_agent.Prelude.{
  ℕ, ◌≤◌, ◌≡◌, refl, true, false, none, some, List, [], ◌∷◌, all, Bytes, codes, take, ◌*◌, ◌^◌,
  arith,
}
use loon_agent.FilePath.{clean, ext}
use loon_agent.Storage.Groups.{Group, GroupTable}
use loon_agent.Storage.Watches.{ListedWatch, WatchTable, list_active_watches}
use loon_agent.Storage.Offline.{OfflineJob, Table, queued, completed}
use loon_agent.Storage.Offline.Reach.{Reach, fresh}
use loon_agent.Storage.Offline.Refine.{queue_of}
use loon_agent.Offline.Watcher.{Entry, scan_one_watch, scan_all_watches}
use loon_agent.Offline.Scans.{is_settled, is_expected, scan_one_watch_lem}
use loon_agent.Offline.Rounds.{Creations, scan_all_watches-Creations}
use loon_agent.Offline.Names.{
  has_slash, rune_count, sanitize_base_name, sanitize_dir_name, sanitize_base_name_lem,
}
use loon_agent.Offline.Run.{Surroundings, nzb_file, process_offline_job, run_one_offline_job, done}
use loon_agent.Offline.Finish.{run_one_offline_job_lem}

abbrev anime : Group
anime = record {
  id = 1;
  name = codes "anime";
  kind = codes "video";
  newsgroups = codes "alt.binaries.anime" ∷ [];
  screenshots = none;
  sample_seconds = none;
  par2_redundancy = some 10;
  obfuscate = none;
  watermark_text = [];
  banned_extensions = [];
  source = codes "local";
  version = 1;
}

abbrev drop_folder : ListedWatch
drop_folder = record {
  watch = record { id = 1; path = codes "/watch"; group_id = some 1; enabled = true };
  group_name = codes "anime";
}

abbrev dropped : Bytes → ℕ → Entry
dropped name modified = record {
  name = name;
  is_dir = false;
  modified = some modified;
  seen_at = 100 * 10 ^ 9;
  created_at = 7;
  lookup_fails = false;
  insert_fails = false;
}

abbrev listing : List Entry
listing =
    dropped (codes "a.mkv") 0
    ∷ dropped (codes "b.mkv.part") 0
    ∷ dropped (codes "c.mkv") (90 * 10 ^ 9)
    ∷ []

abbrev no_jobs : Table
no_jobs = record { rows = []; next_id = 1 }

abbrev queued_job : OfflineJob
queued_job = record {
  id = 1;
  source_path = codes "/watch/a.mkv";
  title = codes "a";
  group_id = some 1;
  group_name_at_creation = codes "anime";
  status = queued;
  phase = [];
  progress = 0;
  error = none;
  nzb_path = none;
  password = none;
  created_at = 7;
  started_at = none;
  completed_at = none;
}

-- Only the file that is whole and quiet is queued.
scan_test :
    scan_one_watch drop_folder (some listing) no_jobs
    ≡ record { rows = queued_job ∷ []; next_id = 2 }
unfolding scan_one_watch clean ext take
scan_test = refl

scan_one_watch_lem_example :
    (all (is_settled drop_folder (scan_one_watch drop_folder (some listing) no_jobs)) listing
      ≡ true)
    × ((all
            (λ r. is_expected drop_folder listing no_jobs r.source_path)
            (scan_one_watch drop_folder (some listing) no_jobs).rows
          ≡ true)
        × (scan_one_watch drop_folder
              (some listing)
              (scan_one_watch drop_folder (some listing) no_jobs)
            ≡ scan_one_watch drop_folder (some listing) no_jobs))
scan_one_watch_lem_example = scan_one_watch_lem drop_folder listing no_jobs

abbrev groups : GroupTable
groups = record { rows = anime ∷ []; next_id = 2 }

abbrev watches : WatchTable
watches = record { rows = drop_folder.watch ∷ []; next_id = 2 }

abbrev queue : Table
queue = scan_all_watches (λ p. some listing) groups watches no_jobs

scan_all_watches-Creations_example :
    Creations (λ p. some listing) (list_active_watches groups watches) no_jobs queue × Reach queue
scan_all_watches-Creations_example =
    scan_all_watches-Creations (λ p. some listing) groups watches no_jobs fresh

queue-Reach : Reach queue
queue-Reach = (scan_all_watches-Creations (λ p. some listing) groups watches no_jobs fresh).1

sanitize_base_name_lem_test :
    (has_slash (sanitize_base_name (codes "r4nd0m") (codes " a/b: c ")) ≡ false)
    × (rune_count (sanitize_base_name (codes "r4nd0m") (codes " a/b: c ")) ≤ 200)
unfolding rune_count
sanitize_base_name_lem_test =
    sanitize_base_name_lem (codes "r4nd0m") (codes " a/b: c ") refl (omega arith)

-- The comment of sanitizeDirName has "My_Anime" here.
dir_name_test : sanitize_dir_name (codes "My  Anime!") ≡ codes "My__Anime!"
unfolding sanitize_dir_name
dir_name_test = refl

abbrev env : Surroundings
env = record {
  cfg = record { nntp_group = []; par2_redundancy = 5; obfuscate = false; encrypt = false };
  temp_dir = codes "/data/temp";
  output_env = [];
  group = some anime;
  is_dir = false;
  breaks = λ s. false;
  loses = λ p. false;
  saves = true;
  random = codes "r4nd0m";
  password = codes "pw";
  now = 9;
  message = λ s. codes "failed";
}

-- A group named ".." has its releases written beside the output directory.
outside_test : nzb_file env (record anime { name = codes ".." }) (codes "a") ≡ codes "/data/a/a.nzb"
unfolding nzb_file
outside_test = refl

abbrev one_job : Table
one_job = record { rows = queued_job ∷ []; next_id = 2 }

done_test :
    (process_offline_job env queued_job one_job).0
    ≡ done (codes "/data/offline-output/anime/a/a.nzb") []
unfolding process_offline_job
done_test = refl

run_one_offline_job_lem_example :
    Reach (run_one_offline_job env queued_job queue)
    × (queue_of (run_one_offline_job env queued_job queue) 1 ≡ some completed)
unfolding scan_all_watches clean ext list_active_watches process_offline_job
run_one_offline_job_lem_example = run_one_offline_job_lem env queued_job queue 1 queue-Reach
