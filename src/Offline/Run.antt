-- ===== src/Offline/Run.antt =====
-- services/network_offline_processor.go: the run of a claimed job, and what it leaves in the queue.
use loon_agent.Prelude.{
  ℕ, Bool, true, false, Option, none, some, List, [], ◌∷◌, ◌++◌, if◌then◌else◌, Bytes, codes, equal,
  to_lower,
}
use loon_agent.FilePath.{ext, clean, dir}
use loon_agent.Storage.Groups.{Group}
use loon_agent.Storage.Offline.{
  OfflineJob, Table, update_job_phase, mark_job_completed, mark_job_failed,
}
use loon_agent.Offline.Names.{sanitize_base_name, sanitize_dir_name}

-- The settings that a group can override; the others are the agent's.
pub record JobConfig : Type 0 where
  pub nntp_group : Bytes
  pub par2_redundancy : ℕ
  pub obfuscate : Bool
  pub encrypt : Bool

abbrev pub or_default {ℓ} : {A : Type ℓ} → A → Option A → A
or_default a none = a
or_default a (some b) = b

-- strings.Join(names, ",")
abbrev join_comma : List Bytes → Bytes
join_comma [] = []
join_comma (g ∷ gs) = elim gs [ [] ↦ g | _ ∷ _ ↦ g ++ (b',' ∷ join_comma gs) ]

unfoldable pub job_config : JobConfig → Group → JobConfig
job_config cfg g = record cfg {
  nntp_group = join_comma g.newsgroups;
  par2_redundancy = or_default cfg.par2_redundancy g.par2_redundancy;
  obfuscate = or_default cfg.obfuscate g.obfuscate;
}

-- The calls that can end a run with an error; PAR2, the samples and the blocklist cannot.
pub data JobStep : Type 0 where
  group_assigned group_loaded group_has_newsgroups : JobStep
  stat_source read_torrent download wrap_dir wrap_copy : JobStep
  stage_dir stage_copy encrypting enc_dir enc_rename : JobStep
  upload nzb output_dir write_nzb : JobStep

-- The shapes of a source: a .torrent file, a directory, or another file.
pub data Shape : Type 0 where
  torrent directory single_file : Shape

unfoldable pub shape_of : Bytes → Bool → Shape
unfolding ext
shape_of source_path is_dir =
    if equal (to_lower (ext source_path)) (codes ".torrent")
    then torrent
    else if is_dir
    then directory
    else single_file

-- A phase that is written to the queue, or a call.
pub data Action : Type 0 where
  phase : Bytes → Action
  call : JobStep → Action

abbrev source_actions : Shape → List Action
source_actions torrent = phase (codes "downloading") ∷ call read_torrent ∷ call download ∷ []
source_actions directory = []
source_actions single_file = call wrap_dir ∷ call wrap_copy ∷ []

abbrev encrypt_actions : Bool → List Action
encrypt_actions true =
    phase (codes "encrypting") ∷ call encrypting ∷ call enc_dir ∷ call enc_rename ∷ []
encrypt_actions false = []

abbrev last_actions : List Action
last_actions =
    phase (codes "queued-upload")
    ∷ phase (codes "uploading")
    ∷ call upload
    ∷ phase (codes "nzb")
    ∷ call nzb
    ∷ call output_dir
    ∷ call write_nzb
    ∷ []

-- The run, in order; what the samples and PAR2 report of their progress is left out.
abbrev pub actions_in : Bool → Shape → List Action
actions_in encrypt shape =
    phase (codes "source")
    ∷ call stat_source
    ∷ (source_actions shape
        ++ (call stage_dir
            ∷ phase (codes "staging")
            ∷ call stage_copy
            ∷ phase (codes "par2")
            ∷ (encrypt_actions encrypt ++ last_actions)))

unfoldable pub actions_of : JobConfig → Bytes → Bool → List Action
unfolding shape_of
actions_of cfg source_path is_dir = actions_in cfg.encrypt (shape_of source_path is_dir)

-- What a run meets: the group, `none` if it cannot be loaded, whether the source is a directory,
-- the calls that fail, the phases whose update of the queue fails, whether the update at the end
-- works, the directory of OFFLINE_OUTPUT_DIR, which is empty if that is not set, and the random
-- texts.
pub record Surroundings : Type 0 where
  pub cfg : JobConfig
  pub temp_dir : Bytes
  pub output_env : Bytes
  pub group : Option Group
  pub is_dir : Bool
  pub breaks : JobStep → Bool
  pub loses : Bytes → Bool
  pub saves : Bool
  pub random : Bytes
  pub password : Bytes
  pub now : ℕ
  pub message : JobStep → Bytes

unfoldable pub offline_output_dir : Bytes → Bytes → Bytes
unfolding dir clean
offline_output_dir env temp_dir =
    if equal env [] then clean (dir temp_dir ++ (b'/' ∷ codes "offline-output")) else env

unfoldable pub nzb_file : Surroundings → Group → Bytes → Bytes
unfolding offline_output_dir sanitize_base_name sanitize_dir_name clean
nzb_file env g title =
    let name = sanitize_base_name env.random title in
    clean (
      offline_output_dir env.output_env env.temp_dir
      ++ (b'/' ∷ (sanitize_dir_name g.name ++ (b'/' ∷ (name ++ (b'/' ∷ (name ++ codes ".nzb")))))))

-- The step that failed, if one did, and the queue with the phases; an update that fails is ignored.
unfoldable pub act :
    (JobStep → Bool) → (Bytes → Bool) → ℕ → List Action → Table → Option JobStep × Table
unfolding update_job_phase
act breaks loses id [] t = (none, t)
act breaks loses id (phase p ∷ actions) t =
    act breaks loses id actions (if loses p then t else update_job_phase id p 0 t)
act breaks loses id (call s ∷ actions) t =
    let rest = act breaks loses id actions t in if breaks s then (some s, t) else rest

pub data Processed : Type 0 where
  done : Bytes → Bytes → Processed
  broken : JobStep → Processed

abbrev pub done_or : Bytes → Bytes → Option JobStep × Table → Processed × Table
done_or path password (none, t) = (done path password, t)
done_or path password (some s, t) = (broken s, t)

abbrev pub password_of : JobConfig → Bytes → Bytes
password_of cfg password = if cfg.encrypt then password else []

-- A run for a group with these newsgroups.
abbrev pub process_for : Surroundings → OfflineJob → Table → Group → List Bytes → Processed × Table
process_for env job t g [] = (broken group_has_newsgroups, t)
process_for env job t g (_ ∷ _) =
    done_or (nzb_file env g job.title) (password_of env.cfg env.password) (
      act env.breaks env.loses job.id (actions_of (job_config env.cfg g) job.source_path env.is_dir)
        t)

abbrev pub process_in : Surroundings → OfflineJob → Table → Option Group → Processed × Table
process_in env job t none = (broken group_loaded, t)
process_in env job t (some g) = process_for env job t g g.newsgroups

abbrev pub process_with : Surroundings → OfflineJob → Table → Option ℕ → Processed × Table
process_with env job t none = (broken group_assigned, t)
process_with env job t (some _) = process_in env job t env.group

unfoldable pub process_offline_job : Surroundings → OfflineJob → Table → Processed × Table
unfolding act actions_of nzb_file job_config
process_offline_job env job t = process_with env job t job.group_id

-- The update at the end; if it fails, the error is ignored or logged and the row stays as it is.
abbrev pub finish : Surroundings → ℕ → Processed × Table → Table
finish env id (done path password, t) =
    if env.saves then mark_job_completed env.now id path password t else t
finish env id (broken s, t) = if env.saves then mark_job_failed env.now id (env.message s) t else t

unfoldable pub run_one_offline_job : Surroundings → OfflineJob → Table → Table
unfolding process_offline_job
run_one_offline_job env job t = finish env job.id (process_offline_job env job t)
