-- ===== src/Trainer/Run.antt =====
-- fl_run_generator and run_cluster of src/Trainer/fl_comm_libs/flenv.py, with rm_dir and
-- download_from_hdfs of util.py: what a worker does before it hands over to its main function. The
-- disk is the paths of its files. The map that `func` writes the channel to is the one it hands
-- over.
use n_mpc.Prelude.{
  if◌then◌else◌, String, Bool, true, false, not, Option, none, some, List, ◌||◌, [] as nil,
  ◌∷◌ as cons, str_eq, ◌==◌, filterb, anyb,
}
use n_mpc.Prelude.Text.{append, number_text}
use n_mpc.Prelude.Result.{Result, ok, err, ◌>>=◌ as then_ok, assertion_error, key_error, require}
use n_mpc.Prelude.Method.{Method, lift, modify, ◌>>◌}
use n_mpc.Trainer.TfConfig.{Task}
use n_mpc.Trainer.Config.{ChannelUuid, local_name, paired, MConfig, FlEnv}
use n_mpc.Trainer.Pairing.{Stub, prepare_rpc_channel}
use Prim.Native.String.{[], ◌∷◌}
use Prim.Native.Char.{Char, code}
use text.Mathlib.Text.{starts_with}

abbrev pub Disk : Type 0
Disk = List String

-- What an operation comes to: a value or an exception with the disk, or `none` while it waits.
abbrev pub Outcome : Type 0
Outcome = Option (Result (Unit {0}) × Disk)

ends_with_slash : Char → String → Bool
ends_with_slash c [] = code c == 47
ends_with_slash c (d ∷ s) = ends_with_slash d s

-- os.path.join puts a slash between, unless the directory ends in one or is empty.
unfoldable pub with_slash : (dir : String) → String
unfolding ends_with_slash
with_slash [] = []
with_slash (c ∷ s) = if ends_with_slash c s then c ∷ s else append (c ∷ s) "/"

abbrev pub join : (dir name : String) → String
join dir name = append (with_slash dir) name

-- `util.rm_dir`: no file stays below the directory.
unfoldable pub rm_dir : (dir : String) → Disk → Disk
rm_dir dir disk =
    if str_eq dir "" then disk else filterb (λ path. not (starts_with path (with_slash dir))) disk

abbrev pub exists : (path : String) → Disk → Bool
exists path disk = anyb (λ p. str_eq p path) disk

abbrev pub is_empty : String → Bool
is_empty s = str_eq s ""

-- The path of SUCCESS_FILE.
abbrev pub success_file : MConfig → String
success_file m = join m.model_dir "DOWNLOAD_SUCCESS"

abbrev pub is_chief_job : (job_name : String) → Bool
is_chief_job job_name = not (str_eq job_name "worker")

abbrev pub is_trainer_job : (job_name : String) → Bool
is_trainer_job job_name =
    str_eq job_name "master" || str_eq job_name "worker" || str_eq job_name "chief"

-- The command `hadoop fs -get`, the calls to the coordinator, the main function `fl_func`, and a
-- server for parameters.
module _ (fs_get : (src dest : String) → Method Disk (Unit {0}))
    (fill_request : List String → Option String → Result (Unit {0}))
    (insecure_channel : Option String → Result Stub)
    (fl_func : (is_chief : Bool) → MConfig → Disk → Outcome) (serve : Task → Disk → Outcome) where
  -- `util.download_from_hdfs`
  unfoldable pub download_from_hdfs : (src dest : String) → Method Disk (Unit {0})
  download_from_hdfs src dest =
      lift (require (not (is_empty src)) assertion_error)
      >> (lift (require (not (is_empty dest)) assertion_error) >> fs_get src dest)

  unfoldable pub clean_dirs : (is_chief : Bool) → MConfig → Disk → Disk
  unfolding rm_dir
  clean_dirs false m disk = rm_dir "_tmp/" disk
  clean_dirs true m disk = rm_dir m.export_dir (rm_dir m.model_dir (rm_dir "_tmp/" disk))

  unfoldable pub download_checkpoint : MConfig → Method Disk (Unit {0})
  unfolding download_from_hdfs
  download_checkpoint m disk =
      if is_empty m.checkpoint_hdfs_path
      then (ok tt, disk)
      else if exists (success_file m) disk
      then (ok tt, disk)
      else (download_from_hdfs m.checkpoint_hdfs_path m.model_dir
            >> modify (λ files. cons (success_file m) files))
          disk

  -- The uuid of the channel: a fixed name in local debug mode.
  unfoldable pub channel_comm_uuid_of : FlEnv → Option (Result ChannelUuid)
  channel_comm_uuid_of e =
      let m = e.mconfig in
      if e.local_debug
      then some
          (ok (local_name (append "jdfl_TrainerWorkerService_" (number_text m.place.worker_id))))
      else elim (prepare_rpc_channel fill_request insecure_channel m.coordinator_addr
          (cons m.channel_appli_id nil) m.local_addr) [
            | none ↦ none
            | some r ↦ some (then_ok r (λ uuids. ok (paired uuids)))
          ]

  abbrev pub hand_over : (is_chief : Bool) → MConfig → Result (Unit {0}) × Disk → Outcome
  hand_over is_chief m (r, disk) = elim r [
    | err e ↦ some (err e, disk)
    | ok _ ↦ fl_func is_chief m disk
  ]

  -- `func` once the channel is known.
  unfoldable pub prepare_and_run : (is_chief : Bool) → MConfig → Disk → Outcome
  unfolding clean_dirs download_checkpoint
  prepare_and_run is_chief m disk =
      hand_over is_chief m (download_checkpoint m (clean_dirs is_chief m disk))

  unfoldable pub func : (is_chief : Bool) → FlEnv → Disk → Outcome
  unfolding channel_comm_uuid_of prepare_and_run
  func is_chief e disk = elim (channel_comm_uuid_of e) [
    | none ↦ none
    | some r ↦ elim r [
      | err raised ↦ some (err raised, disk)
      | ok uuid ↦ prepare_and_run is_chief (record e.mconfig { channel_comm_uuid = some uuid }) disk
    ]
  ]

  -- A job of another name starts nothing.
  unfoldable pub run_task : Task → FlEnv → Disk → Outcome
  unfolding func
  run_task task e disk =
      if str_eq task.job_name "ps"
      then serve task disk
      else if is_trainer_job task.job_name
      then func (is_chief_job task.job_name) e disk
      else some (ok tt, disk)

  unfoldable pub run_cluster : FlEnv → Disk → Outcome
  unfolding run_task
  run_cluster e disk =
      if e.mconfig.place.is_local then func true e disk else elim e.mconfig.place.task [
        | none ↦ some (err key_error, disk)
        | some task ↦ run_task task e disk
      ]
