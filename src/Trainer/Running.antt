-- ===== src/Trainer/Running.antt =====
-- What a worker removes and downloads before it starts, and the places it is started from.
use n_mpc.Prelude.{
  inl, inr, String, Bool, true, false, not, ◌&&◌, Option, some, List, [], ◌∷◌, str_eq, filterb, ◌≡◌,
  refl, arith, ◌∙◌, ap, Bool-cases,
}
use n_mpc.Prelude.Result.{Result, ok}
use n_mpc.Prelude.Method.{Method}
use n_mpc.Trainer.TfConfig.{Task}
use n_mpc.Trainer.Config.{ChannelUuid, MConfig, FlEnv}
use n_mpc.Trainer.Pairing.{Stub}
use n_mpc.Trainer.Run.{
  Disk, Outcome, with_slash, join, rm_dir, exists, success_file, clean_dirs, download_from_hdfs,
  download_checkpoint, channel_comm_uuid_of, prepare_and_run, hand_over, func, run_task,
  run_cluster,
}
use text.Mathlib.TextPositions.{starts_with-append}
use text.Mathlib.Text.{starts_with}
use text.Mathlib.TextEquality.{eq_iff}

exists-filterb :
    (path : String) (p : String → Bool) (disk : Disk)
    → p path ≡ false
    → exists path (filterb p disk) ≡ false
exists-filterb path p [] h = refl
exists-filterb path p (file ∷ disk) h = elim (Bool-cases (str_eq file path)) [
  | inl same ↦
      let no : p file ≡ false = ap p ((eq_iff file path).0 same) ∙ h in
      ground (arith, no, exists-filterb path p disk h)
  | inr other ↦ ground (arith, other, exists-filterb path p disk h)
]

exists-filterb_le :
    (path : String) (p : String → Bool) (disk : Disk)
    → exists path disk ≡ false
    → exists path (filterb p disk) ≡ false
exists-filterb_le path p [] h = refl
exists-filterb_le path p (file ∷ disk) h = ground (arith, exists-filterb_le path p disk)

-- A filter keeps the files it is to keep, and no other.
exists-filterb_eq :
    (path : String) (p : String → Bool) (disk : Disk)
    → exists path (filterb p disk) ≡ (exists path disk && p path)
exists-filterb_eq path p [] = refl
exists-filterb_eq path p (file ∷ disk) = elim (Bool-cases (str_eq file path)) [
  | inl same ↦
      let equal : p file ≡ p path = ap p ((eq_iff file path).0 same) in
      elim (Bool-cases (p path)) [
        | inl kept ↦ ground (arith, same, equal, kept, exists-filterb_eq path p disk)
        | inr dropped ↦ ground (arith, same, equal, dropped, exists-filterb_eq path p disk)
      ]
  | inr other ↦ elim (Bool-cases (p file)) [
    | inl kept ↦ ground (arith, other, kept, exists-filterb_eq path p disk)
    | inr dropped ↦ ground (arith, other, dropped, exists-filterb_eq path p disk)
  ]
]

exists-rm_dir_le :
    (path dir : String) (disk : Disk)
    → exists path disk ≡ false
    → exists path (rm_dir dir disk) ≡ false
unfolding rm_dir
exists-rm_dir_le path dir disk h =
    ground (arith, exists-filterb_le path (λ path. not (starts_with path (with_slash dir))) disk h)

exists-rm_dir :
    (dir name : String) (disk : Disk)
    → str_eq dir "" ≡ false
    → exists (join dir name) (rm_dir dir disk) ≡ false
unfolding rm_dir
exists-rm_dir dir name disk h = rw h (
    exists-filterb (join dir name) (λ path. not (starts_with path (with_slash dir))) disk
      (ap not (starts_with-append (with_slash dir) name)))

module _ (fs_get : (src dest : String) → Method Disk (Unit {0}))
    (fill_request : List String → Option String → Result (Unit {0}))
    (insecure_channel : Option String → Result Stub)
    (fl_func : (is_chief : Bool) → MConfig → Disk → Outcome) (serve : Task → Disk → Outcome) where
  func-known :
      (is_chief : Bool) (e : FlEnv) (disk : Disk) (uuid : ChannelUuid)
      → channel_comm_uuid_of fs_get fill_request insecure_channel fl_func serve e ≡ some (ok uuid)
      → func fs_get fill_request insecure_channel fl_func serve is_chief e disk
        ≡ prepare_and_run fs_get fill_request insecure_channel fl_func serve is_chief
            (record e.mconfig { channel_comm_uuid = some uuid })
            disk
  unfolding func
  func-known is_chief e disk uuid known = rw (func, known) refl

  run_task-worker :
      (task : Task) (e : FlEnv) (disk : Disk)
      → task.job_name ≡ "worker"
      → run_task fs_get fill_request insecure_channel fl_func serve task e disk
        ≡ func fs_get fill_request insecure_channel fl_func serve false e disk
  unfolding run_task
  run_task-worker task e disk job = simp (run_task, job)

  download_checkpoint-none :
      (m : MConfig) (disk : Disk)
      → str_eq m.checkpoint_hdfs_path "" ≡ true
      → download_checkpoint fs_get fill_request insecure_channel fl_func serve m disk
        ≡ (ok tt, disk)
  unfolding download_checkpoint
  download_checkpoint-none m disk empty = simp (download_checkpoint, empty)

  download_checkpoint-fresh :
      (m : MConfig) (disk after : Disk)
      → str_eq m.checkpoint_hdfs_path "" ≡ false
      → str_eq m.model_dir "" ≡ false
      → exists (success_file m) disk ≡ false
      → fs_get m.checkpoint_hdfs_path m.model_dir disk ≡ (ok tt, after)
      → download_checkpoint fs_get fill_request insecure_channel fl_func serve m disk
        ≡ (ok tt, success_file m ∷ after)
  unfolding download_checkpoint
  download_checkpoint-fresh m disk after full named missing got =
      simp (download_checkpoint, download_from_hdfs, full, named, missing, got)

  prepare_and_run-ready :
      (is_chief : Bool) (m : MConfig) (disk after : Disk)
      → download_checkpoint fs_get fill_request insecure_channel fl_func serve m
          (clean_dirs fs_get fill_request insecure_channel fl_func serve is_chief m disk)
        ≡ (ok tt, after)
      → prepare_and_run fs_get fill_request insecure_channel fl_func serve is_chief m disk
        ≡ fl_func is_chief m after
  unfolding prepare_and_run
  prepare_and_run-ready is_chief m disk after ready =
      ap (hand_over fs_get fill_request insecure_channel fl_func serve is_chief m) ready

  clean_dirs-worker :
      (m : MConfig) (disk : Disk)
      → clean_dirs fs_get fill_request insecure_channel fl_func serve false m disk
        ≡ rm_dir "_tmp/" disk
  unfolding clean_dirs
  clean_dirs-worker m disk = refl

  exists-clean_dirs :
      (m : MConfig) (disk : Disk)
      → str_eq m.model_dir "" ≡ false
      → exists
          (success_file m)
          (clean_dirs fs_get fill_request insecure_channel fl_func serve true m disk)
        ≡ false
  unfolding clean_dirs
  exists-clean_dirs m disk named =
      exists-rm_dir_le (success_file m) m.export_dir _
        (exists-rm_dir m.model_dir "DOWNLOAD_SUCCESS" (rm_dir "_tmp/" disk) named)

  run_cluster-task :
      (e : FlEnv) (disk : Disk) (task : Task)
      → e.mconfig.place.is_local ≡ false
      → e.mconfig.place.task ≡ some task
      → run_cluster fs_get fill_request insecure_channel fl_func serve e disk
        ≡ run_task fs_get fill_request insecure_channel fl_func serve task e disk
  unfolding run_cluster
  run_cluster-task e disk task far placed = simp (run_cluster, far, placed)

  -- A worker of a cluster (not a master nor a chief) without a checkpoint to load hands over to its
  -- main function, once its channel is known, a disk with every file that was there and is not
  -- below `_tmp/`, and with no other file.
  pub run_cluster-worker :
      (e : FlEnv) (disk : Disk) (task : Task) (uuid : ChannelUuid)
      → e.mconfig.place.is_local ≡ false
      → e.mconfig.place.task ≡ some task
      → task.job_name ≡ "worker"
      → str_eq e.mconfig.checkpoint_hdfs_path "" ≡ true
      → channel_comm_uuid_of fs_get fill_request insecure_channel fl_func serve e ≡ some (ok uuid)
      → (after : Disk) × (run_cluster fs_get fill_request insecure_channel fl_func serve e disk
          ≡ fl_func false (record e.mconfig { channel_comm_uuid = some uuid }) after)
        × ((path : String)
            → exists path after ≡ (exists path disk && not (starts_with path "_tmp/")))
  unfolding rm_dir clean_dirs with_slash
  run_cluster-worker e disk task uuid far placed job empty known =
      let m = record e.mconfig { channel_comm_uuid = some uuid } in
      (
        rm_dir "_tmp/" disk,
        run_cluster-task e disk task far placed
            ∙ run_task-worker task e disk job
            ∙ func-known false e disk uuid known
            ∙ prepare_and_run-ready false m disk (rm_dir "_tmp/" disk)
                (download_checkpoint-none m _ empty),
        λ path. exists-filterb_eq path (λ file. not (starts_with file "_tmp/")) disk,
      )

  -- A chief with a checkpoint to load
  pub func-chief :
      (e : FlEnv) (disk after : Disk) (uuid : ChannelUuid)
      → str_eq e.mconfig.checkpoint_hdfs_path "" ≡ false
      → str_eq e.mconfig.model_dir "" ≡ false
      → channel_comm_uuid_of fs_get fill_request insecure_channel fl_func serve e ≡ some (ok uuid)
      → fs_get e.mconfig.checkpoint_hdfs_path e.mconfig.model_dir
          (clean_dirs fs_get fill_request insecure_channel fl_func serve true e.mconfig disk)
        ≡ (ok tt, after)
      → func fs_get fill_request insecure_channel fl_func serve true e disk
        ≡ fl_func true
            (record e.mconfig { channel_comm_uuid = some uuid })
            (success_file e.mconfig ∷ after)
  unfolding clean_dirs
  func-chief e disk after uuid full named known got =
      let m = record e.mconfig { channel_comm_uuid = some uuid } in
      func-known true e disk uuid known
      ∙ prepare_and_run-ready true m disk (success_file m ∷ after)
          (download_checkpoint-fresh m _ after full named (exists-clean_dirs m disk named) got)
