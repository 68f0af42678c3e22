-- ===== src/Trainer/Tests.antt =====
-- A cluster of a chief, two workers and a parameter server, its second worker, and a coordinator
-- that answers the second call of each method.
use n_mpc.Prelude.{
  ℕ, String, Bool, true, false, not, ◌&&◌, Option, none, some, List, [], ◌∷◌, ◌≡◌, refl, arith, ◌≤◌,
  ◌<◌, ◌+◌, str_eq, if◌then◌else◌, ltb,
}
use n_mpc.Prelude.Text.{split, append, number_text}
use n_mpc.Prelude.Result.{Result, ok, err, value_error, name_error}
use n_mpc.Prelude.Method.{Method}
use n_mpc.Trainer.TfConfig.{count_tasks, TfJson, Cluster, Task, alone}
use n_mpc.Trainer.WorkerIds.{worker}
use n_mpc.Trainer.Config.{Flags, FlEnv, MConfig, parse_mconfig, local_name}
use n_mpc.Trainer.Configured.{
  follow_flags, parse_mconfig-distinct, parse_mconfig-bound, parse_mconfig-precedence,
}
use n_mpc.Trainer.Placed.{IsPlaced, parse_tf_config-IsPlaced}
use n_mpc.Trainer.Pairing.{
  is_registered, uuid_pairs, Stub, answered, rpc_error, prepare_rpc_channel,
}
use n_mpc.Trainer.Paired.{prepare_rpc_channel-ends}
use n_mpc.Trainer.Run.{
  channel_comm_uuid_of, clean_dirs, with_slash, Disk, Outcome, run_cluster, func, exists,
}
use n_mpc.Trainer.Running.{run_cluster-worker, func-chief}
use n_mpc.Trainer.Connect.{Peer, train, bridge_init, channel_init, connect_at, run_session}
use n_mpc.Trainer.Connected.{run_session-trains, steps_of}
use n_mpc.Trainer.CheckIds.{verify_example_ids}
use text.Mathlib.Text.{starts_with}

abbrev cluster : Cluster
cluster = ("ps", "p0" ∷ []) ∷ ("chief", "c0" ∷ []) ∷ ("worker", "w0" ∷ "w1" ∷ []) ∷ []

abbrev second_worker : TfJson
second_worker = record { cluster = some cluster; task_type = some "worker"; index = some 1 }

-- Any text but "bad" stands for the second worker.
abbrev loads : String → Result TfJson
loads text = if str_eq text "bad" then err value_error else ok second_worker

abbrev as_dict : Option Cluster → Result Cluster
as_dict none = err value_error
as_dict (some spec) = ok spec

-- Every variable is set.
abbrev environ : String → Option String
environ name = some name

abbrev flags : Flags
flags = record {
  role = "follower";
  appli_id = "jdfl";
  rpc_service_type = 1;
  local_addr = some "10.0.0.1:6001";
  peer_addr = none;
  coordinator_addr = none;
  proxy_addr = none;
  dc_addr = none;
  model_dir = "./models/model_dir/";
  export_dir = "./models/export_savemodel/";
  local_debug = 1;
  eval = 0;
  checkpoint_hdfs_path = "";
}

abbrev other_flags : Flags
other_flags = record flags {
  appli_id = "other";
  model_dir = "elsewhere";
  local_debug = 0;
  eval = 1;
}

-- The value of a result, with one to fall back on.
abbrev value_of : {A : Type 0} → A → Result A → A
value_of a (ok b) = b
value_of a (err e) = a

abbrev mconfig : MConfig
mconfig = record {
  place = alone;
  role = "follower";
  appli_id = "";
  channel_appli_id = "";
  rpc_service_type = n_mpc.Trainer.Config.Value.text "";
  local_addr = none;
  bind_addr = none;
  peer_addr = none;
  coordinator_addr = none;
  proxy_addr = none;
  dc_addr = none;
  model_dir = "model";
  export_dir = "export";
  local_debug = 1;
  log_dir = n_mpc.Trainer.Config.Value.text "";
  eval = 0;
  checkpoint_hdfs_path = "";
  channel_comm_uuid = none;
}

abbrev blank : FlEnv
blank = record { flags = flags; local_debug = true; mconfig = mconfig }

abbrev env : FlEnv
unfolding parse_mconfig
env = value_of blank (parse_mconfig environ "10.0.0.9" loads as_dict flags)

-- The same task, started again on another host.
abbrev moved : FlEnv
unfolding parse_mconfig
moved = value_of blank (parse_mconfig environ "10.0.0.8" loads as_dict flags)

abbrev other : FlEnv
unfolding parse_mconfig
other = value_of blank (parse_mconfig environ "10.0.0.9" loads as_dict other_flags)

channels : env.mconfig.channel_appli_id ≡ "app_id_TrainerWorkerService_2"
unfolding parse_mconfig count_tasks split number_text
channels = refl

parse_mconfig-distinct_example : (◌≡◌ {A = String} "worker" "worker") × (◌≡◌ {A = ℕ} 1 1)
unfolding parse_mconfig count_tasks split
parse_mconfig-distinct_example =
    parse_mconfig-distinct environ environ "10.0.0.9" "10.0.0.8" loads as_dict flags flags env moved
      "TF_CONFIG" "TF_CONFIG" (some cluster) cluster "worker" "worker" 1 1 refl
      (worker 1 (omega arith)) (worker 1 (omega arith)) refl refl refl refl refl refl refl refl refl
      refl

parse_mconfig-bound_example : env.mconfig.place.worker_id < env.mconfig.place.worker_replicas
unfolding parse_mconfig count_tasks split
parse_mconfig-bound_example =
    parse_mconfig-bound environ "10.0.0.9" loads as_dict flags env "TF_CONFIG" (some cluster)
      cluster "worker" 1 (worker 1 (omega arith)) refl refl refl refl refl

parse_mconfig-precedence_example : other.mconfig ≡ follow_flags other_flags env.mconfig
unfolding parse_mconfig count_tasks split
parse_mconfig-precedence_example =
    parse_mconfig-precedence environ "10.0.0.9" loads as_dict flags other_flags env other
      (
        ("app_id", refl),
        (
          ("rpc_service_type", refl),
          (
            ("worker_port", refl),
            (
              ("coordinator_ip", refl),
              (
                ("coordinator_port", refl),
                (
                  ("proxy_ip", refl),
                  (
                    ("proxy_port", refl),
                    (
                      ("datacenter_ip", refl),
                      (
                        ("datacenter_port", refl),
                        (("model_dir", refl), (("export_dir", refl), tt)),
                      ),
                    ),
                  ),
                ),
              ),
            ),
          ),
        ),
      )
      refl refl

parse_tf_config-IsPlaced_example : IsPlaced env.mconfig.place
unfolding parse_mconfig count_tasks split
parse_tf_config-IsPlaced_example =
    parse_tf_config-IsPlaced loads as_dict (some "TF_CONFIG") env.mconfig.place refl

-- The coordinator refuses the first call of each method.
abbrev stub : Stub
stub = record {
  registered = answered 1 ∷ answered 0 ∷ [];
  pair_infos =
      rpc_error
      ∷ answered (record { status = 0; service_map = ("local", "remote") ∷ ("l", "r") ∷ [] })
      ∷ [];
}

abbrev fill_request : List String → Option String → Result (Unit {0})
fill_request uuids none = err value_error
fill_request uuids (some _) = ok tt

abbrev insecure_channel : Option String → Result Stub
insecure_channel none = err value_error
insecure_channel (some _) = ok stub

prepare_rpc_channel-ends_example :
    prepare_rpc_channel fill_request insecure_channel
      (some "coordinator:80")
      ("app" ∷ [])
      (some "10.0.0.1:6001")
    ≡ some (ok ("remote" ∷ []))
unfolding is_registered uuid_pairs
prepare_rpc_channel-ends_example =
    prepare_rpc_channel-ends fill_request insecure_channel (some "coordinator:80") ("app" ∷ [])
      (some "10.0.0.1:6001") (answered 1 ∷ []) [] (rpc_error ∷ []) [] ("local", "remote")
      (("l", "r") ∷ []) refl refl (refl, tt) (refl, tt)

-- `fl_func` ends at once; the download puts one file into the directory.
abbrev fl_func : Bool → MConfig → Disk → Outcome
fl_func is_chief m disk = some (ok tt, disk)

abbrev serve : Task → Disk → Outcome
serve task disk = none

abbrev fs_get : (src dest : String) → Method Disk (Unit {0})
fs_get src dest disk = (ok tt, append dest "/checkpoint" ∷ disk)

abbrev disk : Disk
disk = "_tmp/part" ∷ "model/DOWNLOAD_SUCCESS" ∷ "model/old" ∷ "data" ∷ []

abbrev task : Task
task = record { ps_tasks = 1; job_name = "worker"; task_index = 1; cluster = some cluster }

abbrev far_env : FlEnv
far_env = record blank {
  mconfig = record mconfig {
    place = record { worker_replicas = 3; worker_id = 2; is_local = false; task = some task };
  };
}

run_cluster-worker_example :
    (after : Disk) × (run_cluster fs_get fill_request insecure_channel fl_func serve far_env disk
      ≡ fl_func false
          (record far_env.mconfig {
            channel_comm_uuid = some (local_name "jdfl_TrainerWorkerService_2");
          })
          after)
    × ((path : String) → exists path after ≡ (exists path disk && not (starts_with path "_tmp/")))
unfolding channel_comm_uuid_of number_text
run_cluster-worker_example =
    run_cluster-worker fs_get fill_request insecure_channel fl_func serve far_env disk task
      (local_name "jdfl_TrainerWorkerService_2") refl refl refl refl refl

abbrev loading : FlEnv
loading = record blank { mconfig = record mconfig { checkpoint_hdfs_path = "hdfs/checkpoint" } }

func-chief_example :
    func fs_get fill_request insecure_channel fl_func serve true loading disk
    ≡ fl_func true
        (record loading.mconfig {
          channel_comm_uuid = some (local_name "jdfl_TrainerWorkerService_0");
        })
        ("model/DOWNLOAD_SUCCESS" ∷ "model/checkpoint" ∷ "data" ∷ [])
unfolding channel_comm_uuid_of clean_dirs with_slash number_text
func-chief_example =
    func-chief fs_get fill_request insecure_channel fl_func serve loading disk
      ("model/checkpoint" ∷ "data" ∷ []) (local_name "jdfl_TrainerWorkerService_0") refl refl refl
      refl

-- A peer that is up from its third call on.
abbrev late : ℕ → ℕ
late n = if ltb n 3 then 1 else 0

abbrev peer : Peer
peer = record { connect = late; wait_peer = late; follow = late }

abbrev should_stop : ℕ → Bool
should_stop n = if ltb n 2 then false else true

run_session-trains_example :
    (calls : ℕ) × (calls ≤ 3 + 13)
    × (run_session should_stop peer 6 "follower" train
        ≡ some (1 + 2, bridge_init ∷ channel_init ∷ connect_at calls ∷ steps_of train 2))
run_session-trains_example =
    run_session-trains should_stop peer "follower" train 3 2 6 (λ n h. ground arith)
      (λ n h. ground arith) (λ n h. ground arith) (λ n h. ground arith) refl (omega arith)
      (omega arith)

no_role : verify_example_ids 1 "observer" true ≡ err name_error
unfolding verify_example_ids
no_role = refl
