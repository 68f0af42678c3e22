-- ===== src/Trainer/TfConfig.antt =====
-- _parse_tf_config of src/Trainer/fl_comm_libs/flenv.py: the worker's place in its cluster.
use n_mpc.Prelude.{
  ltb, leb, if◌then◌else◌, length, ℕ, ◌+◌, String, Bool, true, false, ◌&&◌, Option, none, some,
  List, [], ◌∷◌, str_eq,
}
use n_mpc.Prelude.Result.{Result, ok, err, ◌>>=◌, value_error}

-- The cluster: the addresses of the tasks of each job.
abbrev pub Cluster : Type 0
Cluster = List (String × List String)

-- The JSON of TF_CONFIG: its `cluster`, and the `type` and the `index` of its `task`.
pub record TfJson : Type 0 where
  pub cluster : Option Cluster
  pub task_type : Option String
  pub index : Option ℕ

-- The keys that only a task of a cluster has.
pub record Task : Type 0 where
  pub ps_tasks : ℕ
  pub job_name : String
  pub task_index : ℕ
  pub cluster : Option Cluster

pub record Place : Type 0 where
  pub worker_replicas : ℕ
  pub worker_id : ℕ
  pub is_local : Bool
  pub task : Option Task

-- `len(cluster_spec.as_dict().get(job, []))`
unfoldable pub count_tasks : String → Cluster → ℕ
count_tasks job [] = 0
count_tasks job ((name, tasks) ∷ rest) =
    if str_eq name job then length tasks else count_tasks job rest

abbrev pub count_workers : Cluster → ℕ
count_workers spec =
    count_tasks "worker" spec + count_tasks "master" spec + count_tasks "chief" spec

abbrev pub alone : Place
alone = record { worker_replicas = 1; worker_id = 0; is_local = true; task = none }

-- `mconfig['worker_id']` of a task.
unfoldable pub worker_id_of : Cluster → (job_name : String) (task_index : ℕ) → ℕ
worker_id_of spec job_name task_index =
    if str_eq job_name "master"
    then task_index
    else if str_eq job_name "chief"
    then count_tasks "master" spec + task_index
    else if str_eq job_name "worker"
    then count_tasks "chief" spec + count_tasks "master" spec + task_index
    else 0

abbrev pub task_of :
    (spec : Cluster) (cluster : Option Cluster) (job_name : String) (task_index : ℕ) → Task
task_of spec cluster job_name task_index = record {
  ps_tasks = count_tasks "ps" spec;
  job_name = job_name;
  task_index = task_index;
  cluster = cluster;
}

unfoldable pub place_task :
    (spec : Cluster) (cluster : Option Cluster) (job_name : String) (task_index : ℕ) → Result Place
unfolding worker_id_of
place_task spec cluster job_name task_index =
    if ltb 1 (count_workers spec) && ltb (count_tasks "ps" spec) 1
    then err value_error
    else ok (record {
      worker_replicas = count_workers spec;
      worker_id = worker_id_of spec job_name task_index;
      is_local =
          if leb 1 (count_workers spec) && ltb 0 (count_tasks "ps" spec) then false else true;
      task = some (task_of spec cluster job_name task_index);
    })

-- json.loads, and tf.train.ClusterSpec(cluster).as_dict().
module _ (loads : String → Result TfJson) (as_dict : Option Cluster → Result Cluster) where
  unfoldable pub parse_fields :
      (cluster : Option Cluster) (task_type : Option String) (index : Option ℕ) → Result Place
  unfolding place_task
  parse_fields cluster none index = ok alone
  parse_fields cluster (some job_name) none = ok alone
  parse_fields cluster (some job_name) (some task_index) =
      as_dict cluster >>= λ spec. place_task spec cluster job_name task_index

  abbrev pub parse_json : TfJson → Result Place
  parse_json json = parse_fields json.cluster json.task_type json.index

  -- `tf_config` is os.environ.get('TF_CONFIG'); an empty text counts as none.
  unfoldable pub parse_tf_config : (tf_config : Option String) → Result Place
  unfolding parse_fields
  parse_tf_config none = ok alone
  parse_tf_config (some text) = if str_eq text "" then ok alone else loads text >>= parse_json
