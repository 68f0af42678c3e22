-- ===== src/Trainer/Configured.antt =====
-- The configuration of the workers of one cluster, and where its values come from.
use n_mpc.Prelude.{
  ℕ, ◌<◌, String, false, Option, some, List, [], ◌∷◌, ◌≡◌, refl, subst, subst₂, sym, ap, ◌∙◌, arith,
  str_eq, All,
}
use n_mpc.Prelude.Text.{number_text_inj}
use n_mpc.Prelude.Result.{Result, ok, bind-ok, ok_inj}
use text.Mathlib.TextLemmas.{append_cancel_left}
use n_mpc.Trainer.TfConfig.{
  TfJson, Cluster, Place, parse_tf_config, place_task, worker_id_of, count_workers,
}
use n_mpc.Trainer.WorkerIds.{IsTrainer, worker_id_of_inj, worker_id_of-bound}
use n_mpc.Trainer.Config.{
  Flags, MConfig, FlEnv, build, write_flags, env_addrs, env_addr, channel_name, parse_mconfig,
  flag_addrs, number_or,
}

-- Two numbers make two names.
channel_name_inj :
    (appli_id : String) (m n : ℕ) → channel_name appli_id m ≡ channel_name appli_id n → m ≡ n
channel_name_inj appli_id m n h =
    number_text_inj m n
      (append_cancel_left "_TrainerWorkerService_" _ _ (append_cancel_left appli_id _ _ h))

module _ (loads : String → Result TfJson) (as_dict : Option Cluster → Result Cluster) where
  place_task-id :
      (spec : Cluster) (cluster : Option Cluster) (job : String) (i : ℕ) (place : Place)
      → place_task spec cluster job i ≡ ok place
      → (place.worker_id ≡ worker_id_of spec job i) × (place.worker_replicas ≡ count_workers spec)
  unfolding place_task
  place_task-id spec cluster job i place h = ground arith

  parse_tf_config-task :
      (text : String) (cluster : Option Cluster) (spec : Cluster) (job : String) (i : ℕ)
      → str_eq text "" ≡ false
      → loads text ≡ ok (record { cluster = cluster; task_type = some job; index = some i })
      → as_dict cluster ≡ ok spec
      → parse_tf_config loads as_dict (some text) ≡ place_task spec cluster job i
  unfolding parse_tf_config
  parse_tf_config-task text cluster spec job i h₁ h₂ h₃ = rw h₁ (rw h₂ (rw h₃ refl))

module _ (environ : String → Option String) (local_ip : String) (loads : String → Result TfJson)
    (as_dict : Option Cluster → Result Cluster) where
  parse_mconfig-from :
      (flags : Flags) (e : FlEnv)
      → parse_mconfig environ local_ip loads as_dict flags ≡ ok e
      → (parse_tf_config loads as_dict (environ "TF_CONFIG") ≡ ok e.mconfig.place)
        × (e.mconfig.channel_appli_id ≡ channel_name e.mconfig.appli_id e.mconfig.place.worker_id)
  unfolding parse_mconfig
  parse_mconfig-from flags e h =
      let (place, read, h₁) = bind-ok (parse_tf_config loads as_dict (environ "TF_CONFIG")) _ h in
      let (addrs, _, h₂) = bind-ok (flag_addrs flags.local_addr) _ h₁ in
      subst
        (λ e.
          (parse_tf_config loads as_dict (environ "TF_CONFIG") ≡ ok e.mconfig.place)
          × (e.mconfig.channel_appli_id
              ≡ channel_name e.mconfig.appli_id e.mconfig.place.worker_id))
        (ok_inj h₂) (read, refl)

  -- What the environment of one task gives.
  pub parse_mconfig-task :
      (flags : Flags) (e : FlEnv) (text : String) (cluster : Option Cluster) (spec : Cluster)
      (job : String) (i : ℕ)
      → parse_mconfig environ local_ip loads as_dict flags ≡ ok e
      → environ "TF_CONFIG" ≡ some text
      → str_eq text "" ≡ false
      → loads text ≡ ok (record { cluster = cluster; task_type = some job; index = some i })
      → as_dict cluster ≡ ok spec
      → (e.mconfig.place.worker_id ≡ worker_id_of spec job i)
        × (e.mconfig.place.worker_replicas ≡ count_workers spec)
        × (e.mconfig.channel_appli_id ≡ channel_name e.mconfig.appli_id e.mconfig.place.worker_id)
  parse_mconfig-task flags e text cluster spec job i h h₁ h₂ h₃ h₄ =
      let (read, name) = parse_mconfig-from flags e h in
      let placed = subst (λ t. parse_tf_config loads as_dict t ≡ ok e.mconfig.place) h₁ read in
      let (id, replicas) =
        place_task-id loads as_dict spec cluster job i e.mconfig.place
          (sym (parse_tf_config-task loads as_dict text cluster spec job i h₂ h₃ h₄) ∙ placed) in
      (id, replicas, name)

-- The worker id of a task that trains is below the number of workers.
pub parse_mconfig-bound :
    (environ : String → Option String) (local_ip : String) (loads : String → Result TfJson)
    (as_dict : Option Cluster → Result Cluster) (flags : Flags) (e : FlEnv) (text : String)
    (cluster : Option Cluster) (spec : Cluster) (job : String) (i : ℕ)
    → IsTrainer spec job i
    → parse_mconfig environ local_ip loads as_dict flags ≡ ok e
    → environ "TF_CONFIG" ≡ some text
    → str_eq text "" ≡ false
    → loads text ≡ ok (record { cluster = cluster; task_type = some job; index = some i })
    → as_dict cluster ≡ ok spec
    → e.mconfig.place.worker_id < e.mconfig.place.worker_replicas
parse_mconfig-bound environ local_ip loads as_dict flags e text cluster spec job i t h h₁ h₂ h₃ h₄ =
    let (id, replicas, _) =
      parse_mconfig-task environ local_ip loads as_dict flags e text cluster spec job i h h₁ h₂ h₃
        h₄ in
    subst₂ (λ x y. x < y) (sym id) (sym replicas) (worker_id_of-bound spec t)

-- Two tasks that train in one cluster, for one application, on hosts of their own: where they
-- register under the same channel_appli_id, they are the same task.
pub parse_mconfig-distinct :
    (environ₁ environ₂ : String → Option String) (local_ip₁ local_ip₂ : String)
    (loads : String → Result TfJson) (as_dict : Option Cluster → Result Cluster)
    (flags₁ flags₂ : Flags) (e₁ e₂ : FlEnv) (text₁ text₂ : String) (cluster : Option Cluster)
    (spec : Cluster) (job₁ job₂ : String) (i₁ i₂ : ℕ)
    → as_dict cluster ≡ ok spec
    → IsTrainer spec job₁ i₁
    → IsTrainer spec job₂ i₂
    → parse_mconfig environ₁ local_ip₁ loads as_dict flags₁ ≡ ok e₁
    → parse_mconfig environ₂ local_ip₂ loads as_dict flags₂ ≡ ok e₂
    → environ₁ "TF_CONFIG" ≡ some text₁
    → environ₂ "TF_CONFIG" ≡ some text₂
    → str_eq text₁ "" ≡ false
    → str_eq text₂ "" ≡ false
    → loads text₁ ≡ ok (record { cluster = cluster; task_type = some job₁; index = some i₁ })
    → loads text₂ ≡ ok (record { cluster = cluster; task_type = some job₂; index = some i₂ })
    → e₁.mconfig.appli_id ≡ e₂.mconfig.appli_id
    → e₁.mconfig.channel_appli_id ≡ e₂.mconfig.channel_appli_id
    → (job₁ ≡ job₂) × (i₁ ≡ i₂)
parse_mconfig-distinct environ₁ environ₂ local_ip₁ local_ip₂ loads as_dict flags₁ flags₂ e₁ e₂ text₁
      text₂ cluster spec job₁ job₂ i₁ i₂ d t₁ t₂ h₁ h₂ v₁ v₂ n₁ n₂ l₁ l₂ same named =
    let (id₁, _, name₁) =
      parse_mconfig-task environ₁ local_ip₁ loads as_dict flags₁ e₁ text₁ cluster spec job₁ i₁ h₁ v₁
        n₁ l₁ d in
    let (id₂, _, name₂) =
      parse_mconfig-task environ₂ local_ip₂ loads as_dict flags₂ e₂ text₂ cluster spec job₂ i₂ h₂ v₂
        n₂ l₂ d in
    let names : channel_name e₂.mconfig.appli_id e₁.mconfig.place.worker_id
        ≡ channel_name e₂.mconfig.appli_id e₂.mconfig.place.worker_id =
      ap (λ a. channel_name a e₁.mconfig.place.worker_id) (sym same) ∙ sym name₁ ∙ named ∙ name₂ in
    worker_id_of_inj spec t₁ t₂ (sym id₁ ∙ channel_name_inj e₂.mconfig.appli_id _ _ names ∙ id₂)

-- The variables that go before the flags.
abbrev pub variables : List String
variables =
    "app_id" ∷ "rpc_service_type" ∷ "worker_port" ∷ "coordinator_ip" ∷ "coordinator_port"
    ∷ "proxy_ip" ∷ "proxy_port" ∷ "datacenter_ip" ∷ "datacenter_port" ∷ "model_dir" ∷ "export_dir"
    ∷ []

-- A configuration with the entries that no variable goes before, as other flags give them.
abbrev pub follow_flags : Flags → MConfig → MConfig
follow_flags flags m = record m {
  role = flags.role;
  peer_addr = flags.peer_addr;
  local_debug = flags.local_debug;
  log_dir = number_or flags.local_debug "logs";
  eval = flags.eval;
  checkpoint_hdfs_path = flags.checkpoint_hdfs_path;
}

build-follow :
    (environ : String → Option String) (local_ip : String) (loads : String → Result TfJson)
    (as_dict : Option Cluster → Result Cluster) (flags₁ flags₂ : Flags) (place : Place)
    (addrs₁ addrs₂ : Option String × Option String)
    → All (λ name. (value : String) × (environ name ≡ some value)) variables
    → build environ local_ip loads as_dict flags₂ place
        (env_addrs local_ip (environ "worker_port") addrs₂)
      ≡ follow_flags flags₂ (
          build environ local_ip loads as_dict flags₁ place
            (env_addrs local_ip (environ "worker_port") addrs₁))
unfolding env_addrs env_addr
build-follow environ local_ip loads as_dict flags₁ flags₂ place addrs₁ addrs₂
      (
        (_, h₁),
        (
          (_, h₂),
          (
            (_, h₃),
            (
              (_, h₄),
              ((_, h₅), ((_, h₆), ((_, h₇), ((_, h₈), ((_, h₉), ((_, h₁₀), ((_, h₁₁), _))))))),
            ),
          ),
        ),
      ) =
    simp (h₁, h₂, h₃, h₄, h₅, h₆, h₇, h₈, h₉, h₁₀, h₁₁)

-- Where all these variables are set, two processes of one environment whose flags differ get, if
-- both get any, configurations that differ in six entries at most: the role, the address of the
-- peer, the mark of local debugging, the directory of the log, the mark of evaluation and the path
-- of the checkpoint, which are those of the flags.
pub parse_mconfig-precedence :
    (environ : String → Option String) (local_ip : String) (loads : String → Result TfJson)
    (as_dict : Option Cluster → Result Cluster) (flags₁ flags₂ : Flags) (e₁ e₂ : FlEnv)
    → All (λ name. (value : String) × (environ name ≡ some value)) variables
    → parse_mconfig environ local_ip loads as_dict flags₁ ≡ ok e₁
    → parse_mconfig environ local_ip loads as_dict flags₂ ≡ ok e₂
    → e₂.mconfig ≡ follow_flags flags₂ e₁.mconfig
unfolding parse_mconfig
parse_mconfig-precedence environ local_ip loads as_dict flags₁ flags₂ e₁ e₂ set h₁ h₂ =
    let (place₁, read₁, rest₁) =
      bind-ok (parse_tf_config loads as_dict (environ "TF_CONFIG")) _ h₁ in
    let (place₂, read₂, rest₂) =
      bind-ok (parse_tf_config loads as_dict (environ "TF_CONFIG")) _ h₂ in
    let (addrs₁, _, built₁) = bind-ok (flag_addrs flags₁.local_addr) _ rest₁ in
    let (addrs₂, _, built₂) = bind-ok (flag_addrs flags₂.local_addr) _ rest₂ in
    let same : place₂ ≡ place₁ = ok_inj (sym read₂ ∙ read₁) in
    ap (λ e. e.mconfig) (sym (ok_inj built₂))
    ∙ ap
        (λ p.
          build environ local_ip loads as_dict (write_flags environ local_ip loads as_dict flags₂) p
            (env_addrs local_ip (environ "worker_port") addrs₂))
        same
    ∙ build-follow environ local_ip loads as_dict
        (write_flags environ local_ip loads as_dict flags₁)
        (write_flags environ local_ip loads as_dict flags₂) place₁ addrs₁ addrs₂ set
    ∙ ap (λ e. follow_flags flags₂ e.mconfig) (ok_inj built₁)
