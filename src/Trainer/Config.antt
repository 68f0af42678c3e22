-- ===== src/Trainer/Config.antt =====
-- FLEnv of src/Trainer/fl_comm_libs/flenv.py: the configuration from the flags and the environment,
-- in which the environment comes first. Reading it also writes two addresses back into the flags.
use n_mpc.Prelude.{
  ◌==◌, if◌then◌else◌, ℕ, String, Bool, true, false, Option, none, some, List, [], ◌∷◌,
}
use n_mpc.Prelude.Text.{split, append, number_text}
use n_mpc.Prelude.Result.{Result, ok, err, ◌>>=◌, index_error}
use n_mpc.Trainer.TfConfig.{TfJson, Cluster, Place, parse_tf_config}

pub record Flags : Type 0 where
  pub role : String
  pub appli_id : String
  pub rpc_service_type : ℕ
  pub local_addr : Option String
  pub peer_addr : Option String
  pub coordinator_addr : Option String
  pub proxy_addr : Option String
  pub dc_addr : Option String
  pub model_dir : String
  pub export_dir : String
  pub local_debug : ℕ
  pub eval : ℕ
  pub checkpoint_hdfs_path : String

-- A key that holds the number of a flag or the text of a variable, or a default.
pub data Value : Type 0 where
  number : ℕ → Value
  text : String → Value

-- The name of the channel in local debug mode, or the uuids that the coordinator gave.
pub data ChannelUuid : Type 0 where
  local_name : String → ChannelUuid
  paired : List String → ChannelUuid

-- The keys of `mconfig`; `place` holds those of `_parse_tf_config`. `channel_comm_uuid` comes
-- later.
pub record MConfig : Type 0 where
  pub place : Place
  pub role : String
  pub appli_id : String
  pub channel_appli_id : String
  pub rpc_service_type : Value
  pub local_addr : Option String
  pub bind_addr : Option String
  pub peer_addr : Option String
  pub coordinator_addr : Option String
  pub proxy_addr : Option String
  pub dc_addr : Option String
  pub model_dir : String
  pub export_dir : String
  pub local_debug : ℕ
  pub log_dir : Value
  pub eval : ℕ
  pub checkpoint_hdfs_path : String
  pub channel_comm_uuid : Option ChannelUuid

pub record FlEnv : Type 0 where
  pub flags : Flags
  pub local_debug : Bool
  pub mconfig : MConfig

-- A variable that is set goes before the flag.
abbrev pub env_first : {A : Type 0} → (env : Option A) (flag : A) → A
env_first none flag = flag
env_first (some value) flag = value

-- `'%s_TrainerWorkerService_%s' % (appli_id, worker_id)`
abbrev pub channel_name : (appli_id : String) (worker_id : ℕ) → String
channel_name appli_id worker_id =
    append appli_id (append "_TrainerWorkerService_" (number_text worker_id))

-- `str(ip) + ':' + str(port)`
abbrev pub address : (ip port : String) → String
address ip port = append ip (append ":" port)

abbrev pub any_host : (port : String) → String
any_host port = append "[::]:" port

-- An address of the environment needs both of its variables.
unfoldable pub env_addr : (ip port flag : Option String) → Option String
env_addr (some ip) (some port) flag = some (address ip port)
env_addr (some ip) none flag = flag
env_addr none port flag = flag

-- `addr.split(':')[1]`
unfoldable pub port_of : String → Result String
port_of addr = elim (split ":" addr) [
  | [] ↦ err index_error
  | _ ∷ rest ↦ elim rest [ [] ↦ err index_error | port ∷ _ ↦ ok port ]
]

-- The local address and the address to bind.
unfoldable pub flag_addrs : (local_addr : Option String) → Result (Option String × Option String)
unfolding port_of
flag_addrs none = ok (none, none)
flag_addrs (some addr) = port_of addr >>= λ port. ok (some addr, some (any_host port))

abbrev pub first_part : List String → String
first_part [] = ""
first_part (part ∷ _) = part

unfoldable pub env_addrs :
    (local_ip : String) (worker_port : Option String)
    → Option String × Option String
    → Option String × Option String
env_addrs local_ip none addrs = addrs
env_addrs local_ip (some ports) addrs =
    let port = first_part (split "," ports) in (some (address local_ip port), some (any_host port))

-- In local debug mode the peer stands in for an address that is not given.
unfoldable pub debug_addr : (local_debug : Bool) (peer addr : Option String) → Option String
debug_addr false peer addr = addr
debug_addr true peer (some addr) = some addr
debug_addr true peer none = peer

-- `FLAGS.local_debug or 'logs'`
abbrev pub number_or : ℕ → String → Value
number_or n default = if n == 0 then text default else number n

-- os.environ.get, the address of the own host, json.loads and tf.train.ClusterSpec.
module _ (environ : String → Option String) (local_ip : String) (loads : String → Result TfJson)
    (as_dict : Option Cluster → Result Cluster) where
  abbrev pub write_flags : Flags → Flags
  write_flags flags =
      let debug = flags.local_debug == 1 in
      record flags {
        coordinator_addr = debug_addr debug flags.peer_addr flags.coordinator_addr;
        proxy_addr = debug_addr debug flags.peer_addr flags.proxy_addr;
      }

  abbrev pub environ_addr : (ip port : String) (flag : Option String) → Option String
  environ_addr ip port flag = env_addr (environ ip) (environ port) flag

  abbrev pub build : Flags → Place → Option String × Option String → MConfig
  build flags place addrs =
      let appli_id = env_first (environ "app_id") flags.appli_id in
      record {
        place = place;
        role = flags.role;
        appli_id = appli_id;
        channel_appli_id = channel_name appli_id place.worker_id;
        rpc_service_type = elim (environ "rpc_service_type") [
          | none ↦ number flags.rpc_service_type
          | some kind ↦ text kind
        ];
        local_addr = addrs.0;
        bind_addr = addrs.1;
        peer_addr = flags.peer_addr;
        coordinator_addr = environ_addr "coordinator_ip" "coordinator_port" flags.coordinator_addr;
        proxy_addr = environ_addr "proxy_ip" "proxy_port" flags.proxy_addr;
        dc_addr = environ_addr "datacenter_ip" "datacenter_port" flags.dc_addr;
        model_dir = env_first (environ "model_dir") flags.model_dir;
        export_dir = env_first (environ "export_dir") flags.export_dir;
        local_debug = flags.local_debug;
        log_dir = number_or flags.local_debug "logs";
        eval = flags.eval;
        checkpoint_hdfs_path = flags.checkpoint_hdfs_path;
        channel_comm_uuid = none;
      }

  -- `_parse_mconfig`, the answer with the flags as it leaves them.
  unfoldable pub parse_mconfig : Flags → Result FlEnv
  unfolding parse_tf_config flag_addrs env_addrs debug_addr env_addr
  parse_mconfig flags = parse_tf_config loads as_dict (environ "TF_CONFIG") >>= λ place.
      flag_addrs flags.local_addr >>= λ addrs. ok (record {
        flags = write_flags flags;
        local_debug = flags.local_debug == 1;
        mconfig =
            build (write_flags flags) place (env_addrs local_ip (environ "worker_port") addrs);
      })

unfoldable pub set_role : (role : String) → FlEnv → FlEnv
set_role role e = record e {
  flags = record e.flags { role = role };
  mconfig = record e.mconfig { role = role };
}

unfoldable pub set_local_debug : FlEnv → FlEnv
set_local_debug e = record e {
  flags = record e.flags { local_debug = 1 };
  mconfig = record e.mconfig { local_debug = 1 };
  local_debug = true;
}
