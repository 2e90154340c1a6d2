-- ===== src/Config.antt =====
-- pkg/utils/utils.go: the configurations of the client and of the scheduler. The packages clientcmd and rest of
-- client-go and those of the scheduler are an argument, whose functions read files and change nothing.
pub mod Laws
pub mod Requests
pub mod Samples
mod Tests
use kluster_capacity.Base.{
  ℕ, String, ◌<>◌, Bool, false, ◌&&◌, not, List, [], ◌∷◌, Option, none, some, ◌==◌, if◌then◌else◌,
}
use kluster_capacity.Base.Dict.{Dict, lookup}
use kluster_capacity.Base.Monad.{Result, ok, err, panic, stuck}
use kluster_capacity.Base.Outcome.{◌>>=◌, wrap, check, deref, or_err}
use kluster_capacity.Framework.{no_plugins}
use kluster_capacity.Framework.Scheduler.{Plugins}
use kluster_capacity.Status.{scheduler_name}

abbrev pub default_qps : ℕ
default_qps = 10000

abbrev pub default_burst : ℕ
default_burst = 20000

-- restclient.Config
pub record RestConfig : Type 0 where
  pub host : String
  pub qps : ℕ
  pub burst : ℕ

-- clientcmdapi.Config: the cluster of each context and the server of each cluster, by pointers.
pub record KubeConfig : Type 0 where
  pub current_context : String
  pub contexts : Dict (Option String)
  pub clusters : Dict (Option String)

pub record Profile : Type 0 where
  pub scheduler_name : String
  pub plugins : Option Plugins

-- KubeSchedulerConfiguration, with the fields that the program touches.
pub record SchedulerConfig : Type 0 where
  pub api_version : String
  pub kubeconfig : String
  pub profiles : List Profile

-- What a file decodes to, and its group, version and kind.
pub data Object : Type 0 where
  scheduler_config : SchedulerConfig → Object
  another : Object

pub record Kind : Type 0 where
  pub group_version : String
  pub text : String

-- kubescheduleroptions.Options; the last two fields are known by whether they are set.
pub record SchedulerOptions : Type 0 where
  pub component_config : SchedulerConfig
  pub deprecated : Bool
  pub secure_serving : Bool

-- schedconfig.Config and CompletedConfig, over the types of their clients.
pub record Completed (C B F : Type 0) : Type 0 where
  pub component_config : SchedulerConfig
  pub event_broadcaster : B
  pub client : C
  pub informer_factory : F

pub record Packages : Type 1 where
  pub Client : Type 0
  pub Broadcaster : Type 0
  pub Factory : Type 0
  pub Versioned : Type 0
  -- clientcmd and rest
  pub load_from_file : String → Result KubeConfig
  pub build_config_from_flags : (master path : String) → Result RestConfig
  pub in_cluster_config : Result RestConfig
  -- os.ReadFile, and the decoder of the scheduler's scheme
  pub read_file : String → Result String
  pub decode : String → Result (Object × Kind)
  -- the scheduler's validation and its defaults
  pub validate_config : SchedulerConfig → Option String
  pub latest_default : Result SchedulerConfig
  pub recommended_debugging : Versioned
  pub set_defaults : Versioned → Versioned
  pub convert : Versioned → Result SchedulerConfig
  pub apply_to : SchedulerOptions → Result (Completed Client Broadcaster Factory)
  pub complete : Completed Client Broadcaster Factory → Completed Client Broadcaster Factory
  -- the two clients that NewSimpleClientset makes, and what is made with a client
  pub events_client : Client
  pub fake_client : Client
  pub new_event_broadcaster_adapter : Client → Broadcaster
  pub new_shared_informer_factory : Client → Factory

abbrev pub no_master : String
no_master = "failed to get master address from kubeconfig"

abbrev pub is_empty : String → Bool
is_empty s = s == ""

abbrev pub with_limits : RestConfig → RestConfig
with_limits cfg = record cfg { qps = default_qps; burst = default_burst }

abbrev pub empty_plugins : Plugins
empty_plugins = record {
  pre_bind = no_plugins;
  bind = no_plugins;
  post_bind = no_plugins;
  post_filter = no_plugins;
}

abbrev plugins_or_empty : Option Plugins → Plugins
plugins_or_empty none = empty_plugins
plugins_or_empty (some plugins) = plugins

abbrev as_simulator : Profile → Profile
as_simulator p = record {
  scheduler_name = scheduler_name;
  plugins = some (plugins_or_empty p.plugins);
}

-- The first profile is the simulator's; if there is none, one is made.
unfoldable pub inject : List Profile → List Profile
inject [] = as_simulator (record { scheduler_name = ""; plugins = none }) ∷ []
inject (p ∷ ps) = as_simulator p ∷ ps

abbrev pub options_of : SchedulerConfig → SchedulerOptions
options_of kcfg = record {
  component_config = record kcfg { profiles = inject kcfg.profiles };
  deprecated = false;
  secure_serving = false;
}

-- `if len(kcfg.ClientConnection.Kubeconfig) == 0 && len(kubeconfig) > 0`
unfoldable pub with_kubeconfig : String → SchedulerConfig → SchedulerConfig
with_kubeconfig kubeconfig kcfg =
    if is_empty kcfg.kubeconfig && not (is_empty kubeconfig)
    then record kcfg { kubeconfig = kubeconfig }
    else kcfg

module _ (packages : Packages) where
  open packages use {
    Client, Broadcaster, Factory, load_from_file, build_config_from_flags, in_cluster_config,
    read_file, decode, validate_config, latest_default, recommended_debugging, set_defaults,
    convert, apply_to, complete, events_client, fake_client, new_event_broadcaster_adapter,
    new_shared_informer_factory,
  }

  unfoldable pub get_master_from_kube_config : String → Result String
  get_master_from_kube_config filename = do
    config ← wrap "can not load kubeconfig file: " "" (load_from_file filename)
    context ← or_err no_master (lookup config.current_context config.contexts)
    cluster ← deref context
    val ← or_err no_master (lookup cluster config.clusters)
    deref val

  abbrev pub from_file : String → Result RestConfig
  from_file config = do
    master ← wrap "failed to parse kubeconfig file: " " " (get_master_from_kube_config config)
    cfg ← wrap "unable to build config: " "" (build_config_from_flags master config)
    ok (with_limits cfg)

  abbrev pub in_cluster : Result RestConfig
  in_cluster = do
    cfg ← wrap "unable to build in cluster config: " "" in_cluster_config
    ok (with_limits cfg)

  unfoldable pub build_rest_config : String → Result RestConfig
  build_rest_config config = if is_empty config then in_cluster else from_file config

  abbrev pub as_config : Object × Kind → Result SchedulerConfig
  as_config (scheduler_config cfg, gvk) = ok (record cfg { api_version = gvk.group_version })
  as_config (another, gvk) =
      err ("couldn't decode as KubeSchedulerConfiguration, got " <> (gvk.text <> ": "))

  unfoldable pub load_config : String → Result SchedulerConfig
  load_config data' = decode data' >>= as_config

  unfoldable pub load_config_from_file : String → Result SchedulerConfig
  unfolding load_config
  load_config_from_file file = read_file file >>= load_config

  -- A configuration that is nil is made of the defaults.
  unfoldable pub or_defaults : Option SchedulerConfig → Result SchedulerConfig
  or_defaults (some kcfg) = ok kcfg
  or_defaults none = convert (set_defaults recommended_debugging)

  abbrev pub FakeConfig : Type 0
  FakeConfig = Completed Client Broadcaster Factory

  abbrev pub faked : FakeConfig → FakeConfig
  faked cc = record cc {
    event_broadcaster = new_event_broadcaster_adapter events_client;
    client = fake_client;
    informer_factory = new_shared_informer_factory fake_client;
  }

  -- buildKubeSchedulerCompletedConfig
  unfoldable pub complete_config : Option SchedulerConfig → Result FakeConfig
  unfolding or_defaults
  complete_config maybe = do
    kcfg ← or_defaults maybe
    c ← wrap "unable to get scheduler kcfg: " "" (apply_to (options_of kcfg))
    ok (faked (complete c))

  abbrev pub valid_from_file : String → Result SchedulerConfig
  valid_from_file config = do
    cfg ← load_config_from_file config
    valid ← check (validate_config cfg)
    ok cfg

  abbrev pub source_config : String → Result SchedulerConfig
  source_config config = if is_empty config then latest_default else valid_from_file config

  unfoldable pub build_kube_scheduler_completed_config :
      (config kubeconfig : String) → Result FakeConfig
  unfolding complete_config with_kubeconfig
  build_kube_scheduler_completed_config config kubeconfig = do
    kcfg ← source_config config
    wrap "failed to init kube scheduler configuration: " " "
        (complete_config (some (with_kubeconfig kubeconfig kcfg)))
