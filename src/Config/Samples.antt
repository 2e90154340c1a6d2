-- ===== src/Config/Samples.antt =====
-- A small set of files, and packages that read it.
use kluster_capacity.Base.{ℕ, [], ◌∷◌, some, none, ◌==◌, if◌then◌else◌}
use kluster_capacity.Base.Monad.{ok, err}
use kluster_capacity.Config.{Packages, KubeConfig, SchedulerConfig}

abbrev pub home : KubeConfig
home = record {
  current_context = "dev";
  contexts = ("dev", some "east") ∷ [];
  clusters = ("east", some "https://east") ∷ [];
}

abbrev pub plain : SchedulerConfig
plain = record { api_version = "v1"; kubeconfig = ""; profiles = [] }

-- Clients are numbers, and what is made with a client is the client.
abbrev pub files : Packages
files = record {
  Client = ℕ;
  Broadcaster = ℕ;
  Factory = ℕ;
  Versioned = SchedulerConfig;
  load_from_file = λ path. if path == "config" then ok home else err "no such file";
  build_config_from_flags = λ master path. ok (record { host = master; qps = 5; burst = 10 });
  in_cluster_config = err "not in a cluster";
  read_file = λ path. err "no such file";
  decode = λ text. err "no kind";
  validate_config = λ c. none;
  latest_default = ok plain;
  recommended_debugging = plain;
  set_defaults = λ c. c;
  convert = λ c. ok c;
  apply_to = λ o. ok (record {
    component_config = o.component_config;
    event_broadcaster = 0;
    client = 0;
    informer_factory = 0;
  });
  complete = λ c. c;
  events_client = 1;
  fake_client = 2;
  new_event_broadcaster_adapter = λ c. c;
  new_shared_informer_factory = λ c. c;
}
