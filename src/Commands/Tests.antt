-- ===== src/Commands/Tests.antt =====
-- Options of small examples.
use kluster_capacity.Base.{◌≡◌, ◌≢◌, ◌↔◌, ◌⊎◌, true, false, [], ◌∷◌, ◌<>◌, ◌==◌, if◌then◌else◌}
use kluster_capacity.Base.Monad.{ok, err}
use kluster_capacity.Config.Samples.{files}
use kluster_capacity.Samples.{pod_on}
use kluster_capacity.Commands.{System, Options, no_options, registered}
use kluster_capacity.Commands.Estimation.{
  CapacityEstimationOptions, new_capacity_estimation_options,
}
use kluster_capacity.Commands.Estimation
use kluster_capacity.Commands.Estimation.Spec.{Web, parse_api_spec}
use kluster_capacity.Commands.Estimation.Laws.{IsPods, parse_api_spec_iff}
use kluster_capacity.Commands.Simulation.{
  SchedulerSimulationOptions, new_scheduler_simulation_options,
}
use kluster_capacity.Commands.Simulation
use kluster_capacity.Commands.Compression.{new_cluster_compression_options, validate_options}
use kluster_capacity.Commands.Compression
use kluster_capacity.Commands.Laws.{validate-ce_iff, validate-ss_iff, no_flags-valid}

abbrev with_config : Options
with_config = record no_options { kube_config = "config" }

abbrev from_file : CapacityEstimationOptions
from_file = record {
  base = with_config;
  pods_from_template = "pod.yaml" ∷ [];
  pods_from_cluster = [];
}

validate-ce_iff_example : (Estimation.validate from_file ≡ ok tt) ↔ (
    (((from_file.pods_from_template ≢ []) × (from_file.pods_from_cluster ≡ []))
      ⊎ ((from_file.pods_from_template ≡ []) × (from_file.pods_from_cluster ≢ [])))
    × (from_file.base.kube_config ≢ ""))
validate-ce_iff_example = validate-ce_iff from_file

abbrev succeeding : SchedulerSimulationOptions
succeeding = record {
  base = with_config;
  source_from = "Cluster";
  exit_condition = "AllSucceed";
  ignore_pods_on_exclude_nodes = true;
}

validate-ss_iff_example : (Simulation.validate succeeding ≡ ok tt) ↔ (
    (succeeding.base.kube_config ≢ "")
    × ((succeeding.exit_condition ≡ "AllSucceed") ⊎ (succeeding.exit_condition ≡ "AllScheduled"))
    × (succeeding.source_from ≡ "Snapshot" → succeeding.base.snapshot ≢ ""))
validate-ss_iff_example = validate-ss_iff succeeding

abbrev home : System
home = record { getenv = λ name. ""; join = λ a b. b }

no_flags-valid_example :
    (Simulation.validate (
        Simulation.default_of home (
          registered
            (Simulation.add_flags new_scheduler_simulation_options)
            new_scheduler_simulation_options))
      ≡ ok tt)
    × (validate_options (
          Compression.default_of home (
            registered
              (Compression.add_flags new_cluster_compression_options)
              new_cluster_compression_options))
        ≡ ok tt)
    × (Estimation.validate (
          Estimation.Spec.default_of home (
            registered
              (Estimation.add_flags new_capacity_estimation_options)
              new_capacity_estimation_options))
        ≡ err "pod template file and pod from cluster both is missing")
no_flags-valid_example = no_flags-valid home (λ a h. cc h)

-- One file holds a pod.
abbrev one_file : Web
one_file = record {
  has_prefix = λ text prefix. false;
  get = λ url. err "offline";
  abs = λ path. "/" <> path;
  open_file = λ path. if path == "/pod.yaml" then ok "a" else err "no such file";
  quote = λ text. text;
  decode = λ text. ok (pod_on "" text);
  new_for_config = λ cfg. ok tt;
  get_pod = λ cfg ns name. err "not found";
}

parse_api_spec_iff_example :
    (parse_api_spec one_file files from_file [] ≡ (ok tt, pod_on "" "a" ∷ []))
    ↔ IsPods one_file files from_file (pod_on "" "a" ∷ [])
parse_api_spec_iff_example = parse_api_spec_iff one_file files from_file (pod_on "" "a" ∷ [])
