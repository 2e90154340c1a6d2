-- ===== src/Commands/Compression.antt =====
-- The command cc: its options, flags and run.
pub mod Lines
mod Tests
use kluster_capacity.Base.{ℕ, true, false, List, [], ◌∷◌, ◌==◌, if◌then◌else◌}
use kluster_capacity.Base.Monad.{Result, ok, err, panic, stuck, Action, ◌>>=◌, lift}
use kluster_capacity.Base.Outcome.{wrap}
use kluster_capacity.Kube.{Object}
use kluster_capacity.Env.{Env}
use kluster_capacity.Executor.{Builder, through}
use kluster_capacity.Framework.Admission.{initialize}
use kluster_capacity.Print.{Output, Encoders}
use kluster_capacity.Compression.Filter.{FilterNodeOptions}
use kluster_capacity.Compression.Report.{ReviewStatus}
use kluster_capacity.Compression.Report.Print.{print_review}
use kluster_capacity.Compression.Simulator.{Simulator, Hook, on_framework}
use kluster_capacity.Compression.Executor.{
  Choices, new_cc_simulator_executor, run_simulator, report,
}
use kluster_capacity.Commands.{
  System, Options, no_options, default, Flag, flag, flag_p, string_var, string_slice_var, bool_var,
  int_var, run_e,
}

pub record ClusterCompressionOptions : Type 0 where
  pub base : Options
  pub filter_node_options : FilterNodeOptions

abbrev pub new_cluster_compression_options : ClusterCompressionOptions
new_cluster_compression_options = record {
  base = no_options;
  filter_node_options = record {
    exclude_taint_node = false;
    exclude_not_ready_node = false;
    ignore_static_pod = false;
    ignore_mirror_pod = false;
    ignore_clone_set = false;
    ignore_volume_pod = false;
  };
}

abbrev in_base : (Options → Options) → ClusterCompressionOptions → ClusterCompressionOptions
in_base f o = record o { base = f o.base }

abbrev in_filter :
    (FilterNodeOptions → FilterNodeOptions) → ClusterCompressionOptions → ClusterCompressionOptions
in_filter f o = record o { filter_node_options = f o.filter_node_options }

unfoldable pub add_flags : ClusterCompressionOptions → List (Flag ClusterCompressionOptions)
add_flags s =
    flag "kubeconfig"
      (string_var s.base.kube_config (λ v. in_base (λ o. record o { kube_config = v })))
    ∷ flag_p "output" "o"
        (string_var s.base.output_format (λ v. in_base (λ o. record o { output_format = v })))
    ∷ flag "schedulerconfig"
        (string_var s.base.scheduler_config (λ v. in_base (λ o. record o { scheduler_config = v })))
    ∷ flag "max-limit" (int_var 0 (λ v. in_base (λ o. record o { max_limit = v })))
    ∷ flag "exclude-taint-node"
        (bool_var true (λ v. in_filter (λ f. record f { exclude_taint_node = v })))
    ∷ flag "exclude-not-ready-node"
        (bool_var true (λ v. in_filter (λ f. record f { exclude_not_ready_node = v })))
    ∷ flag "ignore-static-pod"
        (bool_var false (λ v. in_filter (λ f. record f { ignore_static_pod = v })))
    ∷ flag "ignore-mirror-pod"
        (bool_var false (λ v. in_filter (λ f. record f { ignore_mirror_pod = v })))
    ∷ flag "ignore-cloneset"
        (bool_var false (λ v. in_filter (λ f. record f { ignore_clone_set = v })))
    ∷ flag "ignore-volume-pod"
        (bool_var false (λ v. in_filter (λ f. record f { ignore_volume_pod = v })))
    ∷ flag "exclude-nodes"
        (string_slice_var s.base.exclude_nodes (λ v. in_base (λ o. record o { exclude_nodes = v })))
    ∷ flag "verbose" (bool_var s.base.verbose (λ v. in_base (λ o. record o { verbose = v })))
    ∷ []

unfoldable pub validate_options : ClusterCompressionOptions → Result (Unit {0})
validate_options opt = if opt.base.kube_config == "" then err "kubeconfig is missing" else ok tt

abbrev pub choices_of : ClusterCompressionOptions → Choices
choices_of opt = record {
  scheduler_config = opt.base.scheduler_config;
  kube_config = opt.base.kube_config;
  exclude_nodes = opt.base.exclude_nodes;
  max_limit = opt.base.max_limit;
  filter_node_options = opt.filter_node_options;
}

abbrev pub default_of : System → ClusterCompressionOptions → ClusterCompressionOptions
default_of system = in_base (default system)

-- `cluster` is what the running cluster holds, and `schedule` what the scheduler does.
module _ (e : Env) (b : Builder e.World Hook) (cluster : List (Result Object)) (fuel : ℕ)
    (schedule : Action (Simulator e.World) (Unit {0})) (encoders : Encoders ReviewStatus) where
  unfoldable pub run_cc_simulator : ClusterCompressionOptions → Result ReviewStatus
  unfolding new_cc_simulator_executor initialize run_simulator report
  run_cc_simulator opt =
      let s = new_cc_simulator_executor b (choices_of opt) in
      let filled = through s (on_framework e (initialize e cluster [])) in
      elim (through filled (run_simulator e fuel schedule)) [
        | ok t ↦ report t
        | err m ↦ err m
        | panic ↦ panic
        | stuck ↦ stuck
      ]

  abbrev pub print_wrapped : ClusterCompressionOptions → ReviewStatus → Action Output (Unit {0})
  print_wrapped opt r out =
      let (q, out') = print_review encoders opt.base.verbose opt.base.output_format r out in
      (wrap "error while printing: " "\n" q, out')

  unfoldable pub run : ClusterCompressionOptions → Action Output (Unit {0})
  unfolding run_cc_simulator print_review
  run opt = lift (run_cc_simulator opt) >>= print_wrapped opt

  -- NewClusterCompressionCmd
  unfoldable pub new_cluster_compression_cmd :
      System → ClusterCompressionOptions → Action Output (Unit {0})
  unfolding run run_e validate_options default
  new_cluster_compression_cmd system = run_e system default_of validate_options run
