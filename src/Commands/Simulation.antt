-- ===== src/Commands/Simulation.antt =====
-- The command ss: its options, flags and run.
use kluster_capacity.Base.{String, Bool, true, false, not, ◌&&◌, List, [], ◌∷◌, ◌==◌, if◌then◌else◌}
use kluster_capacity.Base.Monad.{Result, ok, err, panic, stuck, Action, ◌>>=◌, lift}
use kluster_capacity.Base.Outcome.{wrap}
use kluster_capacity.Kube.{Pod, Object, Resource}
use kluster_capacity.Env.{Env}
use kluster_capacity.Executor.{Builder, through}
use kluster_capacity.Framework.Admission.{initialize}
use kluster_capacity.Print.{Output, Encoders}
use kluster_capacity.Simulation.{
  Simulator, Hook, run_simulator, exit_when_all_scheduled, exit_when_all_succeed,
}
use kluster_capacity.Simulation.Executor.{Choices, new_ss_simulator_executor, report}
use kluster_capacity.Simulation.Report.{SchedulerSimulationReview}
use kluster_capacity.Simulation.Report.Print.{print_review}
use kluster_capacity.Commands.{
  System, Options, no_options, default, Flag, flag, flag_p, string_var, string_slice_var, bool_var,
  run_e,
}

abbrev pub from_cluster : String
from_cluster = "Cluster"

abbrev pub from_snapshot : String
from_snapshot = "Snapshot"

pub record SchedulerSimulationOptions : Type 0 where
  pub base : Options
  pub source_from : String
  pub exit_condition : String
  pub ignore_pods_on_exclude_nodes : Bool

abbrev pub new_scheduler_simulation_options : SchedulerSimulationOptions
new_scheduler_simulation_options = record {
  base = no_options;
  source_from = "";
  exit_condition = "";
  ignore_pods_on_exclude_nodes = false;
}

abbrev in_base : (Options → Options) → SchedulerSimulationOptions → SchedulerSimulationOptions
in_base f o = record o { base = f o.base }

unfoldable pub add_flags : SchedulerSimulationOptions → List (Flag SchedulerSimulationOptions)
add_flags s =
    flag "kubeconfig"
      (string_var s.base.kube_config (λ v. in_base (λ o. record o { kube_config = v })))
    ∷ flag "schedulerconfig"
        (string_var s.base.scheduler_config (λ v. in_base (λ o. record o { scheduler_config = v })))
    ∷ flag_p "output" "o"
        (string_var s.base.output_format (λ v. in_base (λ o. record o { output_format = v })))
    ∷ flag "exclude-nodes"
        (string_slice_var s.base.exclude_nodes (λ v. in_base (λ o. record o { exclude_nodes = v })))
    ∷ flag_p "ignore-pods-on-excludes-nodes" "i"
        (bool_var true (λ v o. record o { ignore_pods_on_exclude_nodes = v }))
    ∷ flag "snapshot" (string_var s.base.snapshot (λ v. in_base (λ o. record o { snapshot = v })))
    ∷ flag "source-from" (string_var "Cluster" (λ v o. record o { source_from = v }))
    ∷ flag "exit-condition" (string_var "AllSucceed" (λ v o. record o { exit_condition = v }))
    ∷ flag "verbose" (bool_var s.base.verbose (λ v. in_base (λ o. record o { verbose = v })))
    ∷ flag_p "save" "s" (string_var s.base.save_to (λ v. in_base (λ o. record o { save_to = v })))
    ∷ []

unfoldable pub validate : SchedulerSimulationOptions → Result (Unit {0})
validate opt =
    if opt.source_from == from_cluster && opt.base.kube_config == ""
    then err "kubeconfig must be specified when source-from is cluster"
    else if opt.source_from == from_snapshot && opt.base.snapshot == ""
    then err "snapshot must be specified when source-from is snapshot"
    else if not (opt.exit_condition == exit_when_all_succeed)
        && not (opt.exit_condition == exit_when_all_scheduled)
    then err "exit condition must be AllSucceed or AllScheduled"
    else if opt.base.kube_config == ""
    then err "kubeconfig is missing"
    else ok tt

abbrev choices_of : SchedulerSimulationOptions → Choices
choices_of opt = record {
  scheduler_config = opt.base.scheduler_config;
  kube_config = opt.base.kube_config;
  exclude_nodes = opt.base.exclude_nodes;
  save_to = opt.base.save_to;
  exit_condition = opt.exit_condition;
}

abbrev pub default_of : System → SchedulerSimulationOptions → SchedulerSimulationOptions
default_of system = in_base (default system)

-- `cluster` is what the running cluster holds, and `schedule` what the scheduler does. No initial objects are set.
module _ (e : Env) (b : Builder e.World Hook) (cluster : List (Result Object))
    (schedule : Action (Simulator e.World) (Unit {0})) (compute : Pod → Resource)
    (encoders : Encoders SchedulerSimulationReview) where
  open e use {World}

  abbrev initialize_simulator : Action (Simulator World) (Unit {0})
  initialize_simulator s =
      let (r, f) = initialize e cluster [] s.framework in (r, record s { framework = f })

  unfoldable pub run_ss_simulator : SchedulerSimulationOptions → Result SchedulerSimulationReview
  unfolding new_ss_simulator_executor initialize run_simulator report
  run_ss_simulator opt =
      let filled = through (new_ss_simulator_executor b (choices_of opt)) initialize_simulator in
      elim (through filled (run_simulator e schedule)) [
        | ok t ↦ ok (report compute (e.range (List Pod)) t)
        | err m ↦ err m
        | panic ↦ panic
        | stuck ↦ stuck
      ]

  abbrev print_wrapped :
      SchedulerSimulationOptions → SchedulerSimulationReview → Action Output (Unit {0})
  print_wrapped opt r out =
      let (q, out') = print_review encoders opt.base.verbose opt.base.output_format r out in
      (wrap "error while printing: " "" q, out')

  unfoldable pub run : SchedulerSimulationOptions → Action Output (Unit {0})
  unfolding run_ss_simulator print_review
  run opt = lift (run_ss_simulator opt) >>= print_wrapped opt

  -- NewSchedulerSimulationCmd
  unfoldable pub new_scheduler_simulation_cmd :
      System → SchedulerSimulationOptions → Action Output (Unit {0})
  unfolding run run_e validate default
  new_scheduler_simulation_cmd system = run_e system default_of validate run
