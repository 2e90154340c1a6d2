-- ===== src/Simulation/Executor.antt =====
-- NewSSSimulatorExecutor, and the method Report.
use kluster_capacity.Base.{String, List}
use kluster_capacity.Base.Dict.{Dict}
use kluster_capacity.Base.Monad.{Result, ok}
use kluster_capacity.Base.Outcome.{◌>>=◌}
use kluster_capacity.Kube.{Pod, Resource}
use kluster_capacity.Executor.{Builder, build_framework}
use kluster_capacity.Simulation.{Simulator, Hook, framework_options, no_pods}
use kluster_capacity.Simulation.Report.{SchedulerSimulationReview, generate_report}

-- What the constructor reads of the options.
pub record Choices : Type 0 where
  pub scheduler_config : String
  pub kube_config : String
  pub exclude_nodes : List String
  pub save_to : String
  pub exit_condition : String

unfoldable pub new_ss_simulator_executor :
    {W : Type 0} → Builder W Hook → Choices → Result (Simulator W)
unfolding build_framework
new_ss_simulator_executor b choices = do
  f ←
      build_framework b choices.scheduler_config choices.kube_config
        (framework_options choices.exclude_nodes choices.save_to)
  ok (record { framework = f; exit_condition = choices.exit_condition; tracker = no_pods })

unfoldable pub report :
    {W : Type 0}
    → (Pod → Resource)
    → (Dict (List Pod) → Dict (List Pod))
    → Simulator W
    → SchedulerSimulationReview
unfolding generate_report
report compute range s = generate_report compute range s.framework.status
