-- ===== src/Compression/Executor.antt =====
-- NewCCSimulatorExecutor, and the methods Run and Report.
use kluster_capacity.Base.{ℕ, String, List, [], ◌∷◌, some, false}
use kluster_capacity.Base.Monad.{Result, ok, Action}
use kluster_capacity.Base.Outcome.{◌>>=◌}
use kluster_capacity.Env.{Env}
use kluster_capacity.Executor.{Builder, build_framework}
use kluster_capacity.Framework.{Settings, with_exclude_nodes, with_post_bind_hook}
use kluster_capacity.Framework.Control.{run}
use kluster_capacity.Compression.Filter.{FilterNodeOptions}
use kluster_capacity.Compression.Report.{ReviewStatus, get_review_status}
use kluster_capacity.Compression.Select.{NodeSelector}
use kluster_capacity.Compression.Simulator.{
  Simulator, Hook, post_bind_hook_of, select_next_node, stop_simulator,
}

-- What the constructor reads of the options.
pub record Choices : Type 0 where
  pub scheduler_config : String
  pub kube_config : String
  pub exclude_nodes : List String
  pub max_limit : ℕ
  pub filter_node_options : FilterNodeOptions

abbrev pub framework_options : {W : Type 0} → List String → List (Settings W Hook → Settings W Hook)
framework_options exclude = with_exclude_nodes exclude ∷ with_post_bind_hook post_bind_hook_of ∷ []

-- `&singleNodeFilter{…}`
abbrev pub new_selector : NodeSelector
new_selector = record { selected_count = 0; candidate_node = []; candidate_index = 0 }

unfoldable pub new_cc_simulator_executor :
    {W : Type 0} → Builder W Hook → Choices → Result (Simulator W)
unfolding build_framework
new_cc_simulator_executor b choices = do
  f ←
      build_framework b choices.scheduler_config choices.kube_config
        (framework_options choices.exclude_nodes)
  ok (record {
    framework = f;
    max_simulated = choices.max_limit;
    simulated = 0;
    created_pods = [];
    create_pod_index = 0;
    current_node = "";
    current_node_unschedulable = false;
    bind_success_pod_count = 0;
    selector = new_selector;
    excluded = choices.exclude_nodes;
    filter_options = choices.filter_node_options;
  })

-- `s.Framework.Run(s.selectNextNode)`, where `schedule` is what the scheduler does.
unfoldable pub run_simulator :
    (e : Env) (fuel : ℕ)
    → Action (Simulator e.World) (Unit {0})
    → Action (Simulator e.World) (Unit {0})
unfolding run select_next_node stop_simulator
run_simulator e fuel schedule =
    run (λ s. s.framework.stop_ch) (stop_simulator e) schedule (some (select_next_node e fuel))

unfoldable pub report : {W : Type 0} → Simulator W → Result ReviewStatus
unfolding get_review_status
report s = get_review_status s.framework.status
