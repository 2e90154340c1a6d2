-- ===== src/Commands/Compression/Tests.antt =====
-- A run of the command cc on two nodes, of which one has a pod.
use kluster_capacity.Base.{◌≡◌, refl, sym, subst, false, List, [], ◌∷◌, ◌++◌, map, ◌<>◌, some}
use kluster_capacity.Base.Monad.{ok, err}
use kluster_capacity.Base.Int.{show_int}
use kluster_capacity.Base.Text.{show_nat, split}
use kluster_capacity.Config.{inject, with_kubeconfig, get_master_from_kube_config}
use kluster_capacity.Config.Samples.{files}
use kluster_capacity.Env.Memory.{Store, memory}
use kluster_capacity.Env.Memory.Laws.{memory-NodeLaws, nodes-memory}
use kluster_capacity.Executor.{Builder, build_framework}
use kluster_capacity.Framework.{Framework, start}
use kluster_capacity.Framework.Admission.{initialize, add_converted}
use kluster_capacity.Framework.Scheduler.{generic_name}
use kluster_capacity.Print.{Encoders}
use kluster_capacity.StopReason.{StopReason, newline, get_main_stop_reason}
use kluster_capacity.Samples.{pod_on, node_of_name}
use kluster_capacity.Watch.{bound}
use kluster_capacity.Commands.{no_options}
use kluster_capacity.Commands.Compression.{ClusterCompressionOptions, choices_of, run}
use kluster_capacity.Commands.Compression.Lines.{IsRun, run-lines}
use kluster_capacity.Framework.Control.{stop}
use kluster_capacity.Pods.{is_daemonset_pod, init_pod}
use kluster_capacity.Compression.Filter.{text, build_filter_func, default_filter, check_pods}
use kluster_capacity.Compression.Select.{select_node, convert_filter_statuses}
use kluster_capacity.Compression.Executor.{
  framework_options, new_selector, new_cc_simulator_executor, run_simulator,
}
use kluster_capacity.Compression.Once.Nodes.{Sound}
use kluster_capacity.Compression.Once.Run.{IsReport}
use kluster_capacity.Compression.Progress.{scaled}
use kluster_capacity.Compression.Report.{ReviewStatus}
use kluster_capacity.Compression.Runs.{Step, handled, take_steps}
use kluster_capacity.Compression.Samples.{ignore_nothing, created}
use kluster_capacity.Compression.Simulator.{Simulator, Hook}

abbrev one_pod : Store
one_pod = record { pods = pod_on "n1" "a" ∷ []; nodes = node_of_name "n1" ∷ node_of_name "n2" ∷ [] }

abbrev builder : Builder Store Hook
builder = record {
  packages = files;
  new_world = λ cc. one_pod;
  rest_mapper = λ rest. ok tt;
  register = λ names name. ok (name ∷ names);
  scheduler = λ f plugins. ok tt;
}

abbrev options : ClusterCompressionOptions
options = record {
  base = record no_options { kube_config = "config" };
  filter_node_options = ignore_nothing;
}

abbrev plain_encoders : Encoders ReviewStatus
plain_encoders = record {
  marshal_json = λ r. err "no json";
  marshal_yaml = λ r. err "no yaml";
  quote = λ text. text;
}

abbrev built : Framework Store Hook
built = record (start one_pod (framework_options [])) {
  settings = record ((start one_pod (framework_options [])).settings) {
    out_of_tree_registry = some (generic_name ∷ []);
  };
}

abbrev made : Simulator Store
made = record {
  framework = built;
  max_simulated = 0;
  simulated = 0;
  created_pods = [];
  create_pod_index = 0;
  current_node = "";
  current_node_unschedulable = false;
  bind_success_pod_count = 0;
  selector = new_selector;
  excluded = [];
  filter_options = ignore_nothing;
}

makes : new_cc_simulator_executor builder (choices_of options) ≡ ok made
unfolding new_cc_simulator_executor build_framework start inject with_kubeconfig
    get_master_from_kube_config
makes = refl

-- The plugin is called for the pod, which has been created again.
abbrev steps : List (Step Store)
steps = handled (bound (created (pod_on "n2" "a"))) ∷ []

abbrev ended : Simulator Store
ended = (run_simulator memory 9 (take_steps memory 9 steps) made).1

ends : run_simulator memory 9 (take_steps memory 9 steps) made ≡ (ok tt, ended)
unfolding run_simulator take_steps start select_node build_filter_func default_filter check_pods
    is_daemonset_pod init_pod convert_filter_statuses stop
ends = refl

reports : scaled ended ≡ "n1" ∷ []
unfolding run_simulator take_steps start select_node build_filter_func default_filter check_pods
    is_daemonset_pod init_pod convert_filter_statuses stop
reports = refl

-- No other node can be selected.
abbrev reason : StopReason
reason = record {
  stop_type = "FailedSelectNode";
  stop_message =
      "could not find a node that satisfies the condition, "
      <> ("1 node(s) has been successfully scale down; " <> "1 node(s) have unknown error;");
}

stopped_for : get_main_stop_reason ended.framework.status.stop_reason ≡ ok reason
unfolding run_simulator take_steps start select_node build_filter_func default_filter check_pods
    is_daemonset_pod init_pod convert_filter_statuses stop text show_int show_nat
    get_main_stop_reason split
stopped_for = refl

fills : initialize memory [] [] built ≡ (ok tt, built)
unfolding initialize add_converted
fills = refl

built-nodes : memory-NodeLaws.nodes built.world ≡ one_pod.nodes
unfolding start
built-nodes = nodes-memory one_pod

options-IsRun : IsRun memory memory-NodeLaws builder [] 9 steps plain_encoders options ended
options-IsRun = record {
  simulator = made;
  filled = built;
  made = makes;
  fills = fills;
  sound = subst Sound (sym built-nodes) ((refl, (refl, tt)), (refl, (refl, tt)));
  runs = ends;
}

run-lines_example :
    (run memory builder [] 9 (take_steps memory 9 steps) plain_encoders options []
      ≡ (ok tt, [] ++ map (λ name. name <> newline) (scaled ended)))
    × IsReport memory memory-NodeLaws ended
run-lines_example =
    run-lines memory memory-NodeLaws builder [] 9 steps plain_encoders options ended reason [] refl
      (λ h. cc h) (tt, tt) options-IsRun stopped_for (λ h. cc (h, reports))
