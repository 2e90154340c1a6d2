-- ===== src/Commands/Compression/Lines.antt =====
-- A run of the command cc from its options to the lines that it prints.
use kluster_capacity.Base.{
  ℕ, ◌≡◌, ◌≢◌, refl, sym, ap, ◌∙◌, subst, ◌<>◌, false, List, [], ◌++◌, map, All,
}
use kluster_capacity.Base.Monad.{Result, ok, ok-injective}
use kluster_capacity.Base.Outcome.{>>=-eq-ok}
use kluster_capacity.Kube.{Object}
use kluster_capacity.Env.{Env}
use kluster_capacity.Env.Laws.{NodeLaws}
use kluster_capacity.Executor.{Builder, build_framework}
use kluster_capacity.Executor.Laws.{build_framework-status}
use kluster_capacity.Framework.{Framework}
use kluster_capacity.Framework.Admission.{initialize}
use kluster_capacity.Framework.Admission.Laws.{initialize-SameStatus}
use kluster_capacity.Print.{Output, Encoders}
use kluster_capacity.Status.{Status}
use kluster_capacity.StopReason.{StopReason, newline, get_main_stop_reason}
use kluster_capacity.Commands.Compression.{
  ClusterCompressionOptions, choices_of, run_cc_simulator, run,
}
use kluster_capacity.Compression.Executor.{
  framework_options, new_selector, new_cc_simulator_executor, run_simulator, report,
}
use kluster_capacity.Compression.Once.Nodes.{Sound}
use kluster_capacity.Compression.Once.Run.{IsFirst, IsReport, run_simulator-reports_once}
use kluster_capacity.Compression.Progress.{scaled}
use kluster_capacity.Compression.Report.{ReviewStatus, get_review_status}
use kluster_capacity.Compression.Report.Print.Laws.{print_review-names}
use kluster_capacity.Compression.Runs.{LeavesNodes, Step, take_steps}
use kluster_capacity.Compression.Select.Queue.{pending}
use kluster_capacity.Compression.Simulator.{Simulator, Hook}

module _ (e : Env) (laws : NodeLaws e) (b : Builder e.World Hook) (cluster : List (Result Object))
    (fuel : ℕ) (steps : List (Step e.World)) (encoders : Encoders ReviewStatus) where
  open e use {World}
  open laws use {nodes}

  abbrev filled_with : Simulator World → Framework World Hook → Simulator World
  filled_with s f = record s { framework = f }

  -- A run whose simulator is made, is filled with nodes that have labels and names of their own, and runs to its end.
  pub record IsRun (opt : ClusterCompressionOptions) (t : Simulator World) : Type 0 where
    pub simulator : Simulator World
    pub filled : Framework World Hook
    pub made : new_cc_simulator_executor b (choices_of opt) ≡ ok simulator
    pub fills : initialize e cluster [] simulator.framework ≡ (ok tt, filled)
    pub sound : Sound (nodes filled.world)
    pub runs :
        run_simulator e fuel (take_steps e fuel steps) (filled_with simulator filled) ≡ (ok tt, t)

  new_cc_simulator_executor-new :
      (opt : ClusterCompressionOptions) (s : Simulator World)
      → new_cc_simulator_executor b (choices_of opt) ≡ ok s
      → (scaled s ≡ []) × (pending s.selector ≡ []) × (s.created_pods ≡ [])
  unfolding new_cc_simulator_executor
  new_cc_simulator_executor-new opt s h =
      let choices = choices_of opt in
      let (f, built, same) =
        >>=-eq-ok
          (build_framework b choices.scheduler_config choices.kube_config
            (framework_options choices.exclude_nodes))
          (λ f. ok (record {
            framework = f;
            max_simulated = choices.max_limit;
            simulated = 0;
            created_pods = [];
            create_pod_index = 0;
            current_node = "";
            current_node_unschedulable = false;
            bind_success_pod_count = 0;
            selector = new_selector;
            excluded = choices.exclude_nodes;
            filter_options = choices.filter_node_options;
          }))
          h in
      let here = sym (ok-injective same) in
      (
        ap scaled here
            ∙ ap (λ (k : Status). k.nodes_to_scale_down)
                (build_framework-status b choices.scheduler_config choices.kube_config
                  (framework_options choices.exclude_nodes) f built),
        ap (λ (k : Simulator World). pending k.selector) here,
        ap (λ (k : Simulator World). k.created_pods) here,
      )

  run-IsFirst :
      (opt : ClusterCompressionOptions) (t : Simulator World) (r : IsRun opt t)
      → IsFirst e laws (filled_with r.simulator r.filled)
  run-IsFirst opt t r =
      let (reported, waits, created) = new_cc_simulator_executor-new opt r.simulator r.made in
      let kept =
        sym (ap (λ (x : Result (Unit {0}) × Framework World Hook). x.1.status) r.fills)
        ∙ initialize-SameStatus e cluster r.simulator.framework in
      record {
        sound = r.sound;
        none_reported = ap (λ (k : Status). k.nodes_to_scale_down) kept ∙ reported;
        none_waits = waits;
        none_created = created;
      }

  reviewed : Simulator World → StopReason → ReviewStatus
  reviewed t reason = record {
    stop_reason = reason;
    scale_down_node_names = scaled t;
    select_node_count = t.framework.status.select_node_count;
    scheduler_count = t.framework.status.scheduler_count;
    failed_scheduler_count = t.framework.status.failed_scheduler_count;
  }

  report-ok :
      (t : Simulator World) (reason : StopReason)
      → get_main_stop_reason t.framework.status.stop_reason ≡ ok reason
      → report t ≡ ok (reviewed t reason)
  unfolding report get_review_status reviewed
  report-ok t reason h = rw h refl

  run_cc_simulator-ok :
      (opt : ClusterCompressionOptions) (t : Simulator World) (reason : StopReason)
      (r : IsRun opt t)
      → get_main_stop_reason t.framework.status.stop_reason ≡ ok reason
      → run_cc_simulator e b cluster fuel (take_steps e fuel steps) encoders opt
        ≡ ok (reviewed t reason)
  unfolding run_cc_simulator
  run_cc_simulator-ok opt t reason r h =
      rw (r.made, r.fills, r.runs, report-ok t reason h, run_cc_simulator) refl

  -- A run of cc without a format and not in verbose mode. Its simulator is made and filled, with nodes that have labels and
  -- names of their own, the scheduler leaves the nodes alone, and the run ends with a reason that has a type and with nodes
  -- that can be scaled down. Then it prints the names of these nodes, each on a line, and nothing else; no name is
  -- printed twice, and each is that of a node which is there and has the label of success.
  pub run-lines :
      (opt : ClusterCompressionOptions) (t : Simulator World) (reason : StopReason) (out : Output)
      → opt.base.verbose ≡ false
      → opt.base.output_format ≢ "json"
      → All (LeavesNodes e laws) steps
      → IsRun opt t
      → get_main_stop_reason t.framework.status.stop_reason ≡ ok reason
      → scaled t ≢ []
      → (run e b cluster fuel (take_steps e fuel steps) encoders opt out
          ≡ (ok tt, out ++ map (λ name. name <> newline) (scaled t)))
        × IsReport e laws t
  unfolding run reviewed
  run-lines opt t reason out quiet format leaves r parsed some' =
      let lines =
        print_review-names encoders opt.base.output_format (reviewed t reason) out format some' in
      (
        rw (run_cc_simulator-ok opt t reason r parsed, quiet, lines) refl,
        subst (λ (x : Result (Unit {0}) × Simulator World). IsReport e laws x.1) r.runs
            (run_simulator-reports_once e laws fuel steps (filled_with r.simulator r.filled)
              (run-IsFirst opt t r) leaves),
      )
