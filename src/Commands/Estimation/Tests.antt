-- ===== src/Commands/Estimation/Tests.antt =====
-- A run of the command ce on two files of pods.
use kluster_capacity.Base.{
  ℕ, suc, zero, ◌≡◌, refl, ap, ◌∙◌, ◌<>◌, false, List, [], ◌∷◌, map, some, get_elem?,
}
use kluster_capacity.Base.Monad.{ok, err}
use kluster_capacity.Base.Text.{show_nat, split}
use mathlib.Core.Option.{some-injective}
use kluster_capacity.Base.Int.{pos}
use kluster_capacity.Kube.{Pod, no_resource}
use kluster_capacity.Config.Samples.{files}
use kluster_capacity.Env.Memory.{Store, memory}
use kluster_capacity.Framework.{start}
use kluster_capacity.Framework.Admission.{initialize, add_converted}
use kluster_capacity.Pods.{init_pod}
use kluster_capacity.StopReason.{newline, get_main_stop_reason}
use kluster_capacity.Commands.{no_options}
use kluster_capacity.Commands.Estimation.{CapacityEstimationOptions}
use kluster_capacity.Commands.Estimation.Spec.{
  Web, parse_api_spec, add_all, get_pod_from_template, run,
}
use kluster_capacity.Commands.Estimation.Table.{IsStarted, run-table}
use kluster_capacity.Estimation.{Simulator, create_next_pod, run_simulator, initialize_all}
use kluster_capacity.Estimation.Executor.{report}
use kluster_capacity.Estimation.Executor.Laws.{outcome, Reviewed, new_ce_simulator_executor-map}
use kluster_capacity.Estimation.Report.{Review, generate_report}
use kluster_capacity.Estimation.Report.Print.{Rows}
use kluster_capacity.Estimation.Samples.{
  first_error, first_error-WaitLaws, backwards, backwards-IsOrder, well, builder, limits, built,
  builds, plain, full,
}
use kluster_capacity.Samples.{pod_on}

-- A file holds a pod that has its name.
abbrev web : Web
web = record {
  has_prefix = λ text prefix. false;
  get = λ url. err "offline";
  abs = λ path. path;
  open_file = λ path. ok path;
  quote = λ text. text;
  decode = λ text. ok (pod_on "" text);
  new_for_config = λ cfg. err "offline";
  get_pod = λ cfg ns name. err "offline";
}

abbrev options : CapacityEstimationOptions
options = record {
  base = record no_options { kube_config = "config"; exclude_nodes = "n2" ∷ []; max_limit = 5 };
  pods_from_template = "c" ∷ "d" ∷ [];
  pods_from_cluster = [];
}

abbrev pods : List Pod
pods = pod_on "" "c" ∷ pod_on "" "d" ∷ []

abbrev started : List (Simulator Store)
started =
    map
      (λ p. record {
        framework = built;
        pod_generator = record { counter = 0; pod_template = p };
        simulated_pod = p;
        max_simulated = 5;
        simulated = 0;
      })
      pods

parsed : parse_api_spec web files options [] ≡ (ok tt, pods)
unfolding parse_api_spec add_all get_pod_from_template
parsed = refl

filled : initialize_all memory [] [] started ≡ (ok tt, started)
unfolding initialize_all initialize add_converted
filled = refl

options-IsStarted :
    IsStarted memory builder web []
      (λ p. no_resource)
      well
      first_error
      backwards
      plain
      options
      pods
      started
options-IsStarted =
    (parsed, started, new_ce_simulator_executor-map builder limits built builds pods, filled)

first_full : outcome memory (λ p. no_resource) well started 0 ≡ ok (full "c")
unfolding run_simulator report start create_next_pod init_pod generate_report show_nat
    get_main_stop_reason split
first_full = refl

second_full : outcome memory (λ p. no_resource) well started 1 ≡ ok (full "d")
unfolding run_simulator report start create_next_pod init_pod generate_report show_nat
    get_main_stop_reason split
second_full = refl

started-Reviewed : Reviewed memory (λ p. no_resource) well started (full "c" ∷ full "d" ∷ [])
started-Reviewed = record { size = refl; at = reviewed_at }
  where
    reviewed_at :
        (i : ℕ) (v : Review)
        → get_elem? (full "c" ∷ full "d" ∷ []) i ≡ some v
        → outcome memory (λ p. no_resource) well started i ≡ ok v
    reviewed_at zero v h = first_full ∙ ap ok (some-injective (full "c") v h)
    reviewed_at (suc zero) v h = second_full ∙ ap ok (some-injective (full "d") v h)
    reviewed_at (suc (suc i)) v h = cc h

run-table_example :
    (rows : Rows) × (run memory builder web []
        (λ p. no_resource)
        well
        first_error
        backwards
        plain
        options
        []
      ≡ (ok tt, (plain.render rows <> newline) ∷ []))
    × (map (λ row. row.1) rows ≡ pos 0 ∷ pos 0 ∷ [])
run-table_example =
    run-table memory builder web [] (λ p. no_resource) well first_error backwards plain
      first_error-WaitLaws options pods started [] refl refl options-IsStarted backwards-IsOrder
      (full "c" ∷ full "d" ∷ []) started-Reviewed (λ req. (req.pod_name, refl))
