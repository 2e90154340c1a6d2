-- ===== src/Estimation/Executor/Tests.antt =====
-- Two simulators at the same time, and what is printed of them.
use kluster_capacity.Base.{ℕ, zero, suc, ◌≡◌, refl, ap, ◌∙◌, List, [], ◌∷◌, Option, some, get_elem?}
use mathlib.Core.Option.{some-injective}
use kluster_capacity.Base.Text.{show_nat}
use kluster_capacity.Base.Monad.{Result, ok, Action}
use kluster_capacity.Kube.{no_resource}
use kluster_capacity.Env.Memory.{Store, memory}
use kluster_capacity.Framework.{start}
use kluster_capacity.Estimation.{Simulator, new_simulator, framework_options, run_simulator}
use kluster_capacity.Base.Text.{split}
use kluster_capacity.StopReason.{get_main_stop_reason}
use kluster_capacity.Pods.{init_pod}
use kluster_capacity.Estimation.{create_next_pod}
use kluster_capacity.Estimation.Executor.{report}
use kluster_capacity.Estimation.Report.{generate_report}
use kluster_capacity.Estimation.Executor.{run_all}
use kluster_capacity.Estimation.Executor.Laws.{outcome, Reviewed, run_all-reports}
use kluster_capacity.Estimation.Samples.{
  first_error, first_error-WaitLaws, backwards, backwards-IsOrder, well, full,
}
use kluster_capacity.Estimation.Report.{Review}
use kluster_capacity.Samples.{pod_on, two_nodes}

abbrev both : List (Simulator Store)
both =
    new_simulator (start two_nodes (framework_options [])) 0 (pod_on "" "c")
    ∷ new_simulator (start two_nodes (framework_options [])) 0 (pod_on "" "d")
    ∷ []

abbrev run_both : (ℕ → Action (Simulator Store) (Unit {0})) → Result (List (Option Review))
run_both schedule = run_all memory (λ p. no_resource) schedule first_error backwards both

-- Where the runs come to.
abbrev reached : (ℕ → Action (Simulator Store) (Unit {0})) → ℕ → Result Review
reached schedule i = outcome memory (λ p. no_resource) schedule both i

first_full : reached well 0 ≡ ok (full "c")
unfolding run_simulator report start new_simulator create_next_pod init_pod generate_report show_nat
    get_main_stop_reason split
first_full = refl

second_full : reached well 1 ≡ ok (full "d")
unfolding run_simulator report start new_simulator create_next_pod init_pod generate_report show_nat
    get_main_stop_reason split
second_full = refl

both-Reviewed : Reviewed memory (λ p. no_resource) well both (full "c" ∷ full "d" ∷ [])
both-Reviewed = record { size = refl; at = reviewed_at }
  where
    reviewed_at :
        (i : ℕ) (v : Review)
        → get_elem? (full "c" ∷ full "d" ∷ []) i ≡ some v
        → reached well i ≡ ok v
    reviewed_at zero v h = first_full ∙ ap ok (some-injective (full "c") v h)
    reviewed_at (suc zero) v h = second_full ∙ ap ok (some-injective (full "d") v h)
    reviewed_at (suc (suc i)) v h = cc h

run_all-reports_example : run_both well ≡ ok (some (full "c") ∷ some (full "d") ∷ [])
run_all-reports_example =
    run_all-reports memory (λ p. no_resource) well first_error first_error-WaitLaws backwards both
      backwards-IsOrder (full "c" ∷ full "d" ∷ []) both-Reviewed
