-- ===== src/Estimation/Tests.antt =====
-- Runs of the estimation.
use kluster_capacity.Base.{◌≢◌, arith, ◌≡◌, refl, false, String, Bool, List, [], ◌∷◌}
use kluster_capacity.Base.Text.{show_nat}
use kluster_capacity.Base.Monad.{ok}
use kluster_capacity.Pods.{init_pod}
use kluster_capacity.Status.{Status, empty_status}
use kluster_capacity.Env.Memory.{Store, memory}
use kluster_capacity.Framework.{start}
use kluster_capacity.Framework.Control.{stop}
use kluster_capacity.Estimation.{
  Simulator, new_simulator, framework_options, create_next_pod, post_bind_hook,
}
use kluster_capacity.Estimation.Names.{generated, generated-names_differ}
use kluster_capacity.Estimation.Limit.{IsWaiting, IsFull, binds, binds-IsFull}
use kluster_capacity.Base.{none, ◌⊎◌, ◌<◌, ◌≤◌, ◌^◌}
use kluster_capacity.Base.Int.{pos}
use kluster_capacity.Base.Text.{split, cut, trim}
use kluster_capacity.Kube.{no_resource}
use kluster_capacity.StopReason.{get_main_stop_reason}
use kluster_capacity.Estimation.Report.Replicas.{generate_report-replicas}
use kluster_capacity.Estimation.Report.{
  Review, ReplicasOnNode, generate_report, instances_sum, to_int32, ReviewResult, parse_pods_review,
}
use kluster_capacity.Estimation.Report.Counts.{total_on, pods_on, parse_pods_review-total}
use kluster_capacity.Samples.{pod_on, two_nodes}

-- Two copies of a pod are asked for, and the first has been created.
abbrev waiting : Simulator Store
waiting =
    (create_next_pod memory
      (new_simulator (start two_nodes (framework_options [])) 2 (pod_on "" "c"))).1

waiting-IsWaiting : IsWaiting waiting
unfolding create_next_pod new_simulator start init_pod
waiting-IsWaiting = record {
  counted = refl;
  running = refl;
  consistent = record { stop_ch = refl; informer_ch = refl; scheduler_ch = refl };
}

abbrev after_one : Simulator Store
after_one = (binds memory (pod_on "n1" "c-0" ∷ []) waiting).1

abbrev after_two : Simulator Store
after_two = (post_bind_hook memory (pod_on "n2" "c-1") after_one).1

binds-after_one : binds memory (pod_on "n1" "c-0" ∷ []) waiting ≡ (ok tt, after_one)
unfolding post_bind_hook create_next_pod new_simulator start init_pod show_nat
binds-after_one = refl

hook-after_two : post_bind_hook memory (pod_on "n2" "c-1") after_one ≡ (ok tt, after_two)
unfolding post_bind_hook create_next_pod new_simulator start init_pod show_nat stop
hook-after_two = refl

limit-waiting : waiting.max_simulated ≡ 2
unfolding create_next_pod new_simulator start init_pod
limit-waiting = refl

binds-IsFull_example :
    (after_one.framework.stopped ≡ false)
    × IsFull memory (pod_on "n1" "c-0" ∷ pod_on "n2" "c-1" ∷ []) 2 after_two
unfolding create_next_pod new_simulator start init_pod
binds-IsFull_example =
    binds-IsFull memory (pod_on "n1" "c-0" ∷ []) (pod_on "n2" "c-1") waiting after_one after_two
      (waiting-IsWaiting, refl) binds-after_one hook-after_two

abbrev three_bound : Status
three_bound = record empty_status {
  pods_for_estimation = pod_on "n1" "c-0" ∷ pod_on "n2" "c-1" ∷ pod_on "n1" "c-2" ∷ [];
}

parse_pods_review-total_example :
    (rs : List ReviewResult) × (parse_pods_review (pod_on "" "c" ∷ []) three_bound ≡ ok rs)
    × ((f : String → Bool) → total_on f rs ≡ pods_on f three_bound.pods_for_estimation)
parse_pods_review-total_example = parse_pods_review-total (pod_on "" "c") [] three_bound

generated-names_differ_example :
    (generated memory (λ i. two_nodes) (pod_on "" "c") 0).name
    ≢ (generated memory (λ i. two_nodes) (pod_on "" "c") 10).name
generated-names_differ_example =
    generated-names_differ memory (λ i. two_nodes) (pod_on "" "c") 0 10 (omega arith) (omega arith)
      (λ h. absurd (omega arith))

abbrev three_and_reason : Status
three_and_reason = record three_bound { stop_reason = "Unschedulable: full" }

reason-parsed :
    get_main_stop_reason three_and_reason.stop_reason
    ≡ ok (record { stop_type = "Unschedulable"; stop_message = "full" })
unfolding get_main_stop_reason split cut trim
reason-parsed = refl

generate_report-replicas_example :
    (r : Review) × (ns : List ReplicasOnNode) × (generate_report
        (λ p. no_resource)
        (pod_on "" "c" ∷ [])
        three_and_reason
      ≡ ok r)
    × (r.status.pods ≡ record { pod_name = "c"; replicas_on_nodes = ns; summary = none } ∷ [])
    × (instances_sum ns ≡ 3)
    × (((3 < 2 ^ 31) × (r.status.replicas ≡ pos (instances_sum ns)))
        ⊎ ((2 ^ 31 ≤ 3) × (r.status.replicas ≡ to_int32 (instances_sum ns))))
    × (r.spec.pod_requirements
        ≡ record { pod_name = "c"; resources = no_resource; node_selectors = none } ∷ [])
generate_report-replicas_example =
    generate_report-replicas (λ p. no_resource) (pod_on "" "c") three_and_reason
      (record { stop_type = "Unschedulable"; stop_message = "full" }) reason-parsed
