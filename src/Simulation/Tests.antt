-- ===== src/Simulation/Tests.antt =====
-- Events and reports of a small simulation.
use kluster_capacity.Base.{
  String, ◌≡◌, ◌↔◌, refl, subst, true, false, List, [], ◌∷◌, any, arith, length, eq_iff,
}
use kluster_capacity.Base.Dict.{is_some, lookup}
use kluster_capacity.Kube.{Pod}
use kluster_capacity.Status.{Status, empty_status}
use kluster_capacity.Simulation.{
  Event, added, updated, holds, no_pods, exit_reason, exit_when_all_succeed,
  exit_when_all_scheduled,
}
use kluster_capacity.Base.Monad.{ok}
use kluster_capacity.Env.Memory.{Store, memory}
use kluster_capacity.Framework.{start}
use kluster_capacity.Simulation.{Simulator, framework_options}
use kluster_capacity.Simulation.Ends.{handle_all, IsReady, handle_all-stops, handle_all-stops_tried}
use kluster_capacity.Simulation.Exit.Apart.{is_tried, is_refused, InOrder}
use kluster_capacity.Samples.{two_nodes}
use kluster_capacity.Simulation.Exit.{
  added_keys, is_seen, all_seen, track, exit_reason-all_seen_iff,
}
use kluster_capacity.Kube.{no_resource}
use kluster_capacity.Simulation.Report.{group_pods, or_none, generate_report}
use kluster_capacity.Simulation.Report.Counts.{
  replicas_of, lookup-group_pods, generate_report-counts,
}
use kluster_capacity.Samples.{pod_on}

-- Two pods wait, and are bound one after the other.
abbrev events : List Event
events =
    added (pod_on "" "a")
    ∷ added (pod_on "" "b")
    ∷ updated (pod_on "n1" "a")
    ∷ updated (pod_on "n2" "b")
    ∷ []

events-known : (k : String) → any (is_seen k) events ≡ true → holds k (added_keys events) ≡ true
events-known k h = ground arith

exit_reason-all_seen_iff_example :
    (is_some (exit_reason exit_when_all_succeed (track events no_pods)) ≡ true)
    ↔ (all_seen events ≡ true)
exit_reason-all_seen_iff_example = exit_reason-all_seen_iff events (refl, (refl, tt)) events-known

abbrev pods : List Pod
pods = pod_on "n1" "a" ∷ pod_on "" "b" ∷ pod_on "n1" "c" ∷ []

lookup-group_pods_example :
    or_none (lookup "n1" (group_pods [] pods)) ≡ pod_on "n1" "a" ∷ pod_on "n1" "c" ∷ []
lookup-group_pods_example = lookup-group_pods "n1" [] pods

abbrev after_run : Status
after_run = record empty_status { pods = pods }

generate_report-counts_example :
    (length (generate_report (λ p. no_resource) (λ m. m) after_run).unschedulable_pods ≡ 1)
    × (replicas_of (generate_report (λ p. no_resource) (λ m. m) after_run).details ≡ 2)
generate_report-counts_example =
    generate_report-counts (λ p. no_resource) (λ m. m) (λ f m. refl) after_run

abbrev ready : Simulator Store
ready = record {
  framework = start two_nodes (framework_options [] "");
  exit_condition = exit_when_all_succeed;
  tracker = no_pods;
}

ready-IsReady : IsReady memory exit_when_all_succeed ready two_nodes.nodes two_nodes.pods
unfolding start
ready-IsReady = record {
  consistent = record { stop_ch = refl; informer_ch = refl; scheduler_ch = refl };
  unsaved = refl;
  nodes_listed = refl;
  pods_listed = refl;
  exits = refl;
}

handle_all-stops_example :
    (t : Simulator Store) × (handle_all memory events ready ≡ (ok tt, t))
    × (t.framework.stopped ≡ true)
handle_all-stops_example =
    handle_all-stops memory two_nodes.nodes two_nodes.pods
      (added (pod_on "" "a") ∷ added (pod_on "" "b") ∷ updated (pod_on "n1" "a") ∷ [])
      (pod_on "n2" "b") ready ready-IsReady refl (refl, (refl, tt)) events-known refl

-- The second pod fits nowhere.
abbrev refused : Pod
refused = record (pod_on "" "b") {
  status = record {
    phase = "Pending";
    conditions =
        record { type = "PodScheduled"; status = "False"; reason = "Unschedulable"; message = "" }
        ∷ [];
  };
}

abbrev trials : List Event
trials =
    added (pod_on "" "a") ∷ added (pod_on "" "b") ∷ updated (pod_on "n1" "a") ∷ updated refused ∷ []

trials-known : (k : String) → any (is_tried k) trials ≡ true → holds k (added_keys trials) ≡ true
trials-known k h = ground arith

trials-InOrder : InOrder trials
trials-InOrder = (
  λ k h. cc h,
  λ k h. cc h,
  (
    λ k h. cc h,
    λ k h. refl,
    (
      λ k h.
          subst (λ n. any (is_refused n) (updated refused ∷ []) ≡ false) ((eq_iff "web/a" k).0 h)
            refl,
      λ k h. refl,
      (λ k h. refl, λ k h. refl, tt),
    ),
  ),
)

abbrev trying : Simulator Store
trying = record ready { exit_condition = exit_when_all_scheduled }

trying-IsReady : IsReady memory exit_when_all_scheduled trying two_nodes.nodes two_nodes.pods
unfolding start
trying-IsReady = record {
  consistent = record { stop_ch = refl; informer_ch = refl; scheduler_ch = refl };
  unsaved = refl;
  nodes_listed = refl;
  pods_listed = refl;
  exits = refl;
}

handle_all-stops_tried_example :
    (t : Simulator Store) × (handle_all memory trials trying ≡ (ok tt, t))
    × (t.framework.stopped ≡ true)
handle_all-stops_tried_example =
    handle_all-stops_tried memory two_nodes.nodes two_nodes.pods
      (added (pod_on "" "a") ∷ added (pod_on "" "b") ∷ updated (pod_on "n1" "a") ∷ []) refused
      trying trying-IsReady refl (refl, (refl, tt)) trials-known trials-InOrder refl
