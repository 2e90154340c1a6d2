-- ===== src/Simulation/Report/Print.antt =====
-- The printing of report.go.
use kluster_capacity.Base.{String, ◌<>◌, Bool, ◌==◌, ltb, length, if◌then◌else◌}
use kluster_capacity.Base.Text.{show_nat}
use kluster_capacity.Base.Monad.{Action, ◌>>◌, pure, raise}
use kluster_capacity.Kube.{Pod}
use kluster_capacity.Print.{
  Output, Encoders, print, for_each, print_json, print_yaml, not_recognized,
}
use kluster_capacity.StopReason.{newline}
use kluster_capacity.Simulation.Report.{
  SchedulerSimulationReview, ScheduleDetail, get_unschedulable_reason,
}

abbrev pub pod_line : Bool → Pod → String
unfolding get_unschedulable_reason
pod_line verbose p =
    let name = "- " <> (p.namespace <> ("/" <> p.name)) in
    if verbose
    then name <> (", reason: " <> (get_unschedulable_reason p.status.conditions <> newline))
    else name <> newline

abbrev pub detail_line : Bool → ScheduleDetail → String
detail_line verbose d =
    if verbose
    then "\t- "
      <> (d.node_name
          <> (": "
              <> (show_nat d.replicas
                  <> (" instance(s) "
                      <> ((if d.only_ds_pod then "Only DaemonSet Pod" else "") <> newline)))))
    else "\t- " <> (d.node_name <> newline)

-- `if len(r.UnschedulablePods) > 0`
abbrev if_some_pod : SchedulerSimulationReview → String → Action Output (Unit {0})
if_some_pod r text = if ltb 0 (length r.unschedulable_pods) then print text else pure tt

unfoldable pub pretty_print : Bool → SchedulerSimulationReview → Action Output (Unit {0})
unfolding pod_line
pretty_print verbose r = do
  print ("Termination reason: " <> (r.stop_reason <> (newline <> newline)))
  if_some_pod r
      ("Unschedulabel pods(" <> (show_nat (length r.unschedulable_pods) <> ("):" <> newline)))
  for_each (λ p. print (pod_line verbose p)) r.unschedulable_pods
  if_some_pod r (newline <> newline)
  print ("Pod distribution among " <> (show_nat (length r.details) <> (" nodes:" <> newline)))
  for_each (λ d. print (detail_line verbose d)) r.details

unfoldable pub print_review :
    Encoders SchedulerSimulationReview
    → (verbose : Bool) → (format : String) → SchedulerSimulationReview
    → Action Output (Unit {0})
unfolding print_json print_yaml pretty_print
print_review encoders verbose format r =
    if format == "json"
    then print_json encoders r
    else if format == "yaml"
    then print_yaml encoders r
    else if format == ""
    then pretty_print verbose r
    else raise (not_recognized encoders format)
