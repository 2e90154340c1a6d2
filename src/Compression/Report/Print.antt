-- ===== src/Compression/Report/Print.antt =====
-- The printing of report.go: any format but json is the default one.
pub mod Laws
use kluster_capacity.Base.{String, ◌<>◌, ◌+◌, Bool, List, [], ◌∷◌, ◌==◌, ltb, length, if◌then◌else◌}
use kluster_capacity.Base.Text.{show_nat}
use kluster_capacity.Base.Monad.{Action, ◌>>=◌, ◌>>◌, pure}
use kluster_capacity.Print.{Output, Encoders, print, print_line, for_each, print_json}
use kluster_capacity.StopReason.{newline}
use kluster_capacity.Compression.Report.{ReviewStatus}

abbrev pub select_line : ReviewStatus → String
select_line r = "Select node " <> (show_nat r.select_node_count <> " times.")

abbrev pub schedule_line : ReviewStatus → String
schedule_line r =
    "Scheduled pod "
    <> (show_nat (r.scheduler_count + r.failed_scheduler_count)
        <> (" times, with " <> (show_nat r.failed_scheduler_count <> " scheduling failure.")))

abbrev pub reason_line : ReviewStatus → String
reason_line r =
    newline
    <> ("Termination reason: " <> (r.stop_reason.stop_type <> (": " <> r.stop_reason.stop_message)))

abbrev pub print_verbose : ReviewStatus → Action Output (Unit {0})
print_verbose r = do
  print_line (select_line r)
  print_line (schedule_line r)
  print_line
      (show_nat (length r.scale_down_node_names) <> " node(s) in the cluster can be scaled down.")
  print_line (reason_line r)
  print_line (newline <> "nodes selected to be scaled down:")
  for_each (λ name. print_line ("\t- " <> name)) r.scale_down_node_names

abbrev pub print_none : ReviewStatus → Action Output (Unit {0})
print_none r = do
  print_line (select_line r)
  print_line (schedule_line r)
  print_line "No nodes in the cluster can be scaled down."
  print_line (reason_line r)

-- The report is never nil.
unfoldable pub default_print : Bool → ReviewStatus → Action Output (Unit {0})
default_print verbose r =
    if ltb 0 (length r.scale_down_node_names)
    then (if verbose then print_verbose r else for_each print_line r.scale_down_node_names)
    else print_none r

unfoldable pub print_review :
    Encoders ReviewStatus
    → (verbose : Bool) → (format : String) → ReviewStatus
    → Action Output (Unit {0})
unfolding print_json default_print
print_review encoders verbose format r =
    if format == "json" then print_json encoders r else default_print verbose r
