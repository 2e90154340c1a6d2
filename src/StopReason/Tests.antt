-- ===== src/StopReason/Tests.antt =====
-- Reasons that the simulators stop with.
use kluster_capacity.Base.{◌<>◌, ◌≡◌, ◌↔◌, refl, true}
use kluster_capacity.Base.Split.{lacks}
use kluster_capacity.Base.Text.{trim}
use kluster_capacity.Base.Monad.{ok, panic}
use kluster_capacity.StopReason.{get_main_stop_reason, first_line}
use kluster_capacity.StopReason.Laws.{get_main_stop_reason-append, get_main_stop_reason_panic_iff}

get_main_stop_reason-append_example :
    get_main_stop_reason ("Unschedulable" <> (":" <> " 0/2 nodes are available"))
    ≡ ok (record { stop_type = "Unschedulable"; stop_message = "0/2 nodes are available" })
unfolding trim
get_main_stop_reason-append_example =
    get_main_stop_reason-append "Unschedulable" " 0/2 nodes are available" refl refl refl

get_main_stop_reason_panic_iff_example :
    (get_main_stop_reason "no reason" ≡ panic) ↔ (lacks 58 (first_line "no reason") ≡ true)
get_main_stop_reason_panic_iff_example = get_main_stop_reason_panic_iff "no reason"
