-- ===== src/Status.antt =====
-- pkg/status.go and pkg/const.go: what a simulation has found so far.
-- The counters are Go ints; each counts steps of a run, and is not bounded here.
use kluster_capacity.Base.{ℕ, ◌+◌, String, List, []}
use kluster_capacity.Base.Dict.{Dict}
use kluster_capacity.Kube.{Pod, Node}

abbrev pub pod_provisioner : String
pod_provisioner = "kc.k-cloud-labs.io/provisioned-by"

abbrev pub scheduler_name : String
scheduler_name = "simulator-scheduler"

pub record Status : Type 0 where
  pub pods : List Pod
  pub nodes : Dict Node
  pub pods_for_estimation : List Pod
  pub nodes_to_scale_down : List String
  pub select_node_count : ℕ
  pub scheduler_count : ℕ
  pub failed_scheduler_count : ℕ
  pub stop_reason : String

abbrev pub empty_status : Status
empty_status = record {
  pods = [];
  nodes = [];
  pods_for_estimation = [];
  nodes_to_scale_down = [];
  select_node_count = 0;
  scheduler_count = 0;
  failed_scheduler_count = 0;
  stop_reason = "";
}

abbrev pub select_node_count_inc : Status → Status
select_node_count_inc s = record s { select_node_count = s.select_node_count + 1 }

abbrev pub scheduler_count_inc : Status → Status
scheduler_count_inc s = record s { scheduler_count = s.scheduler_count + 1 }

abbrev pub failed_scheduler_count_inc : Status → Status
failed_scheduler_count_inc s = record s { failed_scheduler_count = s.failed_scheduler_count + 1 }
