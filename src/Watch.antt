-- ===== src/Watch.antt =====
-- What the event handlers of two simulators look for in a pod.
use kluster_capacity.Base.{Bool, ◌&&◌, ◌==◌}
use kluster_capacity.Kube.{Pod, PodCondition}
use kluster_capacity.Pods.{has_annotation}
use kluster_capacity.Status.{pod_provisioner, scheduler_name}

-- The handler sees only pods that the simulator created.
abbrev pub is_handled : Pod → Bool
is_handled p = p.spec.scheduler_name == scheduler_name && has_annotation p pod_provisioner

abbrev pub is_unschedulable : PodCondition → Bool
is_unschedulable c =
    c.type == "PodScheduled" && (c.status == "False" && c.reason == "Unschedulable")

-- What the scheduler does with a pod, in the order in which the simulator hears of it.
pub data Event : Type 0 where
  bound : Pod → Event
  updated : Pod → Event
