-- ===== src/Simulation/Report.antt =====
-- report.go: what is scheduled on each node.
pub mod Counts
pub mod Print
use kluster_capacity.Base.{
  ℕ, ◌+◌, ◌%◌, ◌^◌, String, Bool, true, false, ◌&&◌, ◌==◌, List, [], ◌∷◌, ◌++◌, Option, none, some,
  length, ltb, if◌then◌else◌,
}
use kluster_capacity.Base.Dict.{Dict, lookup, insert}
use kluster_capacity.Kube.{Pod, Node, PodCondition, ResourceList, Resource, no_resource}
use kluster_capacity.Pods.{is_daemonset_pod}
use kluster_capacity.Status.{Status}
use kluster_capacity.Watch.{is_unschedulable}

pub record ScheduleDetail : Type 0 where
  pub node_name : String
  pub replicas : ℕ
  pub node_allocatable : ResourceList
  pub pod_request : Resource
  pub only_ds_pod : Bool

pub record SchedulerSimulationReview : Type 0 where
  pub unschedulable_pods : List Pod
  pub details : List ScheduleDetail
  pub stop_reason : String

-- Addition of int64, which wraps around.
abbrev pub add_64 : ℕ → ℕ → ℕ
add_64 a b = (a + b) % 2 ^ 64

abbrev or_zero : Option ℕ → ℕ
or_zero none = 0
or_zero (some n) = n

abbrev pub add_scalars : Dict ℕ → Dict ℕ → Dict ℕ
add_scalars [] m = m
add_scalars ((name, quantity) ∷ rest) m =
    add_scalars rest (insert name (add_64 (or_zero (lookup name m)) quantity) m)

-- A nil map of scalars is made only if there is something to add.
abbrev pub join_scalars : Option (Dict ℕ) → Option (Dict ℕ) → Option (Dict ℕ)
join_scalars none none = none
join_scalars none (some []) = none
join_scalars none (some (q ∷ qs)) = some (add_scalars (q ∷ qs) [])
join_scalars (some m) none = some m
join_scalars (some m) (some qs) = some (add_scalars qs m)

unfoldable pub add_resource : Resource → Resource → Resource
add_resource source res = record {
  milli_cpu = add_64 source.milli_cpu res.milli_cpu;
  memory = add_64 source.memory res.memory;
  ephemeral_storage = add_64 source.ephemeral_storage res.ephemeral_storage;
  scalar_resources = join_scalars source.scalar_resources res.scalar_resources;
}

-- The message of the first condition that says so.
unfoldable pub get_unschedulable_reason : List PodCondition → String
get_unschedulable_reason [] = ""
get_unschedulable_reason (c ∷ cs) =
    if is_unschedulable c then c.message else get_unschedulable_reason cs

abbrev pub or_none : Option (List Pod) → List Pod
or_none none = []
or_none (some ps) = ps

-- nodePodMap
unfoldable pub group_pods : Dict (List Pod) → List Pod → Dict (List Pod)
group_pods m [] = m
group_pods m (p ∷ ps) =
    let node = p.spec.node_name in
    group_pods (insert node (or_none (lookup node m) ++ (p ∷ [])) m) ps

abbrev pub only_ds_pods : List Pod → Bool
only_ds_pods [] = true
only_ds_pods (p ∷ ps) = is_daemonset_pod p.owner_references && only_ds_pods ps

abbrev allocatable_of : Option Node → ResourceList
allocatable_of none = []
allocatable_of (some n) = n.allocatable

-- `compute` is utils.ComputePodResourceRequest, and `range` the order in which Go visits a map.
module _ (compute : Pod → Resource) (range : Dict (List Pod) → Dict (List Pod)) where
  sum_requests : Resource → List Pod → Resource
  unfolding add_resource
  sum_requests request [] = request
  sum_requests request (p ∷ ps) = sum_requests (add_resource request (compute p)) ps

  detail_of : Dict Node → String → List Pod → ScheduleDetail
  unfolding sum_requests
  detail_of nodes node pods = record {
    node_name = node;
    replicas = length pods;
    node_allocatable = allocatable_of (lookup node nodes);
    pod_request = sum_requests no_resource pods;
    only_ds_pod = only_ds_pods pods;
  }

  -- The loop over the map; the pods without a node are unschedulable.
  unfoldable pub review : Dict Node → Dict (List Pod) → List Pod × List ScheduleDetail
  unfolding detail_of
  review nodes [] = ([], [])
  review nodes ((node, pods) ∷ m) =
      let (unschedulable, details) = review nodes m in
      if node == ""
      then (pods ++ unschedulable, details)
      else (unschedulable, detail_of nodes node pods ∷ details)

  unfoldable pub generate_report : Status → SchedulerSimulationReview
  unfolding group_pods review
  generate_report status =
      let (unschedulable, details) = review status.nodes (range (group_pods [] status.pods)) in
      record {
        unschedulable_pods = unschedulable;
        details = details;
        stop_reason = status.stop_reason;
      }
