-- ===== src/Estimation/Report.antt =====
-- report.go: how many copies of the pod fit, and on which nodes.
pub mod Counts
pub mod Print
pub mod Replicas
use kluster_capacity.Base.{
  ℕ, zero, suc, ◌+◌, ◌%◌, ◌^◌, ◌-◌, String, Bool, ◌==◌, List, [], ◌∷◌, ◌++◌, Option, none, some,
  any, map, ltb, length, if◌then◌else◌,
}
use kluster_capacity.Base.Dict.{Dict}
use kluster_capacity.Base.Int.{ℤ, pos, sub_ℕ}
use kluster_capacity.Base.Monad.{Result, ok, err, panic, stuck}
use kluster_capacity.Kube.{Pod, Resource}
use kluster_capacity.Status.{Status}
use kluster_capacity.StopReason.{StopReason, get_main_stop_reason}

pub record ReplicasOnNode : Type 0 where
  pub node_name : String
  pub replicas : ℕ

pub record StopReasonSummary : Type 0 where
  pub reason : String
  pub count : ℕ

-- CapacityEstimationReviewResult; its summary, which may be nil, is never filled.
pub record ReviewResult : Type 0 where
  pub pod_name : String
  pub replicas_on_nodes : List ReplicasOnNode
  pub summary : Option (List StopReasonSummary)

pub record Requirements : Type 0 where
  pub pod_name : String
  pub resources : Resource
  pub node_selectors : Option (Dict String)

pub record ReviewSpec : Type 0 where
  pub templates : List Pod
  pub pod_requirements : List Requirements

-- CapacityEstimationReviewStatus, less its time stamp. `replicas` is an int32.
pub record ReviewStatus : Type 0 where
  pub replicas : ℤ
  pub stop_reason : StopReason
  pub pods : List ReviewResult

pub record Review : Type 0 where
  pub spec : ReviewSpec
  pub status : ReviewStatus

abbrev pub is_on : String → ReplicasOnNode → Bool
is_on node r = r.node_name == node

-- The body of the loop over the pods: every entry of the node counts one more, or a new one is added.
abbrev pub bump : String → List ReplicasOnNode → List ReplicasOnNode
bump node [] = []
bump node (r ∷ rs) =
    (if is_on node r then record r { replicas = r.replicas + 1 } else r) ∷ bump node rs

abbrev new_entry : String → ReplicasOnNode
new_entry node = record { node_name = node; replicas = 1 }

abbrev pub place : String → List ReplicasOnNode → List ReplicasOnNode
place node rs = if any (is_on node) rs then bump node rs else rs ++ (new_entry node ∷ [])

-- `result[i]` gets a pod; the index is in range.
abbrev pub place_at : ℕ → String → List ReviewResult → List ReviewResult
place_at i node [] = []
place_at zero node (r ∷ rs) = record r { replicas_on_nodes = place node r.replicas_on_nodes } ∷ rs
place_at (suc i) node (r ∷ rs) = r ∷ place_at i node rs

-- The loop, from the pod of index `i` on.
unfoldable pub place_pods :
    (templates_count i : ℕ) → List Pod → List ReviewResult → List ReviewResult
place_pods count i [] rs = rs
place_pods count i (p ∷ ps) rs =
    place_pods count (i + 1) ps (place_at (i % count) p.spec.node_name rs)

abbrev pub blank : List Pod → List ReviewResult
blank [] = []
blank (t ∷ ts) = record { pod_name = t.name; replicas_on_nodes = []; summary = none } ∷ blank ts

-- Without a template the remainder is a division by zero, unless there is no pod.
unfoldable pub parse_pods_review : (templates : List Pod) → Status → Result (List ReviewResult)
unfolding place_pods
parse_pods_review [] status = elim status.pods_for_estimation [ [] ↦ ok [] | p ∷ ps ↦ panic ]
parse_pods_review (t ∷ ts) status =
    ok (place_pods (length (t ∷ ts)) 0 status.pods_for_estimation (blank (t ∷ ts)))

-- A conversion to int32, which wraps around.
abbrev pub to_int32 : ℕ → ℤ
to_int32 n = let m = n % 2 ^ 32 in if ltb m (2 ^ 31) then pos m else sub_ℕ m (2 ^ 32)

unfoldable pub instances_sum : List ReplicasOnNode → ℕ
instances_sum [] = 0
instances_sum (r ∷ rs) = r.replicas + instances_sum rs

-- `compute` is utils.ComputePodResourceRequest.
unfoldable pub get_pods_requirements : (Pod → Resource) → List Pod → List Requirements
get_pods_requirements compute [] = []
get_pods_requirements compute (p ∷ ps) =
    record { pod_name = p.name; resources = compute p; node_selectors = p.spec.node_selector }
    ∷ get_pods_requirements compute ps

abbrev pub get_review_spec : (Pod → Resource) → List Pod → ReviewSpec
unfolding get_pods_requirements
get_review_spec compute templates = record {
  templates = templates;
  pod_requirements = get_pods_requirements compute templates;
}

abbrev pub with_pods : ℕ → Result StopReason → Result (List ReviewResult) → Result ReviewStatus
with_pods n (ok reason) (ok pods) =
    ok (record { replicas = to_int32 n; stop_reason = reason; pods = pods })
with_pods n (ok reason) (err m) = err m
with_pods n (ok reason) panic = panic
with_pods n (ok reason) stuck = stuck
with_pods n (err m) pods = err m
with_pods n panic pods = panic
with_pods n stuck pods = stuck

unfoldable pub get_review_status : List Pod → Status → Result ReviewStatus
unfolding get_main_stop_reason parse_pods_review
get_review_status templates status =
    with_pods (length status.pods_for_estimation) (get_main_stop_reason status.stop_reason)
      (parse_pods_review templates status)

abbrev pub with_status : ReviewSpec → Result ReviewStatus → Result Review
with_status spec (ok status) = ok (record { spec = spec; status = status })
with_status spec (err m) = err m
with_status spec panic = panic
with_status spec stuck = stuck

unfoldable pub generate_report : (Pod → Resource) → List Pod → Status → Result Review
unfolding get_review_spec get_review_status
generate_report compute templates status =
    with_status (get_review_spec compute templates) (get_review_status templates status)
