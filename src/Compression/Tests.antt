-- ===== src/Compression/Tests.antt =====
-- Runs of the compression on two nodes.
use mathlib.Core.Option.{some-injective}
use kluster_capacity.Compression.Ends.{select_next_node-ends}
use kluster_capacity.Env.Memory.Laws.{memory-NodeLaws, memory-Answers}
use kluster_capacity.Base.{
  ◌≢◌, ℕ, zero, suc, ◌≤◌, ◌≡◌, ◌↔◌, refl, String, true, [], ◌∷◌, none, some, get_elem?, arith,
  subst, ◌⊎◌,
}
use kluster_capacity.Base.Monad.{stuck, ok}
use kluster_capacity.Kube.{Pod, Node}
use kluster_capacity.Pods.{init_pod}
use kluster_capacity.Env.Memory.{Store, memory}
use kluster_capacity.Env.Memory.Laws.{memory-PodLaws}
use kluster_capacity.Env.Laws.{find_pod}
use kluster_capacity.Framework.{start}
use kluster_capacity.Base.Dict.{lookup}
use kluster_capacity.Base.Int.{pos}
use kluster_capacity.Compression.Filter.{
  text, taint_node, master_node, success, refused, node_scaled_down_success_label,
  build_filter_func, node_filter_options,
}
use kluster_capacity.Compression.Filter.Laws.{
  IsCandidate, IsOpen, build_filter_func_iff, build_filter_func-taint_node_iff,
}
use kluster_capacity.Compression.Simulator.{Simulator}
use kluster_capacity.Compression.Events.{post_bind_hook}
use kluster_capacity.Compression.Progress.{scaled, MoreNodes}
use kluster_capacity.Compression.Binding.{IsMoving}
use kluster_capacity.Compression.Drain.{binds, post_bind_hook-SameNodes, post_bind_hook-IsMoving}
use kluster_capacity.Compression.Cluster.{update_pods_from_created_pods}
use kluster_capacity.Compression.Keys.{Distinct, first_key}
use kluster_capacity.Compression.Deletion.{Present}
use kluster_capacity.Compression.Rollback.{update_pods_from_created_pods-restores}
use kluster_capacity.Compression.Select.{accepted, NodeSelector, chosen, select_node, reason_counts}
use kluster_capacity.Compression.Select.Queue.{view, select_node-pop}
use kluster_capacity.Compression.Select.Reasons.{lookup-reason_counts}
use kluster_capacity.Compression.Simulator.{select_next_node}
use kluster_capacity.Compression.Progress.{select_next_node-MoreNodes}
use kluster_capacity.Compression.Samples.{
  ignore_nothing, pods, emptying, ready, ready-nodes, ready-Unique,
}
use kluster_capacity.Samples.{pod_on, node_of_name, two_nodes}

emptying-IsMoving : IsMoving emptying
unfolding start
emptying-IsMoving = record { outstanding = refl; in_range = omega arith }

abbrev after_a : Simulator Store
after_a = (binds memory 5 (pod_on "n2" "a" ∷ []) emptying).1

hook-after_a : post_bind_hook memory 5 (pod_on "n2" "a") emptying ≡ (ok tt, after_a)
unfolding post_bind_hook start init_pod
hook-after_a = refl

post_bind_hook-SameNodes_example :
    scaled (post_bind_hook memory 5 (pod_on "n2" "a") emptying).1 ≡ []
unfolding start
post_bind_hook-SameNodes_example =
    post_bind_hook-SameNodes memory 5 (pod_on "n2" "a") emptying (omega arith)

post_bind_hook-IsMoving_example : IsMoving after_a ⊎ (after_a.framework.stopped ≡ true)
unfolding start
post_bind_hook-IsMoving_example =
    post_bind_hook-IsMoving memory 5 (pod_on "n2" "a") emptying after_a emptying-IsMoving
      hook-after_a

build_filter_func_iff_example :
    (build_filter_func (node_filter_options (λ name. ok pods) [] ignore_nothing) (node_of_name "n1")
      ≡ success)
    ↔ IsCandidate (λ name. ok pods) ignore_nothing (node_of_name "n1")
build_filter_func_iff_example =
    build_filter_func_iff (λ name. ok pods) [] ignore_nothing (node_of_name "n1")

-- A node that the simulator has cordoned and reported: its label refuses it, not its taint.
abbrev reported : Node
reported = record (node_of_name "n1") {
  labels = some ((node_scaled_down_success_label, "true") ∷ []);
  taints = record { key = "node.kubernetes.io/unschedulable"; effect = "NoSchedule" } ∷ [];
}

build_filter_func-taint_node_iff_example :
    (build_filter_func (node_filter_options (λ name. ok pods) [] ignore_nothing) reported
      ≡ refused taint_node)
    ↔ (IsOpen reported × (ignore_nothing.exclude_taint_node ≡ true) × (reported.taints ≢ []))
build_filter_func-taint_node_iff_example =
    build_filter_func-taint_node_iff (λ name. ok pods) [] ignore_nothing reported

-- The pods of n1 as they were, and after the first of them has been created again.
abbrev halfway : Store
halfway = record two_nodes { pods = pod_on "n2" "a" ∷ [] }

pods-Distinct : Distinct pods
pods-Distinct = ((refl, tt), (tt, tt))

halfway-Present : Present memory 1 pods halfway
halfway-Present zero p lt at =
    subst (λ q. (r : Pod) × (find_pod memory halfway q.namespace q.name ≡ some r))
      (some-injective _ p at) (pod_on "n2" "a", refl)
halfway-Present (suc i) p lt at = absurd (omega arith)

halfway-missing :
    (i : ℕ) (p : Pod)
    → 1 ≤ i
    → get_elem? pods i ≡ some p
    → find_pod memory halfway p.namespace p.name ≡ none
halfway-missing zero p le at = absurd (omega arith)
halfway-missing (suc zero) p le at =
    subst (λ q. find_pod memory halfway q.namespace q.name ≡ none) (some-injective _ p at) refl
halfway-missing (suc (suc i)) p le at = absurd (ground arith)

halfway-others :
    (ns name : String)
    → first_key pods ns name ≡ none
    → find_pod memory halfway ns name ≡ find_pod memory two_nodes ns name
halfway-others ns name h = ground arith

update_pods_from_created_pods-restores_example :
    (after : Store) × (update_pods_from_created_pods memory 1 pods halfway ≡ (ok tt, after))
    × ((ns name : String) → find_pod memory after ns name ≡ find_pod memory two_nodes ns name)
update_pods_from_created_pods-restores_example =
    update_pods_from_created_pods-restores memory memory-PodLaws two_nodes halfway 1 pods
      (omega arith) pods-Distinct (refl, (refl, tt)) halfway-Present halfway-missing halfway-others

abbrev fresh : NodeSelector
fresh = record { selected_count = 0; candidate_node = []; candidate_index = 0 }

select_node-pop_example :
    view (select_node (λ m. m) (λ n. success) (ok two_nodes.nodes) fresh)
    ≡ (some (chosen (node_of_name "n1")), node_of_name "n2" ∷ [])
unfolding accepted
select_node-pop_example = select_node-pop (λ m. m) (λ n. success) (ok two_nodes.nodes) fresh

lookup-reason_counts_example :
    lookup (text taint_node) (reason_counts (taint_node ∷ taint_node ∷ master_node ∷ []) 1)
    ≡ some (pos 1)
unfolding text
lookup-reason_counts_example =
    lookup-reason_counts (text taint_node) (taint_node ∷ taint_node ∷ master_node ∷ []) 1

select_next_node-MoreNodes_example : MoreNodes emptying (select_next_node memory 3 emptying).1
select_next_node-MoreNodes_example = select_next_node-MoreNodes memory 3 emptying

select_next_node-ends_example : (select_next_node memory 7 ready).0 ≢ stuck
select_next_node-ends_example =
    select_next_node-ends memory memory-NodeLaws memory-Answers 7 ready ready-Unique
      (rw ready-nodes (omega arith))
