-- ===== src/Compression/Simulator.antt =====
-- simulator.go: nodes are emptied one by one. The pods of the selected node are deleted and created
-- again one at a time, the next when the last has been bound. If all are bound elsewhere the node can go;
-- if one cannot be scheduled, the node gets its pods back.
use kluster_capacity.Base.{
  ℕ, zero, suc, ◌+◌, String, ◌<>◌, Bool, List, [], Option, none, some, ltb, if◌then◌else◌,
  get_elem?, length,
}
use kluster_capacity.Base.Int.{ℤ}
use kluster_capacity.Base.Monad.{
  ok, panic, stuck, Action, ◌>>=◌, ◌>>◌, pure, raise, crash, modify, attempt, on_error, lift,
}
use kluster_capacity.Kube.{Pod, Node}
use kluster_capacity.Status.{select_node_count_inc}
use kluster_capacity.Env.{Env, read}
use kluster_capacity.Framework.{Framework, on_world}
use kluster_capacity.Framework.Control.{
  update_status, update_nodes_to_scale_down, get_pods_by_node, stop,
}
use kluster_capacity.Compression.Cluster.{cordon, add_label_to_node, create_reset, delete_movable}
use kluster_capacity.Compression.Filter.{
  FilterNodeOptions, FilterStatus, build_filter_func, node_filter_options,
  node_scaled_down_success_label,
}
use kluster_capacity.Compression.Select.{
  NodeSelector, Selection, chosen, nothing, select_node, done,
}

-- The only hook is the method postBindHook.
pub data Hook : Type 0 where
  post_bind_hook_of : Hook

pub record Simulator (W : Type 0) : Type 0 where
  pub framework : Framework W Hook
  pub max_simulated : ℕ  -- a limit below 1 is no limit
  pub simulated : ℕ
  pub created_pods : List Pod
  pub create_pod_index : ℕ
  pub current_node : String
  pub current_node_unschedulable : Bool
  pub bind_success_pod_count : ℕ
  pub selector : NodeSelector
  pub excluded : List String  -- the arguments of NewNodeFilter
  pub filter_options : FilterNodeOptions

abbrev pub failed_select_node : String
failed_select_node = "FailedSelectNode: could not find a node that satisfies the condition"

module _ (e : Env) where
  open e use {World, list_nodes, range}

  abbrev pub on_framework :
      {A : Type 0} → Action (Framework World Hook) A → Action (Simulator World) A
  on_framework m s = let (r, f) = m s.framework in (r, record s { framework = f })

  abbrev pub in_world : {A : Type 0} → Action World A → Action (Simulator World) A
  in_world m = on_framework (on_world m)

  unfoldable pub stop_simulator : String → Action (Simulator World) (Unit {0})
  stop_simulator reason = on_framework (stop e reason)

  abbrev pub filter_of : Simulator World → World → Node → FilterStatus
  filter_of s w =
      build_filter_func (node_filter_options (get_pods_by_node e w) s.excluded s.filter_options)

  -- `s.nodeFilter.SelectNode()`
  abbrev pub select : Action (Simulator World) (Option Selection)
  select s =
      let w = s.framework.world in
      let (r, g) = select_node (range ℤ) (filter_of s w) (list_nodes w) s.selector in
      (ok r, record s { selector = g })

  -- A nil status is dereferenced.
  abbrev pub node_of : Option Selection → Action (Simulator World) Node
  node_of none = crash
  node_of (some (nothing reason)) = raise reason
  node_of (some (chosen n)) = pure n

  abbrev pub restart : Node → Simulator World → Simulator World
  restart n s = record s {
    created_pods = [];
    bind_success_pod_count = 0;
    create_pod_index = 0;
    current_node = n.name;
    current_node_unschedulable = n.unschedulable;
  }

  -- getPodsByNode, deletePodsByNode
  unfoldable pub delete_pods_by_node : Node → Action (Simulator World) (Unit {0})
  unfolding delete_movable get_pods_by_node
  delete_pods_by_node n = do
    pods ← in_world (read (λ w. get_pods_by_node e w n.name))
    created ← in_world (delete_movable e pods)
    modify (λ s. record s { created_pods = created })

  -- Create the pod at `create_pod_index`, which the caller has checked.
  unfoldable pub create_next_pod : Action (Simulator World) (Unit {0})
  create_next_pod s = elim (get_elem? s.created_pods s.create_pod_index) [
    | none ↦ (panic, s)
    | some p ↦
        (do
          in_world (create_reset e p)
          modify (λ t. record t { create_pod_index = t.create_pod_index + 1 }))
          s
  ]

  abbrev pub report_current : Simulator World → Simulator World
  report_current s = record s { framework = update_nodes_to_scale_down s.current_node s.framework }

  abbrev pub stop_unlabelled : String → Action (Simulator World) (Unit {0})
  stop_unlabelled m = attempt (stop_simulator ("FailedAddLabelToNode: " <> m)) >>= λ _. pure tt

  -- `if err := addLabelToNode(…); err != nil { _ = s.Stop(…) }`
  unfoldable pub label_node : (name label : String) → Action (Simulator World) (Unit {0})
  unfolding add_label_to_node stop_simulator
  label_node name label = attempt (in_world (add_label_to_node e name label "true")) >>= λ failed.
      on_error failed stop_unlabelled

  abbrev pub label_current : String → Action (Simulator World) (Unit {0})
  label_current label s = label_node s.current_node label s

  abbrev pub count_node : Simulator World → Simulator World
  count_node s = record s { simulated = s.simulated + 1; selector = done s.selector }

  -- The current node can go.
  unfoldable pub scale_down : Action (Simulator World) (Unit {0})
  unfolding label_node update_nodes_to_scale_down done
  scale_down =
      modify report_current >> (label_current node_scaled_down_success_label >> modify count_node)

  abbrev pub count_selection : Simulator World → Simulator World
  count_selection s = record s { framework = update_status select_node_count_inc s.framework }

  -- selectNextNode up to its branch: a node is chosen, and its pods are deleted.
  unfoldable pub choose_node : Action (Simulator World) Node
  choose_node = modify count_selection >> (select >>= node_of)

  unfoldable pub vacate : Node → Action (Simulator World) (Unit {0})
  unfolding cordon delete_pods_by_node
  vacate n = modify (restart n) >> (in_world (cordon e n) >> delete_pods_by_node n)

  -- A node with no pods to move can go at once, and the next is selected.
  abbrev pub enter : Action (Simulator World) (Unit {0}) → Action (Simulator World) (Unit {0})
  enter next s = (if ltb 0 (length s.created_pods) then create_next_pod else (scale_down >> next)) s

  unfoldable pub select_next_node : (fuel : ℕ) → Action (Simulator World) (Unit {0})
  unfolding choose_node vacate create_next_pod scale_down
  select_next_node zero = lift stuck
  select_next_node (suc fuel) =
      let next = select_next_node fuel in (choose_node >>= vacate) >> enter next
