-- ===== src/Compression/Filter.antt =====
-- options.go, and defaultFilterFunc and NewNodeFilter of nodeFilter.go: which nodes are candidates.
pub mod Laws
use kluster_capacity.Base.{
  String, Bool, true, false, not, ◌&&◌, List, [], ◌∷◌, Option, none, some, ◌==◌, if◌then◌else◌,
}
use kluster_capacity.Base.Dict.{Dict, lookup_nil, insert, is_some}
use kluster_capacity.Base.Monad.{Result, ok, err, panic}
use kluster_capacity.Kube.{Pod, Node, NodeCondition}
use kluster_capacity.Pods.{
  is_static_pod, is_mirror_pod, is_pod_with_local_storage, is_clone_set_pod,
}

abbrev pub node_scaled_down_failed_label : String
node_scaled_down_failed_label = "kc.k-cloud-labs.io/node-scale-down-failed"

abbrev pub node_scaled_down_success_label : String
node_scaled_down_success_label = "kc.k-cloud-labs.io/node-scale-down-success"

abbrev pub kubernetes_master_node_label : String
kubernetes_master_node_label = "node-role.kubernetes.io/master"

abbrev pub node_scale_down_disable_label : String
node_scale_down_disable_label = "kc.k-cloud-labs.io/scale-down-disabled"

-- The constants ErrReason…; `text` is their wording.
pub data Reason : Type 0 where
  failed_scale_down success_scale_down scale_down_disabled master_node taint_node : Reason
  not_ready_node static_pod mirror_pod cloneset volume_pod unknown : Reason

unfoldable pub text : Reason → String
text failed_scale_down =
    "node(s) can't be scale down because of insufficient resource in other nodes"
text success_scale_down = "node(s) has been successfully scale down"
text scale_down_disabled = "node(s) have label with scale down disabled"
text master_node = "master node(s)"
text taint_node = "node(s) have taint"
text not_ready_node = "not ready node(s)"
text static_pod = "node(s) have static pod"
text mirror_pod = "node(s) have mirror pod"
text cloneset = "node(s) have inplace update pod"
text volume_pod = "node(s) have pod used hostpath"
text unknown = "node(s) have unknown error"

-- FilterStatus: success, or the reason of a refusal.
pub data FilterStatus : Type 0 where
  success : FilterStatus
  refused : Reason → FilterStatus

pub record Options : Type 0 where
  pub filter : Option (Node → FilterStatus)
  pub get_pods_by_node : String → Result (List Pod)
  pub exclude_nodes : Dict Bool
  pub exclude_taint_node : Bool
  pub exclude_not_ready_node : Bool
  pub ignore_static_pod : Bool
  pub ignore_mirror_pod : Bool
  pub ignore_clone_set : Bool
  pub ignore_volume_pod : Bool

-- options.FilterNodeOptions of app/cmds/clustercompression
pub record FilterNodeOptions : Type 0 where
  pub exclude_taint_node : Bool
  pub exclude_not_ready_node : Bool
  pub ignore_static_pod : Bool
  pub ignore_mirror_pod : Bool
  pub ignore_clone_set : Bool
  pub ignore_volume_pod : Bool

abbrev is_true : Option String → Bool
is_true none = false
is_true (some v) = v == "true"

-- Reading a nil map finds nothing, so the test `node.Labels != nil` is left out.
unfoldable pub default_filter : Node → FilterStatus
default_filter n =
    if has kubernetes_master_node_label
    then refused master_node
    else if has node_scaled_down_failed_label
    then refused failed_scale_down
    else if has node_scaled_down_success_label
    then refused success_scale_down
    else if is_true (lookup_nil node_scale_down_disable_label n.labels)
    then refused scale_down_disabled
    else success
  where
    has : String → Bool
    has label = is_some (lookup_nil label n.labels)

unfoldable pub have_node_taint : Node → Bool
have_node_taint n = elim n.taints [ [] ↦ false | t ∷ ts ↦ true ]

some_ready : List NodeCondition → Bool
some_ready [] = true
some_ready (c ∷ cs) = if c.type == "Ready" && c.status == "True" then false else some_ready cs

unfoldable pub is_node_not_ready : Node → Bool
unfolding some_ready
is_node_not_ready n = some_ready n.conditions

-- The body of the loop over the pods, and the loop.
abbrev pub refuse_pod : Options → Pod → Option Reason
refuse_pod o p =
    if o.ignore_static_pod && is_static_pod p
    then some static_pod
    else if o.ignore_mirror_pod && is_mirror_pod p
    then some mirror_pod
    else if o.ignore_volume_pod && is_pod_with_local_storage p
    then some volume_pod
    else if o.ignore_clone_set && is_clone_set_pod p.owner_references
    then some cloneset
    else none

abbrev or_else : Option Reason → FilterStatus → FilterStatus
or_else none next = next
or_else (some r) next = refused r

unfoldable pub check_pods : Options → List Pod → FilterStatus
check_pods o [] = success
check_pods o (p ∷ ps) = or_else (refuse_pod o p) (check_pods o ps)

-- A list of pods or an error: GetPodsByNode has no other outcome.
abbrev check_listed : Options → Result (List Pod) → FilterStatus
check_listed o (ok ps) = check_pods o ps
check_listed o (err m) = refused unknown
check_listed o _ = refused unknown

-- The part behind `o.filter`.
unfoldable pub check_node : Options → Node → FilterStatus
check_node o n =
    if o.exclude_taint_node && have_node_taint n
    then refused taint_node
    else if o.exclude_not_ready_node && is_node_not_ready n
    then refused not_ready_node
    else check_listed o (o.get_pods_by_node n.name)

abbrev and_then : FilterStatus → FilterStatus → FilterStatus
and_then success next = next
and_then (refused r) next = refused r

abbrev run_filter : Option (Node → FilterStatus) → Node → FilterStatus
run_filter none n = success
run_filter (some filter) n = filter n

unfoldable pub build_filter_func : Options → Node → FilterStatus
unfolding check_node
build_filter_func o n = and_then (run_filter o.filter n) (check_node o n)

abbrev exclude_map : Dict Bool → List String → Dict Bool
exclude_map m [] = m
exclude_map m (name ∷ names) = exclude_map (insert name true m) names

-- NewOptions, and the methods that set the fields one by one. Without the last one, a call is a nil dereference.
abbrev pub new_options : Options
new_options = record {
  filter = none;
  get_pods_by_node = λ name. panic;
  exclude_nodes = [];
  exclude_taint_node = false;
  exclude_not_ready_node = false;
  ignore_static_pod = false;
  ignore_mirror_pod = false;
  ignore_clone_set = false;
  ignore_volume_pod = false;
}

abbrev pub with_filter : (Node → FilterStatus) → Options → Options
with_filter filter o = record o { filter = some filter }

abbrev pub with_exclude_nodes : Dict Bool → Options → Options
with_exclude_nodes nodes o = record o { exclude_nodes = nodes }

abbrev pub with_exclude_taint_nodes : Bool → Options → Options
with_exclude_taint_nodes b o = record o { exclude_taint_node = b }

abbrev pub with_exclude_not_ready_nodes : Bool → Options → Options
with_exclude_not_ready_nodes b o = record o { exclude_not_ready_node = b }

abbrev pub with_ignore_static_pod : Bool → Options → Options
with_ignore_static_pod b o = record o { ignore_static_pod = b }

abbrev pub with_ignore_mirror_pod : Bool → Options → Options
with_ignore_mirror_pod b o = record o { ignore_mirror_pod = b }

abbrev pub with_ignore_clone_set : Bool → Options → Options
with_ignore_clone_set b o = record o { ignore_clone_set = b }

abbrev pub with_ignore_volume_pod : Bool → Options → Options
with_ignore_volume_pod b o = record o { ignore_volume_pod = b }

abbrev pub with_pods_by_node_func : (String → Result (List Pod)) → Options → Options
with_pods_by_node_func get_pods o = record o { get_pods_by_node = get_pods }

-- The options that NewNodeFilter chains up, the first call innermost.
abbrev pub node_filter_options :
    (String → Result (List Pod)) → List String → FilterNodeOptions → Options
node_filter_options get_pods exclude_nodes f = with_pods_by_node_func get_pods (
    with_ignore_volume_pod f.ignore_volume_pod (
      with_ignore_mirror_pod f.ignore_mirror_pod (
        with_ignore_clone_set f.ignore_clone_set (
          with_ignore_static_pod f.ignore_static_pod (
            with_exclude_not_ready_nodes f.exclude_not_ready_node (
              with_exclude_taint_nodes f.exclude_taint_node (
                with_exclude_nodes (exclude_map [] exclude_nodes)
                  (with_filter default_filter new_options))))))))
