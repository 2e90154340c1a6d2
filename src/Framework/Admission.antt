-- ===== src/Framework/Admission.antt =====
-- preAdd and Initialize: which objects of the cluster enter the simulated one.
pub mod Laws
use kluster_capacity.Base.{
  String, Bool, false, not, ◌&&◌, ◌||◌, List, [], ◌∷◌, Option, none, some, ◌==◌, if◌then◌else◌, any,
}
use kluster_capacity.Base.Dict.{is_some}
use kluster_capacity.Base.Monad.{
  Result, ok, err, panic, stuck, lift, Action, ◌>>◌, pure, raise, crash,
}
use kluster_capacity.Kube.{Pod, Node, Object, pod, node, unstructured, other}
use kluster_capacity.Env.{Env, write}
use kluster_capacity.Pods.{is_daemonset_pod, init_pod}
use kluster_capacity.Framework.{Framework, Settings, on_world}

-- `_, ok := set[name]`, where a nil set holds nothing.
abbrev pub excludes : Option (List String) → String → Bool
excludes none name = false
excludes (some names) name = any (λ n. n == name) names

abbrev pub is_finished : String → Bool
is_finished phase = phase == "Succeeded" || phase == "Failed"

abbrev pub pending : Pod → Pod
pending q = record q { status = record (q.status) { phase = "Pending" } }

module _ (e : Env) {H : Type 0} where
  open e use {World, add_object}

  -- `none` is the answer `false, nil`. IsDaemonsetPod of a nil list is false, so its nil test is left
  -- out.
  unfoldable pub pre_add_pod : Settings World H → World → Pod → Option Pod
  pre_add_pod s w p =
      if excludes s.exclude_nodes p.spec.node_name
        && (s.ignore_pods_on_excludes_node || is_daemonset_pod p.owner_references)
      then none
      else if is_finished p.status.phase
      then none
      else if is_some p.deletion_timestamp && not s.with_terminating_pods
      then none
      else if not s.with_scheduled_pods && not (is_daemonset_pod p.owner_references)
      then some (pending (init_pod e w p))
      else some p

  unfoldable pub pre_add_node : Settings World H → Node → Option Node
  pre_add_node s n =
      if is_some s.exclude_nodes
      then (if excludes s.exclude_nodes n.name
          then none
          else if not s.with_node_images
          then some (record n { images = [] })
          else some n)
      else some n

  unfoldable pub pre_add : Settings World H → World → Object → Option Object
  unfolding pre_add_pod pre_add_node
  pre_add s w (pod p) = elim (pre_add_pod s w p) [ none ↦ none | some q ↦ some (pod q) ]
  pre_add s w (node n) = elim (pre_add_node s n) [ none ↦ none | some m ↦ some (node m) ]
  pre_add s w unstructured = some unstructured
  pre_add s w (other kind) = some (other kind)

  abbrev add_if : Option Object → Action (Framework World H) (Unit {0})
  add_if none = pure tt
  add_if (some obj) = on_world (write (λ w. add_object w obj))

  unfoldable pub add : Object → Action (Framework World H) (Unit {0})
  add obj f = add_if (pre_add f.settings f.world obj) f

  -- From the running cluster: each object as the converter of unstructured content returns it.
  unfoldable pub add_converted : List (Result Object) → Action (Framework World H) (Unit {0})
  unfolding add
  add_converted [] = pure tt
  add_converted (ok obj ∷ objs) = add obj >> add_converted objs
  add_converted (err m ∷ objs) = raise m
  add_converted (panic ∷ objs) = crash
  add_converted (stuck ∷ objs) = lift stuck

  -- From objects of the caller, which must be typed.
  unfoldable pub add_typed : List Object → Action (Framework World H) (Unit {0})
  unfolding add
  add_typed [] = pure tt
  add_typed (unstructured ∷ objs) =
      raise "type of objs used to init the world must not be unstructured"
  add_typed (pod p ∷ objs) = add (pod p) >> add_typed objs
  add_typed (node n ∷ objs) = add (node n) >> add_typed objs
  add_typed (other kind ∷ objs) = add (other kind) >> add_typed objs

  unfoldable pub initialize :
      (cluster : List (Result Object)) → List Object → Action (Framework World H) (Unit {0})
  unfolding add_converted add_typed
  initialize cluster [] = add_converted cluster
  initialize cluster (obj ∷ objs) = add_typed (obj ∷ objs)
