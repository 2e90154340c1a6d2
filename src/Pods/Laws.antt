-- ===== src/Pods/Laws.antt =====
-- What the tests of pkg/utils/pod.go decide, and what `InitPod` leaves of its template.
use kluster_capacity.Base.{
  String, ◌≡◌, ◌≢◌, refl, List, [], ◌∷◌, Option, none, some, ◌==◌, eq_iff, any, arith,
  if◌then◌else◌,
}
use kluster_capacity.Base.Dict.{Dict, lookup_nil, lookup-insert}
use kluster_capacity.Kube.{Pod, no_status}
use kluster_capacity.Status.{pod_provisioner, scheduler_name}
use kluster_capacity.Env.{Env}
use kluster_capacity.Pods.{is_daemonset_pod, is_clone_set_pod, init_pod, with_provisioner}

pub is_daemonset_pod-any :
    (refs : List String) → is_daemonset_pod refs ≡ any (λ kind. kind == "DaemonSet") refs
unfolding is_daemonset_pod
is_daemonset_pod-any [] = refl
is_daemonset_pod-any (kind ∷ refs) = ground (arith, is_daemonset_pod-any refs)

pub is_clone_set_pod-any :
    (refs : List String) → is_clone_set_pod refs ≡ any (λ kind. kind == "CloneSet") refs
unfolding is_clone_set_pod
is_clone_set_pod-any [] = refl
is_clone_set_pod-any (kind ∷ refs) = ground (arith, is_clone_set_pod-any refs)

-- The annotations of a reset pod are the template's, and the simulator's.
pub lookup_nil-with_provisioner :
    (key : String) (m : Option (Dict String))
    → lookup_nil key (some (with_provisioner m))
      ≡ (if pod_provisioner == key then some scheduler_name else lookup_nil key m)
lookup_nil-with_provisioner key none = lookup-insert pod_provisioner key scheduler_name []
lookup_nil-with_provisioner key (some m) = lookup-insert pod_provisioner key scheduler_name m

module _ (e : Env) (w : e.World) (p : Pod) where
  -- A pod that the simulators create waits to be scheduled, and has the template's name.
  pub init_pod-unbound :
      ((init_pod e w p).spec.node_name ≡ "")
      × ((init_pod e w p).spec.scheduler_name ≡ scheduler_name)
      × ((init_pod e w p).status ≡ no_status)
      × ((init_pod e w p).name ≡ p.name)
  unfolding init_pod
  init_pod-unbound = (refl, refl, refl, refl)

  pub init_pod-namespace : p.namespace ≢ "" → (init_pod e w p).namespace ≡ p.namespace
  unfolding init_pod
  init_pod-namespace h = ground (arith, eq_iff p.namespace "")
