-- ===== src/Framework/Admission/Laws.antt =====
-- Which pods enter the simulated cluster.
use mathlib.Core.Option.{some-injective}
use kluster_capacity.Base.{
  List, [], ◌∷◌, sym, ◌∙◌, subst, true, false, ◌≡◌, ◌↔◌, ◌⊎◌, inl, inr, refl, none, some, arith,
  String, if◌then◌else◌, ◌==◌,
}
use kluster_capacity.Base.Dict.{is_some, lookup_nil}
use kluster_capacity.Base.Frame.{IsPreorder, Keeps, >>=-Keeps}
use kluster_capacity.Base.Monad.{Result, ok, err, panic, stuck}
use kluster_capacity.Kube.{Pod, Object, no_status}
use kluster_capacity.Env.{Env}
use kluster_capacity.Status.{scheduler_name, pod_provisioner}
use kluster_capacity.Pods.{is_daemonset_pod, init_pod}
use kluster_capacity.Pods.Laws.{lookup_nil-with_provisioner}
use kluster_capacity.Framework.{Framework, Settings}
use kluster_capacity.Framework.Admission.{
  excludes, is_finished, pending, pre_add_pod, add, add_converted, initialize,
}

-- The reasons to leave a pod out: its node is, it has finished, or it is going away.
abbrev pub IsLeftOut : {W H : Type 0} → Settings W H → Pod → Type 0
IsLeftOut s p =
    ((excludes s.exclude_nodes p.spec.node_name ≡ true)
      × ((s.ignore_pods_on_excludes_node ≡ true) ⊎ (is_daemonset_pod p.owner_references ≡ true)))
    ⊎ ((is_finished p.status.phase ≡ true)
        ⊎ ((is_some p.deletion_timestamp ≡ true) × (s.with_terminating_pods ≡ false)))

-- The pod is a copy of `p` that waits for the simulated scheduler. All but what is listed is as the defaults of the
-- API leave it, above all the spec with its containers and volumes.
abbrev pub IsReset : (e : Env) → e.World → Pod → Pod → Type 0
IsReset e w p q =
    (q.name ≡ p.name)
    × (q.namespace ≡ (if p.namespace == "" then "default" else p.namespace))
    × (q.uid ≡ e.new_uid w)
    × (q.owner_references ≡ (e.set_object_defaults p).owner_references)
    × (q.deletion_timestamp ≡ (e.set_object_defaults p).deletion_timestamp)
    × (q.spec ≡ record ((e.set_object_defaults p).spec) {
      node_name = "";
      scheduler_name = scheduler_name;
    })
    × (q.status ≡ record no_status { phase = "Pending" })
    × ((key : String)
        → lookup_nil key q.annotations ≡ (
            if pod_provisioner == key
            then some scheduler_name
            else lookup_nil key (e.set_object_defaults p).annotations))

pending-IsReset : (e : Env) (w : e.World) (p : Pod) → IsReset e w p (pending (init_pod e w p))
unfolding init_pod
pending-IsReset e w p = (
  refl,
  refl,
  refl,
  refl,
  refl,
  refl,
  refl,
  λ key. lookup_nil-with_provisioner key (e.set_object_defaults p).annotations,
)

module _ (e : Env) {H : Type 0} where
  open e use {World}

  -- A pod is kept out of the simulated cluster exactly if its node is excluded and it belongs to a
  -- DaemonSet or the pods of such nodes are ignored, if it has finished, or if it is being deleted and such pods
  -- are not wanted.
  pub pre_add_pod-none_iff :
      (s : Settings World H) (w : World) (p : Pod) → (pre_add_pod e s w p ≡ none) ↔ IsLeftOut s p
  unfolding pre_add_pod
  pre_add_pod-none_iff s w p = ground arith

  pre_add_pod-cases :
      (s : Settings World H) (w : World) (p : Pod)
      → (pre_add_pod e s w p ≡ none)
        ⊎ (((pre_add_pod e s w p ≡ some p)
              × ((s.with_scheduled_pods ≡ true) ⊎ (is_daemonset_pod p.owner_references ≡ true)))
            ⊎ ((pre_add_pod e s w p ≡ some (pending (init_pod e w p)))
                × (s.with_scheduled_pods ≡ false)
                × (is_daemonset_pod p.owner_references ≡ false)))
  unfolding pre_add_pod
  pre_add_pod-cases s w p = ground arith

  -- A pod that enters the simulated cluster enters it as it is, if scheduled pods are kept or it belongs
  -- to a DaemonSet, and otherwise as a pending copy. The copy has the pod's name, its namespace or "default" where it
  -- names none, and the next UID. Its spec is the pod's, as the defaults of the API complete it, but bound to no node and
  -- for the simulated scheduler. Its owners and its deletion are as the defaults leave them. Of its annotations only the
  -- simulator's is changed, to the name of the scheduler, and its status is empty but for the phase.
  pub pre_add_pod-some :
      (s : Settings World H) (w : World) (p q : Pod)
      → pre_add_pod e s w p ≡ some q
      → ((q ≡ p) × ((s.with_scheduled_pods ≡ true) ⊎ (is_daemonset_pod p.owner_references ≡ true)))
        ⊎ (IsReset e w p q
            × (s.with_scheduled_pods ≡ false)
            × (is_daemonset_pod p.owner_references ≡ false))
  pre_add_pod-some s w p q h = elim (pre_add_pod-cases s w p) [
    | inl e' ↦ absurd (cc (e', h))
    | inr (inl (same, k)) ↦ inl (sym (some-injective p q (sym same ∙ h)), k)
    | inr (inr (reset, k, l)) ↦ inr (
      subst (IsReset e w p) (some-injective (pending (init_pod e w p)) q (sym reset ∙ h))
          (pending-IsReset e w p),
      k,
      l,
    )
  ]

module _ (e : Env) {H : Type 0} where
  open e use {World}

  abbrev SameStatus : Framework World H → Framework World H → Type 0
  SameStatus f g = g.status ≡ f.status

  same_status : IsPreorder SameStatus
  same_status = record { same = λ f. refl; then' = λ f g h p q. q ∙ p }

  add-SameStatus : (obj : Object) → Keeps SameStatus (add e obj)
  unfolding add
  add-SameStatus obj f = ground arith

  add_converted-SameStatus : (objs : List (Result Object)) → Keeps SameStatus (add_converted e objs)
  unfolding add_converted
  add_converted-SameStatus [] f = refl
  add_converted-SameStatus (ok obj ∷ objs) f =
      >>=-Keeps same_status (add e obj) (λ _. add_converted e objs) (add-SameStatus obj)
        (λ _. add_converted-SameStatus objs) f
  add_converted-SameStatus (err m ∷ objs) f = refl
  add_converted-SameStatus (panic ∷ objs) f = refl
  add_converted-SameStatus (stuck ∷ objs) f = refl

  -- Filling the simulated cluster leaves what has been found.
  pub initialize-SameStatus :
      (cluster : List (Result Object)) → Keeps SameStatus (initialize e cluster [])
  unfolding initialize
  initialize-SameStatus cluster = add_converted-SameStatus cluster
