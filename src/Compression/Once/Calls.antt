-- ===== src/Compression/Once/Calls.antt =====
-- The calls of the simulator that report and select nothing.
use kluster_capacity.Base.{◌+◌, refl, String, ◌<>◌, List, get_elem?, Option-cases, inl, inr}
use kluster_capacity.Base.Frame.{Keeps, >>=-Keeps, attempt-Keeps, on_error-Keeps}
use kluster_capacity.Base.Monad.{Action, ◌>>=◌, ◌>>◌, pure, modify, attempt, on_error}
use kluster_capacity.Kube.{Pod, Node}
use kluster_capacity.Env.{Env, read}
use kluster_capacity.Env.Laws.{NodeLaws}
use kluster_capacity.Framework.Control.{get_pods_by_node}
use kluster_capacity.Framework.Control.Files.{stop-Carries}
use kluster_capacity.Compression.Cluster.{delete_movable, add_label_to_node, create_reset}
use kluster_capacity.Compression.Effects.{world}
use kluster_capacity.Compression.Progress.{stop_simulator-SameNodes}
use kluster_capacity.Compression.Simulator.{
  Simulator, in_world, stop_simulator, create_next_pod, label_node, stop_unlabelled,
  delete_pods_by_node,
}
use kluster_capacity.Compression.Once.Nodes.{same-Better}
use kluster_capacity.Compression.Once.State.{Quiet, quiet, Still, still}
use kluster_capacity.Compression.Once.World.{
  WorldBetter, better_files, add_label_to_node-Better, create_reset-Better, delete_movable-Better,
}

module _ (e : Env) (laws : NodeLaws e) where
  open e use {World}
  open laws use {nodes}

  abbrev pub IsStill : {A : Type 0} → Action (Simulator World) A → Type 0
  IsStill m = Keeps (Still e laws) m

  pub in_world-Still :
      {A : Type 0} (m : Action World A) → Keeps (WorldBetter e laws) m → IsStill (in_world e m)
  in_world-Still m h s = ((h (world s), refl, refl, refl), refl, refl)

  pub stop_simulator-Still : (reason : String) → IsStill (stop_simulator e reason)
  unfolding stop_simulator
  stop_simulator-Still reason s = (
    (
      stop-Carries e (WorldBetter e laws (world s)) (better_files e laws (world s)) reason
          s.framework (same-Better _ _ refl),
      stop_simulator-SameNodes e reason s,
      refl,
      refl,
    ),
    refl,
    refl,
  )

  -- `_ = s.Stop(…)`
  pub dropped-Still :
      (reason : String) → IsStill (attempt (stop_simulator e reason) >>= λ _. pure tt)
  dropped-Still reason =
      >>=-Keeps (still e laws) (attempt (stop_simulator e reason)) (λ _. pure tt)
        (attempt-Keeps (still e laws) (stop_simulator e reason) (stop_simulator-Still reason))
        (λ _. (still e laws).same)

  pub label_node-Still : (name label : String) → IsStill (label_node e name label)
  unfolding label_node
  label_node-Still name label =
      let m = in_world e (add_label_to_node e name label "true") in
      >>=-Keeps (still e laws) (attempt m) (λ failed. on_error failed (stop_unlabelled e))
        (attempt-Keeps (still e laws) m (
          in_world-Still (add_label_to_node e name label "true")
            (add_label_to_node-Better e laws name label "true")))
        (λ failed.
          on_error-Keeps (still e laws) failed (stop_unlabelled e)
            (λ text. dropped-Still ("FailedAddLabelToNode: " <> text)))

  create_one-Still :
      (q : Pod)
      → IsStill (
          in_world e (create_reset e q)
          >> modify (λ t. record t { create_pod_index = t.create_pod_index + 1 }))
  create_one-Still q =
      >>=-Keeps (still e laws) (in_world e (create_reset e q))
        (λ _. modify (λ t. record t { create_pod_index = t.create_pod_index + 1 }))
        (in_world-Still (create_reset e q) (create_reset-Better e laws q))
        (λ _ s. ((same-Better _ _ refl, refl, refl, refl), refl, refl))

  pub create_next_pod-Still : IsStill (create_next_pod e)
  unfolding create_next_pod
  create_next_pod-Still s = elim (Option-cases (get_elem? s.created_pods s.create_pod_index)) [
    | inl none' ↦ rw (none', create_next_pod) ((still e laws).same s)
    | inr (q, some') ↦ rw (some', create_next_pod) (create_one-Still q s)
  ]

  pub delete_pods_by_node-Quiet : (n : Node) → Keeps (Quiet e laws) (delete_pods_by_node e n)
  unfolding delete_pods_by_node
  delete_pods_by_node-Quiet n =
      let set_created = λ (created : List Pod).
        modify (λ (s : Simulator World). record s { created_pods = created }) in
      >>=-Keeps (quiet e laws) (in_world e (read (λ w. get_pods_by_node e w n.name)))
        (λ pods. in_world e (delete_movable e pods) >>= set_created)
        (λ s. (same-Better _ _ refl, refl, refl, refl))
        (λ pods.
          >>=-Keeps (quiet e laws) (in_world e (delete_movable e pods)) set_created
            (λ s. (in_world-Still (delete_movable e pods) (delete_movable-Better e laws pods) s).0)
            (λ created s. (same-Better _ _ refl, refl, refl, refl)))
