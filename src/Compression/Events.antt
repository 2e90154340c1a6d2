-- ===== src/Compression/Events.antt =====
-- postBindHook and the event handler of simulator.go: what the simulator does when the scheduler has bound
-- a pod, or could not.
use kluster_capacity.Base.{
  ℕ, ◌+◌, String, ◌<>◌, Bool, true, false, not, ◌&&◌, List, [], ◌∷◌, Option, none, some, ltb, leb,
  eqb, if◌then◌else◌, length,
}
use kluster_capacity.Base.Text.{show_nat}
use kluster_capacity.Base.Monad.{Action, ◌>>=◌, ◌>>◌, pure, modify, attempt, on_error}
use kluster_capacity.Kube.{Pod, PodCondition}
use kluster_capacity.Status.{failed_scheduler_count_inc}
use kluster_capacity.Watch.{Event, bound, updated, is_handled, is_unschedulable}
use kluster_capacity.Env.{Env}
use kluster_capacity.Plugin.{post_bind}
use kluster_capacity.Framework.Control.{update_status}
use kluster_capacity.Compression.Cluster.{uncordon, update_pods_from_created_pods}
use kluster_capacity.Compression.Filter.{node_scaled_down_failed_label}
use kluster_capacity.Compression.Simulator.{
  Simulator, Hook, post_bind_hook_of, failed_select_node, in_world, stop_simulator, create_next_pod,
  scale_down, label_current, label_node, select_next_node,
}

abbrev pub limit_reached : ℕ → String
limit_reached n = "LimitReached: maximum number of nodes simulated: " <> show_nat n

abbrev pub is_limited : {W : Type 0} → Simulator W → Bool
is_limited s = ltb 0 s.max_simulated && leb s.max_simulated s.simulated

module _ (e : Env) (fuel : ℕ) where
  open e use {World}

  abbrev pub stop_unselected : String → Action (Simulator World) (Unit {0})
  stop_unselected m = stop_simulator e (failed_select_node <> (", " <> m))

  -- The node is empty, and the next one is selected.
  unfoldable pub move_on : Action (Simulator World) (Unit {0})
  unfolding scale_down select_next_node stop_simulator
  move_on =
      scale_down e
      >> (attempt (select_next_node e fuel) >>= λ failed. on_error failed stop_unselected)

  abbrev pub after_bind : Action (Simulator World) (Unit {0})
  after_bind s =
      (if ltb 0 (length s.created_pods) && ltb s.create_pod_index (length s.created_pods)
          then create_next_pod e
          else if eqb s.bind_success_pod_count (length s.created_pods)
          then move_on
          else pure tt)
        s

  abbrev pub count_bind : Simulator World → Simulator World
  count_bind s = record s { bind_success_pod_count = s.bind_success_pod_count + 1 }

  unfoldable pub post_bind_hook : Pod → Action (Simulator World) (Unit {0})
  unfolding create_next_pod move_on
  post_bind_hook p s =
      (if is_limited s
          then stop_simulator e (limit_reached s.max_simulated)
          else (modify count_bind >> after_bind))
        s

  abbrev pub stop_with : String → Option String → Action (Simulator World) (Unit {0})
  stop_with prefix failed =
      on_error failed (λ m. attempt (stop_simulator e (prefix <> m)) >>= λ _. pure tt)

  abbrev pub uncordon_if : Bool → String → Action (Simulator World) (Unit {0})
  uncordon_if true name = do
    failed ← attempt (in_world e (uncordon e name))
    stop_with "FailedUnCordon: " failed
  uncordon_if false name = pure tt

  abbrev pub count_failure : Simulator World → Simulator World
  count_failure s = record s { framework = update_status failed_scheduler_count_inc s.framework }

  abbrev pub roll_back : Action (Simulator World) (Unit {0})
  roll_back s =
      (attempt (in_world e (update_pods_from_created_pods e s.create_pod_index s.created_pods))
          >>= stop_with "FailedDeletePodsFromCreatedPods: ")
        s

  abbrev pub uncordon_current : Action (Simulator World) (Unit {0})
  uncordon_current s = uncordon_if (not s.current_node_unschedulable) s.current_node s

  abbrev pub try_stop_unselected : String → Action (Simulator World) (Unit {0})
  try_stop_unselected m = attempt (stop_unselected m) >>= λ _. pure tt

  -- The node gets its pods back, its taint off and a label on, and another node is selected.
  unfoldable pub give_up_node : Action (Simulator World) (Unit {0})
  unfolding update_pods_from_created_pods uncordon label_node select_next_node stop_simulator
  give_up_node =
      modify count_failure
      >> (roll_back
          >> (uncordon_current
              >> (label_current e node_scaled_down_failed_label
                  >> (attempt (select_next_node e fuel) >>= λ failed.
                      on_error failed try_stop_unselected))))

  unfoldable pub on_conditions : List PodCondition → Action (Simulator World) (Unit {0})
  unfolding give_up_node
  on_conditions [] = pure tt
  on_conditions (c ∷ cs) =
      let rest = on_conditions cs in if is_unschedulable c then give_up_node >> rest else rest

  unfoldable pub update_func : Pod → Action (Simulator World) (Unit {0})
  unfolding on_conditions
  update_func p = if is_handled p then on_conditions p.status.conditions else pure tt

  abbrev pub hook_of : Option Hook → Option (Pod → Action (Simulator World) (Unit {0}))
  hook_of none = none
  hook_of (some post_bind_hook_of) = some post_bind_hook

  unfoldable pub handle : Event → Action (Simulator World) (Unit {0})
  unfolding post_bind_hook update_func post_bind
  handle (bound p) s =
      post_bind (λ g t. record t { framework = update_status g t.framework })
        (hook_of s.framework.post_bind_hook) p s
  handle (updated p) s = update_func p s
