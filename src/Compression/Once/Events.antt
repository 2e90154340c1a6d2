-- ===== src/Compression/Once/Events.antt =====
-- The handlers of the compression, whatever the event.
use kluster_capacity.Base.{
  ℕ, ◌<◌, refl, String, ◌<>◌, Bool, true, false, not, ◌&&◌, List, [], ◌∷◌, Option, none, some, ltb,
  eqb, length, arith, Bool-cases, inl, inr,
}
use kluster_capacity.Base.Frame.{Keeps, >>=-Keeps, attempt-Keeps, on_error-Keeps, if-Keeps}
use kluster_capacity.Base.Post.{>>=-after}
use kluster_capacity.Base.Monad.{Action, ◌>>=◌, ◌>>◌, pure, modify, attempt, on_error}
use kluster_capacity.Kube.{Pod, PodCondition}
use kluster_capacity.Env.{Env}
use kluster_capacity.Env.Laws.{NodeLaws}
use kluster_capacity.Framework.Control.{update_status}
use kluster_capacity.Plugin.{post_bind}
use kluster_capacity.Pods.{has_annotation}
use kluster_capacity.Status.{pod_provisioner, scheduler_count_inc}
use kluster_capacity.Watch.{Event, bound, updated, is_handled, is_unschedulable}
use kluster_capacity.Compression.Cluster.{uncordon, update_pods_from_created_pods}
use kluster_capacity.Compression.Filter.{node_scaled_down_failed_label}
use kluster_capacity.Compression.Simulator.{
  Simulator, Hook, post_bind_hook_of, failed_select_node, in_world, stop_simulator, create_next_pod,
  scale_down, label_current, select_next_node,
}
use kluster_capacity.Compression.Events.{
  limit_reached, is_limited, stop_unselected, move_on, after_bind, count_bind, post_bind_hook,
  stop_with, uncordon_if, count_failure, roll_back, uncordon_current, try_stop_unselected,
  give_up_node, on_conditions, update_func, hook_of, handle,
}
use kluster_capacity.Compression.Once.Calls.{
  IsStill, in_world-Still, stop_simulator-Still, dropped-Still, label_node-Still,
  create_next_pod-Still,
}
use kluster_capacity.Compression.Once.Nodes.{same-Better}
use kluster_capacity.Compression.Once.Selection.{
  OnceThen, once_then, Still-OnceThen, select_next_node-Once,
}
use kluster_capacity.Compression.Once.ScaleDown.{scale_down-Once}
use kluster_capacity.Compression.Once.State.{Sane, Ready, Once, still, Still-Once}
use kluster_capacity.Compression.Once.World.{uncordon-Better, update_pods_from_created_pods-Better}

module _ (e : Env) (laws : NodeLaws e) (fuel : ℕ) where
  open e use {World}
  open laws use {nodes}

  abbrev pub Kept : {A : Type 0} → Action (Simulator World) A → Type 0
  Kept m = Keeps (OnceThen e laws) m

  pub stop-Kept : (reason : String) → Kept (stop_simulator e reason)
  stop-Kept reason =
      Still-OnceThen e laws (stop_simulator e reason) (stop_simulator-Still e laws reason)

  dropped-Kept : (reason : String) → Kept (attempt (stop_simulator e reason) >>= λ _. pure tt)
  dropped-Kept reason =
      Still-OnceThen e laws (attempt (stop_simulator e reason) >>= λ _. pure tt)
        (dropped-Still e laws reason)

  -- A selection, whose error is handled.
  select_or-Kept :
      (h : String → Action (Simulator World) (Unit {0}))
      → ((m : String) → Kept (h m))
      → Kept (attempt (select_next_node e fuel) >>= λ failed. on_error failed h)
  select_or-Kept h kept =
      >>=-Keeps (once_then e laws) (attempt (select_next_node e fuel)) (λ failed. on_error failed h)
        (attempt-Keeps (once_then e laws) (select_next_node e fuel)
          (select_next_node-Once e laws fuel))
        (λ failed. on_error-Keeps (once_then e laws) failed h kept)

  -- The current node is reported once all its pods have been bound.
  move_on-Once :
      (s : Simulator World)
      → Ready e laws s
      → ¬ (s.bind_success_pod_count < length s.created_pods)
      → Once e laws (move_on e fuel s).1
  unfolding move_on
  move_on-Once s ready none_left =
      let again =
        attempt (select_next_node e fuel) >>= λ failed. on_error failed (stop_unselected e fuel) in
      >>=-after (Once e laws) (scale_down e) (λ _. again) s
        (scale_down-Once e laws s ready none_left)
        (λ _ t once.
          select_or-Kept (stop_unselected e fuel)
            (λ m. stop-Kept (failed_select_node <> (", " <> m))) t once)

  -- A pod has been bound, and the count has not been more than that of the created pods before.
  after_bind-Once :
      (s : Simulator World)
      → Once e laws s
      → Once e laws (after_bind e fuel (count_bind e fuel s)).1
  after_bind-Once s (sane, fresh) =
      let t = count_bind e fuel s in
      let sane' : Sane e laws t = record {
        sound = sane.sound;
        labelled = sane.labelled;
        distinct = sane.distinct;
        waiting = sane.waiting;
        queue = sane.queue;
      } in
      let once : Once e laws t = (sane', λ h. fresh (omega (arith, h))) in
      elim (Bool-cases
        (ltb 0 (length t.created_pods) && ltb t.create_pod_index (length t.created_pods))) [
          | inl more ↦
              rw more
                (Still-OnceThen e laws (create_next_pod e) (create_next_pod-Still e laws) t once)
          | inr none_left ↦
              elim (Bool-cases (eqb t.bind_success_pod_count (length t.created_pods))) [
                | inl all ↦
                    rw (none_left, all)
                      (move_on-Once t (sane', fresh (ground arith)) (λ h. ground arith))
                | inr some' ↦ rw (none_left, some') once
              ]
        ]

  post_bind_hook-Kept : (p : Pod) → Kept (post_bind_hook e fuel p)
  unfolding post_bind_hook
  post_bind_hook-Kept p s =
      if-Keeps (once_then e laws) (is_limited s) (stop_simulator e (limit_reached s.max_simulated))
        (modify (count_bind e fuel) >> after_bind e fuel)
        (stop-Kept (limit_reached s.max_simulated)) after_bind-Once s

  -- `err = m(); if err != nil { err = s.Stop(…) }`
  or_stop-Still :
      (m : Action (Simulator World) (Unit {0})) (prefix : String)
      → IsStill e laws m
      → IsStill e laws (attempt m >>= stop_with e fuel prefix)
  or_stop-Still m prefix h =
      >>=-Keeps (still e laws) (attempt m) (stop_with e fuel prefix)
        (attempt-Keeps (still e laws) m h)
        (λ failed.
          on_error-Keeps (still e laws) failed
            (λ text. attempt (stop_simulator e (prefix <> text)) >>= λ _. pure tt)
            (λ text. dropped-Still e laws (prefix <> text)))

  roll_back-Still : IsStill e laws (roll_back e fuel)
  roll_back-Still s =
      let m = update_pods_from_created_pods e s.create_pod_index s.created_pods in
      or_stop-Still (in_world e m) "FailedDeletePodsFromCreatedPods: "
        (in_world-Still e laws m
          (update_pods_from_created_pods-Better e laws s.create_pod_index s.created_pods))
        s

  uncordon_if-Still : (b : Bool) (name : String) → IsStill e laws (uncordon_if e fuel b name)
  uncordon_if-Still true name =
      or_stop-Still (in_world e (uncordon e name)) "FailedUnCordon: "
        (in_world-Still e laws (uncordon e name) (uncordon-Better e laws name))
  uncordon_if-Still false name = (still e laws).same

  give_up_node-Kept : Kept (give_up_node e fuel)
  unfolding give_up_node
  give_up_node-Kept =
      let p = once_then e laws in
      let label = label_current e node_scaled_down_failed_label in
      let again = attempt (select_next_node e fuel) >>= λ failed.
      on_error failed (try_stop_unselected e fuel) in
      >>=-Keeps p (modify (count_failure e fuel))
        (λ _. roll_back e fuel >> (uncordon_current e fuel >> (label >> again)))
        (λ s. Still-Once e laws s _ ((same-Better _ _ refl, refl, refl, refl), refl, refl))
        (λ _.
          >>=-Keeps p (roll_back e fuel) (λ _. uncordon_current e fuel >> (label >> again))
            (Still-OnceThen e laws (roll_back e fuel) roll_back-Still)
            (λ _.
              >>=-Keeps p (uncordon_current e fuel) (λ _. label >> again)
                (Still-OnceThen e laws (uncordon_current e fuel)
                  (λ s. uncordon_if-Still (not s.current_node_unschedulable) s.current_node s))
                (λ _.
                  >>=-Keeps p label (λ _. again)
                    (Still-OnceThen e laws label
                      (λ s. label_node-Still e laws s.current_node node_scaled_down_failed_label s))
                    (λ _.
                      select_or-Kept (try_stop_unselected e fuel)
                        (λ m. dropped-Kept (failed_select_node <> (", " <> m)))))))

  on_conditions-Kept : (cs : List PodCondition) → Kept (on_conditions e fuel cs)
  unfolding on_conditions
  on_conditions-Kept [] = (once_then e laws).same
  on_conditions-Kept (c ∷ cs) =
      let rest = on_conditions e fuel cs in
      if-Keeps (once_then e laws) (is_unschedulable c) (give_up_node e fuel >> rest) rest
        (>>=-Keeps (once_then e laws) (give_up_node e fuel) (λ _. rest) give_up_node-Kept
          (λ _. on_conditions-Kept cs))
        (on_conditions-Kept cs)

  call_hook-Kept :
      (hook : Option Hook) (p : Pod)
      → Kept (
          post_bind
            (λ g t. record t { framework = update_status g t.framework })
            (hook_of e fuel hook)
            p)
  unfolding post_bind
  call_hook-Kept none p = (once_then e laws).same
  call_hook-Kept (some post_bind_hook_of) p =
      let count = λ (t : Simulator World). record t {
        framework = update_status scheduler_count_inc t.framework;
      } in
      let called = attempt (post_bind_hook e fuel p) >>= λ failed. pure tt in
      if-Keeps (once_then e laws) (has_annotation p pod_provisioner) (modify count >> called)
        (pure tt)
        (>>=-Keeps (once_then e laws) (modify count) (λ _. called)
          (λ s.
            Still-Once e laws s (count s) ((same-Better _ _ refl, refl, refl, refl), refl, refl))
          (λ _.
            >>=-Keeps (once_then e laws) (attempt (post_bind_hook e fuel p)) (λ failed. pure tt)
              (attempt-Keeps (once_then e laws) (post_bind_hook e fuel p) (post_bind_hook-Kept p))
              (λ failed. (once_then e laws).same)))
        (once_then e laws).same

  pub handle-Kept : (ev : Event) → Kept (handle e fuel ev)
  unfolding handle update_func
  handle-Kept (bound p) s = call_hook-Kept s.framework.post_bind_hook p s
  handle-Kept (updated p) s =
      if-Keeps (once_then e laws) (is_handled p) (on_conditions e fuel p.status.conditions)
        (pure tt) (on_conditions-Kept p.status.conditions) (once_then e laws).same s
