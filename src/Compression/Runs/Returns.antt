-- ===== src/Compression/Runs/Returns.antt =====
-- How much fuel the selections in a run of the compression need, and when the run is over.
use kluster_capacity.Base.{
  ◌⊎◌, inl, inr, refl, ℕ, ◌+◌, ◌*◌, ◌<◌, ◌≡◌, ◌≢◌, sym, subst, All, String, ◌<>◌, Bool, true, false,
  not, ◌&&◌, List, [], ◌∷◌, Option, none, some, ltb, eqb, length, if◌then◌else◌,
}
use kluster_capacity.Base.Safe.{
  Safe, >>=-Safe, pure-Safe, if-Safe, modify-Safe, attempt-Safe, on_error-Safe,
}
use kluster_capacity.Base.Monad.{
  Result, ok, err, panic, continue, caught, stuck, Action, ◌>>=◌, ◌>>◌, pure, modify, attempt,
  on_error,
}
use kluster_capacity.Kube.{Pod, PodCondition}
use kluster_capacity.Env.{Env}
use kluster_capacity.Env.Answers.{Answers}
use kluster_capacity.Env.Laws.{NodeLaws}
use kluster_capacity.Framework.Control.{update_status, run, after_init, wait}
use kluster_capacity.Plugin.{post_bind}
use kluster_capacity.Pods.{has_annotation}
use kluster_capacity.Status.{pod_provisioner, scheduler_count_inc}
use kluster_capacity.Watch.{Event, bound, updated, is_handled, is_unschedulable}
use kluster_capacity.Compression.Cluster.{uncordon, update_pods_from_created_pods}
use kluster_capacity.Compression.Effects.{world}
use kluster_capacity.Compression.Executor.{run_simulator}
use kluster_capacity.Compression.Labels.{Unique}
use kluster_capacity.Compression.Filter.{node_scaled_down_failed_label}
use kluster_capacity.Compression.Runs.{LeavesNodes, Step, handled, outside, take_step, take_steps}
use kluster_capacity.Compression.Runs.World.{uncordon-Safe, update_pods_from_created_pods-Safe}
use kluster_capacity.Compression.Runs.Selection.{
  InBounds, in_world-Safe, stop_simulator-Safe, label_node-Safe, create_next_pod-Safe,
  scale_down-Safe, select_next_node-Safe,
}
use kluster_capacity.Compression.Simulator.{
  Simulator, Hook, post_bind_hook_of, failed_select_node, in_world, stop_simulator, create_next_pod,
  scale_down, label_current, select_next_node,
}
use kluster_capacity.Compression.Events.{
  limit_reached, is_limited, stop_unselected, move_on, after_bind, count_bind, post_bind_hook,
  stop_with, uncordon_if, count_failure, roll_back, uncordon_current, try_stop_unselected,
  give_up_node, on_conditions, update_func, hook_of, handle,
}

module _ (e : Env) (laws : NodeLaws e) (answers : Answers e) (k fuel : ℕ)
    (enough : k * (k + 1) + k < fuel) where
  open e use {World}
  open laws use {nodes}

  abbrev Kept : {A : Type 0} → Action (Simulator World) A → Type 0
  Kept m = Safe (InBounds e laws answers k) m

  abbrev Bounds : Simulator World → Type 0
  Bounds = InBounds e laws answers k

  stop-Kept : (reason : String) → Kept (stop_simulator e reason)
  stop-Kept = stop_simulator-Safe e laws answers k

  -- `_ = s.Stop(…)`
  dropped-Kept : (reason : String) → Kept (attempt (stop_simulator e reason) >>= λ _. pure tt)
  dropped-Kept reason =
      >>=-Safe Bounds (attempt (stop_simulator e reason)) (λ _. pure tt)
        (attempt-Safe Bounds (stop_simulator e reason) (stop-Kept reason))
        (λ _. pure-Safe Bounds tt)

  select-Kept : Kept (select_next_node e fuel)
  select-Kept = select_next_node-Safe e laws answers k fuel enough

  -- A selection, whose error is handled.
  select_or-Kept :
      (h : String → Action (Simulator World) (Unit {0}))
      → ((m : String) → Kept (h m))
      → Kept (attempt (select_next_node e fuel) >>= λ failed. on_error failed h)
  select_or-Kept h kept =
      >>=-Safe Bounds (attempt (select_next_node e fuel)) (λ failed. on_error failed h)
        (attempt-Safe Bounds (select_next_node e fuel) select-Kept)
        (λ failed. on_error-Safe Bounds failed h kept)

  move_on-Kept : Kept (move_on e fuel)
  unfolding move_on
  move_on-Kept =
      >>=-Safe Bounds (scale_down e)
        (λ _.
          attempt (select_next_node e fuel) >>= λ failed. on_error failed (stop_unselected e fuel))
        (scale_down-Safe e laws answers k)
        (λ _.
          select_or-Kept (stop_unselected e fuel)
            (λ m. stop-Kept (failed_select_node <> (", " <> m))))

  post_bind_hook-Kept : (p : Pod) → Kept (post_bind_hook e fuel p)
  unfolding post_bind_hook
  post_bind_hook-Kept p s =
      if-Safe Bounds (is_limited s) (stop_simulator e (limit_reached s.max_simulated))
        (modify (count_bind e fuel) >> after_bind e fuel)
        (stop-Kept (limit_reached s.max_simulated))
        (>>=-Safe Bounds (modify (count_bind e fuel)) (λ _. after_bind e fuel)
          (modify-Safe Bounds (count_bind e fuel) (λ t p'. p'))
          (λ _ t.
            let all_created = eqb t.bind_success_pod_count (length t.created_pods) in
            if-Safe Bounds
              (ltb 0 (length t.created_pods) && ltb t.create_pod_index (length t.created_pods))
              (create_next_pod e) (if all_created then move_on e fuel else pure tt)
              (create_next_pod-Safe e laws answers k)
              (if-Safe Bounds all_created (move_on e fuel) (pure tt) move_on-Kept
                (pure-Safe Bounds tt))
              t))
        s

  -- `err = m(); if err != nil { err = s.Stop(…) }`
  or_stop-Kept :
      (m : Action (Simulator World) (Unit {0})) (prefix : String)
      → Kept m
      → Kept (attempt m >>= stop_with e fuel prefix)
  or_stop-Kept m prefix h =
      >>=-Safe Bounds (attempt m) (stop_with e fuel prefix) (attempt-Safe Bounds m h) (λ failed.
        on_error-Safe Bounds failed
          (λ text. attempt (stop_simulator e (prefix <> text)) >>= λ _. pure tt)
          (λ text. dropped-Kept (prefix <> text)))

  roll_back-Kept : Kept (roll_back e fuel)
  roll_back-Kept s =
      let m = update_pods_from_created_pods e s.create_pod_index s.created_pods in
      or_stop-Kept (in_world e m) "FailedDeletePodsFromCreatedPods: "
        (in_world-Safe e laws answers k m
          (update_pods_from_created_pods-Safe e laws answers k s.create_pod_index s.created_pods))
        s

  uncordon_if-Kept : (b : Bool) (name : String) → Kept (uncordon_if e fuel b name)
  uncordon_if-Kept true name =
      or_stop-Kept (in_world e (uncordon e name)) "FailedUnCordon: "
        (in_world-Safe e laws answers k (uncordon e name) (uncordon-Safe e laws answers k name))
  uncordon_if-Kept false name = pure-Safe Bounds tt

  give_up_node-Kept : Kept (give_up_node e fuel)
  unfolding give_up_node
  give_up_node-Kept =
      let select_again = attempt (select_next_node e fuel) >>= λ failed.
      on_error failed (try_stop_unselected e fuel) in
      let label = label_current e node_scaled_down_failed_label in
      >>=-Safe Bounds (modify (count_failure e fuel))
        (λ _. roll_back e fuel >> (uncordon_current e fuel >> (label >> select_again)))
        (modify-Safe Bounds (count_failure e fuel) (λ s p. p))
        (λ _.
          >>=-Safe Bounds (roll_back e fuel)
            (λ _. uncordon_current e fuel >> (label >> select_again)) roll_back-Kept
            (λ _.
              >>=-Safe Bounds (uncordon_current e fuel) (λ _. label >> select_again)
                (λ s. uncordon_if-Kept (not s.current_node_unschedulable) s.current_node s)
                (λ _.
                  >>=-Safe Bounds label (λ _. select_again)
                    (λ s.
                      label_node-Safe e laws answers k s.current_node node_scaled_down_failed_label
                        s)
                    (λ _.
                      select_or-Kept (try_stop_unselected e fuel)
                        (λ m. dropped-Kept (failed_select_node <> (", " <> m)))))))

  on_conditions-Kept : (cs : List PodCondition) → Kept (on_conditions e fuel cs)
  unfolding on_conditions
  on_conditions-Kept [] = pure-Safe Bounds tt
  on_conditions-Kept (c ∷ cs) =
      let rest = on_conditions e fuel cs in
      if-Safe Bounds (is_unschedulable c) (give_up_node e fuel >> rest) rest
        (>>=-Safe Bounds (give_up_node e fuel) (λ _. rest) give_up_node-Kept
          (λ _. on_conditions-Kept cs))
        (on_conditions-Kept cs)

  call_hook-Kept :
      (hook : Option Hook) (p : Pod)
      → Kept (
          post_bind
            (λ g t. record t { framework = update_status g t.framework })
            (hook_of e fuel hook)
            p)
  unfolding post_bind
  call_hook-Kept none p = pure-Safe Bounds tt
  call_hook-Kept (some post_bind_hook_of) p =
      let count = λ (t : Simulator World). record t {
        framework = update_status scheduler_count_inc t.framework;
      } in
      let called = attempt (post_bind_hook e fuel p) >>= λ failed. pure tt in
      if-Safe Bounds (has_annotation p pod_provisioner) (modify count >> called) (pure tt)
        (>>=-Safe Bounds (modify count) (λ _. called) (modify-Safe Bounds count (λ s p'. p'))
          (λ _.
            >>=-Safe Bounds (attempt (post_bind_hook e fuel p)) (λ failed. pure tt)
              (attempt-Safe Bounds (post_bind_hook e fuel p) (post_bind_hook-Kept p))
              (λ failed. pure-Safe Bounds tt)))
        (pure-Safe Bounds tt)

  handle-Kept : (ev : Event) → Kept (handle e fuel ev)
  unfolding handle update_func
  handle-Kept (bound p) s = call_hook-Kept s.framework.post_bind_hook p s
  handle-Kept (updated p) s =
      if-Safe Bounds (is_handled p) (on_conditions e fuel p.status.conditions) (pure tt)
        (on_conditions-Kept p.status.conditions) (pure-Safe Bounds tt) s

  take_step-Kept : (step : Step World) → LeavesNodes e laws step → Kept (take_step e fuel step)
  take_step-Kept (handled ev) h s p = handle-Kept ev s p
  take_step-Kept (outside f) h s p =
      (λ x. cc x, (subst (λ ns. Unique ns × (length ns ≡ k)) (sym (h (world s))) p.0, p.1))

  take_steps-Kept :
      (steps : List (Step World)) → All (LeavesNodes e laws) steps → Kept (take_steps e fuel steps)
  unfolding take_steps
  take_steps-Kept [] h = pure-Safe Bounds tt
  take_steps-Kept (step ∷ steps) h =
      >>=-Safe Bounds (take_step e fuel step) (λ _. take_steps e fuel steps)
        (take_step-Kept step h.0) (λ _. take_steps-Kept steps h.1)

  abbrev stopped_in : Simulator World → Bool
  stopped_in s = s.framework.stop_ch

  -- The call has returned, or it waits and the channel is open.
  abbrev IsOver : Result (Unit {0}) × Simulator World → Type 0
  IsOver x = ((x.0 ≢ stuck) ⊎ (x.1.framework.stop_ch ≡ false)) × Bounds x.1

  wait-IsOver :
      (steps : List (Step World)) (s : Simulator World)
      → Bounds s
      → IsOver (wait stopped_in (stop_simulator e) (take_steps e fuel steps) s)
  wait-IsOver steps s bounds = go s.framework.stop_ch refl
    where
      go : (b : Bool) → s.framework.stop_ch ≡ b → IsOver (if b then (ok tt, s) else (stuck, s))
      go true e' = (inl (λ x. cc x), bounds)
      go false e' = (inr e', bounds)

  steps-IsOver :
      (steps : List (Step World)) (x : Result (Unit {0}) × Simulator World)
      → (x.0 ≢ stuck) × Bounds x.1
      → IsOver (
          continue
            (λ dropped. wait stopped_in (stop_simulator e) (take_steps e fuel steps))
            (caught x))
  steps-IsOver steps (ok u, t) (live, bounds) = wait-IsOver steps t bounds
  steps-IsOver steps (err m, t) (live, bounds) = wait-IsOver steps t bounds
  steps-IsOver steps (panic, t) (live, bounds) = (inl live, bounds)
  steps-IsOver steps (stuck, t) (live, bounds) = absurd (live refl)

  init-IsOver :
      (steps : List (Step World)) (x : Result (Unit {0}) × Simulator World)
      → All (LeavesNodes e laws) steps
      → (x.0 ≢ stuck) × Bounds x.1
      → IsOver
          (continue (after_init stopped_in (stop_simulator e) (take_steps e fuel steps)) (caught x))
  init-IsOver steps (ok u, t) h (live, bounds) =
      steps-IsOver steps (take_steps e fuel steps t) (take_steps-Kept steps h t bounds)
  init-IsOver steps (err m, t) h (live, bounds) =
      let (live', kept) = stop-Kept ("FailedRunInit: : " <> m) t bounds in (inl live', kept)
  init-IsOver steps (panic, t) h (live, bounds) = (inl live, bounds)
  init-IsOver steps (stuck, t) h (live, bounds) = absurd (live refl)

  -- The first selection and the steps after it return, and the call is over.
  run_simulator-IsOver :
      (steps : List (Step World)) (s : Simulator World)
      → All (LeavesNodes e laws) steps
      → Bounds s
      → ((select_next_node e fuel s).0 ≢ stuck)
        × ((take_steps e fuel steps (select_next_node e fuel s).1).0 ≢ stuck)
        × IsOver (run_simulator e fuel (take_steps e fuel steps) s)
  unfolding run_simulator run
  run_simulator-IsOver steps s h bounds =
      let (live, kept) = select-Kept s bounds in
      (
        live,
        (take_steps-Kept steps h (select_next_node e fuel s).1 kept).0,
        init-IsOver steps (select_next_node e fuel s) h (live, kept),
      )

module _ (e : Env) (laws : NodeLaws e) (answers : Answers e) where
  open e use {World}
  open laws use {nodes}

  -- Every selection of a run of the compression returns, whatever the scheduler binds and fails to bind, in whatever
  -- order, and whatever it writes in between but nodes. Let there be k nodes with unique names, no more candidates
  -- than nodes, and let the calls to the outside answer. Then no selection needs more than k * (k + 1) + k calls of
  -- itself: with more fuel than that neither the first selection nor a step after it runs out of fuel, with or
  -- without errors on the way. So the run itself returns, unless it waits on the stop channel and the channel is still
  -- open after all steps. There are k nodes with unique names and no more candidates again.
  pub run_simulator-returns :
      (k fuel : ℕ) (steps : List (Step World)) (s : Simulator World)
      → InBounds e laws answers k s
      → k * (k + 1) + k < fuel
      → All (LeavesNodes e laws) steps
      → ((select_next_node e fuel s).0 ≢ stuck)
        × ((take_steps e fuel steps (select_next_node e fuel s).1).0 ≢ stuck)
        × (((run_simulator e fuel (take_steps e fuel steps) s).0 ≢ stuck)
            ⊎ ((run_simulator e fuel (take_steps e fuel steps) s).1.framework.stop_ch ≡ false))
        × InBounds e laws answers k (run_simulator e fuel (take_steps e fuel steps) s).1
  run_simulator-returns k fuel steps s bounds enough h =
      let (first, rest, (over, bounds')) =
        run_simulator-IsOver e laws answers k fuel enough steps s h bounds in
      (first, rest, over, bounds')
