-- ===== src/Simulation/Ends.antt =====
-- A simulation that waits for all pods to be bound stops when they are.
use kluster_capacity.Base.{
  String, ◌≡◌, refl, ap, ◌∙◌, true, List, [], ◌∷◌, ◌++◌, Option, none, some, any, Bool-cases, inl,
  inr,
}
use kluster_capacity.Base.Dict.{is_some}
use kluster_capacity.Base.Monad.{Result, ok, Action, ◌>>◌, pure, >>=-ok, continue, caught}
use kluster_capacity.Kube.{Pod, Node}
use kluster_capacity.Env.{Env}
use kluster_capacity.Framework.{Framework}
use kluster_capacity.Framework.Control.{stop}
use kluster_capacity.Framework.Control.Done.{stocked, stop_done}
use kluster_capacity.Framework.Control.Stop.{IsConsistent, closed, stop-stopped}
use kluster_capacity.Simulation.{
  Simulator, Hook, Event, added, updated, Tracker, no_pods, add_func, track_update, exit_reason,
  exit_when_all_succeed, exit_when_all_scheduled, handle, holds, stop_simulator, stop_if, tracking,
}
use kluster_capacity.Simulation.Exit.{
  NoDup, track, added_keys, is_seen, all_seen, exit_reason-all_seen_iff,
}
use kluster_capacity.Simulation.Exit.Apart.{is_tried, InOrder}
use kluster_capacity.Simulation.Exit.Tried.{all_tried, exit_reason-all_tried_iff}

module _ (e : Env) where
  open e use {World}

  -- The events in their order.
  abbrev pub handle_all : List Event → Action (Simulator World) (Unit {0})
  handle_all [] = pure tt
  handle_all (ev ∷ es) = let rest = handle_all es in handle e ev >> rest

  -- The nodes and pods can be listed, nothing is saved, and this is the exit condition.
  pub record IsReady (condition : String) (s : Simulator World) (ns : List Node) (ps : List Pod)
      : Type 0 where
    pub consistent : IsConsistent s.framework
    pub unsaved : s.framework.save_to ≡ ""
    pub nodes_listed : e.list_nodes s.framework.world ≡ ok ns
    pub pods_listed : e.list_pods s.framework.world ≡ ok ps
    pub exits : s.exit_condition ≡ condition

  module _ (condition : String) (ns : List Node) (ps : List Pod) where
    -- A step from a state that is ready: it returns no error, and leads to such a state again.
    abbrev Steps : Action (Simulator World) (Unit {0}) → Simulator World → Tracker → Type 0
    Steps m s tracker =
        (t : Simulator World) × (m s ≡ (ok tt, t))
        × IsReady condition t ns ps
        × (t.tracker ≡ tracker)

    stop_simulator-done :
        (reason : String) (s : Simulator World)
        → IsReady condition s ns ps
        → (f : Framework World Hook) × (stop e reason s.framework ≡ (ok tt, f))
          × (f.stopped ≡ true)
          × IsReady condition (record s { framework = f }) ns ps
    stop_simulator-done reason s r = elim (Bool-cases s.framework.stopped) [
      | inl over ↦ (s.framework, stop-stopped e reason s.framework over, over, r)
      | inr running ↦ (
        closed (stocked e ns ps reason s.framework),
        stop_done e ns ps reason s.framework r.consistent running r.unsaved r.nodes_listed
            r.pods_listed,
        refl,
        record {
          consistent = record { stop_ch = refl; informer_ch = refl; scheduler_ch = refl };
          unsaved = r.unsaved;
          nodes_listed = r.nodes_listed;
          pods_listed = r.pods_listed;
          exits = r.exits;
        },
      )
    ]

    stop_if_lem :
        (o : Option String) (s : Simulator World)
        → IsReady condition s ns ps
        → (t : Simulator World) × (stop_if e o s ≡ (ok tt, t))
          × IsReady condition t ns ps
          × (t.tracker ≡ s.tracker)
          × (is_some o ≡ true → t.framework.stopped ≡ true)
    unfolding stop_simulator
    stop_if_lem none s r = (s, refl, r, refl, λ h. cc h)
    stop_if_lem (some reason) s r =
        let (f, done, over, ready) = stop_simulator-done reason s r in
        (
          record s { framework = f },
          ap
              (λ (x : Result (Unit {0}) × Framework World Hook).
                continue (λ failed. pure tt) (caught (x.0, record s { framework = x.1 })))
              done,
          ready,
          refl,
          λ h. over,
        )

    handle-added :
        (p : Pod) (s : Simulator World)
        → IsReady condition s ns ps
        → Steps (handle e (added p)) s (add_func p s.tracker)
    unfolding handle
    handle-added p s r = (
      tracking e (add_func p) s,
      refl,
      record {
        consistent = r.consistent;
        unsaved = r.unsaved;
        nodes_listed = r.nodes_listed;
        pods_listed = r.pods_listed;
        exits = r.exits;
      },
      refl,
    )

    handle-updated :
        (p : Pod) (s : Simulator World)
        → IsReady condition s ns ps
        → (step : Steps (handle e (updated p)) s (track_update p s.tracker)) × (is_some
                (exit_reason condition (track_update p s.tracker))
              ≡ true
            → step.0.framework.stopped ≡ true)
    unfolding handle
    handle-updated p s r =
        let t = tracking e (track_update p) s in
        let ready : IsReady condition t ns ps = record {
          consistent = r.consistent;
          unsaved = r.unsaved;
          nodes_listed = r.nodes_listed;
          pods_listed = r.pods_listed;
          exits = r.exits;
        } in
        let (u, stopped, ready', same, over) =
          stop_if_lem (exit_reason s.exit_condition (track_update p s.tracker)) t ready in
        (
          (u, stopped, ready', same),
          λ h. over (ap (λ c. is_some (exit_reason c (track_update p s.tracker))) r.exits ∙ h),
        )

    handle_all-last :
        (es : List Event) (p : Pod) (s : Simulator World)
        → IsReady condition s ns ps
        → (t : Simulator World) × (handle_all (es ++ (updated p ∷ [])) s ≡ (ok tt, t))
          × (is_some (exit_reason condition (track (es ++ (updated p ∷ [])) s.tracker)) ≡ true
              → t.framework.stopped ≡ true)
    handle_all-last [] p s r =
        let ((t, step, ready, same), over) = handle-updated p s r in
        (t, >>=-ok (handle e (updated p)) (λ _. pure tt) s t step, over)
    handle_all-last (added q ∷ es) p s r =
        let (u, step, ready, same) = handle-added q s r in
        let (t, rest, over) = handle_all-last es p u ready in
        (
          t,
          >>=-ok (handle e (added q)) (λ _. handle_all (es ++ (updated p ∷ []))) s u step ∙ rest,
          λ h. over (
              ap (λ k. is_some (exit_reason condition (track (es ++ (updated p ∷ [])) k))) same
              ∙ h),
        )
    handle_all-last (updated q ∷ es) p s r =
        let ((u, step, ready, same), early) = handle-updated q s r in
        let (t, rest, over) = handle_all-last es p u ready in
        (
          t,
          >>=-ok (handle e (updated q)) (λ _. handle_all (es ++ (updated p ∷ []))) s u step ∙ rest,
          λ h. over (
              ap (λ k. is_some (exit_reason condition (track (es ++ (updated p ∷ [])) k))) same
              ∙ h),
        )

    -- After an update that gives a reason to stop, the simulation has stopped.
    stops :
        (es : List Event) (p : Pod) (s : Simulator World)
        → IsReady condition s ns ps
        → s.tracker ≡ no_pods
        → is_some (exit_reason condition (track (es ++ (updated p ∷ [])) no_pods)) ≡ true
        → (t : Simulator World) × (handle_all (es ++ (updated p ∷ [])) s ≡ (ok tt, t))
          × (t.framework.stopped ≡ true)
    stops es p s r fresh reason =
        let all = es ++ (updated p ∷ []) in
        let (t, ran, over) = handle_all-last es p s r in
        (t, ran, over (ap (λ k. is_some (exit_reason condition (track all k))) fresh ∙ reason))

  module _ (ns : List Node) (ps : List Pod) where
    -- A simulation with the exit condition AllSucceed stops. It starts with no pod, can list the nodes and the
    -- pods, and saves nothing; no two pods are added under one key, and only pods that have been added are seen on a
    -- node. Once an update comes after which each of them has been seen on a node, all handlers have returned
    -- without an error and the simulation has stopped.
    pub handle_all-stops :
        (es : List Event) (p : Pod) (s : Simulator World)
        → IsReady exit_when_all_succeed s ns ps
        → s.tracker ≡ no_pods
        → NoDup (added_keys (es ++ (updated p ∷ [])))
        → ((k : String)
            → any (is_seen k) (es ++ (updated p ∷ [])) ≡ true
            → holds k (added_keys (es ++ (updated p ∷ []))) ≡ true)
        → all_seen (es ++ (updated p ∷ [])) ≡ true
        → (t : Simulator World) × (handle_all (es ++ (updated p ∷ [])) s ≡ (ok tt, t))
          × (t.framework.stopped ≡ true)
    handle_all-stops es p s r fresh unique known seen =
        stops exit_when_all_succeed ns ps es p s r fresh
          ((exit_reason-all_seen_iff (es ++ (updated p ∷ [])) unique known).1 seen)

    -- A simulation with the exit condition AllScheduled stops. It starts with no pod, can list the nodes and the
    -- pods, and saves nothing; no two pods are added under one key, only pods that have been added are tried, a pod that
    -- has been seen on a node is not refused later, and one that was refused is not added later. Once an update comes
    -- after which each of them has been seen on a node or refused, all handlers have returned without an error and the
    -- simulation has stopped.
    pub handle_all-stops_tried :
        (es : List Event) (p : Pod) (s : Simulator World)
        → IsReady exit_when_all_scheduled s ns ps
        → s.tracker ≡ no_pods
        → NoDup (added_keys (es ++ (updated p ∷ [])))
        → ((k : String)
            → any (is_tried k) (es ++ (updated p ∷ [])) ≡ true
            → holds k (added_keys (es ++ (updated p ∷ []))) ≡ true)
        → InOrder (es ++ (updated p ∷ []))
        → all_tried (es ++ (updated p ∷ [])) ≡ true
        → (t : Simulator World) × (handle_all (es ++ (updated p ∷ [])) s ≡ (ok tt, t))
          × (t.framework.stopped ≡ true)
    handle_all-stops_tried es p s r fresh unique known order tried =
        stops exit_when_all_scheduled ns ps es p s r fresh
          ((exit_reason-all_tried_iff (es ++ (updated p ∷ [])) unique known order).1 tried)
