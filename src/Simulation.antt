-- ===== src/Simulation.antt =====
-- pkg/simulator/schedulersimulation: all pods are scheduled anew, until each has been scheduled, or tried.
pub mod Ends
pub mod Exit
pub mod Executor
pub mod Report
mod Tests
use kluster_capacity.Base.{
  ℕ, ◌+◌, String, ◌<>◌, Bool, true, false, not, ◌&&◌, List, [], ◌∷◌, Option, none, some, any,
  keep_if, length, eqb, ◌==◌, if◌then◌else◌,
}
use kluster_capacity.Base.Text.{show_nat}
use kluster_capacity.Base.Monad.{Action, ◌>>=◌, pure, attempt}
use kluster_capacity.Kube.{Pod, PodCondition}
use kluster_capacity.Env.{Env}
use kluster_capacity.Framework.{
  Framework, Settings, with_node_images, with_scheduled_pods, with_terminating_pods,
  with_exclude_nodes, with_save_to,
}
use kluster_capacity.Framework.Control.{stop, run}

abbrev pub exit_when_all_scheduled : String
exit_when_all_scheduled = "AllScheduled"

abbrev pub exit_when_all_succeed : String
exit_when_all_succeed = "AllSucceed"

-- A sync.Map used as a set: its keys, each once.
abbrev pub holds : String → List String → Bool
holds key keys = any (λ k. k == key) keys

unfoldable pub store : String → List String → List String
store key keys = if holds key keys then keys else key ∷ keys

abbrev pub delete : String → List String → List String
delete key keys = keep_if (λ k. not (k == key)) keys

-- The variables of addEventHandlers.
pub record Tracker : Type 0 where
  pub succeed_pods : List String
  pub failed_pods : List String
  pub count : ℕ

abbrev pub no_pods : Tracker
no_pods = record { succeed_pods = []; failed_pods = []; count = 0 }

abbrev pub key_of : Pod → String
key_of p = p.namespace <> ("/" <> p.name)

-- `len(pod.Spec.NodeName) > 0`
abbrev pub is_bound : Pod → Bool
is_bound p = not (p.spec.node_name == "")

abbrev pub is_unscheduled : PodCondition → Bool
is_unscheduled c = c.type == "PodScheduled" && c.status == "False"

-- AddFunc
unfoldable pub add_func : Pod → Tracker → Tracker
unfolding store
add_func p t = record t {
  succeed_pods = (if is_bound p then store (key_of p) t.succeed_pods else t.succeed_pods);
  count = t.count + 1;
}

unfoldable pub store_failed : String → List PodCondition → List String → List String
unfolding store
store_failed key [] failed = failed
store_failed key (c ∷ cs) failed =
    store_failed key cs (if is_unscheduled c then store key failed else failed)

-- UpdateFunc up to the counting.
unfoldable pub track_update : Pod → Tracker → Tracker
unfolding store store_failed
track_update p t =
    if is_bound p
    then record t {
      succeed_pods = store (key_of p) t.succeed_pods;
      failed_pods = delete (key_of p) t.failed_pods;
    }
    else record t { failed_pods = store_failed (key_of p) p.status.conditions t.failed_pods }

-- The rest of UpdateFunc: the reason to stop, if there is one.
unfoldable pub exit_reason : (exit_condition : String) → Tracker → Option String
exit_reason condition t =
    if condition == exit_when_all_scheduled
      && eqb (length t.succeed_pods + length t.failed_pods) t.count
    then some ("AllScheduled: " <> (show_nat t.count <> " pod(s) have been scheduled once."))
    else if condition == exit_when_all_succeed && eqb (length t.succeed_pods) t.count
    then some ("AllSucceed: " <> (show_nat t.count <> " pod(s) have been scheduled successfully."))
    else none

-- The simulator registers no hook.
pub data Hook : Type 0 where

pub record Simulator (W : Type 0) : Type 0 where
  pub framework : Framework W Hook
  pub exit_condition : String
  pub tracker : Tracker

-- What the informer of the pods reports.
pub data Event : Type 0 where
  added : Pod → Event
  updated : Pod → Event

-- The options that NewSSSimulatorExecutor gives to the framework.
abbrev pub framework_options :
    {W : Type 0}
    → (exclude : List String) → (save_to : String) → List (Settings W Hook → Settings W Hook)
framework_options exclude save_to =
    with_node_images false
    ∷ with_scheduled_pods false
    ∷ with_terminating_pods false
    ∷ with_exclude_nodes exclude
    ∷ with_save_to save_to
    ∷ []

module _ (e : Env) where
  open e use {World}

  unfoldable pub stop_simulator : String → Action (Simulator World) (Unit {0})
  stop_simulator reason s =
      let (r, f) = stop e reason s.framework in (r, record s { framework = f })

  -- `if stop { err = s.Stop(…) }`, where the error is dropped.
  abbrev pub stop_if : Option String → Action (Simulator World) (Unit {0})
  stop_if none = pure tt
  stop_if (some reason) = attempt (stop_simulator reason) >>= λ failed. pure tt

  abbrev pub tracking : (Tracker → Tracker) → Simulator World → Simulator World
  tracking f s = record s { tracker = f s.tracker }

  unfoldable pub handle : Event → Action (Simulator World) (Unit {0})
  unfolding add_func track_update exit_reason stop_simulator
  handle (added p) s = (pure tt) (tracking (add_func p) s)
  handle (updated p) s =
      let t = tracking (track_update p) s in stop_if (exit_reason t.exit_condition t.tracker) t

  -- `s.Framework.Run(nil)`
  unfoldable pub run_simulator :
      Action (Simulator World) (Unit {0}) → Action (Simulator World) (Unit {0})
  unfolding stop_simulator run
  run_simulator schedule = run (λ s. s.framework.stop_ch) stop_simulator schedule none
