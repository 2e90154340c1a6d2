-- ===== src/Estimation.antt =====
-- pkg/simulator/capacityestimation: copies of one pod are created, each when the last has been bound, until
-- one cannot be scheduled or a limit is reached.
pub mod Limit
pub mod Executor
pub mod Names
pub mod Report
pub mod Samples
mod Tests
use kluster_capacity.Base.{
  ℕ, ◌+◌, ◌%◌, ◌^◌, String, ◌<>◌, Bool, ◌&&◌, List, [], ◌∷◌, Option, none, some, ltb, leb,
  if◌then◌else◌,
}
use kluster_capacity.Base.Text.{show_nat}
use kluster_capacity.Base.Monad.{
  Result, ok, err, panic, stuck, Action, ◌>>=◌, ◌>>◌, pure, raise, modify, attempt, on_error,
}
use kluster_capacity.Kube.{Pod, PodCondition, Object}
use kluster_capacity.Env.{Env}
use kluster_capacity.Pods.{init_pod}
use kluster_capacity.Plugin.{post_bind}
use kluster_capacity.Watch.{Event, bound, updated, is_handled, is_unschedulable}
use kluster_capacity.Framework.{Framework, Settings, with_exclude_nodes, with_post_bind_hook}
use kluster_capacity.Framework.Admission.{initialize}
use kluster_capacity.Framework.Control.{update_status, update_estimation_pods, create, stop, run}

-- singlePodGenerator: the counter is a uint.
pub record Generator : Type 0 where
  pub counter : ℕ
  pub pod_template : Pod

-- The only hook is the method postBindHook.
pub data Hook : Type 0 where
  post_bind_hook_of : Hook

pub record Simulator (W : Type 0) : Type 0 where
  pub framework : Framework W Hook
  pub pod_generator : Generator
  pub simulated_pod : Pod
  pub max_simulated : ℕ  -- a limit below 1 is no limit
  pub simulated : ℕ

abbrev pub limit_reached : ℕ → String
limit_reached n = "LimitReached: Maximum number of pods simulated: " <> show_nat n

abbrev pub is_limited : {W : Type 0} → Simulator W → Bool
is_limited s = ltb 0 s.max_simulated && leb s.max_simulated s.simulated

abbrev pub estimate : {W : Type 0} → Pod → Simulator W → Simulator W
estimate p s = record s { framework = update_estimation_pods (p ∷ []) s.framework }

abbrev pub count_pod : {W : Type 0} → Generator → Simulator W → Simulator W
count_pod g s = record s { pod_generator = g; simulated = s.simulated + 1 }

-- `NewSinglePodGenerator(pod)`
unfoldable pub new_single_pod_generator : Pod → Generator
new_single_pod_generator p = record { counter = 0; pod_template = p }

-- The options that NewCESimulatorExecutor gives to the framework.
abbrev pub framework_options : {W : Type 0} → List String → List (Settings W Hook → Settings W Hook)
framework_options exclude = with_exclude_nodes exclude ∷ with_post_bind_hook post_bind_hook_of ∷ []

unfoldable pub new_simulator : {W : Type 0} → Framework W Hook → (max_limit : ℕ) → Pod → Simulator W
unfolding new_single_pod_generator
new_simulator f max_limit p = record {
  framework = f;
  pod_generator = new_single_pod_generator p;
  simulated_pod = p;
  max_simulated = max_limit;
  simulated = 0;
}

module _ (e : Env) where
  open e use {World}

  unfoldable pub generate : World → Generator → Pod × Generator
  unfolding init_pod
  generate w g = (
    record (init_pod e w g.pod_template) {
      name = g.pod_template.name <> ("-" <> show_nat g.counter);
    },
    record g { counter = (g.counter + 1) % 2 ^ 64 },
  )

  abbrev pub on_framework :
      {A : Type 0} → Action (Framework World Hook) A → Action (Simulator World) A
  on_framework m s = let (r, f) = m s.framework in (r, record s { framework = f })

  unfoldable pub stop_simulator : String → Action (Simulator World) (Unit {0})
  stop_simulator reason = on_framework (stop e reason)

  unfoldable pub create_next_pod : Action (Simulator World) (Unit {0})
  unfolding generate create
  create_next_pod s =
      let (p, g) = generate s.framework.world s.pod_generator in
      on_framework (create e p) (count_pod g s)

  abbrev pub wrap_error : String → Action (Simulator World) (Unit {0})
  wrap_error m = raise ("unable to create next pod for simulated scheduling: " <> m)

  abbrev pub create_or_wrap : Action (Simulator World) (Unit {0})
  create_or_wrap = attempt create_next_pod >>= λ failed. on_error failed wrap_error

  abbrev pub after_bind : Action (Simulator World) (Unit {0})
  after_bind s =
      (if is_limited s then stop_simulator (limit_reached s.max_simulated) else create_or_wrap) s

  unfoldable pub post_bind_hook : Pod → Action (Simulator World) (Unit {0})
  unfolding stop_simulator create_next_pod
  post_bind_hook p = modify (estimate p) >> after_bind

  -- `err = s.Stop(…)`: the error is dropped.
  abbrev pub stop_unscheduled : PodCondition → Action (Simulator World) (Unit {0})
  stop_unscheduled c =
      attempt (stop_simulator (c.reason <> (": " <> c.message))) >>= λ failed. pure tt

  unfoldable pub on_conditions : List PodCondition → Action (Simulator World) (Unit {0})
  unfolding stop_simulator
  on_conditions [] = pure tt
  on_conditions (c ∷ cs) =
      let rest = on_conditions cs in if is_unschedulable c then stop_unscheduled c >> rest else rest

  unfoldable pub update_func : Pod → Action (Simulator World) (Unit {0})
  unfolding on_conditions
  update_func p = if is_handled p then on_conditions p.status.conditions else pure tt

  abbrev pub hook_of : Option Hook → Option (Pod → Action (Simulator World) (Unit {0}))
  hook_of none = none
  hook_of (some post_bind_hook_of) = some post_bind_hook

  unfoldable pub handle : Event → Action (Simulator World) (Unit {0})
  unfolding post_bind_hook update_func post_bind
  handle (bound p) s =
      post_bind (λ g t. record t { framework = update_status g t.framework })
        (hook_of s.framework.post_bind_hook) p s
  handle (updated p) s = update_func p s

  -- `s.Framework.Run(s.createNextPod)`, where `schedule` is what the scheduler does.
  unfoldable pub run_simulator :
      Action (Simulator World) (Unit {0}) → Action (Simulator World) (Unit {0})
  unfolding create_next_pod stop_simulator run
  run_simulator schedule =
      run (λ s. s.framework.stop_ch) stop_simulator schedule (some create_next_pod)

  -- The simulators of all pods are filled with the same objects, up to the first error.
  unfoldable pub initialize_all :
      List (Result Object)
      → List Object
      → List (Simulator World)
      → Result (Unit {0}) × List (Simulator World)
  unfolding initialize
  initialize_all cluster objs [] = (ok tt, [])
  initialize_all cluster objs (s ∷ ss) =
      let (r, t) = on_framework (initialize e cluster objs) s in
      let (q, ts) = initialize_all cluster objs ss in
      elim r [
        | ok u ↦ (q, t ∷ ts)
        | err m ↦ (err m, t ∷ ss)
        | panic ↦ (panic, t ∷ ss)
        | stuck ↦ (stuck, t ∷ ss)
      ]
