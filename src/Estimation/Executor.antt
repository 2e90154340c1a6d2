-- ===== src/Estimation/Executor.antt =====
-- NewCESimulatorExecutor and the methods of multiSimulator: a simulator for each pod, which run at the same time.
pub mod Laws
pub mod Slots
mod Tests
use kluster_capacity.Base.{
  ℕ, suc, ◌+◌, String, List, [], ◌∷◌, ◌++◌, Option, none, some, get_elem?, set, length,
}
use kluster_capacity.Base.Monad.{
  Result, ok, err, panic, stuck, Action, ◌>>=◌, ◌>>◌, pure, crash, modify,
}
use kluster_capacity.Kube.{Pod, Resource}
use kluster_capacity.Env.{Env}
use kluster_capacity.Executor.{Builder, build_framework}
use kluster_capacity.Estimation.{Simulator, Hook, framework_options, new_simulator, run_simulator}
use kluster_capacity.Estimation.Report.{Review, generate_report}

-- What the constructor reads of the options.
pub record Limits : Type 0 where
  pub scheduler_config : String
  pub kube_config : String
  pub exclude_nodes : List String
  pub max_limit : ℕ

module _ {W : Type 0} (b : Builder W Hook) (limits : Limits) where
  abbrev pub new_ce_simulator : Pod → Result (Simulator W)
  new_ce_simulator p =
      elim (build_framework b limits.scheduler_config limits.kube_config
        (framework_options limits.exclude_nodes)) [
          | ok f ↦ ok (new_simulator f limits.max_limit p)
          | err m ↦ err m
          | panic ↦ panic
          | stuck ↦ stuck
        ]

  abbrev pub cons : {A : Type 0} → Result A → Result (List A) → Result (List A)
  cons (ok s) (ok ss) = ok (s ∷ ss)
  cons (ok s) (err m) = err m
  cons (ok s) panic = panic
  cons (ok s) stuck = stuck
  cons (err m) r = err m
  cons panic r = panic
  cons stuck r = stuck

  -- The simulators of the pods, up to the first error.
  unfoldable pub new_ce_simulator_executor : List Pod → Result (List (Simulator W))
  new_ce_simulator_executor [] = ok []
  new_ce_simulator_executor (p ∷ ps) = cons (new_ce_simulator p) (new_ce_simulator_executor ps)

-- The goroutines of `Run`. `returned` are the errors that they have returned so far, in their order.
pub record Group (W : Type 0) : Type 0 where
  pub simulators : List (Simulator W)
  pub reports : List (Option Review)
  pub returned : List (Option String)

abbrev pub blank_reports : {A : Type 0} → List A → List (Option Review)
blank_reports [] = []
blank_reports (s ∷ ss) = none ∷ blank_reports ss

-- `make(CapacityEstimationReviews, len(ms.simulators))`
unfoldable pub start_group : {W : Type 0} → List (Simulator W) → Group W
start_group ss = record { simulators = ss; reports = blank_reports ss; returned = [] }

-- `schedule i` is what the scheduler of simulator `i` does, and `compute` is utils.ComputePodResourceRequest.
module _ (e : Env) (compute : Pod → Resource)
    (schedule : ℕ → Action (Simulator e.World) (Unit {0})) where
  open e use {World}

  -- `s.Report()`
  unfoldable pub report : Simulator World → Result Review
  unfolding generate_report
  report s = generate_report compute (s.simulated_pod ∷ []) s.framework.status

  -- A run and its report; the simulators share no state.
  abbrev pub run_and_report : ℕ → Simulator World → Result Review × Simulator World
  run_and_report i s =
      let (r, t) = run_simulator e (schedule i) s in
      (elim r [ ok u ↦ report t | err m ↦ err m | panic ↦ panic | stuck ↦ stuck ], t)

  -- What goroutine `i` leaves.
  abbrev pub finished : ℕ → Result Review × Simulator World → Action (Group World) (Unit {0})
  finished i (ok review, t) g = (
    ok tt,
    record g {
      simulators = set g.simulators i t;
      reports = set g.reports i (some review);
      returned = g.returned ++ (none ∷ []);
    },
  )
  finished i (err m, t) g = (
    ok tt,
    record g { simulators = set g.simulators i t; returned = g.returned ++ (some m ∷ []) },
  )
  finished i (panic, t) g = (panic, g)
  finished i (stuck, t) g = (stuck, g)

  abbrev pub finish_one : ℕ → Action (Group World) (Unit {0})
  finish_one i g = elim (get_elem? g.simulators i) [
    | none ↦ (panic, g)
    | some s ↦ finished i (run_and_report i s) g
  ]

  -- The goroutines in the order in which they finish.
  unfoldable pub finish_all : List ℕ → Action (Group World) (Unit {0})
  finish_all [] = pure tt
  finish_all (i ∷ order) = finish_one i >> finish_all order

  -- `Run`: `wait` is the method Wait of errgroup.Group, of what the goroutines returned.
  abbrev pub collected :
      (List (Option String) → Option String)
      → Result (Unit {0}) × Group World
      → Result (List (Option Review))
  collected wait (ok u, g) = elim (wait g.returned) [ none ↦ ok g.reports | some m ↦ err m ]
  collected wait (err m, g) = err m
  collected wait (panic, g) = panic
  collected wait (stuck, g) = stuck

  unfoldable pub run_all :
      (wait : List (Option String) → Option String)
      → (order : List ℕ) → List (Simulator World)
      → Result (List (Option Review))
  unfolding finish_all start_group
  run_all wait order ss = collected wait (finish_all order (start_group ss))
