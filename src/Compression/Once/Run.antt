-- ===== src/Compression/Once/Run.antt =====
-- A run of the compression, whatever its events.
use kluster_capacity.Base.{
  Bool, ℕ, ◌≡◌, refl, sym, subst, String, All, any, ◌==◌, ◌<>◌, true, List, [], ◌∷◌, Option, none,
  some, arith,
}
use kluster_capacity.Base.Frame.{>>=-Keeps, attempt-Keeps}
use kluster_capacity.Base.Monad.{attempt}
use kluster_capacity.Env.{Env}
use kluster_capacity.Env.Laws.{NodeLaws}
use kluster_capacity.Framework.Control.{run, after_init, wait}
use kluster_capacity.Compression.Effects.{world}
use kluster_capacity.Compression.Executor.{run_simulator}
use kluster_capacity.Compression.Labels.{Unique}
use kluster_capacity.Compression.Select.Queue.{pending}
use kluster_capacity.Compression.Progress.{scaled}
use kluster_capacity.Compression.Runs.{
  LeavesNodes, Step, handled, outside, changed, take_step, take_steps,
}
use kluster_capacity.Compression.Simulator.{Simulator, stop_simulator, select_next_node}
use kluster_capacity.Compression.Once.Nodes.{Distinct, Sound, same-Better}
use kluster_capacity.Compression.Once.Selection.{once_then, select_next_node-Once}
use kluster_capacity.Compression.Once.State.{Labelled, Waits, Once, Still-Once}
use kluster_capacity.Compression.Once.Events.{Kept, stop-Kept, handle-Kept}

module _ (e : Env) (laws : NodeLaws e) (fuel : ℕ) where
  open e use {World}
  open laws use {nodes}

  abbrev stopped_in : Simulator World → Bool
  stopped_in s = s.framework.stop_ch

  take_step-Kept :
      (step : Step World) → LeavesNodes e laws step → Kept e laws fuel (take_step e fuel step)
  take_step-Kept (handled ev) h s = handle-Kept e laws fuel ev s
  take_step-Kept (outside f) h s =
      Still-Once e laws s (changed e fuel f s)
        ((same-Better _ _ (h (world s)), refl, refl, refl), refl, refl)

  take_steps-Kept :
      (steps : List (Step World))
      → All (LeavesNodes e laws) steps
      → Kept e laws fuel (take_steps e fuel steps)
  unfolding take_steps
  take_steps-Kept [] h = (once_then e laws).same
  take_steps-Kept (step ∷ steps) h =
      >>=-Keeps (once_then e laws) (take_step e fuel step) (λ _. take_steps e fuel steps)
        (take_step-Kept step h.0) (λ _. take_steps-Kept steps h.1)

  pub run_simulator-Kept :
      (steps : List (Step World))
      → All (LeavesNodes e laws) steps
      → Kept e laws fuel (run_simulator e fuel (take_steps e fuel steps))
  unfolding run_simulator run
  run_simulator-Kept steps h =
      >>=-Keeps (once_then e laws) (attempt (select_next_node e fuel))
        (after_init stopped_in (stop_simulator e) (take_steps e fuel steps))
        (attempt-Keeps (once_then e laws) (select_next_node e fuel)
          (select_next_node-Once e laws fuel))
        after_init-Kept
    where
      wait-Kept : Kept e laws fuel (wait stopped_in (stop_simulator e) (take_steps e fuel steps))
      wait-Kept s = ground arith

      after_init-Kept :
          (failed : Option String)
          → Kept e laws fuel
              (after_init stopped_in (stop_simulator e) (take_steps e fuel steps) failed)
      after_init-Kept none =
          >>=-Keeps (once_then e laws) (attempt (take_steps e fuel steps))
            (λ dropped. wait stopped_in (stop_simulator e) (take_steps e fuel steps))
            (attempt-Keeps (once_then e laws) (take_steps e fuel steps) (take_steps-Kept steps h))
            (λ dropped. wait-Kept)
      after_init-Kept (some m) = stop-Kept e laws fuel ("FailedRunInit: : " <> m)

module _ (e : Env) (laws : NodeLaws e) where
  open e use {World}
  open laws use {nodes}

  -- Before a run: nothing has been selected, created or reported, and all nodes have labels and names of their own.
  pub record IsFirst (s : Simulator World) : Type 0 where
    pub sound : Sound (nodes (world s))
    pub none_reported : scaled s ≡ []
    pub none_waits : pending s.selector ≡ []
    pub none_created : s.created_pods ≡ []

  IsFirst-Once : (s : Simulator World) → IsFirst s → Once e laws s
  IsFirst-Once s first = (
    record {
      sound = first.sound;
      labelled = λ name h. absurd (ground arith);
      distinct = subst Distinct (sym first.none_reported) tt;
      waiting = subst (λ q. All (Waits (scaled s) (nodes (world s))) q) (sym first.none_waits) tt;
      queue = subst Unique (sym first.none_waits) tt;
    },
    λ h. absurd (ground arith),
  )

  -- The nodes that a state reports are different, are there, and have the label of success.
  abbrev pub IsReport : Simulator World → Type 0
  IsReport s =
      Distinct (scaled s)
      × ((name : String) → any (λ x. x == name) (scaled s) ≡ true → Labelled (nodes (world s)) name)

  -- A run of the compression, whatever the scheduler binds and fails to bind, in whatever order, whatever it writes in
  -- between but nodes, and whatever errors come up. It starts with nothing selected, created or reported, and all
  -- nodes have labels and names of their own. Then no node is reported twice, and every node that is reported is there
  -- and has the label of success after the run.
  pub run_simulator-reports_once :
      (fuel : ℕ) (steps : List (Step World)) (s : Simulator World)
      → IsFirst s
      → All (LeavesNodes e laws) steps
      → IsReport (run_simulator e fuel (take_steps e fuel steps) s).1
  run_simulator-reports_once fuel steps s first h =
      let (sane, fresh) = run_simulator-Kept e laws fuel steps h s (IsFirst-Once s first) in
      (sane.distinct, sane.labelled)
