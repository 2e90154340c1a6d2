-- ===== src/Compression/Runs.antt =====
-- A run of the compression: what the scheduler does is a list of events, which the handlers take in their
-- order, and of changes of the outside in between.
pub mod World
pub mod Selection
pub mod Returns
mod Tests
use kluster_capacity.Base.{ℕ, ◌≡◌, List, [], ◌∷◌}
use kluster_capacity.Base.Monad.{Action, ◌>>=◌, ◌>>◌, pure, modify}
use kluster_capacity.Env.{Env}
use kluster_capacity.Env.Laws.{NodeLaws}
use kluster_capacity.Watch.{Event}
use kluster_capacity.Compression.Simulator.{Simulator}
use kluster_capacity.Compression.Events.{handle}

-- Between two events the scheduler and its plugin write to the API server.
pub data Step (W : Type 0) : Type 0 where
  handled : Event → Step W
  outside : (W → W) → Step W

module _ (e : Env) (fuel : ℕ) where
  open e use {World}

  abbrev pub changed : (World → World) → Simulator World → Simulator World
  changed f s = record s { framework = record (s.framework) { world = f s.framework.world } }

  abbrev pub take_step : Step World → Action (Simulator World) (Unit {0})
  take_step (handled ev) = handle e fuel ev
  take_step (outside f) = modify (changed f)

  unfoldable pub take_steps : List (Step World) → Action (Simulator World) (Unit {0})
  unfolding handle
  take_steps [] = pure tt
  take_steps (step ∷ steps) = let rest = take_steps steps in take_step step >> rest

-- The scheduler and its plugin change no node.
module _ (e : Env) (laws : NodeLaws e) where
  open e use {World}
  open laws use {nodes}

  abbrev pub LeavesNodes : Step World → Type 0
  LeavesNodes (handled ev) = Unit
  LeavesNodes (outside f) = (w : World) → nodes (f w) ≡ nodes w
