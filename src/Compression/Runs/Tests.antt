-- ===== src/Compression/Runs/Tests.antt =====
-- A run on two nodes: a pod is bound, and another one does not fit.
use kluster_capacity.Base.{◌⊎◌, ◌≡◌, false, ◌≢◌, ap, length, arith}
use kluster_capacity.Base.Monad.{stuck}
use kluster_capacity.Env.Memory.{memory}
use kluster_capacity.Env.Memory.Laws.{memory-NodeLaws, memory-Answers}
use kluster_capacity.Compression.Executor.{run_simulator}
use kluster_capacity.Compression.Runs.{take_steps}
use kluster_capacity.Compression.Simulator.{select_next_node}
use kluster_capacity.Compression.Runs.Selection.{InBounds}
use kluster_capacity.Compression.Runs.Returns.{run_simulator-returns}
use kluster_capacity.Compression.Samples.{ready, ready-nodes, ready-Unique, steps, bind-nodes}

run_simulator-returns_example :
    ((select_next_node memory 9 ready).0 ≢ stuck)
    × ((take_steps memory 9 steps (select_next_node memory 9 ready).1).0 ≢ stuck)
    × (((run_simulator memory 9 (take_steps memory 9 steps) ready).0 ≢ stuck)
        ⊎ ((run_simulator memory 9 (take_steps memory 9 steps) ready).1.framework.stop_ch ≡ false))
    × InBounds memory memory-NodeLaws memory-Answers 2
        (run_simulator memory 9 (take_steps memory 9 steps) ready).1
run_simulator-returns_example =
    run_simulator-returns memory memory-NodeLaws memory-Answers 2 9 steps ready
      ((ready-Unique, ap length ready-nodes), omega arith) (omega arith)
      (bind-nodes, (tt, (tt, tt)))
