-- ===== src/Compression/Once/Tests.antt =====
-- A run on two nodes with labels.
use kluster_capacity.Base.{refl, sym, subst, All}
use kluster_capacity.Env.Memory.{memory}
use kluster_capacity.Env.Memory.Laws.{memory-NodeLaws}
use kluster_capacity.Framework.{start}
use kluster_capacity.Compression.Executor.{run_simulator}
use kluster_capacity.Compression.Runs.{take_steps}
use kluster_capacity.Compression.Samples.{ready, ready-nodes, ready-Unique, steps, bind-nodes}
use kluster_capacity.Compression.Once.Nodes.{HasLabels}
use kluster_capacity.Compression.Once.Run.{IsFirst, IsReport, run_simulator-reports_once}

ready-IsFirst : IsFirst memory memory-NodeLaws ready
unfolding start
ready-IsFirst = record {
  sound = (ready-Unique, subst (All HasLabels) (sym ready-nodes) (refl, (refl, tt)));
  none_reported = refl;
  none_waits = refl;
  none_created = refl;
}

run_simulator-reports_once_example :
    IsReport memory memory-NodeLaws (run_simulator memory 9 (take_steps memory 9 steps) ready).1
run_simulator-reports_once_example =
    run_simulator-reports_once memory memory-NodeLaws 9 steps ready ready-IsFirst
      (bind-nodes, (tt, (tt, tt)))
