-- ===== src/Compression/Samples.antt =====
-- What the tests of the compression share: two nodes, from which nothing has been moved yet, or one pod.
use kluster_capacity.Base.{◌≡◌, ◌∙◌, inl, inr, refl, sym, subst, false, some, List, [], ◌∷◌}
use kluster_capacity.Kube.{Pod}
use kluster_capacity.Plugin.{bind}
use kluster_capacity.Compression.Runs.{Step, handled, outside}
use kluster_capacity.Status.{pod_provisioner}
use kluster_capacity.Watch.{bound, updated}
use kluster_capacity.Env.Memory.{Store, memory}
use kluster_capacity.Env.Memory.Laws.{memory-NodeLaws, nodes-memory, first_pod-cases}
use kluster_capacity.Framework.{start, with_post_bind_hook}
use kluster_capacity.Compression.Effects.{world}
use kluster_capacity.Compression.Filter.{FilterNodeOptions}
use kluster_capacity.Compression.Labels.{Unique}
use kluster_capacity.Compression.Simulator.{Simulator, post_bind_hook_of}
use kluster_capacity.Samples.{pod_on, two_nodes}

abbrev pub ignore_nothing : FilterNodeOptions
ignore_nothing = record {
  exclude_taint_node = false;
  exclude_not_ready_node = false;
  ignore_static_pod = false;
  ignore_mirror_pod = false;
  ignore_clone_set = false;
  ignore_volume_pod = false;
}

abbrev pub pods : List Pod
pods = pod_on "n1" "a" ∷ pod_on "n1" "b" ∷ []

-- n1 is being emptied, and the first of its two pods has been created again.
abbrev pub emptying : Simulator Store
emptying = record {
  framework =
      start (record two_nodes { pods = pod_on "" "a" ∷ [] })
        (with_post_bind_hook post_bind_hook_of ∷ []);
  max_simulated = 0;
  simulated = 0;
  created_pods = pods;
  create_pod_index = 1;
  current_node = "n1";
  current_node_unschedulable = false;
  bind_success_pod_count = 0;
  selector = record { selected_count = 0; candidate_node = []; candidate_index = 0 };
  excluded = [];
  filter_options = ignore_nothing;
}

-- Nothing has been selected yet.
abbrev pub ready : Simulator Store
ready = record emptying {
  framework = start two_nodes (with_post_bind_hook post_bind_hook_of ∷ []);
  created_pods = [];
  create_pod_index = 0;
}

pub ready-nodes : memory-NodeLaws.nodes (world ready) ≡ two_nodes.nodes
unfolding start
ready-nodes = nodes-memory two_nodes

pub ready-Unique : Unique (memory-NodeLaws.nodes (world ready))
ready-Unique = subst Unique (sym ready-nodes) (refl, (refl, tt))

abbrev pub created : Pod → Pod
created p = record p { annotations = some ((pod_provisioner, "cc") ∷ []) }

abbrev pub unfit : Pod → Pod
unfit p = record p {
  status = record {
    phase = "Pending";
    conditions =
        record { type = "PodScheduled"; status = "False"; reason = "Unschedulable"; message = "" }
        ∷ [];
  };
}

-- The scheduler binds the pod before it calls the plugin.
abbrev pub steps : List (Step Store)
steps =
    outside (λ w. (bind memory w (pod_on "" "a") "n2").1)
    ∷ handled (bound (created (pod_on "n2" "a")))
    ∷ handled (updated (unfit (created (pod_on "" "b"))))
    ∷ []

bind_same : (w : Store) → (bind memory w (pod_on "" "a") "n2").1.nodes ≡ w.nodes
unfolding bind
bind_same w = elim (first_pod-cases "web" "a" w.pods) [
  | inl (p, here) ↦ rw (here, bind) refl
  | inr (m, gone) ↦ rw (gone, bind) refl
]

pub bind-nodes :
    (w : Store)
    → memory-NodeLaws.nodes (bind memory w (pod_on "" "a") "n2").1 ≡ memory-NodeLaws.nodes w
bind-nodes w =
    let u = (bind memory w (pod_on "" "a") "n2").1 in
    nodes-memory u ∙ bind_same w ∙ sym (nodes-memory w)
