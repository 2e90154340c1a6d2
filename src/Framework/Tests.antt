-- ===== src/Framework/Tests.antt =====
-- Runs of the parts that all simulators share.
use kluster_capacity.Base.{List, String, true, false, ◌≡◌, ◌↔◌, ◌⊎◌, refl, [], ◌∷◌, some, none}
use kluster_capacity.Base.Monad.{Result, ok}
use kluster_capacity.Kube.{Pod}
use kluster_capacity.Env.Memory.{Store, memory}
use kluster_capacity.Framework.{
  Framework, Settings, start, default_settings, with_custom_bind, apply_options, with_exclude_nodes,
  with_scheduled_pods, no_plugins,
}
use kluster_capacity.Framework.Admission.{pre_add_pod}
use kluster_capacity.Framework.Admission.Laws.{
  IsLeftOut, IsReset, pre_add_pod-none_iff, pre_add_pod-some,
}
use kluster_capacity.Framework.Control.{stop}
use kluster_capacity.Framework.Control.Stop.{IsConsistent, Ends, stop-Ends, stop_first_reason}
use kluster_capacity.Framework.Scheduler.{Plugins, new_kube_scheduler_framework, configure}
use kluster_capacity.Framework.Scheduler.Laws.{
  IsSimulated, IsBuilt, new_kube_scheduler_framework-IsSimulated,
}
use kluster_capacity.Pods.{is_daemonset_pod, init_pod}
use kluster_capacity.Status.{empty_status}
use kluster_capacity.Samples.{pod_on, two_nodes}

abbrev running : Framework Store (Unit {0})
running = start two_nodes []

running-IsConsistent : IsConsistent running
unfolding start
running-IsConsistent = record { stop_ch = refl; informer_ch = refl; scheduler_ch = refl }

running-stopped : running.stopped ≡ false
unfolding start
running-stopped = refl

abbrev ended : Framework Store (Unit {0})
ended = (stop memory "AllScheduled: done" running).1

stop-ended : stop memory "AllScheduled: done" running ≡ (ok tt, ended)
unfolding stop start
stop-ended = refl

stop_first_reason_example :
    (ended.stopped ≡ true)
    × IsConsistent ended
    × (ended.status.stop_reason ≡ "AllScheduled: done")
    × ((later : String) → stop memory later ended ≡ (ok tt, ended))
stop_first_reason_example =
    stop_first_reason memory "AllScheduled: done" running ended running-IsConsistent running-stopped
      stop-ended

stop-Ends_example : Ends memory running (stop memory "LimitReached: 1" running)
stop-Ends_example = stop-Ends memory "LimitReached: 1" running running-IsConsistent running-stopped

abbrev without_n1 : Settings Store (Unit {0})
without_n1 = with_scheduled_pods false (with_exclude_nodes ("n1" ∷ []) default_settings)

pre_add_pod-none_iff_example :
    (pre_add_pod memory without_n1 two_nodes (pod_on "n1" "a") ≡ none)
    ↔ IsLeftOut without_n1 (pod_on "n1" "a")
pre_add_pod-none_iff_example = pre_add_pod-none_iff memory without_n1 two_nodes (pod_on "n1" "a")

abbrev entered : Pod
entered = record (pod_on "" "a") {
  annotations = some (("kc.k-cloud-labs.io/provisioned-by", "simulator-scheduler") ∷ []);
  uid = "uid";
  status = record { phase = "Pending"; conditions = [] };
}

enters-entered : pre_add_pod memory without_n1 two_nodes (pod_on "n1" "a") ≡ some entered
unfolding pre_add_pod is_daemonset_pod init_pod
enters-entered = refl

pre_add_pod-some_example :
    ((entered ≡ pod_on "n1" "a") × ((false ≡ true) ⊎ (is_daemonset_pod [] ≡ true)))
    ⊎ (IsReset memory two_nodes (pod_on "n1" "a") entered
        × (false ≡ false)
        × (is_daemonset_pod [] ≡ false))
pre_add_pod-some_example =
    pre_add_pod-some memory without_n1 two_nodes (pod_on "n1" "a") entered enters-entered

-- A profile that enables the default binder itself.
abbrev plain : Plugins
plain = record {
  pre_bind = no_plugins;
  bind = record { enabled = "DefaultBinder" ∷ []; disabled = [] };
  post_bind = no_plugins;
  post_filter = no_plugins;
}

abbrev own_bind : List (Settings Store (Unit {0}) → Settings Store (Unit {0}))
own_bind =
    with_custom_bind (record { enabled = "Own" ∷ []; disabled = [] })
    ∷ with_scheduled_pods false
    ∷ []

abbrev accepts : Framework Store (Unit {0}) → Plugins → Result (Unit {0})
accepts f p = ok tt

abbrev built : Framework Store (Unit {0}) × Plugins
built = (
  record running {
    settings = record (apply_options own_bind default_settings) {
      out_of_tree_registry = some ("GenericBinder" ∷ []);
    };
  },
  record {
    pre_bind = record { enabled = "GenericBinder" ∷ []; disabled = "VolumeBinding" ∷ [] };
    bind = record {
      enabled = "DefaultBinder" ∷ "GenericBinder" ∷ "Own" ∷ [];
      disabled = "DefaultBinder" ∷ [];
    };
    post_bind = record { enabled = "GenericBinder" ∷ []; disabled = [] };
    post_filter = record { enabled = []; disabled = "DefaultPreemption" ∷ [] };
  },
)

new_kube_scheduler_framework-built :
    new_kube_scheduler_framework
      (λ names name. ok (name ∷ names))
      accepts
      (ok tt)
      two_nodes
      own_bind
      plain
    ≡ ok (built.0, built.1)
unfolding new_kube_scheduler_framework configure start
new_kube_scheduler_framework-built = refl

new_kube_scheduler_framework-IsSimulated_example :
    IsBuilt
      (λ names name. ok (name ∷ names))
      (apply_options own_bind default_settings)
      two_nodes
      built.0
    × (accepts built.0 built.1 ≡ ok tt)
    × IsSimulated (apply_options own_bind default_settings) plain built.1
    × IsConsistent built.0
    × (built.0.stopped ≡ false)
    × (built.0.status ≡ empty_status)
new_kube_scheduler_framework-IsSimulated_example =
    new_kube_scheduler_framework-IsSimulated (λ names name. ok (name ∷ names)) accepts (ok tt)
      two_nodes own_bind plain built.1 built.0 new_kube_scheduler_framework-built
