-- ===== src/Framework/Scheduler.antt =====
-- createScheduler and NewKubeSchedulerFramework: the registry and the plugins of the profile.
pub mod Laws
use kluster_capacity.Base.{String, List, [], ◌∷◌, ◌++◌, Option, none, some}
use kluster_capacity.Base.Monad.{Result, ok, err, panic, stuck}
use kluster_capacity.Framework.{Framework, Settings, PluginSet, start}

-- `generic.Name`, and the names of the scheduler's own plugins.
abbrev pub generic_name : String
generic_name = "GenericBinder"

abbrev pub volumebinding_name : String
volumebinding_name = "VolumeBinding"

abbrev pub defaultbinder_name : String
defaultbinder_name = "DefaultBinder"

abbrev pub defaultpreemption_name : String
defaultpreemption_name = "DefaultPreemption"

-- `Profiles[0].Plugins`
pub record Plugins : Type 0 where
  pub pre_bind : PluginSet
  pub bind : PluginSet
  pub post_bind : PluginSet
  pub post_filter : PluginSet

abbrev enable : List String → PluginSet → PluginSet
enable names s = record s { enabled = s.enabled ++ names }

abbrev disable : List String → PluginSet → PluginSet
disable names s = record s { disabled = s.disabled ++ names }

abbrev custom : PluginSet → PluginSet → PluginSet
custom extra s = disable extra.disabled (enable extra.enabled s)

-- The plugin sets after all the appends, the simulator's own first and the caller's after them.
unfoldable pub configure : (pre bind post : PluginSet) → Plugins → Plugins
configure pre bind post p = record {
  pre_bind = custom pre (disable (volumebinding_name ∷ []) (enable (generic_name ∷ []) p.pre_bind));
  bind = custom bind (disable (defaultbinder_name ∷ []) (enable (generic_name ∷ []) p.bind));
  post_bind = custom post (enable (generic_name ∷ []) p.post_bind);
  post_filter = disable (defaultpreemption_name ∷ []) p.post_filter;
}

abbrev registry_of : Option (List String) → List String
registry_of none = []
registry_of (some names) = names

abbrev pub run_handlers : {W : Type 0} → List (W → W) → W → W
run_handlers [] w = w
run_handlers (handler ∷ handlers) w = run_handlers handlers (handler w)

-- `register` is Registry.Register and `scheduler` is scheduler.New.
module _ {W H : Type 0} (register : List String → String → Result (List String))
    (scheduler : Framework W H → Plugins → Result (Unit {0})) where
  abbrev new_scheduler :
      Framework W H → Plugins → Result (List String) → Result (Framework W H × Plugins)
  new_scheduler f p (err m) = err m
  new_scheduler f p panic = panic
  new_scheduler f p stuck = stuck
  new_scheduler f p (ok names) =
      let f' : Framework W H = record f {
        settings = record (f.settings) { out_of_tree_registry = some names };
      } in
      let p' : Plugins = configure f.custom_pre_bind f.custom_bind f.custom_post_bind p in
      elim (scheduler f' p') [ ok u ↦ ok (f', p') | err m ↦ err m | panic ↦ panic | stuck ↦ stuck ]

  unfoldable pub create_scheduler : Framework W H → Plugins → Result (Framework W H × Plugins)
  create_scheduler f p =
      let f' : Framework W H = record f { world = run_handlers f.custom_event_handlers f.world } in
      new_scheduler f' p (register (registry_of f.out_of_tree_registry) generic_name)

  abbrev create_if : Result (Unit {0}) → Framework W H → Plugins → Result (Framework W H × Plugins)
  create_if (ok u) f p = create_scheduler f p
  create_if (err m) f p = err m
  create_if panic f p = panic
  create_if stuck f p = stuck

  -- `rest_mapper` is the answer of dynamic.NewForConfigOrDie, which panics on a configuration that it refuses, and of
  -- apiutil.NewDynamicRESTMapper.
  unfoldable pub new_kube_scheduler_framework :
      (rest_mapper : Result (Unit {0}))
      → W
      → List (Settings W H → Settings W H)
      → Plugins
      → Result (Framework W H × Plugins)
  unfolding create_scheduler start
  new_kube_scheduler_framework rest_mapper w options p = create_if rest_mapper (start w options) p
