-- ===== src/Framework/Scheduler/Laws.antt =====
-- What the scheduler of a simulation is built from.
use kluster_capacity.Base.{String, false, ◌≡◌, refl, List, [], ◌∷◌, ◌++◌, arith, ap, some}
use kluster_capacity.Base.Monad.{Result, ok}
use kluster_capacity.Status.{empty_status}
use kluster_capacity.Framework.{Framework, Settings, start, apply_options, default_settings}
use kluster_capacity.Framework.Control.Stop.{IsConsistent}
use kluster_capacity.Framework.Scheduler.{
  generic_name, volumebinding_name, defaultbinder_name, defaultpreemption_name, Plugins, configure,
  new_kube_scheduler_framework, registry_of, run_handlers,
}

-- The plugins of the scheduler, where the caller's settings are `s` and its profile has `p`: the profile's own come
-- first, then the simulator's, then those of the settings, and the default ones are disabled.
abbrev pub IsSimulated : {W H : Type 0} → Settings W H → Plugins → Plugins → Type 0
IsSimulated s p p' =
    (p'.pre_bind.enabled ≡ p.pre_bind.enabled ++ (generic_name ∷ s.custom_pre_bind.enabled))
    × (p'.pre_bind.disabled
        ≡ p.pre_bind.disabled ++ (volumebinding_name ∷ s.custom_pre_bind.disabled))
    × (p'.bind.enabled ≡ p.bind.enabled ++ (generic_name ∷ s.custom_bind.enabled))
    × (p'.bind.disabled ≡ p.bind.disabled ++ (defaultbinder_name ∷ s.custom_bind.disabled))
    × (p'.post_bind.enabled ≡ p.post_bind.enabled ++ (generic_name ∷ s.custom_post_bind.enabled))
    × (p'.post_bind.disabled ≡ p.post_bind.disabled ++ s.custom_post_bind.disabled)
    × (p'.post_filter.enabled ≡ p.post_filter.enabled)
    × (p'.post_filter.disabled ≡ p.post_filter.disabled ++ (defaultpreemption_name ∷ []))

-- The registry of the framework is the caller's with the simulator's plugin, the other settings are the caller's, and
-- the caller's event handlers have been registered outside, in their order.
abbrev pub IsBuilt :
    {W H : Type 0}
    → (List String → String → Result (List String))
    → Settings W H
    → W
    → Framework W H
    → Type 0
IsBuilt register s w f =
    (names : List String) × (register (registry_of s.out_of_tree_registry) generic_name ≡ ok names)
    × (f.settings ≡ record s { out_of_tree_registry = some names })
    × (f.world ≡ run_handlers s.custom_event_handlers w)

append-one :
    (xs : List String) (y : String) (zs : List String) → (xs ++ (y ∷ [])) ++ zs ≡ xs ++ (y ∷ zs)
append-one [] y zs = refl
append-one (x ∷ xs) y zs = ap (λ ws. x ∷ ws) (append-one xs y zs)

configure-IsSimulated :
    {W H : Type 0} (s : Settings W H) (p : Plugins)
    → IsSimulated s p (configure s.custom_pre_bind s.custom_bind s.custom_post_bind p)
unfolding configure
configure-IsSimulated s p = (
  append-one p.pre_bind.enabled generic_name s.custom_pre_bind.enabled,
  append-one p.pre_bind.disabled volumebinding_name s.custom_pre_bind.disabled,
  append-one p.bind.enabled generic_name s.custom_bind.enabled,
  append-one p.bind.disabled defaultbinder_name s.custom_bind.disabled,
  append-one p.post_bind.enabled generic_name s.custom_post_bind.enabled,
  refl,
  refl,
  refl,
)

module _ {W H : Type 0} (register : List String → String → Result (List String))
    (scheduler : Framework W H → Plugins → Result (Unit {0})) where
  -- A framework that is built without an error registers the simulator's plugin beside those of the options and
  -- changes nothing else of its settings, which are the options applied to the defaults. The options' event
  -- handlers have been registered, in their order. The scheduler is created with
  -- the simulator's plugin behind the plugins that the caller's profile enables itself, which stay enabled, and before
  -- those of the options, while the default plugins for binding volumes, binding and preemption are added to the
  -- disabled ones. The framework starts with no channel closed and nothing found.
  pub new_kube_scheduler_framework-IsSimulated :
      (rest_mapper : Result (Unit {0})) (w : W) (options : List (Settings W H → Settings W H))
      (p p' : Plugins) (f : Framework W H)
      → new_kube_scheduler_framework register scheduler rest_mapper w options p ≡ ok (f, p')
      → IsBuilt register (apply_options options default_settings) w f
        × (scheduler f p' ≡ ok tt)
        × IsSimulated (apply_options options default_settings) p p'
        × IsConsistent f
        × (f.stopped ≡ false)
        × (f.status ≡ empty_status)
  unfolding new_kube_scheduler_framework start
  new_kube_scheduler_framework-IsSimulated rest_mapper w options p p' f h =
      let s : Settings W H = apply_options options default_settings in
      let plugins = configure-IsSimulated s p in ground arith
