-- ===== src/Executor.antt =====
-- What the three functions New…SimulatorExecutor begin with: the configurations and the framework.
pub mod Laws
use kluster_capacity.Base.{String, List, [], ◌∷◌}
use kluster_capacity.Base.Monad.{Result, ok, err, panic, stuck, Action}
use kluster_capacity.Base.Outcome.{◌>>=◌, deref}
use kluster_capacity.Config.{
  Packages, FakeConfig, RestConfig, Profile, build_kube_scheduler_completed_config,
  build_rest_config,
}
use kluster_capacity.Framework.{Framework, Settings}
use kluster_capacity.Framework.Scheduler.{Plugins, new_kube_scheduler_framework}

-- What is called of other packages: `new_world` is the outside of a new fake client, `rest_mapper` is
-- apiutil.NewDynamicRESTMapper and the dynamic clients, where `panic` is a panic of dynamic.NewForConfigOrDie, `register` Registry.Register and `scheduler` scheduler.New.
pub record Builder (W H : Type 0) : Type 1 where
  pub packages : Packages
  pub new_world : FakeConfig packages → W
  pub rest_mapper : RestConfig → Result (Unit {0})
  pub register : List String → String → Result (List String)
  pub scheduler : Framework W H → Plugins → Result (Unit {0})

-- `Profiles[0].Plugins`
abbrev pub first_plugins : List Profile → Result Plugins
first_plugins [] = panic
first_plugins (p ∷ ps) = deref p.plugins

module _ {W H : Type 0} (b : Builder W H) where
  unfoldable pub build_framework :
      (scheduler_config kube_config : String)
      → List (Settings W H → Settings W H)
      → Result (Framework W H)
  unfolding build_kube_scheduler_completed_config build_rest_config new_kube_scheduler_framework
  build_framework scheduler_config kube_config options = do
    cc ← build_kube_scheduler_completed_config b.packages scheduler_config kube_config
    rest ← build_rest_config b.packages kube_config
    mapper ← b.rest_mapper rest
    plugins ← first_plugins cc.component_config.profiles
    (f, configured) ←
        new_kube_scheduler_framework b.register b.scheduler (ok mapper) (b.new_world cc) options
          plugins
    ok f

abbrev after : {S A : Type 0} → Result A × S → Result S
after (ok a, t) = ok t
after (err e, t) = err e
after (panic, t) = panic
after (stuck, t) = stuck

-- A call that changes an object, which an error discards.
abbrev pub through : {S A : Type 0} → Result S → Action S A → Result S
through r m = r >>= λ s. after (m s)
