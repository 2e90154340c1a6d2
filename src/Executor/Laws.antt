-- ===== src/Executor/Laws.antt =====
-- The framework that a simulator starts with has found nothing.
use kluster_capacity.Base.{◌≡◌, ap, sym, ◌∙◌, String, List}
use kluster_capacity.Base.Monad.{Result, ok, ok-injective}
use kluster_capacity.Base.Outcome.{◌>>=◌, >>=-eq-ok}
use kluster_capacity.Config.{
  build_kube_scheduler_completed_config, build_rest_config, FakeConfig, RestConfig,
}
use kluster_capacity.Executor.{Builder, build_framework, first_plugins}
use kluster_capacity.Framework.{Framework, Settings}
use kluster_capacity.Framework.Scheduler.{Plugins, new_kube_scheduler_framework}
use kluster_capacity.Framework.Scheduler.Laws.{new_kube_scheduler_framework-IsSimulated}
use kluster_capacity.Status.{empty_status}

module _ {W H : Type 0} (b : Builder W H) (scheduler_config kube_config : String)
    (options : List (Settings W H → Settings W H)) where
  -- The last steps, one by one.
  abbrev created : FakeConfig b.packages → Unit {0} → Plugins → Result (Framework W H)
  created cc mapper plugins =
      new_kube_scheduler_framework b.register b.scheduler (ok mapper) (b.new_world cc) options
        plugins
      >>= λ (f, configured). ok f

  abbrev mapped : FakeConfig b.packages → RestConfig → Result (Framework W H)
  mapped cc rest = b.rest_mapper rest >>= λ mapper.
      first_plugins cc.component_config.profiles >>= λ plugins. created cc mapper plugins

  pub build_framework-status :
      (f : Framework W H)
      → build_framework b scheduler_config kube_config options ≡ ok f
      → f.status ≡ empty_status
  unfolding build_framework
  build_framework-status f h =
      let (cc, e0, h0) =
        >>=-eq-ok (build_kube_scheduler_completed_config b.packages scheduler_config kube_config)
          (λ cc. build_rest_config b.packages kube_config >>= λ rest. mapped cc rest) h in
      let (rest, e1, h1) = >>=-eq-ok (build_rest_config b.packages kube_config) (mapped cc) h0 in
      let (mapper, e2, h2) =
        >>=-eq-ok (b.rest_mapper rest)
          (λ mapper.
            first_plugins cc.component_config.profiles >>= λ plugins. created cc mapper plugins)
          h1 in
      let (plugins, e3, h3) =
        >>=-eq-ok (first_plugins cc.component_config.profiles) (created cc mapper) h2 in
      let ((g, configured), e4, h4) =
        >>=-eq-ok
          (new_kube_scheduler_framework b.register b.scheduler (ok mapper) (b.new_world cc) options
            plugins)
          (λ x. ok x.0) h3 in
      let (built, scheduled, simulated, consistent, running, empty) =
        new_kube_scheduler_framework-IsSimulated b.register b.scheduler (ok mapper) (b.new_world cc)
          options plugins configured g e4 in
      sym (ap (λ (k : Framework W H). k.status) (ok-injective h4)) ∙ empty
