-- ===== src/Config/Laws.antt =====
-- The configurations that the simulators are built with.
use kluster_capacity.Base.{
  String, ◌≡◌, ◌≢◌, ◌↔◌, ◌⊎◌, eq_iff, refl, sym, ap, ◌∙◌, subst, List, [], ◌∷◌, none, some, ◌==◌,
  if◌then◌else◌, arith, Bool-cases, Option-cases, inl, inr,
}
use kluster_capacity.Base.Dict.{lookup}
use kluster_capacity.Base.Monad.{Result, ok}
use kluster_capacity.Base.Outcome.{◌>>=◌, >>=-eq-ok, wrap, wrap-eq-ok, or_err, deref}
use kluster_capacity.Framework.Scheduler.{Plugins}
use kluster_capacity.Status.{scheduler_name}
use kluster_capacity.Config.{
  Packages, KubeConfig, RestConfig, Profile, SchedulerConfig, SchedulerOptions,
  get_master_from_kube_config, build_rest_config, with_limits, from_file, in_cluster, faked,
  or_defaults, no_master, FakeConfig, inject, options_of, with_kubeconfig, source_config,
  complete_config, build_kube_scheduler_completed_config,
}

-- The documented behaviour of the scheduler's options: what they were given is the configuration.
pub record OptionLaws (packages : Packages) : Type 0 where
  pub apply_to_ok :
      (o : SchedulerOptions) (c : FakeConfig packages)
      → packages.apply_to o ≡ ok c
      → c.component_config ≡ o.component_config
  pub complete_lem :
      (c : FakeConfig packages) → (packages.complete c).component_config ≡ c.component_config

-- A list of profiles that starts with the simulator's.
pub data IsSimulated : List Profile → Type 0 where
  is_simulated :
      (plugins : Plugins) (ps : List Profile)
      → IsSimulated (record { scheduler_name = scheduler_name; plugins = some plugins } ∷ ps)

inject-IsSimulated : (ps : List Profile) → IsSimulated (inject ps)
unfolding inject
inject-IsSimulated [] = is_simulated _ _
inject-IsSimulated (p ∷ ps) = is_simulated _ _

module _ (packages : Packages) where
  open packages use {load_from_file, build_config_from_flags, in_cluster_config}

  -- The server of the cluster of the current context.
  abbrev pub IsMaster : String → String → Type 0
  IsMaster file server =
      (config : KubeConfig) × (cluster : String) × (load_from_file file ≡ ok config)
      × (lookup config.current_context config.contexts ≡ some (some cluster))
      × (lookup cluster config.clusters ≡ some (some server))

  -- The lookups after the file has been loaded.
  abbrev master_of : KubeConfig → Result String
  master_of config = or_err no_master (lookup config.current_context config.contexts) >>= λ context.
      deref context >>= λ cluster.
      or_err no_master (lookup cluster config.clusters) >>= λ val. deref val

  master_of-ok :
      (config : KubeConfig) (server : String)
      → master_of config ≡ ok server
      → (cluster : String) × (lookup config.current_context config.contexts ≡ some (some cluster))
        × (lookup cluster config.clusters ≡ some (some server))
  master_of-ok config server h =
      elim (Option-cases (lookup config.current_context config.contexts)) [
        | inl e ↦ ground arith
        | inr (none, e) ↦ ground arith
        | inr (some cluster, e) ↦ (cluster, e, ground arith)
      ]

  -- The master of a kubeconfig file is found exactly if the file can be loaded, its current context names a
  -- cluster and that cluster has a server: it is that server.
  pub get_master_from_kube_config_iff :
      (file server : String)
      → (get_master_from_kube_config packages file ≡ ok server) ↔ IsMaster file server
  unfolding get_master_from_kube_config
  get_master_from_kube_config_iff file server = (
    λ h.
        let (config, loaded, found) =
          >>=-eq-ok (wrap "can not load kubeconfig file: " "" (load_from_file file)) master_of h in
        let (cluster, current, server_of) = master_of-ok config server found in
        (config, cluster, wrap-eq-ok _ _ (load_from_file file) loaded, current, server_of),
    λ (config, cluster, loaded, current, found). rw (loaded, current, found) refl,
  )

  -- The configuration of the client before the limits are set: that of the cluster which the program runs
  -- in, or that of the master in a file.
  abbrev pub IsClient : String → RestConfig → Type 0
  IsClient path raw =
      ((path ≡ "") × (in_cluster_config ≡ ok raw))
      ⊎ ((server : String) × (path ≢ "")
          × IsMaster path server
          × (build_config_from_flags server path ≡ ok raw))

  from_file-ok :
      (path : String) (cfg : RestConfig)
      → from_file packages path ≡ ok cfg
      → (server : String) × (raw : RestConfig) × IsMaster path server
        × (build_config_from_flags server path ≡ ok raw)
        × (cfg ≡ with_limits raw)
  from_file-ok path cfg h =
      let build = λ (server : String).
        wrap "unable to build config: " "" (build_config_from_flags server path) >>= λ raw.
        ok (with_limits raw) in
      let (server, master, built) =
        >>=-eq-ok
          (wrap "failed to parse kubeconfig file: " " " (get_master_from_kube_config packages path))
          build h in
      let (raw, made, same) =
        >>=-eq-ok (wrap "unable to build config: " "" (build_config_from_flags server path))
          (λ raw. ok (with_limits raw)) built in
      (
        server,
        raw,
        (get_master_from_kube_config_iff path server).0 (wrap-eq-ok _ _ _ master),
        wrap-eq-ok _ _ (build_config_from_flags server path) made,
        ground arith,
      )

  -- A client is configured exactly if it is found where the program runs, for an empty path, or if the master
  -- of the file at the path is found and the library accepts it. It is what the library returns, with 10000
  -- queries in a second and bursts of 20000.
  pub build_rest_config_iff :
      (path : String) (cfg : RestConfig)
      → (build_rest_config packages path ≡ ok cfg) ↔ (
          (raw : RestConfig) × IsClient path raw
          × (cfg ≡ record raw { qps = 10000; burst = 20000 }))
  unfolding build_rest_config
  build_rest_config_iff path cfg = elim (Bool-cases (path == "")) [
    | inl e ↦ (
      λ h.
          let (raw, found, same) =
            >>=-eq-ok (wrap "unable to build in cluster config: " "" in_cluster_config)
              (λ raw. ok (with_limits raw))
              (subst (λ b. (if b then in_cluster packages else from_file packages path) ≡ ok cfg) e
                h) in
          (raw, inl ((eq_iff path "").0 e, wrap-eq-ok _ _ in_cluster_config found), ground arith),
      λ (raw, client, same). elim client [
        | inl (empty, found) ↦ rw (e, found) (ground arith)
        | inr (server, other, master, built) ↦ absurd (other ((eq_iff path "").0 e))
      ],
    )
    | inr e ↦ (
      λ h.
          let (server, raw, master, built, same) = from_file-ok path cfg (
            subst (λ b. (if b then in_cluster packages else from_file packages path) ≡ ok cfg) e
              h) in
          (raw, inr (server, ground (arith, eq_iff path ""), master, built), same),
      λ (raw, client, same). elim client [
        | inl (empty, found) ↦ ground (arith, eq_iff path "")
        | inr (server, other, master, built) ↦
            rw (e, (get_master_from_kube_config_iff path server).1 master, built) (ground arith)
      ],
    )
  ]

module _ (packages : Packages) (laws : OptionLaws packages) where
  open packages use {
    apply_to, complete, events_client, fake_client, new_event_broadcaster_adapter,
    new_shared_informer_factory,
  }

  abbrev completed : SchedulerConfig → Result (FakeConfig packages)
  completed kcfg = wrap "unable to get scheduler kcfg: " "" (apply_to (options_of kcfg)) >>= λ c.
      ok (faked packages (complete c))

  -- A configuration of the scheduler that is built starts its profiles with the simulator's, names the
  -- kubeconfig of its source, or the given one where the source names none, and works on the fake client.
  -- It is built whenever the source is read and the scheduler's options can be applied.
  pub build_kube_scheduler_completed_config-IsSimulated :
      (config kubeconfig : String) (kcfg : SchedulerConfig) (c : FakeConfig packages)
      → source_config packages config ≡ ok kcfg
      → apply_to (options_of (with_kubeconfig kubeconfig kcfg)) ≡ ok c
      → (cc : FakeConfig packages) × (build_kube_scheduler_completed_config packages config
            kubeconfig
          ≡ ok cc)
        × IsSimulated cc.component_config.profiles
        × (cc.component_config.kubeconfig
            ≡ (if kcfg.kubeconfig == "" then kubeconfig else kcfg.kubeconfig))
        × (cc.client ≡ fake_client)
        × (cc.informer_factory ≡ new_shared_informer_factory fake_client)
  unfolding build_kube_scheduler_completed_config complete_config with_kubeconfig or_defaults
  build_kube_scheduler_completed_config-IsSimulated config kubeconfig kcfg c source applied =
      let given = with_kubeconfig kubeconfig kcfg in
      let same = laws.complete_lem c ∙ laws.apply_to_ok (options_of given) c applied in
      (
        faked packages (complete c),
        rw (source, applied) refl,
        subst IsSimulated (sym (ap (λ (k : SchedulerConfig). k.profiles) same))
            (inject-IsSimulated given.profiles),
        ap (λ (k : SchedulerConfig). k.kubeconfig) same
            ∙ ground (arith, eq_iff kubeconfig "", eq_iff kcfg.kubeconfig ""),
        refl,
        refl,
      )
