-- ===== src/Commands/Laws.antt =====
-- Which options are valid, and the pods that a valid choice names.
use kluster_capacity.Base.{String, ◌≡◌, ◌≢◌, ◌↔◌, ◌⊎◌, refl, [], eq_iff, arith}
use kluster_capacity.Base.Monad.{ok, err}
use kluster_capacity.Commands.{System, default, registered}
use kluster_capacity.Commands.Estimation.{
  CapacityEstimationOptions, new_capacity_estimation_options, is_nil,
}
use kluster_capacity.Commands.Estimation
use kluster_capacity.Commands.Estimation.Spec.{
  Web, add_all, get_pod_from_template, named_pod, parse_api_spec, add_pod,
}
use kluster_capacity.Commands.Simulation.{
  SchedulerSimulationOptions, new_scheduler_simulation_options, from_snapshot, from_cluster,
}
use kluster_capacity.Commands.Simulation
use kluster_capacity.Commands.Compression.{
  ClusterCompressionOptions, new_cluster_compression_options, validate_options,
}
use kluster_capacity.Commands.Compression

-- The options of ce are valid exactly if they name pods in templates or in the cluster, not in both, and a
-- kubeconfig file.
pub validate-ce_iff :
    (opt : CapacityEstimationOptions)
    → (Estimation.validate opt ≡ ok tt) ↔ (
        (((opt.pods_from_template ≢ []) × (opt.pods_from_cluster ≡ []))
          ⊎ ((opt.pods_from_template ≡ []) × (opt.pods_from_cluster ≢ [])))
        × (opt.base.kube_config ≢ ""))
unfolding Estimation.validate
validate-ce_iff opt = ground (arith, eq_iff opt.base.kube_config "")

-- The options of ss are valid exactly if they name a kubeconfig file, one of the two exit conditions, and a
-- snapshot if the source is "Snapshot". The source itself is not checked: any other text than "Snapshot" is accepted
-- for it, also one that is not "Cluster".
pub validate-ss_iff :
    (opt : SchedulerSimulationOptions)
    → (Simulation.validate opt ≡ ok tt) ↔ (
        (opt.base.kube_config ≢ "")
        × ((opt.exit_condition ≡ "AllSucceed") ⊎ (opt.exit_condition ≡ "AllScheduled"))
        × (opt.source_from ≡ "Snapshot" → opt.base.snapshot ≢ ""))
unfolding Simulation.validate
validate-ss_iff opt = ground (
  arith,
  eq_iff opt.base.kube_config "",
  eq_iff opt.exit_condition "AllSucceed",
  eq_iff opt.exit_condition "AllScheduled",
  eq_iff opt.source_from "Snapshot",
  eq_iff opt.source_from "Cluster",
  eq_iff opt.base.snapshot "",
)

-- Without any flag, where a path of the home directory is not empty: the options of ss and of cc are valid, and
-- those of ce are refused, since they name no pod.
pub no_flags-valid :
    (system : System)
    → ((home : String) → system.join home ".kube/config" ≢ "")
    → (Simulation.validate (
          Simulation.default_of system (
            registered
              (Simulation.add_flags new_scheduler_simulation_options)
              new_scheduler_simulation_options))
        ≡ ok tt)
      × (validate_options (
            Compression.default_of system (
              registered
                (Compression.add_flags new_cluster_compression_options)
                new_cluster_compression_options))
          ≡ ok tt)
      × (Estimation.validate (
            Estimation.Spec.default_of system (
              registered
                (Estimation.add_flags new_capacity_estimation_options)
                new_capacity_estimation_options))
          ≡ err "pod template file and pod from cluster both is missing")
unfolding Simulation.validate Simulation.add_flags validate_options Compression.add_flags
    Estimation.validate Estimation.add_flags default
no_flags-valid system h =
    let path = system.getenv "KUBECONFIG" in
    let home = h (system.getenv "HOME") in
    (
      ground (arith, eq_iff path "", eq_iff (system.join (system.getenv "HOME") ".kube/config") ""),
      ground (arith, eq_iff path "", eq_iff (system.join (system.getenv "HOME") ".kube/config") ""),
      refl,
    )
