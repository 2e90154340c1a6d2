-- ===== src/Config/Tests.antt =====
-- Configurations of a small set of files.
use kluster_capacity.Base.{
  ℕ, ◌+◌, ◌%◌, ◌^◌, ltb, if◌then◌else◌, ◌≡◌, ◌↔◌, refl, String, [], ◌∷◌, some, arith,
}
use kluster_capacity.Base.Monad.{ok}
use kluster_capacity.Kube.{Pod, ResourceList}
use kluster_capacity.Samples.{pod_on}
use kluster_capacity.Config.{
  RestConfig, FakeConfig, build_rest_config, options_of, with_kubeconfig,
  build_kube_scheduler_completed_config,
}
use kluster_capacity.Config.Samples.{plain, files}
use kluster_capacity.Config.Laws.{
  OptionLaws, IsSimulated, IsClient, build_rest_config_iff,
  build_kube_scheduler_completed_config-IsSimulated,
}
use kluster_capacity.Config.Requests.{
  Resources, ResourceLaws, requested, compute_pod_resource_request,
  compute_pod_resource_request-value,
}

files-OptionLaws : OptionLaws files
files-OptionLaws = record { apply_to_ok = λ o c h. ground arith; complete_lem = λ c. refl }

build_rest_config_iff_example :
    (build_rest_config files "config"
      ≡ ok (record { host = "https://east"; qps = 10000; burst = 20000 }))
    ↔ ((raw : RestConfig) × IsClient files "config" raw
        × (record { host = "https://east"; qps = 10000; burst = 20000 }
            ≡ record raw { qps = 10000; burst = 20000 }))
build_rest_config_iff_example =
    build_rest_config_iff files "config"
      (record { host = "https://east"; qps = 10000; burst = 20000 })

abbrev made : FakeConfig files
made = record {
  component_config = (options_of (with_kubeconfig "config" plain)).component_config;
  event_broadcaster = 0;
  client = 0;
  informer_factory = 0;
}

build_kube_scheduler_completed_config-IsSimulated_example :
    (cc : FakeConfig files) × (build_kube_scheduler_completed_config files "" "config" ≡ ok cc)
    × IsSimulated cc.component_config.profiles
    × (cc.component_config.kubeconfig ≡ "config")
    × (cc.client ≡ 2)
    × (cc.informer_factory ≡ 2)
build_kube_scheduler_completed_config-IsSimulated_example =
    build_kube_scheduler_completed_config-IsSimulated files files-OptionLaws "" "config" plain made
      refl refl

-- The amounts of int64, by their bits.
abbrev wrap : ℕ → ℕ
wrap n = n % 2 ^ 64

-- The order of int64, where the upper half of the bit patterns is negative.
abbrev larger_int64 : ℕ → ℕ → ℕ
larger_int64 a b = if ltb (wrap (a + 2 ^ 63)) (wrap (b + 2 ^ 63)) then wrap b else a

-- A resource list is what it asks for each name.
abbrev amounts : Resources
amounts = record {
  Resource = String → ℕ;
  empty = λ name. 0;
  add = λ r l name. wrap (r name + requested name l);
  set_max_resource = λ r l name. larger_int64 (r name) (requested name l);
}

amounts-ResourceLaws : (name : String) → ResourceLaws amounts name
amounts-ResourceLaws name = record {
  value = λ r. r name;
  value-empty = refl;
  value-add = λ r l fits. omega arith;
  value-set_max_resource = λ r l held fits. ground arith;
}

abbrev of_cpu : ℕ → ResourceList
of_cpu n = ("cpu", n) ∷ []

-- Two containers, a large init container and an overhead.
abbrev asking : Pod
asking = record (pod_on "n1" "a") {
  spec = record ((pod_on "n1" "a").spec) {
    containers = of_cpu 2 ∷ of_cpu 3 ∷ [];
    init_containers = of_cpu 7 ∷ [];
    overhead = some (of_cpu 1);
  };
}

compute_pod_resource_request-value_example :
    (amounts-ResourceLaws "cpu").value (compute_pod_resource_request amounts asking) ≡ 8
compute_pod_resource_request-value_example =
    compute_pod_resource_request-value amounts "cpu" (amounts-ResourceLaws "cpu") asking
      (ground arith)
