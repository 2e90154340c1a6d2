-- ===== src/Commands/Estimation.antt =====
-- The command ce: its options, flags and run.
pub mod Spec
pub mod Laws
pub mod Table
mod Tests
use kluster_capacity.Base.{
  ℕ, String, ◌<>◌, Bool, true, false, not, ◌&&◌, List, [], ◌∷◌, Option, none, some, ◌==◌, eqb,
  length, if◌then◌else◌,
}
use kluster_capacity.Base.Monad.{Result, ok, err, panic, stuck, Action, ◌>>=◌, lift}
use kluster_capacity.Commands.{
  System, Options, no_options, default, Flag, flag, flag_p, string_var, string_slice_var, bool_var,
  int_var, var,
}
use kluster_capacity.NamespaceNames.{NamespaceName, set}

pub record CapacityEstimationOptions : Type 0 where
  pub base : Options
  pub pods_from_template : List String
  pub pods_from_cluster : List NamespaceName

abbrev pub new_capacity_estimation_options : CapacityEstimationOptions
new_capacity_estimation_options = record {
  base = no_options;
  pods_from_template = [];
  pods_from_cluster = [];
}

abbrev pub in_base : (Options → Options) → CapacityEstimationOptions → CapacityEstimationOptions
in_base f o = record o { base = f o.base }

abbrev set_names : String → Action CapacityEstimationOptions (Unit {0})
set_names text o =
    let (r, names) = set text o.pods_from_cluster in (r, record o { pods_from_cluster = names })

unfoldable pub add_flags : CapacityEstimationOptions → List (Flag CapacityEstimationOptions)
unfolding set
add_flags s =
    flag "kubeconfig"
      (string_var s.base.kube_config (λ v. in_base (λ o. record o { kube_config = v })))
    ∷ flag "pods-from-template"
        (string_slice_var s.pods_from_template (λ v o. record o { pods_from_template = v }))
    ∷ flag "pods-from-cluster" (var set_names)
    ∷ flag "max-limit" (int_var 0 (λ v. in_base (λ o. record o { max_limit = v })))
    ∷ flag "schedulerconfig"
        (string_var s.base.scheduler_config (λ v. in_base (λ o. record o { scheduler_config = v })))
    ∷ flag "verbose" (bool_var s.base.verbose (λ v. in_base (λ o. record o { verbose = v })))
    ∷ flag_p "output" "o"
        (string_var s.base.output_format (λ v. in_base (λ o. record o { output_format = v })))
    ∷ flag "exclude-nodes"
        (string_slice_var s.base.exclude_nodes (λ v. in_base (λ o. record o { exclude_nodes = v })))
    ∷ []

abbrev pub is_nil : {A : Type 0} → List A → Bool
is_nil [] = true
is_nil (x ∷ xs) = false

unfoldable pub validate : CapacityEstimationOptions → Result (Unit {0})
validate opt =
    if is_nil opt.pods_from_template && is_nil opt.pods_from_cluster
    then err "pod template file and pod from cluster both is missing"
    else if not (is_nil opt.pods_from_template) && not (is_nil opt.pods_from_cluster)
    then err "pod template file and pod from cluster is exclusive"
    else if opt.base.kube_config == ""
    then err "kubeconfig is missing"
    else ok tt
