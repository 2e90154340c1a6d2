-- ===== src/Commands/Estimation/Spec.antt =====
-- ParseAPISpec, and the functions run and runSimulator of the command ce.
use kluster_capacity.Base.{
  ℕ, String, ◌<>◌, Bool, ◌||◌, List, [], ◌∷◌, ◌++◌, Option, none, some, eqb, if◌then◌else◌,
}
use kluster_capacity.Base.Text.{show_nat}
use kluster_capacity.Base.Monad.{
  Result, ok, err, panic, stuck, Action, ◌>>=◌, ◌>>◌, pure, lift, modify,
}
use kluster_capacity.Base.Outcome.{wrap}
use kluster_capacity.Kube.{Pod, Object, Resource}
use kluster_capacity.Config.{Packages, RestConfig, build_rest_config}
use kluster_capacity.Env.{Env}
use kluster_capacity.Executor.{Builder}
use kluster_capacity.NamespaceNames.{NamespaceName}
use kluster_capacity.Print.{Output}
use kluster_capacity.Commands.{System, default, run_e}
use kluster_capacity.Commands.Estimation.{CapacityEstimationOptions, in_base, is_nil, validate}
use kluster_capacity.Estimation.{Simulator, Hook, initialize_all}
use kluster_capacity.Estimation.Executor.{Limits, new_ce_simulator_executor, run_all}
use kluster_capacity.Estimation.Report.{Review}
use kluster_capacity.Estimation.Report.Print.{Printing, print_reviews}

-- http.Response
pub record Response : Type 0 where
  pub status : String
  pub status_code : ℕ
  pub body : String

-- strings.HasPrefix, http.Get, os.Open of the absolute path, the %q verb, the decoder of YAML or JSON, and the
-- client of the cluster.
pub record Web : Type 0 where
  pub has_prefix : (text prefix : String) → Bool
  pub get : String → Result Response
  pub abs : String → String
  pub open_file : String → Result String
  pub quote : String → String
  pub decode : String → Result Pod
  pub new_for_config : RestConfig → Result (Unit {0})
  pub get_pod : RestConfig → (namespace name : String) → Result Pod

-- The pods found before an error stay.
abbrev pub add_pod : Pod → Action (List Pod) (Unit {0})
add_pod p = modify (λ ps. ps ++ (p ∷ []))

unfoldable pub add_all : {A : Type 0} → (A → Result Pod) → List A → Action (List Pod) (Unit {0})
add_all f [] = pure tt
add_all f (x ∷ xs) = (lift (f x) >>= add_pod) >> add_all f xs

module _ (web : Web) where
  open web use {has_prefix, get, abs, open_file, quote, decode, new_for_config, get_pod}

  abbrev body_of : String → Response → Result String
  body_of template response =
      if eqb response.status_code 200
      then ok response.body
      else err (
          "unable to read URL "
          <> (quote template
              <> (", server reported "
                  <> (response.status <> (", status code=" <> show_nat response.status_code)))))

  abbrev fetched : String → Result Response → Result String
  fetched template (ok response) = body_of template response
  fetched template (err m) = err m
  fetched template panic = panic
  fetched template stuck = stuck

  abbrev spec_of : String → Result String
  spec_of template =
      if has_prefix template "http://" || has_prefix template "https://"
      then fetched template (get template)
      else wrap "failed to open config file: " "" (open_file (abs template))

  abbrev decoded : Result String → Result Pod
  decoded (ok spec) = wrap "failed to decode config file: " "" (decode spec)
  decoded (err m) = err m
  decoded panic = panic
  decoded stuck = stuck

  unfoldable pub get_pod_from_template : String → Result Pod
  get_pod_from_template template = decoded (spec_of template)

  abbrev pub named_pod : RestConfig → NamespaceName → Result Pod
  named_pod cfg nn = get_pod cfg nn.namespace nn.name

  abbrev pub from_cluster : List NamespaceName → RestConfig → Action (List Pod) (Unit {0})
  from_cluster names cfg = do client ← lift (new_for_config cfg); add_all (named_pod cfg) names

  unfoldable pub parse_api_spec :
      Packages → CapacityEstimationOptions → Action (List Pod) (Unit {0})
  unfolding add_all get_pod_from_template build_rest_config
  parse_api_spec packages opt =
      if is_nil opt.pods_from_template
      then lift (build_rest_config packages opt.base.kube_config)
        >>= from_cluster opt.pods_from_cluster
      else add_all get_pod_from_template opt.pods_from_template

abbrev pub limits_of : CapacityEstimationOptions → Limits
limits_of opt = record {
  scheduler_config = opt.base.scheduler_config;
  kube_config = opt.base.kube_config;
  exclude_nodes = opt.base.exclude_nodes;
  max_limit = opt.base.max_limit;
}

-- The reports of a run that ended well are all set; a pointer that is not would be nil.
abbrev pub all_set : List (Option Review) → Result (List Review)
all_set [] = ok []
all_set (none ∷ rs) = panic
all_set (some r ∷ rs) = elim (all_set rs) [
  | ok qs ↦ ok (r ∷ qs)
  | err m ↦ err m
  | panic ↦ panic
  | stuck ↦ stuck
]

abbrev pub default_of : System → CapacityEstimationOptions → CapacityEstimationOptions
default_of system = in_base (default system)

-- `cluster` is what the running cluster holds, `schedule i` what the scheduler of simulator `i` does, `wait` is
-- errgroup.Group.Wait, and `order` the order in which the simulators finish.
module _ (e : Env) (b : Builder e.World Hook) (web : Web) (cluster : List (Result Object))
    (compute : Pod → Resource) (schedule : ℕ → Action (Simulator e.World) (Unit {0}))
    (wait : List (Option String) → Option String) (order : List ℕ) (printing : Printing) where
  open e use {World}

  abbrev pub run_filled : Result (Unit {0}) × List (Simulator World) → Result (List (Option Review))
  run_filled (ok u, ss) = run_all e compute schedule wait order ss
  run_filled (err m, ss) = err m
  run_filled (panic, ss) = panic
  run_filled (stuck, ss) = stuck

  abbrev pub run_made : Result (List (Simulator World)) → Result (List (Option Review))
  run_made (ok ss) = run_filled (initialize_all e cluster [] ss)
  run_made (err m) = err m
  run_made panic = panic
  run_made stuck = stuck

  unfoldable pub run_ce_simulator :
      CapacityEstimationOptions → List Pod → Result (List (Option Review))
  unfolding new_ce_simulator_executor initialize_all run_all
  run_ce_simulator opt pods = run_made (new_ce_simulator_executor b (limits_of opt) pods)

  abbrev pub wrapped : Result (Unit {0}) × Output → Result (Unit {0}) × Output
  wrapped (q, out) = (wrap "error while printing: " "" q, out)

  abbrev pub print_set : CapacityEstimationOptions → Result (List Review) → Action Output (Unit {0})
  print_set opt (ok reviews) out =
      wrapped (print_reviews printing opt.base.verbose opt.base.output_format reviews out)
  print_set opt (err m) out = (err m, out)
  print_set opt panic out = (panic, out)
  print_set opt stuck out = (stuck, out)

  abbrev pub print_wrapped :
      CapacityEstimationOptions → List (Option Review) → Action Output (Unit {0})
  print_wrapped opt rs = print_set opt (all_set rs)

  abbrev pub found : Result (Unit {0}) × List Pod → Result (List Pod)
  found (ok u, pods) = ok pods
  found (err m, pods) = err ("failed to parse pod spec file: " <> (m <> " "))
  found (panic, pods) = panic
  found (stuck, pods) = stuck

  abbrev pub pods_of : CapacityEstimationOptions → Result (List Pod)
  pods_of opt = found (parse_api_spec web b.packages opt [])

  unfoldable pub run : CapacityEstimationOptions → Action Output (Unit {0})
  unfolding run_ce_simulator print_reviews parse_api_spec
  run opt = do
    pods ← lift (pods_of opt)
    reports ← lift (run_ce_simulator opt pods)
    print_wrapped opt reports

  -- NewCapacityEstimationCmd
  unfoldable pub new_capacity_estimation_cmd :
      System → CapacityEstimationOptions → Action Output (Unit {0})
  unfolding run run_e validate default
  new_capacity_estimation_cmd system = run_e system default_of validate run
