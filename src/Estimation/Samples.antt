-- ===== src/Estimation/Samples.antt =====
-- What the tests of the estimation share: a group of goroutines, a builder and a way to print.
use kluster_capacity.Kube.{no_resource}
use kluster_capacity.Base.Int.{pos}
use kluster_capacity.Samples.{pod_on}
use kluster_capacity.Estimation.Report.{Review}
use kluster_capacity.Base.{
  ℕ, zero, suc, ◌≡◌, refl, true, String, List, [], ◌∷◌, Option, none, some, get_elem?, arith, All,
}
use kluster_capacity.Base.Monad.{ok, err, Action}
use kluster_capacity.Config.{inject, with_kubeconfig, get_master_from_kube_config}
use kluster_capacity.Config.Samples.{files}
use kluster_capacity.Framework.Scheduler.{generic_name}
use kluster_capacity.Env.Memory.{Store}
use kluster_capacity.Executor.{Builder, build_framework}
use kluster_capacity.Framework.{Framework, start}
use kluster_capacity.Estimation.{Simulator, Hook, framework_options}
use kluster_capacity.Estimation.Executor.{Limits}
use kluster_capacity.Estimation.Executor.Slots.{IsOrder}
use kluster_capacity.Estimation.Executor.Laws.{WaitLaws}
use kluster_capacity.Samples.{two_nodes}
use kluster_capacity.Estimation.Report.Print.{Printing, Rows}

-- Wait returns the first error.
abbrev pub first_error : List (Option String) → Option String
first_error [] = none
first_error (none ∷ rs) = first_error rs
first_error (some m ∷ rs) = some m

first_error-none : (rs : List (Option String)) → All (λ r. r ≡ none) rs → first_error rs ≡ none
first_error-none [] h = refl
first_error-none (none ∷ rs) (here, rest) = first_error-none rs rest
first_error-none (some m ∷ rs) (here, rest) = cc here

first_error-some :
    (rs : List (Option String)) (k : ℕ) (m : String)
    → get_elem? rs k ≡ some (some m)
    → (first : String) × (first_error rs ≡ some first)
first_error-some [] k m h = cc h
first_error-some (none ∷ rs) zero m h = cc h
first_error-some (none ∷ rs) (suc k) m h = first_error-some rs k m h
first_error-some (some x ∷ rs) k m h = (x, refl)

pub first_error-WaitLaws : WaitLaws first_error
first_error-WaitLaws = record { wait-none = first_error-none; wait-some = first_error-some }

-- The second finishes first.
abbrev pub backwards : List ℕ
backwards = 1 ∷ 0 ∷ []

pub backwards-IsOrder : IsOrder 2 backwards
backwards-IsOrder = record {
  within = (omega arith, (omega arith, tt));
  distinct = (refl, (refl, tt));
  covers = λ i h. ground arith;
}

-- A scheduler after whose first attempt the simulation stops.
abbrev pub stopping : Action (Simulator Store) (Unit {0})
stopping s = (
  ok tt,
  record s {
    framework = record (s.framework) {
      stop_ch = true;
      stopped = true;
      status = record (s.framework.status) { stop_reason = "Unschedulable: full" };
    };
  },
)

abbrev pub well : ℕ → Action (Simulator Store) (Unit {0})
well i = stopping

-- A builder on the sample files, whose scheduler accepts any plugins.
abbrev pub builder : Builder Store Hook
builder = record {
  packages = files;
  new_world = λ cc. two_nodes;
  rest_mapper = λ rest. ok tt;
  register = λ names name. ok (name ∷ names);
  scheduler = λ f plugins. ok tt;
}

abbrev pub limits : Limits
limits = record {
  scheduler_config = "";
  kube_config = "config";
  exclude_nodes = "n2" ∷ [];
  max_limit = 5;
}

abbrev pub built : Framework Store Hook
built = record (start two_nodes (framework_options ("n2" ∷ []))) {
  settings = record ((start two_nodes (framework_options ("n2" ∷ []))).settings) {
    out_of_tree_registry = some (generic_name ∷ []);
  };
}

pub builds : build_framework builder "" "config" (framework_options ("n2" ∷ [])) ≡ ok built
unfolding build_framework start inject with_kubeconfig get_master_from_kube_config
builds = refl

abbrev pub first_cell : Rows → String
first_cell [] = ""
first_cell ((text, n) ∷ rows) = text

abbrev pub plain : Printing
plain = record {
  encoders = record {
    marshal_json = λ r. err "no json";
    marshal_yaml = λ r. err "no yaml";
    quote = λ text. text;
  };
  show_scalars = λ m. "";
  show_selector = λ m. "";
  marshal_requirements = λ req. ok req.pod_name;
  render = first_cell;
}

-- The review of a pod of this name that fits nowhere.
abbrev pub full : String → Review
full name = record {
  spec = record {
    templates = pod_on "" name ∷ [];
    pod_requirements =
        record { pod_name = name; resources = no_resource; node_selectors = none } ∷ [];
  };
  status = record {
    replicas = pos 0;
    stop_reason = record { stop_type = "Unschedulable"; stop_message = "full" };
    pods = record { pod_name = name; replicas_on_nodes = []; summary = none } ∷ [];
  };
}
