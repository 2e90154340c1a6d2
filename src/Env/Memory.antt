-- ===== src/Env/Memory.antt =====
-- A concrete world, which meets the laws: lists of pods and nodes.
pub mod Laws
use kluster_capacity.Base.{
  ℕ, String, Bool, true, false, ◌≡◌, refl, List, [], ◌∷◌, ◌++◌, map, Option, none, some, ◌==◌,
  eq_iff, if◌then◌else◌, keep_if, not, ◌&&◌, arith, Option-cases, inl, inr,
}
use kluster_capacity.Base.Dict.{Dict}
use kluster_capacity.Base.Monad.{Result, ok, err, panic}
use kluster_capacity.Kube.{Pod, Node, Object, pod, node, unstructured, other}
use kluster_capacity.Status.{Status}
use kluster_capacity.Env.{Env}
use kluster_capacity.Env.Laws.{same_key, first_node, replace_node, PodLaws, NodeLaws}

pub record Store : Type 0 where
  pub pods : List Pod
  pub nodes : List Node

abbrev pub first_pod : String → String → List Pod → Result Pod
first_pod ns name [] = err "not found"
first_pod ns name (p ∷ ps) =
    if same_key p.namespace p.name ns name then ok p else first_pod ns name ps

abbrev pub without_pod : String → String → List Pod → List Pod
without_pod ns name [] = []
without_pod ns name (p ∷ ps) =
    if same_key p.namespace p.name ns name
    then without_pod ns name ps
    else p ∷ without_pod ns name ps

abbrev pub replace_pod : Pod → List Pod → List Pod
replace_pod q [] = []
replace_pod q (p ∷ ps) =
    if same_key p.namespace p.name q.namespace q.name then q ∷ ps else p ∷ replace_pod q ps

abbrev create : Store → String → Pod → Result Store
create w ns p = elim (first_pod p.namespace p.name w.pods) [
  | ok q ↦ err "already exists"
  | err e ↦ if ns == p.namespace then ok (record w { pods = p ∷ w.pods }) else err "wrong namespace"
  | _ ↦ err "never"
]

abbrev delete : Store → String → String → Result Store
delete w ns name = elim (first_pod ns name w.pods) [
  | ok q ↦ ok (record w { pods = without_pod ns name w.pods })
  | err e ↦ err e
  | _ ↦ err "never"
]

abbrev replace : Store → Node → Result Store
replace w n = elim (first_node n.name w.nodes) [
  | ok q ↦ ok (record w { nodes = replace_node n w.nodes })
  | err e ↦ err e
  | _ ↦ err "never"
]

abbrev store : Store → Object → Result Store
store w (pod p) = ok (record w { pods = w.pods ++ (p ∷ []) })
store w (node n) = ok (record w { nodes = w.nodes ++ (n ∷ []) })
store w unstructured = err "unstructured"
store w (other kind) = ok w

-- The cache of a scheduler that has seen everything: the bound pods of each node that has one.
abbrev pub on_node : String → List Pod → List (Option Pod)
on_node name [] = []
on_node name (p ∷ ps) =
    if p.spec.node_name == name then some p ∷ on_node name ps else on_node name ps

abbrev pub memory : Env
memory = record {
  World = Store;
  get_node = λ w name. first_node name w.nodes;
  update_node = replace;
  list_nodes = λ w. ok w.nodes;
  get_pod = λ w ns name. first_pod ns name w.pods;
  create_pod = create;
  update_pod = λ w ns p. ok (record w { pods = replace_pod p w.pods });
  delete_pod = delete;
  list_pods = λ w. ok w.pods;
  add_object = store;
  dump = λ w. some (map (λ n. (n.name, on_node n.name w.pods)) w.nodes);
  set_object_defaults = λ p. p;
  new_uid = λ w. "uid";
  range = λ V m. m;
  open_file = λ w path. ok w;
  marshal_status = λ s. ok s.stop_reason;
  write_file = λ w path text. ok w;
}
