-- ===== src/Env/Memory/Laws.antt =====
-- The concrete world meets the laws of the fake API server.
use kluster_capacity.Base.{
  String, ◌≡◌, refl, sym, ap, ◌∙◌, map, List, [], ◌∷◌, Option, none, some, false, ◌==◌, eq_iff,
  eq_refl, if◌then◌else◌, arith, ◌⊎◌, inl, inr, Bool-cases,
}
use kluster_capacity.Base.Monad.{ok, err}
use kluster_capacity.Kube.{Pod, Node}
use kluster_capacity.Env.Laws.{
  same_key, first_node, replace_node, found, PodLaws, NodeLaws, CacheLaws,
}
use kluster_capacity.Env.Answers.{Answers}
use kluster_capacity.Env.Memory.{
  Store, memory, first_pod, without_pod, create, delete, on_node, replace_pod,
}

pub first_pod-cases :
    (ns name : String) (ps : List Pod)
    → ((p : Pod) × (first_pod ns name ps ≡ ok p)) ⊎ ((m : String) × (first_pod ns name ps ≡ err m))
first_pod-cases ns name [] = inr ("not found", refl)
first_pod-cases ns name (p ∷ ps) = elim (Bool-cases (same_key p.namespace p.name ns name)) [
  | inl e ↦ inl (p, rw e)
  | inr e ↦ rw e (first_pod-cases ns name ps)
]

first_node-cases :
    (name : String) (ns : List Node)
    → ((n : Node) × (first_node name ns ≡ ok n)) ⊎ ((m : String) × (first_node name ns ≡ err m))
first_node-cases name [] = inr ("not found", refl)
first_node-cases name (n ∷ ns) = elim (Bool-cases (n.name == name)) [
  | inl e ↦ inl (n, rw e)
  | inr e ↦ rw e (first_node-cases name ns)
]

found-without_pod :
    (ns name ns' name' : String) (ps : List Pod)
    → found (first_pod ns' name' (without_pod ns name ps))
      ≡ (if same_key ns name ns' name' then none else found (first_pod ns' name' ps))
found-without_pod ns name ns' name' [] = elim (Bool-cases (same_key ns name ns' name')) [
  | inl e ↦ rw e
  | inr e ↦ rw e
]
found-without_pod ns name ns' name' (p ∷ ps) = ground (
  arith,
  found-without_pod ns name ns' name' ps,
  eq_iff p.namespace ns,
  eq_iff p.name name,
  eq_iff p.namespace ns',
  eq_iff p.name name',
  eq_iff ns ns',
  eq_iff name name',
)

create_lem :
    (w : Store) (p : Pod)
    → found (first_pod p.namespace p.name w.pods) ≡ none
    → create w p.namespace p ≡ ok (record w { pods = p ∷ w.pods })
create_lem w p h = elim (first_pod-cases p.namespace p.name w.pods) [
  | inl (q, e) ↦ ground arith
  | inr (m, e) ↦ rw (e, create) (rw (eq_refl p.namespace))
]

find-create_lem :
    (w w' : Store) (p : Pod) (ns name : String)
    → create w p.namespace p ≡ ok w'
    → found (first_pod ns name w'.pods)
      ≡ (if same_key p.namespace p.name ns name then some p else found (first_pod ns name w.pods))
find-create_lem w w' p ns name h = elim (first_pod-cases p.namespace p.name w.pods) [
  | inl (q, e) ↦ ground arith
  | inr (m, e) ↦ ground (arith, eq_refl p.namespace)
]

find-delete_lem :
    (w w' : Store) (ns name ns' name' : String)
    → delete w ns name ≡ ok w'
    → found (first_pod ns' name' w'.pods)
      ≡ (if same_key ns name ns' name' then none else found (first_pod ns' name' w.pods))
find-delete_lem w w' ns name ns' name' h = elim (first_pod-cases ns name w.pods) [
  | inl (q, e) ↦ ground (arith, found-without_pod ns name ns' name' w.pods)
  | inr (m, e) ↦ ground arith
]

pub memory-PodLaws : PodLaws memory
memory-PodLaws = record {
  create_ok = λ w p h. (record w { pods = p ∷ w.pods }, create_lem w p h);
  find-create = find-create_lem;
  delete_ok = λ w ns name p h. (record w { pods = without_pod ns name w.pods }, ground arith);
  find-delete = find-delete_lem;
}

pub memory-NodeLaws : NodeLaws memory
memory-NodeLaws = record {
  nodes = λ w. w.nodes;
  list_nodes_lem = λ w. refl;
  get_node_lem = λ w name. refl;
  update_node_ok = λ w n m h. (record w { nodes = replace_node n w.nodes }, ground arith);
  nodes-update_node = λ w w' n h. ground (arith, first_node-cases n.name w.nodes);
  nodes-delete_pod = λ w w' ns name h. ground (arith, first_pod-cases ns name w.pods);
  nodes-create_pod = λ w w' ns p h. ground (arith, first_pod-cases p.namespace p.name w.pods);
  nodes-open_file = λ w w' path h. cc h;
  nodes-write_file = λ w w' path text h. cc h;
}

pub nodes-memory : (w : Store) → memory-NodeLaws.nodes w ≡ w.nodes
unfolding memory-NodeLaws
nodes-memory w = refl

pub memory-Answers : Answers memory
memory-Answers = record {
  get_node = λ w name. ground (arith, first_node-cases name w.nodes);
  update_node = λ w n. ground (arith, first_node-cases n.name w.nodes);
  list_nodes = λ w h. cc h;
  create_pod = λ w ns p. ground (arith, first_pod-cases p.namespace p.name w.pods);
  delete_pod = λ w ns name. ground (arith, first_pod-cases ns name w.pods);
  list_pods = λ w h. cc h;
  open_file = λ w path h. cc h;
  marshal_status = λ s h. cc h;
  write_file = λ w path text h. cc h;
}

abbrev entry : List Pod → Node → String × List (Option Pod)
entry ps n = (n.name, on_node n.name ps)

entries-replace_node :
    (q : Node) (ns : List Node) (ps : List Pod)
    → map (entry ps) (replace_node q ns) ≡ map (entry ps) ns
entries-replace_node q [] ps = refl
entries-replace_node q (n ∷ ns) ps = elim (Bool-cases (n.name == q.name)) [
  | inl e ↦
      let same = (eq_iff n.name q.name).0 e in
      rw e (λ i. (sym same i, on_node (sym same i) ps) ∷ map (entry ps) ns)
  | inr e ↦ rw e (λ i. entry ps n ∷ entries-replace_node q ns ps i)
]

replaced :
    (w w' : Store) (n : Node)
    → memory.update_node w n ≡ ok w'
    → w' ≡ record w { nodes = replace_node n w.nodes }
replaced w w' n h = ground (arith, first_node-cases n.name w.nodes)

pub memory-CacheLaws : CacheLaws memory
memory-CacheLaws = record {
  find-update_node =
      λ w w' n ns name h. ap (λ v. found (first_pod ns name v.pods)) (replaced w w' n h);
  dump-update_node = λ w w' n h.
      ap memory.dump (replaced w w' n h) ∙ ap some (entries-replace_node n w.nodes w.pods);
}

-- Writing a pod creates none.
pub found-replace_pod :
    (ns name : String) (q : Pod) (ps : List Pod)
    → found (first_pod ns name ps) ≡ none
    → found (first_pod ns name (replace_pod q ps)) ≡ none
found-replace_pod ns name q [] h = h
found-replace_pod ns name q (p ∷ ps) h = ground (
  arith,
  found-replace_pod ns name q ps,
  eq_iff p.namespace ns,
  eq_iff p.name name,
  eq_iff p.namespace q.namespace,
  eq_iff p.name q.name,
  eq_iff q.namespace ns,
  eq_iff q.name name,
)

-- A pod that is there stays there.
pub kept-replace_pod :
    (ns name : String) (q : Pod) (ps : List Pod) (r : Pod)
    → found (first_pod ns name ps) ≡ some r
    → (r' : Pod) × (found (first_pod ns name (replace_pod q ps)) ≡ some r')
kept-replace_pod ns name q [] r h = absurd (ground arith)
kept-replace_pod ns name q (p ∷ ps) r h =
    elim (Bool-cases (same_key p.namespace p.name q.namespace q.name)) [
      | inl e ↦ elim (Bool-cases (same_key p.namespace p.name ns name)) [
        | inl e' ↦ (q, rw e (ground (arith, eq_iff p.namespace q.namespace, eq_iff p.name q.name)))
        | inr e' ↦ (r, rw e (ground (arith, eq_iff p.namespace q.namespace, eq_iff p.name q.name)))
      ]
      | inr e ↦ elim (Bool-cases (same_key p.namespace p.name ns name)) [
        | inl e' ↦ (p, rw e (rw e'))
        | inr e' ↦
            let (r', there) = kept-replace_pod ns name q ps r (ground arith) in
            (r', rw e (rw e' there))
      ]
    ]

pub other-replace_pod :
    (ns name : String) (q : Pod) (ps : List Pod)
    → same_key q.namespace q.name ns name ≡ false
    → found (first_pod ns name (replace_pod q ps)) ≡ found (first_pod ns name ps)
other-replace_pod ns name q [] h = refl
other-replace_pod ns name q (p ∷ ps) h =
    ground
      (arith, other-replace_pod ns name q ps, eq_iff p.namespace q.namespace, eq_iff p.name q.name)

pub first_pod-key :
    (ns name : String) (ps : List Pod) (p : Pod)
    → first_pod ns name ps ≡ ok p
    → (p.namespace ≡ ns) × (p.name ≡ name)
first_pod-key ns name [] p h = absurd (ground arith)
first_pod-key ns name (q ∷ ps) p h =
    ground (arith, first_pod-key ns name ps p, eq_iff q.namespace ns, eq_iff q.name name)
