-- ===== src/Compression/Labels.antt =====
-- Nodes that carry no label of success yet: how many there are, and what a write of one node does to them.
use kluster_capacity.Base.{
  ℕ, ◌+◌, ◌≤◌, ◌≡◌, refl, sym, ◌∙◌, subst, String, Bool, true, false, List, [], ◌∷◌, ◌==◌, eq_iff,
  any, length, if◌then◌else◌, arith, Bool-cases, inl, inr,
}
use kluster_capacity.Base.Dict.{is_some, lookup_nil}
use kluster_capacity.Base.Monad.{ok}
use kluster_capacity.Kube.{Node}
use kluster_capacity.Env.Laws.{first_node, replace_node}
use kluster_capacity.Compression.Cluster.{cordoned}
use kluster_capacity.Compression.Filter.{
  FilterStatus, success, refused, node_scaled_down_success_label,
}
use kluster_capacity.Compression.Select.{accepted, is_success}

abbrev pub is_labelled : Node → Bool
is_labelled n = is_some (lookup_nil node_scaled_down_success_label n.labels)

abbrev pub unlabelled_one : Node → ℕ
unlabelled_one n = if is_labelled n then 0 else 1

abbrev pub unlabelled : List Node → ℕ
unlabelled [] = 0
unlabelled (n ∷ ns) = unlabelled_one n + unlabelled ns

-- The API server knows a node by its name.
abbrev pub Unique : List Node → Type 0
Unique [] = Unit
Unique (n ∷ ns) = (any (λ m. m.name == n.name) ns ≡ false) × Unique ns

pub first_node-name :
    (name : String) (ns : List Node) (m : Node) → first_node name ns ≡ ok m → m.name ≡ name
first_node-name name [] m h = cc h
first_node-name name (n ∷ ns) m h = ground (arith, first_node-name name ns m, eq_iff n.name name)

first_node-any :
    (name : String) (ns : List Node) (m : Node)
    → first_node name ns ≡ ok m
    → any (λ x. x.name == name) ns ≡ true
first_node-any name [] m h = cc h
first_node-any name (n ∷ ns) m h = ground (arith, first_node-any name ns m)

any-replace_node :
    (name : String) (q : Node) (ns : List Node)
    → any (λ x. x.name == name) (replace_node q ns) ≡ any (λ x. x.name == name) ns
any-replace_node name q [] = refl
any-replace_node name q (n ∷ ns) = elim (Bool-cases (n.name == q.name)) [
  | inl e ↦ ground (arith, eq_iff n.name q.name)
  | inr e ↦ ground (arith, any-replace_node name q ns)
]

pub replace_node-Unique : (q : Node) (ns : List Node) → Unique ns → Unique (replace_node q ns)
replace_node-Unique q [] u = tt
replace_node-Unique q (n ∷ ns) u = elim (Bool-cases (n.name == q.name)) [
  | inl e ↦
      rw e
        (subst (λ name. any (λ m. m.name == name) ns ≡ false) ((eq_iff n.name q.name).0 e) u.0, u.1)
  | inr e ↦ rw e (any-replace_node n.name q ns ∙ u.0, replace_node-Unique q ns u.1)
]

-- The written node is found again, and the count changes by its label alone.
pub first_node-replace_node :
    (q : Node) (ns : List Node) (m : Node)
    → first_node q.name ns ≡ ok m
    → first_node q.name (replace_node q ns) ≡ ok q
first_node-replace_node q [] m h = cc h
first_node-replace_node q (n ∷ ns) m h =
    ground (arith, first_node-replace_node q ns m, eq_iff q.name q.name, eq_iff n.name q.name)

pub unlabelled-replace_node :
    (q : Node) (ns : List Node) (m : Node)
    → first_node q.name ns ≡ ok m
    → unlabelled (replace_node q ns) + unlabelled_one m ≡ unlabelled ns + unlabelled_one q
unlabelled-replace_node q [] m h = cc h
unlabelled-replace_node q (n ∷ ns) m h = ground (arith, unlabelled-replace_node q ns m)

pub is_success-eq : (f : FilterStatus) → is_success f ≡ true → f ≡ success
is_success-eq success h = refl
is_success-eq (refused r) h = cc h

pub other_name :
    (m n : Node) (ns : List Node)
    → any (λ x. x.name == m.name) ns ≡ false
    → first_node n.name ns ≡ ok n
    → first_node n.name (m ∷ ns) ≡ ok n
other_name m n ns u found = elim (Bool-cases (m.name == n.name)) [
  | inl e ↦
      let there =
        subst (λ name. any (λ x. x.name == name) ns ≡ true) (sym ((eq_iff m.name n.name).0 e))
          (first_node-any n.name ns n found) in
      absurd (ground arith)
  | inr e ↦ rw e found
]

module _ (filter : Node → FilterStatus)
    (refuses : (n : Node) → filter n ≡ success → is_labelled n ≡ false) where
  -- Only nodes without the label are accepted.
  pub length-accepted : (ns : List Node) → length (accepted filter ns) ≤ unlabelled ns
  unfolding accepted
  length-accepted [] = omega arith
  length-accepted (n ∷ ns) = ground (arith, length-accepted ns, refuses n)

  pub first_node-accepted :
      (ns rest : List Node) (n : Node)
      → Unique ns
      → accepted filter ns ≡ n ∷ rest
      → (first_node n.name ns ≡ ok n) × (is_labelled n ≡ false)
  unfolding accepted
  first_node-accepted [] rest n u h = cc h
  first_node-accepted (m ∷ ns) rest n u h = elim (Bool-cases (is_success (filter m))) [
    | inl e ↦
        let head =
          subst (λ b. (if b then m ∷ accepted filter ns else accepted filter ns) ≡ n ∷ rest) e h in
        let same : m ≡ n = cc head in
        subst (λ x. (first_node x.name (m ∷ ns) ≡ ok x) × (is_labelled x ≡ false)) same
          (ground (arith, eq_iff m.name m.name), refuses m (is_success-eq (filter m) e))
    | inr e ↦
        let tail =
          subst (λ b. (if b then m ∷ accepted filter ns else accepted filter ns) ≡ n ∷ rest) e h in
        let (found, free) = first_node-accepted ns rest n u.1 tail in
        (other_name m n ns u.0 found, free)
  ]

pub first_node-cordoned :
    (m : Node) (ns : List Node)
    → first_node m.name ns ≡ ok m
    → first_node m.name (replace_node (cordoned m) ns) ≡ ok (cordoned m)
unfolding cordoned
first_node-cordoned m ns found = first_node-replace_node (cordoned m) ns m found

-- The taint is written to a node that is there, and then the label.
pub unlabelled-marked :
    (m q : Node) (ns : List Node)
    → first_node m.name ns ≡ ok m
    → q.name ≡ (cordoned m).name
    → is_labelled q ≡ true
    → unlabelled (replace_node q (replace_node (cordoned m) ns)) + unlabelled_one m ≡ unlabelled ns
unfolding cordoned
unlabelled-marked m q ns found named label =
    let tainted = unlabelled-replace_node (cordoned m) ns m found in
    let there =
      subst (λ name. first_node name (replace_node (cordoned m) ns) ≡ ok (cordoned m)) (sym named)
        (first_node-cordoned m ns found) in
    let marked = unlabelled-replace_node q (replace_node (cordoned m) ns) (cordoned m) there in
    ground arith

pub unlabelled-le-length : (ns : List Node) → unlabelled ns ≤ length ns
unlabelled-le-length [] = omega arith
unlabelled-le-length (n ∷ ns) = ground (arith, unlabelled-le-length ns)

pub length-replace_node : (q : Node) (ns : List Node) → length (replace_node q ns) ≡ length ns
length-replace_node q [] = refl
length-replace_node q (n ∷ ns) = ground (arith, length-replace_node q ns)
