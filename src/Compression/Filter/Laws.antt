-- ===== src/Compression/Filter/Laws.antt =====
-- Which nodes the filter accepts.
use kluster_capacity.Base.{
  String, Bool, true, false, ◌≡◌, ◌≢◌, ◌↔◌, refl, List, [], ◌∷◌, none, some, ◌==◌, eq_iff,
  if◌then◌else◌, any, All, arith, Option-cases, inl, inr, subst,
}
use kluster_capacity.Base.Dict.{lookup_nil}
use kluster_capacity.Base.Monad.{Result, ok, err, panic, stuck}
use kluster_capacity.Kube.{Pod, Node, NodeCondition}
use kluster_capacity.Pods.{
  is_static_pod, is_mirror_pod, is_pod_with_local_storage, is_clone_set_pod,
}
use kluster_capacity.Compression.Filter.{
  FilterNodeOptions, success, refused, taint_node, build_filter_func, check_pods, check_listed,
  node_filter_options, kubernetes_master_node_label, node_scaled_down_failed_label,
  node_scaled_down_success_label, node_scale_down_disable_label, default_filter, check_node,
  have_node_taint, is_node_not_ready, some_ready,
}

-- A pod that none of the options set keeps on its node.
abbrev pub MayMove : FilterNodeOptions → Pod → Type 0
MayMove f p =
    (f.ignore_static_pod ≡ true → is_static_pod p ≡ false)
    × (f.ignore_mirror_pod ≡ true → is_mirror_pod p ≡ false)
    × (f.ignore_volume_pod ≡ true → is_pod_with_local_storage p ≡ false)
    × (f.ignore_clone_set ≡ true → is_clone_set_pod p.owner_references ≡ false)

abbrev pub is_ready_condition : NodeCondition → Bool
is_ready_condition c = if c.type == "Ready" then c.status == "True" else false

-- The labels leave the node to be scaled down.
abbrev pub IsOpen : Node → Type 0
IsOpen n =
    (lookup_nil kubernetes_master_node_label n.labels ≡ none)
    × (lookup_nil node_scaled_down_failed_label n.labels ≡ none)
    × (lookup_nil node_scaled_down_success_label n.labels ≡ none)
    × (lookup_nil node_scale_down_disable_label n.labels ≢ some "true")

abbrev pub IsCandidate : (String → Result (List Pod)) → FilterNodeOptions → Node → Type 0
IsCandidate get_pods f n =
    IsOpen n
    × (f.exclude_taint_node ≡ true → n.taints ≡ [])
    × (f.exclude_not_ready_node ≡ true → any is_ready_condition n.conditions ≡ true)
    × ((ps : List Pod) × (get_pods n.name ≡ ok ps) × All (MayMove f) ps)

default_filter_iff : (n : Node) → (default_filter n ≡ success) ↔ IsOpen n
unfolding default_filter
default_filter_iff n = elim (Option-cases (lookup_nil node_scale_down_disable_label n.labels)) [
  | inl e ↦ ground arith
  | inr (v, e) ↦ ground (arith, eq_iff v "true")
]

some_ready-any :
    (cs : List NodeCondition) → (some_ready cs ≡ false) ↔ (any is_ready_condition cs ≡ true)
unfolding some_ready
some_ready-any [] = ground arith
some_ready-any (c ∷ cs) = ground (arith, some_ready-any cs)

check_pods_iff :
    (get_pods : String → Result (List Pod)) (ex : List String) (f : FilterNodeOptions)
    (ps : List Pod)
    → (check_pods (node_filter_options get_pods ex f) ps ≡ success) ↔ All (MayMove f) ps
unfolding check_pods
check_pods_iff g ex f [] = ground arith
check_pods_iff g ex f (p ∷ ps) = ground (arith, check_pods_iff g ex f ps)

have_node_taint_iff : (n : Node) → (have_node_taint n ≡ false) ↔ (n.taints ≡ [])
unfolding have_node_taint
have_node_taint_iff n = ground arith

check_listed_iff :
    (get_pods : String → Result (List Pod)) (ex : List String) (f : FilterNodeOptions)
    (r : Result (List Pod))
    → (check_listed (node_filter_options get_pods ex f) r ≡ success)
      ↔ ((ps : List Pod) × (r ≡ ok ps) × All (MayMove f) ps)
check_listed_iff g ex f (ok ps) = (
  λ h. (ps, refl, (check_pods_iff g ex f ps).0 h),
  λ h. (check_pods_iff g ex f ps).1 (subst (All (MayMove f)) (cc (h.1)) h.2),
)
check_listed_iff g ex f (err m) = (λ h. cc h, λ h. cc (h.1))
check_listed_iff g ex f panic = (λ h. cc h, λ h. cc (h.1))
check_listed_iff g ex f stuck = (λ h. cc h, λ h. cc (h.1))

-- No label, and no pod, is a taint.
default_filter-not_taint : (n : Node) → default_filter n ≢ refused taint_node
unfolding default_filter
default_filter-not_taint n = ground arith

check_pods-not_taint :
    (get_pods : String → Result (List Pod)) (ex : List String) (f : FilterNodeOptions)
    (ps : List Pod)
    → check_pods (node_filter_options get_pods ex f) ps ≢ refused taint_node
unfolding check_pods
check_pods-not_taint g ex f [] = λ h. cc h
check_pods-not_taint g ex f (p ∷ ps) = ground (arith, check_pods-not_taint g ex f ps)

check_listed-not_taint :
    (get_pods : String → Result (List Pod)) (ex : List String) (f : FilterNodeOptions)
    (r : Result (List Pod))
    → check_listed (node_filter_options get_pods ex f) r ≢ refused taint_node
check_listed-not_taint g ex f (ok ps) = check_pods-not_taint g ex f ps
check_listed-not_taint g ex f (err m) = λ h. cc h
check_listed-not_taint g ex f panic = λ h. cc h
check_listed-not_taint g ex f stuck = λ h. cc h

module _ (get_pods : String → Result (List Pod)) (exclude : List String) (f : FilterNodeOptions)
    (n : Node) where
  check_node_iff : (check_node (node_filter_options get_pods exclude f) n ≡ success) ↔ (
      (f.exclude_taint_node ≡ true → n.taints ≡ [])
      × (f.exclude_not_ready_node ≡ true → any is_ready_condition n.conditions ≡ true)
      × ((ps : List Pod) × (get_pods n.name ≡ ok ps) × All (MayMove f) ps))
  unfolding check_node is_node_not_ready
  check_node_iff =
      let listed = check_listed_iff get_pods exclude f (get_pods n.name) in
      let taints = have_node_taint_iff n in
      let ready = some_ready-any n.conditions in
      (
        λ h. (ground arith, ground arith, listed.0 (ground arith)),
        λ h. let l = listed.1 h.2 in ground arith,
      )

  -- The filter accepts a node exactly if its labels leave it open, it has no taint and is ready where the
  -- options ask for it, and its pods are known and may all move.
  pub build_filter_func_iff :
      (build_filter_func (node_filter_options get_pods exclude f) n ≡ success)
      ↔ IsCandidate get_pods f n
  unfolding build_filter_func
  build_filter_func_iff = ground (arith, default_filter_iff n, check_node_iff)

  -- The filter refuses a node for its taints exactly if taints are excluded, it has one, and its labels leave it
  -- open. So a node that carries the label of a node scaled down, or that of a failed one, is not refused for a taint.
  pub build_filter_func-taint_node_iff :
      (build_filter_func (node_filter_options get_pods exclude f) n ≡ refused taint_node)
      ↔ (IsOpen n × (f.exclude_taint_node ≡ true) × (n.taints ≢ []))
  unfolding build_filter_func check_node
  build_filter_func-taint_node_iff = ground (
    arith,
    default_filter_iff n,
    default_filter-not_taint n,
    have_node_taint_iff n,
    check_listed-not_taint get_pods exclude f (get_pods n.name),
  )
