-- ===== src/Estimation/Report/Replicas.antt =====
-- The report of a simulator: its number of replicas, and the nodes that they are on.
use kluster_capacity.Base.{
  ℕ, ◌+◌, ◌%◌, ◌^◌, ◌<◌, ◌≤◌, ◌⊎◌, inl, inr, ltb, Bool-cases, ◌≡◌, refl, sym, ap, ◌∙◌, subst, true,
  List, [], ◌∷◌, length, arith, none,
}
use kluster_capacity.Base.Int.{pos}
use kluster_capacity.Base.Monad.{ok-injective, ok}
use kluster_capacity.Kube.{Pod, Resource}
use kluster_capacity.Status.{Status}
use kluster_capacity.StopReason.{StopReason, get_main_stop_reason}
use kluster_capacity.Estimation.Report.{
  Review, ReviewResult, ReplicasOnNode, place_pods, place_at, parse_pods_review, generate_report,
  get_review_status, get_pods_requirements, instances_sum, to_int32, place, get_review_spec,
  with_status, with_pods,
}
use kluster_capacity.Estimation.Report.Counts.{
  replicas_on, total_on, pods_on, parse_pods_review-total,
}

pods_on-length : (ps : List Pod) → pods_on (λ node. true) ps ≡ length ps
pods_on-length [] = refl
pods_on-length (p ∷ ps) = omega (arith, pods_on-length ps)

instances_sum_lem : (ns : List ReplicasOnNode) → instances_sum ns ≡ replicas_on (λ node. true) ns
unfolding instances_sum
instances_sum_lem [] = refl
instances_sum_lem (n ∷ ns) = omega (arith, instances_sum_lem ns)

-- All pods are placed in the only result.
place_pods_one :
    (i : ℕ) (ps : List Pod) (r : ReviewResult)
    → (ns : List ReplicasOnNode) × (place_pods 1 i ps (r ∷ [])
        ≡ record r { replicas_on_nodes = ns } ∷ [])
unfolding place_pods
place_pods_one i [] r = (r.replicas_on_nodes, refl)
place_pods_one i (p ∷ ps) r =
    let placed : ReviewResult = record r {
      replicas_on_nodes = place p.spec.node_name r.replicas_on_nodes;
    } in
    let first : 0 ≡ i % 1 = omega arith in
    subst
      (λ k.
        (ns : List ReplicasOnNode) × (place_pods 1 (i + 1) ps (place_at k p.spec.node_name (r ∷ []))
          ≡ record r { replicas_on_nodes = ns } ∷ []))
      first (place_pods_one (i + 1) ps placed)

to_int32-exact : (n : ℕ) → n < 2 ^ 31 → to_int32 n ≡ pos n
to_int32-exact n h = ground arith

replicas-cases :
    (n : ℕ) → ((n < 2 ^ 31) × (to_int32 n ≡ pos n)) ⊎ ((2 ^ 31 ≤ n) × (to_int32 n ≡ to_int32 n))
replicas-cases n = elim (Bool-cases (ltb n (2 ^ 31))) [
  | inl e ↦ let small : n < 2 ^ 31 = ground arith in inl (small, to_int32-exact n small)
  | inr e ↦ inr (ground arith, refl)
]

-- The report of one pod exists whenever its stop reason has a type, for any number of estimated pods. It has one
-- result and one line of requirements, those of the pod, and the replicas on the nodes of the result add up to the
-- number of estimated pods. For fewer than 2 ^ 31 estimated pods its number of replicas is that sum; from 2 ^ 31 on it is
-- the sum as the int32 wraps it.
pub generate_report-replicas :
    (compute : Pod → Resource) (p : Pod) (status : Status) (reason : StopReason)
    → get_main_stop_reason status.stop_reason ≡ ok reason
    → (r : Review) × (ns : List ReplicasOnNode) × (generate_report compute (p ∷ []) status ≡ ok r)
      × (r.status.pods ≡ record { pod_name = p.name; replicas_on_nodes = ns; summary = none } ∷ [])
      × (instances_sum ns ≡ length status.pods_for_estimation)
      × (((length status.pods_for_estimation < 2 ^ 31)
            × (r.status.replicas ≡ pos (instances_sum ns)))
          ⊎ ((2 ^ 31 ≤ length status.pods_for_estimation)
              × (r.status.replicas ≡ to_int32 (instances_sum ns))))
      × (r.spec.pod_requirements
          ≡ record {
            pod_name = p.name;
            resources = compute p;
            node_selectors = p.spec.node_selector;
          }
            ∷ [])
unfolding generate_report get_review_status get_pods_requirements parse_pods_review
generate_report-replicas compute p status reason parsed =
    let estimated = status.pods_for_estimation in
    let n = length estimated in
    let (ns, placed) =
      place_pods_one 0 estimated
        (record { pod_name = p.name; replicas_on_nodes = []; summary = none }) in
    let (rs, made, total) = parse_pods_review-total p [] status in
    let same : rs ≡ record { pod_name = p.name; replicas_on_nodes = ns; summary = none } ∷ [] =
      ok-injective (sym made) ∙ placed in
    let sum : instances_sum ns ≡ n = omega (
      arith,
      instances_sum_lem ns,
      ap (λ l. total_on (λ node. true) l) same,
      total (λ node. true),
      pods_on-length estimated,
    ) in
    (
      record {
        spec = get_review_spec compute (p ∷ []);
        status = record {
          replicas = to_int32 n;
          stop_reason = reason;
          pods =
              place_pods 1 0 estimated
                (record { pod_name = p.name; replicas_on_nodes = []; summary = none } ∷ []);
        };
      },
      ns,
      ap
          (λ m.
            with_status (get_review_spec compute (p ∷ []))
              (with_pods n m (parse_pods_review (p ∷ []) status)))
          parsed,
      placed,
      sum,
      subst
          (λ k. ((n < 2 ^ 31) × (to_int32 n ≡ pos k)) ⊎ ((2 ^ 31 ≤ n) × (to_int32 n ≡ to_int32 k)))
          (sym sum) (replicas-cases n),
      refl,
    )
