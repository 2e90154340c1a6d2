-- ===== src/Simulation/Report/Counts.antt =====
-- The report has every pod once.
use kluster_capacity.Base.{
  ℕ, ◌+◌, ◌≡◌, refl, sym, ap, ◌∙◌, String, Bool, not, ◌==◌, eq_iff, List, [], ◌∷◌, ◌++◌,
  append_assoc, append-nil, keep_if, length, length-append, if◌then◌else◌, arith, Bool-cases, inl,
  inr,
}
use kluster_capacity.Base.Dict.{Dict, lookup, insert, lookup-insert}
use kluster_capacity.Kube.{Pod, Node, Resource}
use kluster_capacity.Status.{Status}
use kluster_capacity.Simulation.Report.{
  ScheduleDetail, group_pods, or_none, review, detail_of, generate_report,
}

abbrev pub is_on : String → Pod → Bool
is_on node p = p.spec.node_name == node

-- Grouping adds to what a map holds under a node the pods of that node, in the order in which they come.
pub lookup-group_pods :
    (node : String) (m : Dict (List Pod)) (ps : List Pod)
    → or_none (lookup node (group_pods m ps)) ≡ or_none (lookup node m) ++ keep_if (is_on node) ps
unfolding group_pods
lookup-group_pods node m [] = sym (append-nil (or_none (lookup node m)))
lookup-group_pods node m (p ∷ ps) =
    let here = p.spec.node_name in
    let pods = or_none (lookup here m) ++ (p ∷ []) in
    let rest = lookup-group_pods node (insert here pods m) ps in
    elim (Bool-cases (is_on node p)) [
      | inl e ↦
          let grown : or_none (lookup node (insert here pods m))
              ≡ or_none (lookup node m) ++ (p ∷ []) =
            rw (lookup-insert here node pods m, e)
              (ap (λ n. or_none (lookup n m) ++ (p ∷ [])) ((eq_iff here node).0 e)) in
          rw e (
            rest
            ∙ ap (λ l. l ++ keep_if (is_on node) ps) grown
            ∙ append_assoc (or_none (lookup node m)) (p ∷ []) (keep_if (is_on node) ps))
      | inr e ↦
          let other : lookup node (insert here pods m) ≡ lookup node m =
            rw (lookup-insert here node pods m, e) refl in
          rw e (rest ∙ ap (λ o. or_none o ++ keep_if (is_on node) ps) other)
    ]

-- The pods of a map whose nodes a test picks.
abbrev pub weigh : (String → Bool) → Dict (List Pod) → ℕ
weigh f [] = 0
weigh f ((node, ps) ∷ m) = (if f node then length ps else 0) + weigh f m

abbrev pub pods_on : (String → Bool) → List Pod → ℕ
pods_on f [] = 0
pods_on f (p ∷ ps) = (if f p.spec.node_name then 1 else 0) + pods_on f ps

weigh-insert :
    (f : String → Bool) (node : String) (p : Pod) (m : Dict (List Pod))
    → weigh f (insert node (or_none (lookup node m) ++ (p ∷ [])) m)
      ≡ weigh f m + (if f node then 1 else 0)
weigh-insert f node p [] = ground arith
weigh-insert f node p ((j, ps) ∷ m) = elim (Bool-cases (j == node)) [
  | inl e ↦ let agree = ap f ((eq_iff j node).0 e) in ground (arith, length-append ps (p ∷ []))
  | inr e ↦ ground (arith, weigh-insert f node p m)
]

weigh-group_pods :
    (f : String → Bool) (m : Dict (List Pod)) (ps : List Pod)
    → weigh f (group_pods m ps) ≡ weigh f m + pods_on f ps
unfolding group_pods
weigh-group_pods f m [] = omega arith
weigh-group_pods f m (p ∷ ps) =
    let node = p.spec.node_name in
    let m' = insert node (or_none (lookup node m) ++ (p ∷ [])) m in
    let rest = weigh-group_pods f m' ps in let here = weigh-insert f node p m in omega arith

abbrev pub is_unbound : String → Bool
is_unbound node = node == ""

abbrev pub is_node : String → Bool
is_node node = not (node == "")

abbrev pub replicas_of : List ScheduleDetail → ℕ
replicas_of [] = 0
replicas_of (d ∷ ds) = d.replicas + replicas_of ds

module _ (compute : Pod → Resource) (range : Dict (List Pod) → Dict (List Pod)) where
  review-weigh :
      (nodes : Dict Node) (m : Dict (List Pod))
      → (length (review compute range nodes m).0 ≡ weigh is_unbound m)
        × (replicas_of (review compute range nodes m).1 ≡ weigh is_node m)
  unfolding review detail_of
  review-weigh nodes [] = (refl, refl)
  review-weigh nodes ((node, ps) ∷ m) =
      let rest = review-weigh nodes m in
      elim (Bool-cases (node == "")) [
        | inl e ↦ ground (arith, length-append ps (review compute range nodes m).0)
        | inr e ↦ ground arith
      ]

  -- Where a map is visited in any order, each of its entries once: the report lists as many unschedulable
  -- pods as there are pods without a node, and the replicas of its nodes add up to the number of
  -- the other pods.
  pub generate_report-counts :
      ((f : String → Bool) (m : Dict (List Pod)) → weigh f (range m) ≡ weigh f m)
      → (status : Status)
      → (length (generate_report compute range status).unschedulable_pods
          ≡ pods_on is_unbound status.pods)
        × (replicas_of (generate_report compute range status).details ≡ pods_on is_node status.pods)
  unfolding generate_report
  generate_report-counts visits status =
      let m = group_pods [] status.pods in
      let all = review-weigh status.nodes (range m) in
      (
        all.0 ∙ visits is_unbound m ∙ weigh-group_pods is_unbound [] status.pods ∙ omega arith,
        all.1 ∙ visits is_node m ∙ weigh-group_pods is_node [] status.pods ∙ omega arith,
      )
