-- ===== src/Compression/Ends.antt =====
-- selectNextNode ends: each round takes a candidate away or puts a label on a node.
use native.Mathlib.Nat.{mul-le-mul_right}
use kluster_capacity.Base.{
  ℕ, zero, suc, ◌+◌, ◌*◌, ◌≤◌, ◌<◌, ◌≡◌, ◌≢◌, sym, ap, ◌∙◌, subst, false, ltb, length,
  if◌then◌else◌, arith, Bool-cases, inl, inr, ◌⊎◌,
}
use kluster_capacity.Base.Monad.{ok-injective, ok, stuck, ◌>>=◌, >>=-eq-ok}
use kluster_capacity.Kube.{Node}
use kluster_capacity.Env.{Env}
use kluster_capacity.Env.Laws.{NodeLaws, first_node, replace_node}
use kluster_capacity.Base.Dict.{is_some}
use kluster_capacity.Framework.Control.{get_pods_by_node}
use kluster_capacity.Compression.Cluster.{cordoned}
use kluster_capacity.Compression.Filter.{success}
use kluster_capacity.Compression.Filter.Laws.{build_filter_func_iff}
use kluster_capacity.Compression.Labels.{
  is_labelled, unlabelled_one, unlabelled, Unique, first_node-name, replace_node-Unique,
  first_node-cordoned, unlabelled-marked, length-accepted, first_node-accepted,
}
use kluster_capacity.Compression.Effects.{world, vacate_ok}
use kluster_capacity.Compression.Effects.Choice.{choose_node_ok}
use kluster_capacity.Compression.Effects.ScaleDown.{scale_down_ok}
use kluster_capacity.Base.Live.{>>=-LiveAt, >>=-Live}
use kluster_capacity.Env.Answers.{Answers}
use kluster_capacity.Compression.Live.{
  choose_node-Live, vacate-Live, create_next_pod-Live, scale_down-Live,
}
use kluster_capacity.Compression.Select.Queue.{pending}
use kluster_capacity.Compression.Simulator.{
  Simulator, filter_of, choose_node, vacate, enter, scale_down, select_next_node,
}

module _ (e : Env) (laws : NodeLaws e) (answers : Answers e) where
  open e use {World}
  open laws use {nodes}

  abbrev pub open_nodes : Simulator World → ℕ
  open_nodes s = unlabelled (nodes (world s))

  abbrev pub queue_length : Simulator World → ℕ
  queue_length s = length (pending s.selector)

  filter-refuses :
      (s : Simulator World) (w : World) (n : Node)
      → filter_of e s w n ≡ success
      → is_labelled n ≡ false
  filter-refuses s w n h =
      let candidate =
        (build_filter_func_iff (get_pods_by_node e w) s.excluded s.filter_options n).0 h in
      ap is_some (candidate.0.2)

  -- One round: a candidate less, or a node without the label less and no more candidates than such nodes.
  abbrev Progress : Simulator World → Simulator World → Type 0
  Progress s t =
      Unique (nodes (world t))
      × (((open_nodes t ≤ open_nodes s) × (queue_length t + 1 ≡ queue_length s))
          ⊎ ((open_nodes t + 1 ≤ open_nodes s) × (queue_length t ≤ open_nodes s)))

  -- The node is written with the taint, and then with the label.
  Written-name :
      (n m : Node) (s : Simulator World)
      → first_node n.name (nodes (world s)) ≡ ok m
      → first_node m.name (nodes (world s)) ≡ ok m
  Written-name n m s h =
      subst (λ name. first_node name (nodes (world s)) ≡ ok m)
        (sym (first_node-name n.name (nodes (world s)) m h)) h

  round-Progress :
      (n : Node) (s u v t : Simulator World)
      → Unique (nodes (world s))
      → choose_node e s ≡ (ok n, u)
      → vacate e n u ≡ (ok tt, v)
      → scale_down e v ≡ (ok tt, t)
      → Progress s t
  round-Progress n s u v t unique chose vacated down =
      let filter = filter_of e s (world s) in
      let (same, queue) = choose_node_ok e laws n s u chose in
      let before = ap nodes same in
      let (m, found', tainted', selector, current) = vacate_ok e laws n u v vacated in
      let found = subst (λ ns. first_node n.name ns ≡ ok m) before found' in
      let tainted = subst (λ ns. nodes (world v) ≡ replace_node (cordoned m) ns) before tainted' in
      let named = first_node-name n.name (nodes (world s)) m found in
      let there = Written-name n m s found in
      let again =
        subst (λ name. first_node name (nodes (world v)) ≡ ok (cordoned m)) (named ∙ sym current)
          (subst (λ ns. first_node m.name ns ≡ ok (cordoned m)) (sym tainted)
            (first_node-cordoned m (nodes (world s)) there)) in
      let (q, named', label, marked, rest) = scale_down_ok e laws (cordoned m) v t again down in
      let all = marked ∙ ap (replace_node q) tainted in
      let count : open_nodes t + unlabelled_one m ≡ open_nodes s =
        ap (λ ns. unlabelled ns + unlabelled_one m) all
        ∙ unlabelled-marked m q (nodes (world s)) there named' label in
      let left : pending t.selector ≡ pending u.selector = rest ∙ ap pending selector in
      (
        subst Unique (sym all) (
            replace_node-Unique q (replace_node (cordoned m) (nodes (world s)))
              (replace_node-Unique (cordoned m) (nodes (world s)) unique)),
        elim queue [
          | inl popped ↦
              let shorter = ap length popped in
              let left' = ap length left in inl (omega arith, omega arith)
          | inr (empty, listed) ↦
              let left' = ap length left in
              let (here, free) =
                first_node-accepted filter (filter-refuses s (world s)) (nodes (world s))
                  (pending u.selector) n unique listed in
              let bound = length-accepted filter (filter-refuses s (world s)) (nodes (world s)) in
              let listed' = ap length listed in
              let free' =
                subst (λ k. unlabelled_one k ≡ 1) (ok-injective (sym here ∙ found))
                  (ap (λ b. if b then 0 else 1) free) in
              inr (omega arith, omega arith)
        ],
      )

  -- The calls of the recursion that are still possible.
  abbrev pub rounds : ℕ → Simulator World → ℕ
  rounds bound s = open_nodes s * (bound + 1) + queue_length s

  Progress-rounds :
      (bound : ℕ) (s t : Simulator World)
      → open_nodes s ≤ bound
      → Progress s t
      → (open_nodes t ≤ bound) × (rounds bound t + 1 ≤ rounds bound s)
  Progress-rounds bound s t h (unique, inl (fewer, shorter)) =
      let product = mul-le-mul_right (bound + 1) fewer in (omega arith, omega arith)
  Progress-rounds bound s t h (unique, inr (fewer, short)) =
      let product = mul-le-mul_right (bound + 1) fewer in (omega arith, grind arith)

  ends :
      (bound fuel : ℕ) (s : Simulator World)
      → Unique (nodes (world s))
      → open_nodes s ≤ bound
      → rounds bound s < fuel
      → (select_next_node e fuel s).0 ≢ stuck
  unfolding select_next_node
  ends bound zero s unique h enough = absurd (omega arith)
  ends bound (suc fuel) s unique h enough =
      let next = select_next_node e fuel in
      >>=-LiveAt (choose_node e >>= vacate e) (λ _. enter e next) s
        (>>=-Live (choose_node e) (vacate e) (choose_node-Live e answers) (vacate-Live e answers) s)
        (λ _ v vacated.
          let (n, u, chose, left) = >>=-eq-ok (choose_node e) (vacate e) s vacated in
          elim (Bool-cases (ltb 0 (length v.created_pods))) [
            | inl some' ↦ rw some' (create_next_pod-Live e answers v)
            | inr none' ↦ rw none' (
                >>=-LiveAt (scale_down e) (λ _. next) v (scale_down-Live e answers v)
                  (λ _ t down.
                    let progress = round-Progress n s u v t unique chose left down in
                    let (fewer, less) = Progress-rounds bound s t h progress in
                    ends bound fuel t progress.0 fewer (omega arith)))
          ])

  -- A selection ends. With names that are unique among the nodes, and calls to the outside that answer, the
  -- recursion makes at most (k + 1) * k + q more calls, for the k nodes without the label of a node
  -- that was emptied and the q candidates that are left: with more fuel than that, a selection returns, with an
  -- error or a panic or without.
  pub select_next_node-ends :
      (fuel : ℕ) (s : Simulator World)
      → Unique (nodes (world s))
      → open_nodes s * (open_nodes s + 1) + queue_length s < fuel
      → (select_next_node e fuel s).0 ≢ stuck
  select_next_node-ends fuel s unique enough =
      ends (open_nodes s) fuel s unique (omega arith) enough
