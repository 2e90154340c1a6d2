-- ===== src/Compression/Runs/Selection.antt =====
-- The candidates never outnumber the nodes, so that each selection of a run has fuel enough.
use native.Mathlib.Nat.{mul-le-mul_left, mul-le-mul_right}
use kluster_capacity.Base.{
  ℕ, zero, suc, ◌+◌, ◌*◌, ◌≤◌, ◌<◌, ◌≡◌, sym, ap, subst, String, ◌<>◌, List, [], ◌∷◌, length,
  Option, none, some, get_elem?, ltb, arith, Option-cases, inl, inr,
}
use kluster_capacity.Base.Int.{ℤ}
use kluster_capacity.Base.Dict.{Dict}
use kluster_capacity.Base.Frame.{IsPreorder, Keeps, >>=-Keeps, if-Keeps}
use kluster_capacity.Base.Safe.{Safe, >>=-Safe, pure-Safe, modify-Safe, attempt-Safe, on_error-Safe}
use kluster_capacity.Base.Monad.{ok, Action, ◌>>=◌, ◌>>◌, pure, modify, attempt, on_error}
use kluster_capacity.Kube.{Pod, Node}
use kluster_capacity.Env.{Env, read}
use kluster_capacity.Env.Answers.{Answers}
use kluster_capacity.Env.Laws.{NodeLaws}
use kluster_capacity.Framework.Control.{get_pods_by_node}
use kluster_capacity.Framework.Control.Files.{stop-Safe}
use kluster_capacity.Compression.Cluster.{cordon, delete_movable, add_label_to_node, create_reset}
use kluster_capacity.Compression.Effects.{world}
use kluster_capacity.Compression.Ends.{select_next_node-ends}
use kluster_capacity.Compression.Filter.{FilterStatus, Reason, node_scaled_down_success_label}
use kluster_capacity.Compression.Labels.{unlabelled, unlabelled-le-length}
use kluster_capacity.Compression.Runs.World.{
  Numbered, files, cordon-Safe, add_label_to_node-Safe, create_reset-Safe, delete_movable-Safe,
  get_pods_by_node-Safe,
}
use kluster_capacity.Compression.Select.{
  Selection, chosen, nothing, accepted, refusals, select_node,
}
use kluster_capacity.Compression.Select.Queue.{pending, pop, refill, select_node-pop}
use kluster_capacity.Compression.Simulator.{
  Simulator, in_world, filter_of, stop_simulator, create_next_pod, scale_down, label_current,
  label_node, report_current, count_node, stop_unlabelled, choose_node, vacate, restart,
  delete_pods_by_node, select, node_of, count_selection, enter, select_next_node,
}

step_le : (u k : ℕ) → u ≤ k → u + 1 ≤ k + 1
step_le u k h = omega arith

product_le : (u k : ℕ) → u ≤ k → u * (u + 1) ≤ k * (k + 1)
product_le u k h = omega (arith, mul-le-mul_right (u + 1) h, mul-le-mul_left k (step_le u k h))

length-accepted-le :
    (filter : Node → FilterStatus) (ns : List Node) → length (accepted filter ns) ≤ length ns
unfolding accepted
length-accepted-le filter [] = omega arith
length-accepted-le filter (n ∷ ns) = ground (arith, length-accepted-le filter ns)

module _ (range : Dict ℤ → Dict ℤ) (filter : Node → FilterStatus) (selected : ℕ) where
  length-refill :
      (ns : List Node) (rs : List Reason)
      → length (refill range filter selected ns rs).1 ≤ length ns
  length-refill [] rs = omega arith
  length-refill (n ∷ ns) rs = omega arith

  -- What is left of the candidates, or of a new list of them.
  length-pop :
      (ns queue : List Node) (k : ℕ)
      → length ns ≤ k
      → length queue ≤ k
      → length (pop range filter selected (ok ns) queue).1 ≤ k
  unfolding refusals
  length-pop ns [] k h short =
      omega (
        arith,
        length-refill (accepted filter ns) (refusals filter ns),
        length-accepted-le filter ns,
      )
  length-pop ns (n ∷ queue) k h short = omega arith

module _ (e : Env) (laws : NodeLaws e) (answers : Answers e) (k : ℕ) where
  open e use {World}
  open laws use {nodes}

  -- There are `k` nodes with names of their own, and no more candidates.
  abbrev pub InBounds : Simulator World → Type 0
  InBounds s = Numbered e laws answers k (world s) × (length (pending s.selector) ≤ k)

  pub in_world-Safe :
      {A : Type 0} (m : Action World A)
      → Safe (Numbered e laws answers k) m
      → Safe InBounds (in_world e m)
  in_world-Safe m h s p = let (live, kept) = h (world s) p.0 in (live, (kept, p.1))

  pub stop_simulator-Safe : (reason : String) → Safe InBounds (stop_simulator e reason)
  unfolding stop_simulator
  stop_simulator-Safe reason s p =
      let (live, kept) =
        stop-Safe e (Numbered e laws answers k) (files e laws answers k) answers reason s.framework
          p.0 in
      (live, (kept, p.1))

  pub label_node-Safe : (name label : String) → Safe InBounds (label_node e name label)
  unfolding label_node
  label_node-Safe name label =
      >>=-Safe InBounds (attempt (in_world e (add_label_to_node e name label "true")))
        (λ failed. on_error failed (stop_unlabelled e))
        (attempt-Safe InBounds (in_world e (add_label_to_node e name label "true")) (
          in_world-Safe (add_label_to_node e name label "true")
            (add_label_to_node-Safe e laws answers k name label "true")))
        (λ failed. on_error-Safe InBounds failed (stop_unlabelled e) λ m.
          let reason = "FailedAddLabelToNode: " <> m in
          >>=-Safe InBounds (attempt (stop_simulator e reason)) (λ _. pure tt)
            (attempt-Safe InBounds (stop_simulator e reason) (stop_simulator-Safe reason))
            (λ _. pure-Safe InBounds tt))

  create_one-Safe :
      (q : Pod)
      → Safe InBounds (
          in_world e (create_reset e q)
          >> modify (λ t. record t { create_pod_index = t.create_pod_index + 1 }))
  create_one-Safe q =
      let counted =
        λ (t : Simulator World). record t { create_pod_index = t.create_pod_index + 1 } in
      >>=-Safe InBounds (in_world e (create_reset e q)) (λ _. modify counted)
        (in_world-Safe (create_reset e q) (create_reset-Safe e laws answers k q))
        (λ _. modify-Safe InBounds counted (λ s p. p))

  pub create_next_pod-Safe : Safe InBounds (create_next_pod e)
  unfolding create_next_pod
  create_next_pod-Safe s p = elim (Option-cases (get_elem? s.created_pods s.create_pod_index)) [
    | inl none' ↦ rw (none', create_next_pod) (λ x. cc x, p)
    | inr (q, some') ↦ rw (some', create_next_pod) (create_one-Safe q s p)
  ]

  pub scale_down-Safe : Safe InBounds (scale_down e)
  unfolding scale_down
  scale_down-Safe =
      >>=-Safe InBounds (modify (report_current e))
        (λ _. label_current e node_scaled_down_success_label >> modify (count_node e))
        (modify-Safe InBounds (report_current e) (λ s p. p))
        (λ _.
          >>=-Safe InBounds (label_current e node_scaled_down_success_label)
            (λ _. modify (count_node e))
            (λ s. label_node-Safe s.current_node node_scaled_down_success_label s)
            (λ _. modify-Safe InBounds (count_node e) (λ s p. p)))

  delete_pods_by_node-Safe : (n : Node) → Safe InBounds (delete_pods_by_node e n)
  unfolding delete_pods_by_node
  delete_pods_by_node-Safe n =
      let set_created = λ (created : List Pod).
        modify (λ (s : Simulator World). record s { created_pods = created }) in
      >>=-Safe InBounds (in_world e (read (λ w. get_pods_by_node e w n.name)))
        (λ pods. in_world e (delete_movable e pods) >>= set_created)
        (in_world-Safe (read (λ w. get_pods_by_node e w n.name))
          (get_pods_by_node-Safe e laws answers k n.name))
        (λ pods.
          >>=-Safe InBounds (in_world e (delete_movable e pods)) set_created
            (in_world-Safe (delete_movable e pods) (delete_movable-Safe e laws answers k pods))
            (λ created. modify-Safe InBounds (λ s. record s { created_pods = created }) (λ s p. p)))

  pub vacate-Safe : (n : Node) → Safe InBounds (vacate e n)
  unfolding vacate
  vacate-Safe n =
      >>=-Safe InBounds (modify (restart e n))
        (λ _. in_world e (cordon e n) >> delete_pods_by_node e n)
        (modify-Safe InBounds (restart e n) (λ s p. p))
        (λ _.
          >>=-Safe InBounds (in_world e (cordon e n)) (λ _. delete_pods_by_node e n)
            (in_world-Safe (cordon e n) (cordon-Safe e laws answers k n))
            (λ _. delete_pods_by_node-Safe n))

  select-Safe : Safe InBounds (select e)
  select-Safe s p =
      let range = e.range ℤ in
      let filter = filter_of e s (world s) in
      let popped =
        subst
          (λ l.
            pending (select_node range filter l s.selector).1
            ≡ (pop range filter s.selector.selected_count l (pending s.selector)).1)
          (laws.list_nodes_lem (world s))
          (ap (λ (x : Option Selection × List Node). x.1)
            (select_node-pop range filter (e.list_nodes (world s)) s.selector)) in
      let short =
        length-pop range filter s.selector.selected_count (nodes (world s)) (pending s.selector) k
          (omega (arith, p.0.1)) p.1 in
      (
        λ x. cc x,
        (
          p.0,
          subst (λ l. length (pending (select_node range filter l s.selector).1) ≤ k)
              (sym (laws.list_nodes_lem (world s)))
              (subst (λ (q : List Node). length q ≤ k) (sym popped) short),
        ),
      )

  node_of-Safe : (r : Option Selection) → Safe InBounds (node_of e r)
  node_of-Safe none s p = (λ x. cc x, p)
  node_of-Safe (some (nothing reason)) s p = (λ x. cc x, p)
  node_of-Safe (some (chosen n)) s p = (λ x. cc x, p)

  choose_node-Safe : Safe InBounds (choose_node e)
  unfolding choose_node
  choose_node-Safe =
      >>=-Safe InBounds (modify (count_selection e)) (λ _. select e >>= node_of e)
        (modify-Safe InBounds (count_selection e) (λ s p. p))
        (λ _. >>=-Safe InBounds (select e) (node_of e) select-Safe node_of-Safe)

  -- A selection keeps the bounds even if its fuel runs out.
  abbrev Bounded : Simulator World → Simulator World → Type 0
  Bounded s t = InBounds s → InBounds t

  bounded : IsPreorder Bounded
  bounded = record { same = λ s p. p; then' = λ s t u p q x. q (p x) }

  Safe-Bounded : {A : Type 0} (m : Action (Simulator World) A) → Safe InBounds m → Keeps Bounded m
  Safe-Bounded m h s p = (h s p).1

  select_next_node-Bounded : (fuel : ℕ) → Keeps Bounded (select_next_node e fuel)
  unfolding select_next_node
  select_next_node-Bounded zero = λ s p. p
  select_next_node-Bounded (suc fuel) =
      let next = select_next_node e fuel in
      >>=-Keeps bounded (choose_node e >>= vacate e) (λ _. enter e next)
        (Safe-Bounded (choose_node e >>= vacate e)
          (>>=-Safe InBounds (choose_node e) (vacate e) choose_node-Safe vacate-Safe))
        (λ _ s.
          if-Keeps bounded (ltb 0 (length s.created_pods)) (create_next_pod e)
            (scale_down e >> next) (Safe-Bounded (create_next_pod e) create_next_pod-Safe)
            (>>=-Keeps bounded (scale_down e) (λ _. next)
              (Safe-Bounded (scale_down e) scale_down-Safe) (λ _. select_next_node-Bounded fuel))
            s)

  pub select_next_node-Safe :
      (fuel : ℕ) → k * (k + 1) + k < fuel → Safe InBounds (select_next_node e fuel)
  select_next_node-Safe fuel enough s p =
      let unlabelled-le : unlabelled (nodes (world s)) ≤ k =
        omega (arith, unlabelled-le-length (nodes (world s)), p.0.1) in
      let product = product_le (unlabelled (nodes (world s))) k unlabelled-le in
      (
        select_next_node-ends e laws answers fuel s p.0.0 (omega (arith, product, p.1)),
        select_next_node-Bounded fuel s p,
      )
