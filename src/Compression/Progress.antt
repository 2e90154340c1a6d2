-- ===== src/Compression/Progress.antt =====
-- Which calls of the simulator report nodes to scale down.
use kluster_capacity.Base.{
  ◌<>◌, ℕ, zero, suc, ◌≡◌, refl, sym, ap, ◌∙◌, String, List, [], ◌∷◌, ◌++◌, append-nil,
  append_assoc, Option, none, some, ltb, length, arith,
}
use kluster_capacity.Base.Monad.{Action, ◌>>=◌, ◌>>◌, pure, modify, attempt, on_error}
use kluster_capacity.Base.Frame.{
  IsPreorder, Keeps, >>=-Keeps, attempt-Keeps, on_error-Keeps, if-Keeps,
}
use kluster_capacity.Kube.{Node}
use kluster_capacity.Env.{Env, read}
use kluster_capacity.Framework.Control.Stop.{stop-SameScaled}
use kluster_capacity.Framework.Control.{get_pods_by_node}
use kluster_capacity.Compression.Cluster.{cordon, delete_movable, add_label_to_node}
use kluster_capacity.Compression.Filter.{node_scaled_down_success_label}
use kluster_capacity.Compression.Select.{Selection, chosen, nothing}
use kluster_capacity.Compression.Simulator.{
  Simulator, in_world, stop_simulator, create_next_pod, scale_down, label_current, label_node,
  report_current, count_node, stop_unlabelled, select_next_node, choose_node, vacate, enter,
  restart, delete_pods_by_node, select, node_of, count_selection,
}

module _ {W : Type 0} where
  -- The nodes that can be scaled down, as reported so far.
  abbrev pub scaled : Simulator W → List String
  scaled s = s.framework.status.nodes_to_scale_down

  abbrev pub SameNodes : Simulator W → Simulator W → Type 0
  SameNodes s t = scaled t ≡ scaled s

  abbrev pub MoreNodes : Simulator W → Simulator W → Type 0
  MoreNodes s t = (more : List String) × (scaled t ≡ scaled s ++ more)

  pub same_nodes : IsPreorder SameNodes
  same_nodes = record { same = λ s. refl; then' = λ s t u p q. q ∙ p }

  pub SameNodes-MoreNodes : (s t : Simulator W) → SameNodes s t → MoreNodes s t
  SameNodes-MoreNodes s t h = ([], h ∙ sym (append-nil (scaled s)))

  pub more_nodes : IsPreorder MoreNodes
  more_nodes = record {
    same = λ s. SameNodes-MoreNodes s s refl;
    then' =
        λ s t u p q. (p.0 ++ q.0, q.1 ∙ ap (λ l. l ++ q.0) p.1 ∙ append_assoc (scaled s) p.0 q.0);
  }

module _ (e : Env) where
  open e use {World}

  pub stop_simulator-SameNodes : (reason : String) → Keeps SameNodes (stop_simulator e reason)
  unfolding stop_simulator
  stop_simulator-SameNodes reason s = stop-SameScaled e reason s.framework

  label_node-SameNodes : (name label : String) → Keeps SameNodes (label_node e name label)
  unfolding label_node
  label_node-SameNodes name label =
      >>=-Keeps same_nodes (attempt (in_world e (add_label_to_node e name label "true")))
        (λ failed. on_error failed (stop_unlabelled e))
        (attempt-Keeps same_nodes (in_world e (add_label_to_node e name label "true")) (λ s. refl))
        (λ failed. on_error-Keeps same_nodes failed (stop_unlabelled e) λ m.
          >>=-Keeps same_nodes (attempt (stop_simulator e ("FailedAddLabelToNode: " <> m)))
            (λ _. pure tt) (attempt-Keeps same_nodes _ (stop_simulator-SameNodes _)) (λ _ s. refl))

  pub create_next_pod-SameNodes : Keeps SameNodes (create_next_pod e)
  unfolding create_next_pod
  create_next_pod-SameNodes s = ground arith

  -- One node is reported, the current one, also where labelling it fails.
  pub scale_down-scaled :
      (s : Simulator World) → scaled (scale_down e s).1 ≡ scaled s ++ (s.current_node ∷ [])
  unfolding scale_down
  scale_down-scaled s =
      >>=-Keeps same_nodes (label_current e node_scaled_down_success_label)
        (λ _. modify (count_node e))
        (λ t. label_node-SameNodes t.current_node node_scaled_down_success_label t) (λ _ t. refl)
        (report_current e s)

  pub choose_node-SameNodes : Keeps SameNodes (choose_node e)
  unfolding choose_node
  choose_node-SameNodes =
      >>=-Keeps same_nodes (modify (count_selection e)) (λ _. select e >>= node_of e) (λ s. refl)
        (λ _. >>=-Keeps same_nodes (select e) (node_of e) (λ s. refl) node_of-SameNodes)
    where
      node_of-SameNodes : (r : Option Selection) → Keeps SameNodes (node_of e r)
      node_of-SameNodes none s = refl
      node_of-SameNodes (some (nothing reason)) s = refl
      node_of-SameNodes (some (chosen n)) s = refl

  delete_pods_by_node-SameNodes : (n : Node) → Keeps SameNodes (delete_pods_by_node e n)
  unfolding delete_pods_by_node
  delete_pods_by_node-SameNodes n =
      >>=-Keeps same_nodes (in_world e (read (λ w. get_pods_by_node e w n.name)))
        (λ pods. in_world e (delete_movable e pods) >>= λ created.
          modify (λ s. record s { created_pods = created }))
        (λ s. refl)
        (λ pods.
          >>=-Keeps same_nodes (in_world e (delete_movable e pods))
            (λ created. modify (λ s. record s { created_pods = created })) (λ s. refl)
            (λ created s. refl))

  vacate-SameNodes : (n : Node) → Keeps SameNodes (vacate e n)
  unfolding vacate
  vacate-SameNodes n =
      >>=-Keeps same_nodes (modify (restart e n))
        (λ _. in_world e (cordon e n) >> delete_pods_by_node e n) (λ s. refl)
        (λ _.
          >>=-Keeps same_nodes (in_world e (cordon e n)) (λ _. delete_pods_by_node e n) (λ s. refl)
            (λ _. delete_pods_by_node-SameNodes n))

  same→more : {A : Type 0} (m : Action (Simulator World) A) → Keeps SameNodes m → Keeps MoreNodes m
  same→more m h s = SameNodes-MoreNodes s (m s).1 (h s)

  scale_down-MoreNodes : Keeps MoreNodes (scale_down e)
  scale_down-MoreNodes s = (s.current_node ∷ [], scale_down-scaled s)

  -- A selection, whatever its outcome, keeps the nodes reported so far in their order, and can only report
  -- more behind them.
  pub select_next_node-MoreNodes : (fuel : ℕ) → Keeps MoreNodes (select_next_node e fuel)
  unfolding select_next_node
  select_next_node-MoreNodes zero = more_nodes.same
  select_next_node-MoreNodes (suc fuel) =
      >>=-Keeps more_nodes (choose_node e >>= vacate e) (λ _. enter e (select_next_node e fuel))
        (>>=-Keeps more_nodes (choose_node e) (vacate e)
          (same→more (choose_node e) choose_node-SameNodes)
          (λ n. same→more (vacate e n) (vacate-SameNodes n)))
        (λ _ s.
          if-Keeps more_nodes (ltb 0 (length s.created_pods)) (create_next_pod e)
            (scale_down e >> select_next_node e fuel)
            (same→more (create_next_pod e) create_next_pod-SameNodes)
            (>>=-Keeps more_nodes (scale_down e) (λ _. select_next_node e fuel) scale_down-MoreNodes
              (λ _. select_next_node-MoreNodes fuel))
            s)
