-- ===== src/Compression/Live.antt =====
-- The parts of selectNextNode do not run out of fuel.
use kluster_capacity.Base.{
  String, ◌<>◌, List, [], ◌∷◌, Option, none, some, get_elem?, arith, Option-cases, inl, inr, ◌+◌,
}
use kluster_capacity.Base.Live.{
  Live, >>=-Live, attempt-Live, modify-Live, pure-Live, lift-Live, on_error-Live, if-Live,
}
use kluster_capacity.Base.Monad.{Action, ◌>>=◌, ◌>>◌, pure, modify, attempt, on_error, lift}
use kluster_capacity.Kube.{Pod, Node}
use kluster_capacity.Env.{Env, read, write}
use kluster_capacity.Env.Answers.{Answers, read-Live, write-Live}
use kluster_capacity.Framework.Control.{get_pods_by_node}
use kluster_capacity.Framework.Control.Live.{stop-Live}
use kluster_capacity.Pods.{init_pod}
use kluster_capacity.Compression.Cluster.{
  cordon, cordoned, delete_movable, delete_of, is_movable, add_label_to_node, create_reset,
  set_label,
}
use kluster_capacity.Compression.Filter.{node_scaled_down_success_label}
use kluster_capacity.Compression.Select.{Selection, chosen, nothing}
use kluster_capacity.Compression.Simulator.{
  Simulator, in_world, stop_simulator, create_next_pod, scale_down, label_current, label_node,
  report_current, count_node, stop_unlabelled, choose_node, vacate, restart, delete_pods_by_node,
  select, node_of, count_selection,
}

module _ (e : Env) (answers : Answers e) where
  open e use {World}

  in_world-Live : {A : Type 0} (m : Action World A) → Live m → Live (in_world e m)
  in_world-Live m h s = h s.framework.world

  delete_movable-Live : (ps : List Pod) → Live (delete_movable e ps)
  unfolding delete_movable
  delete_movable-Live [] = pure-Live []
  delete_movable-Live (p ∷ ps) =
      let rest = delete_movable e ps in
      if-Live (is_movable p) (delete_of e p >>= λ _. rest >>= λ qs. pure (p ∷ qs)) rest
        (>>=-Live (delete_of e p) (λ _. rest >>= λ qs. pure (p ∷ qs))
          (write-Live (λ w. e.delete_pod w p.namespace p.name)
            (λ w. answers.delete_pod w p.namespace p.name))
          (λ _.
            >>=-Live rest (λ qs. pure (p ∷ qs)) (delete_movable-Live ps)
              (λ qs. pure-Live (p ∷ qs))))
        (delete_movable-Live ps)

  get_pods_by_node-Live : (name : String) → Live (read (λ w. get_pods_by_node e w name))
  unfolding get_pods_by_node
  get_pods_by_node-Live name w = ground arith

  delete_pods_by_node-Live : (n : Node) → Live (delete_pods_by_node e n)
  unfolding delete_pods_by_node
  delete_pods_by_node-Live n =
      >>=-Live (in_world e (read (λ w. get_pods_by_node e w n.name)))
        (λ pods. in_world e (delete_movable e pods) >>= λ created.
          modify (λ s. record s { created_pods = created }))
        (in_world-Live (read (λ w. get_pods_by_node e w n.name)) (get_pods_by_node-Live n.name))
        (λ pods.
          >>=-Live (in_world e (delete_movable e pods))
            (λ created. modify (λ s. record s { created_pods = created }))
            (in_world-Live (delete_movable e pods) (delete_movable-Live pods))
            (λ created. modify-Live (λ s. record s { created_pods = created })))

  cordon-Live : (n : Node) → Live (cordon e n)
  unfolding cordon
  cordon-Live n =
      >>=-Live (read (λ w. e.get_node w n.name)) (λ m. write (λ w. e.update_node w (cordoned m)))
        (read-Live (λ w. e.get_node w n.name) (λ w. answers.get_node w n.name))
        (λ m.
          write-Live (λ w. e.update_node w (cordoned m)) (λ w. answers.update_node w (cordoned m)))

  pub vacate-Live : (n : Node) → Live (vacate e n)
  unfolding vacate
  vacate-Live n =
      >>=-Live (modify (restart e n)) (λ _. in_world e (cordon e n) >> delete_pods_by_node e n)
        (modify-Live (restart e n))
        (λ _.
          >>=-Live (in_world e (cordon e n)) (λ _. delete_pods_by_node e n)
            (in_world-Live (cordon e n) (cordon-Live n)) (λ _. delete_pods_by_node-Live n))

  pub choose_node-Live : Live (choose_node e)
  unfolding choose_node
  choose_node-Live =
      >>=-Live (modify (count_selection e)) (λ _. select e >>= node_of e)
        (modify-Live (count_selection e))
        (λ _. >>=-Live (select e) (node_of e) (λ s h. cc h) node_of-Live)
    where
      node_of-Live : (r : Option Selection) → Live (node_of e r)
      node_of-Live none s h = cc h
      node_of-Live (some (nothing reason)) s h = cc h
      node_of-Live (some (chosen n)) s h = cc h

  create_reset-Live : (p : Pod) → Live (create_reset e p)
  create_reset-Live p =
      write-Live (λ w. e.create_pod w p.namespace (init_pod e w p))
        (λ w. answers.create_pod w p.namespace (init_pod e w p))

  pub create_next_pod-Live : Live (create_next_pod e)
  unfolding create_next_pod
  create_next_pod-Live s = elim (Option-cases (get_elem? s.created_pods s.create_pod_index)) [
    | inl none' ↦ ground arith
    | inr (p, some') ↦
        let counted =
          λ (t : Simulator World). record t { create_pod_index = t.create_pod_index + 1 } in
        let alive =
          >>=-Live (in_world e (create_reset e p)) (λ _. modify counted)
            (in_world-Live (create_reset e p) (create_reset-Live p)) (λ _. modify-Live counted) s in
        ground arith
  ]

  add_label_to_node-Live : (name key value : String) → Live (add_label_to_node e name key value)
  unfolding add_label_to_node
  add_label_to_node-Live name key value =
      >>=-Live (read (λ w. e.get_node w name))
        (λ n. lift (set_label key value n) >>= λ m. write (λ w. e.update_node w m))
        (read-Live (λ w. e.get_node w name) (λ w. answers.get_node w name))
        (λ n.
          >>=-Live (lift (set_label key value n)) (λ m. write (λ w. e.update_node w m))
            (lift-Live (set_label key value n) (ground arith))
            (λ m. write-Live (λ w. e.update_node w m) (λ w. answers.update_node w m)))

  label_node-Live : (name label : String) → Live (label_node e name label)
  unfolding label_node stop_simulator
  label_node-Live name label =
      >>=-Live (attempt (in_world e (add_label_to_node e name label "true")))
        (λ failed. on_error failed (stop_unlabelled e))
        (attempt-Live (in_world e (add_label_to_node e name label "true")) (
          in_world-Live (add_label_to_node e name label "true")
            (add_label_to_node-Live name label "true")))
        (λ failed. on_error-Live failed (stop_unlabelled e) λ m.
          let reason = "FailedAddLabelToNode: " <> m in
          >>=-Live (attempt (stop_simulator e reason)) (λ _. pure tt)
            (attempt-Live (stop_simulator e reason) (λ s. stop-Live e answers reason s.framework))
            (λ _. pure-Live tt))

  pub scale_down-Live : Live (scale_down e)
  unfolding scale_down
  scale_down-Live =
      >>=-Live (modify (report_current e))
        (λ _. label_current e node_scaled_down_success_label >> modify (count_node e))
        (modify-Live (report_current e))
        (λ _.
          >>=-Live (label_current e node_scaled_down_success_label) (λ _. modify (count_node e))
            (λ s. label_node-Live s.current_node node_scaled_down_success_label s)
            (λ _. modify-Live (count_node e)))
