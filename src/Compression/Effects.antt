-- ===== src/Compression/Effects.antt =====
-- What the parts of selectNextNode do to the nodes and to the queue of candidates, where they succeed.
pub mod Choice
pub mod ScaleDown
use kluster_capacity.Base.{
  ℕ, ◌≡◌, refl, sym, ap, ◌∙◌, subst, String, true, List, [], ◌∷◌, ◌⊎◌, some, none, Option, arith,
  Option-cases, inl, inr,
}
use kluster_capacity.Base.Int.{ℤ}
use kluster_capacity.Base.Dict.{Dict, insert, lookup-insert}
use kluster_capacity.Base.Monad.{
  ok-injective, Result, ok, err, panic, stuck, Action, ◌>>=◌, ◌>>◌, pure, modify, >>=-eq-ok,
}
use kluster_capacity.Base.Frame.{IsPreorder, Keeps, >>=-Keeps, if-Keeps}
use kluster_capacity.Kube.{Pod, Node}
use kluster_capacity.Env.{Env, write, read, written}
use kluster_capacity.Env.Laws.{NodeLaws, first_node, replace_node}
use kluster_capacity.Framework.Control.{get_pods_by_node}
use kluster_capacity.Compression.Cluster.{
  cordoned, cordon, delete_movable, delete_of, is_movable, add_label_to_node,
}
use kluster_capacity.Compression.Filter.{Reason, FilterStatus, node_scaled_down_success_label}
use kluster_capacity.Compression.Labels.{is_labelled, first_node-name}
use kluster_capacity.Compression.Select.{
  Selection, chosen, nothing, accepted, select_node, done, convert_filter_statuses,
}
use kluster_capacity.Compression.Select.Queue.{pending, pop, refill, select_node-pop}
use kluster_capacity.Compression.Simulator.{
  Simulator, in_world, filter_of, choose_node, vacate, scale_down, restart, delete_pods_by_node,
  node_of, select, count_selection, label_node,
}

module _ {W : Type 0} where
  abbrev pub world : Simulator W → W
  world s = s.framework.world

-- A call in the world that succeeds, seen from the simulator.
pub in_world_ok :
    (e : Env) {A : Type 0} {a : A} (m : Action e.World A) (s t : Simulator e.World)
    → in_world e m s ≡ (ok a, t)
    → (m s.framework.world ≡ (ok a, t.framework.world))
      × (t.selector ≡ s.selector)
      × (t.current_node ≡ s.current_node)
in_world_ok e {A} m s t h = (
  ap (λ (x : Result A × Simulator e.World). (x.0, x.1.framework.world)) h,
  sym (ap (λ (x : Result A × Simulator e.World). x.1.selector) h),
  sym (ap (λ (x : Result A × Simulator e.World). x.1.current_node) h),
)

write_ok : {W : Type 0} (f : W → Result W) (w w' : W) → write f w ≡ (ok tt, w') → f w ≡ ok w'
write_ok {W} f w w' h = go (f w) refl h
  where
    go : (r : Result W) → f w ≡ r → written w r ≡ (ok tt, w') → f w ≡ ok w'
    go (ok v) e h' = e ∙ ap ok (ap (λ (x : Result (Unit {0}) × W). x.1) h')
    go (err m) e h' = cc h'
    go panic e h' = cc h'
    go stuck e h' = cc h'

module _ (e : Env) (laws : NodeLaws e) where
  open e use {World}
  open laws use {nodes}

  abbrev SameWorldNodes : World → World → Type 0
  SameWorldNodes w w' = nodes w' ≡ nodes w

  same_world_nodes : IsPreorder SameWorldNodes
  same_world_nodes = record { same = λ w. refl; then' = λ u v w p q. q ∙ p }

  delete_of-SameWorldNodes : (p : Pod) → Keeps SameWorldNodes (delete_of e p)
  delete_of-SameWorldNodes p w = go (e.delete_pod w p.namespace p.name) refl
    where
      go :
          (r : Result World)
          → e.delete_pod w p.namespace p.name ≡ r
          → nodes (written w r).1 ≡ nodes w
      go (ok w') h = laws.nodes-delete_pod w w' p.namespace p.name h
      go (err m) h = refl
      go panic h = refl
      go stuck h = refl

  delete_movable-SameWorldNodes : (ps : List Pod) → Keeps SameWorldNodes (delete_movable e ps)
  unfolding delete_movable
  delete_movable-SameWorldNodes [] w = refl
  delete_movable-SameWorldNodes (p ∷ ps) w =
      let rest = delete_movable e ps in
      if-Keeps same_world_nodes (is_movable p) (delete_of e p >> (rest >>= λ qs. pure (p ∷ qs)))
        rest
        (>>=-Keeps same_world_nodes (delete_of e p) (λ _. rest >>= λ qs. pure (p ∷ qs))
          (delete_of-SameWorldNodes p)
          (λ _.
            >>=-Keeps same_world_nodes rest (λ qs. pure (p ∷ qs)) (delete_movable-SameWorldNodes ps)
              (λ qs u. refl)))
        (delete_movable-SameWorldNodes ps) w

  -- A cordon that succeeds.
  cordon_ok :
      (n : Node) (w w' : World)
      → cordon e n w ≡ (ok tt, w')
      → (m : Node) × (first_node n.name (nodes w) ≡ ok m)
        × (nodes w' ≡ replace_node (cordoned m) (nodes w))
  unfolding cordon
  cordon_ok n w w' h =
      let (m, u, got, put) =
        >>=-eq-ok (read (λ v. e.get_node v n.name)) (λ m. write (λ v. e.update_node v (cordoned m)))
          w h in
      let found : e.get_node w n.name ≡ ok m = ap (λ (x : Result Node × World). x.0) got in
      let here : w ≡ u = ap (λ (x : Result Node × World). x.1) got in
      let done = write_ok (λ v. e.update_node v (cordoned m)) u w' put in
      (
        m,
        sym (laws.get_node_lem w n.name) ∙ found,
        laws.nodes-update_node u w' (cordoned m) done
            ∙ ap (λ v. replace_node (cordoned m) (nodes v)) (sym here),
      )

  -- What a call leaves alone after the cordon.
  abbrev SameRest : Simulator World → Simulator World → Type 0
  SameRest s t =
      (nodes (world t) ≡ nodes (world s))
      × (t.selector ≡ s.selector)
      × (t.current_node ≡ s.current_node)

  same_rest : IsPreorder SameRest
  same_rest = record {
    same = λ s. (refl, refl, refl);
    then' = λ s t u p q. (q.0 ∙ p.0, q.1 ∙ p.1, q.2 ∙ p.2);
  }

  delete_pods_by_node-SameRest : (n : Node) → Keeps SameRest (delete_pods_by_node e n)
  unfolding delete_pods_by_node
  delete_pods_by_node-SameRest n =
      >>=-Keeps same_rest (in_world e (read (λ w. get_pods_by_node e w n.name)))
        (λ pods. in_world e (delete_movable e pods) >>= λ created.
          modify (λ s. record s { created_pods = created }))
        (λ s. (refl, refl, refl))
        (λ pods.
          >>=-Keeps same_rest (in_world e (delete_movable e pods))
            (λ created. modify (λ s. record s { created_pods = created }))
            (λ s. (delete_movable-SameWorldNodes pods (world s), refl, refl))
            (λ created s. (refl, refl, refl)))

  -- Emptying a node writes it back with the taint, and leaves the candidates.
  pub vacate_ok :
      (n : Node) (s t : Simulator World)
      → vacate e n s ≡ (ok tt, t)
      → (m : Node) × (first_node n.name (nodes (world s)) ≡ ok m)
        × (nodes (world t) ≡ replace_node (cordoned m) (nodes (world s)))
        × (t.selector ≡ s.selector)
        × (t.current_node ≡ n.name)
  unfolding vacate
  vacate_ok n s t h =
      let (a, u, first, rest) =
        >>=-eq-ok (in_world e (cordon e n)) (λ _. delete_pods_by_node e n) (restart e n s) h in
      let (call, selector, node) = in_world_ok e (cordon e n) (restart e n s) u first in
      let (m, found, nodes') = cordon_ok n (world s) (world u) call in
      let same =
        subst (λ (x : Result (Unit {0}) × Simulator World). SameRest u x.1) rest
          (delete_pods_by_node-SameRest n u) in
      (m, found, same.0 ∙ nodes', same.1 ∙ selector, same.2 ∙ node)
