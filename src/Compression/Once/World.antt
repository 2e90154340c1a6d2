-- ===== src/Compression/Once/World.antt =====
-- Whatever a method does on the fake API server, no node goes away or loses a label.
use kluster_capacity.Base.{
  ℕ, zero, suc, ◌≡◌, refl, sym, ◌∙◌, subst, String, true, List, [], ◌∷◌, Option, none, some,
  get_elem?, arith,
}
use kluster_capacity.Base.Dict.{Dict, lookup-insert}
use kluster_capacity.Base.Monad.{
  ok-injective, Result, ok, err, panic, stuck, Action, ◌>>=◌, ◌>>◌, pure, lift, crash,
}
use kluster_capacity.Base.Frame.{IsPreorder, Keeps, >>=-Keeps, if-Keeps}
use kluster_capacity.Kube.{Pod, Node}
use kluster_capacity.Env.{Env, read, write, written}
use kluster_capacity.Env.Laws.{NodeLaws, first_node}
use kluster_capacity.Framework.Control.Files.{FileProof}
use kluster_capacity.Pods.{init_pod}
use kluster_capacity.Compression.Cluster.{
  cordon, cordoned, uncordon, uncordoned, delete_movable, delete_of, is_movable, add_label_to_node,
  create_reset, create_of, create_all, delete_down_from, update_pods_from_created_pods, set_label,
}
use kluster_capacity.Compression.Filter.{node_scaled_down_success_label}
use kluster_capacity.Compression.Labels.{is_labelled, first_node-name}
use kluster_capacity.Compression.Once.Nodes.{
  HasLabels, Better, same-Better, then-Better, replace_node-Better,
}

-- A node that is written back under its name, with its labels or more.
abbrev pub IsKept : Node → Node → Type 0
IsKept m q =
    (q.name ≡ m.name) × (is_labelled m ≡ true → is_labelled q ≡ true) × (HasLabels m → HasLabels q)

set_label-IsKept : (key value : String) (m q : Node) → set_label key value m ≡ ok q → IsKept m q
set_label-IsKept key value m q h = go m.labels refl h
  where
    go :
        (labels : Option (Dict String))
        → m.labels ≡ labels
        → set_label key value (record m { labels = labels }) ≡ ok q
        → IsKept m q
    go none e h' = cc h'
    go (some l) e h' =
        let same = ok-injective h' in
        subst (IsKept m) same (
          refl,
          λ was. ground (arith, lookup-insert key node_scaled_down_success_label value l),
          λ has. refl,
        )

cordoned-IsKept : (m : Node) → IsKept m (cordoned m)
unfolding cordoned
cordoned-IsKept m = (refl, λ l. l, λ h. h)

uncordoned-IsKept : (m : Node) → IsKept m (uncordoned m)
unfolding uncordoned
uncordoned-IsKept m = (refl, λ l. l, λ h. h)

module _ (e : Env) (laws : NodeLaws e) where
  open e use {World}
  open laws use {nodes}

  abbrev pub WorldBetter : World → World → Type 0
  WorldBetter w w' = Better (nodes w) (nodes w')

  world_better : IsPreorder WorldBetter
  world_better = record {
    same = λ w. same-Better (nodes w) (nodes w) refl;
    then' = λ u v w p q. then-Better (nodes u) (nodes v) (nodes w) p q;
  }

  write-BetterAt :
      (f : World → Result World) (w : World)
      → ((w' : World) → f w ≡ ok w' → WorldBetter w w')
      → WorldBetter w (write f w).1
  write-BetterAt f w keep = go (f w) refl
    where
      go : (r : Result World) → f w ≡ r → WorldBetter w (written w r).1
      go (ok w') h = keep w' h
      go (err m) h = world_better.same w
      go panic h = world_better.same w
      go stuck h = world_better.same w

  delete_of-Better : (p : Pod) → Keeps WorldBetter (delete_of e p)
  delete_of-Better p = λ w.
      write-BetterAt (λ v. e.delete_pod v p.namespace p.name) w
        (λ w' h. same-Better _ _ (laws.nodes-delete_pod w w' p.namespace p.name h))

  create_pod-Better :
      (ns : String) (p : World → Pod) → Keeps WorldBetter (write (λ w. e.create_pod w ns (p w)))
  create_pod-Better ns p = λ w.
      write-BetterAt (λ v. e.create_pod v ns (p v)) w
        (λ w' h. same-Better _ _ (laws.nodes-create_pod w w' ns (p w) h))

  pub better_files : (w : World) → FileProof e (WorldBetter w)
  better_files w = record {
    open_file =
        λ u v path h b. then-Better _ _ _ b (same-Better _ _ (laws.nodes-open_file u v path h));
    write_file = λ u v path text h b.
        then-Better _ _ _ b (same-Better _ _ (laws.nodes-write_file u v path text h));
  }

  -- A node is read, changed and written.
  change_node-Better :
      (name : String) (f : Node → Result Node)
      → ((m q : Node) → f m ≡ ok q → IsKept m q)
      → Keeps WorldBetter (
          read (λ w. e.get_node w name) >>= λ n. lift (f n) >>= λ m. write (λ w. e.update_node w m))
  change_node-Better name f kept w = go (e.get_node w name) refl
    where
      put :
          (m q : Node)
          → e.get_node w name ≡ ok m
          → f m ≡ ok q
          → WorldBetter w (write (λ v. e.update_node v q) w).1
      put m q got h =
          let found = sym (laws.get_node_lem w name) ∙ got in
          let k = kept m q h in
          let there =
            subst (λ x. first_node x (nodes w) ≡ ok m)
              (sym (k.0 ∙ first_node-name name (nodes w) m found)) found in
          write-BetterAt (λ v. e.update_node v q) w
            (λ w' done.
              subst (Better (nodes w)) (sym (laws.nodes-update_node w w' q done))
                (replace_node-Better q (nodes w) m there k.1 k.2))

      change :
          (m : Node) (r : Result Node)
          → e.get_node w name ≡ ok m
          → f m ≡ r
          → WorldBetter w ((lift r >>= λ q. write (λ v. e.update_node v q)) w).1
      change m (ok q) got h = put m q got h
      change m (err x) got h = world_better.same w
      change m panic got h = world_better.same w
      change m stuck got h = world_better.same w

      go :
          (r : Result Node)
          → e.get_node w name ≡ r
          → WorldBetter w ((lift r >>= λ n. lift (f n) >>= λ m. write (λ v. e.update_node v m)) w).1
      go (ok m) h = change m (f m) h refl
      go (err x) h = world_better.same w
      go panic h = world_better.same w
      go stuck h = world_better.same w

  pub cordon-Better : (n : Node) → Keeps WorldBetter (cordon e n)
  unfolding cordon
  cordon-Better n =
      change_node-Better n.name (λ m. ok (cordoned m))
        (λ m q h. subst (IsKept m) (ok-injective h) (cordoned-IsKept m))

  pub uncordon-Better : (name : String) → Keeps WorldBetter (uncordon e name)
  unfolding uncordon
  uncordon-Better name =
      change_node-Better name (λ m. ok (uncordoned m))
        (λ m q h. subst (IsKept m) (ok-injective h) (uncordoned-IsKept m))

  pub add_label_to_node-Better :
      (name key value : String) → Keeps WorldBetter (add_label_to_node e name key value)
  unfolding add_label_to_node
  add_label_to_node-Better name key value =
      change_node-Better name (set_label key value) (set_label-IsKept key value)

  pub create_reset-Better : (p : Pod) → Keeps WorldBetter (create_reset e p)
  create_reset-Better p = create_pod-Better p.namespace (λ w. init_pod e w p)

  pub delete_movable-Better : (ps : List Pod) → Keeps WorldBetter (delete_movable e ps)
  unfolding delete_movable
  delete_movable-Better [] = world_better.same
  delete_movable-Better (p ∷ ps) =
      let rest = delete_movable e ps in
      let then' = λ (u : Unit {0}). rest >>= λ qs. pure {S = World} (p ∷ qs) in
      if-Keeps world_better (is_movable p) (delete_of e p >>= then') rest
        (>>=-Keeps world_better (delete_of e p) then' (delete_of-Better p) (λ u.
          >>=-Keeps world_better rest (λ qs. pure (p ∷ qs)) (delete_movable-Better ps)
            (λ qs. world_better.same)))
        (delete_movable-Better ps)

  create_all-Better : (ps : List Pod) → Keeps WorldBetter (create_all e ps)
  unfolding create_all
  create_all-Better [] = world_better.same
  create_all-Better (p ∷ ps) =
      >>=-Keeps world_better (create_of e p) (λ u. create_all e ps)
        (create_pod-Better p.namespace (λ w. p)) (λ u. create_all-Better ps)

  delete_at-Better :
      (o : Option Pod) (rest : Action World (Unit {0}))
      → Keeps WorldBetter rest
      → Keeps WorldBetter (elim o as (λ x. Action World (Unit {0})) [
        | none ↦ crash
        | some p ↦ delete_of e p >> rest
      ])
  delete_at-Better none rest h = world_better.same
  delete_at-Better (some q) rest h =
      >>=-Keeps world_better (delete_of e q) (λ u. rest) (delete_of-Better q) (λ u. h)

  delete_down_from-Better : (i : ℕ) (ps : List Pod) → Keeps WorldBetter (delete_down_from e i ps)
  unfolding delete_down_from
  delete_down_from-Better zero ps = world_better.same
  delete_down_from-Better (suc i) ps =
      delete_at-Better (get_elem? ps i) (delete_down_from e i ps) (delete_down_from-Better i ps)

  pub update_pods_from_created_pods-Better :
      (i : ℕ) (ps : List Pod) → Keeps WorldBetter (update_pods_from_created_pods e i ps)
  unfolding update_pods_from_created_pods
  update_pods_from_created_pods-Better i ps =
      >>=-Keeps world_better (delete_down_from e i ps) (λ u. create_all e ps)
        (delete_down_from-Better i ps) (λ u. create_all-Better ps)
