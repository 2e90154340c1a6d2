-- ===== src/Compression/Runs/World.antt =====
-- The number of the nodes and their names stay the same, whatever a method does on the fake API server.
use kluster_capacity.Base.{
  ℕ, zero, suc, get_elem?, Option, none, some, ◌≢◌, ◌≡◌, refl, sym, ◌∙◌, subst, String, List, [],
  ◌∷◌, length, arith,
}
use kluster_capacity.Base.Safe.{Safe, >>=-Safe, pure-Safe, if-Safe}
use kluster_capacity.Base.Monad.{
  Result, ok, err, panic, stuck, Action, ◌>>=◌, ◌>>◌, pure, lift, crash,
}
use kluster_capacity.Kube.{Pod, Node}
use kluster_capacity.Env.{Env, read, write, written}
use kluster_capacity.Env.Answers.{Answers, write-Live}
use kluster_capacity.Env.Laws.{NodeLaws}
use kluster_capacity.Framework.Control.{get_pods_by_node}
use kluster_capacity.Framework.Control.Files.{FileProof}
use kluster_capacity.Pods.{init_pod}
use kluster_capacity.Compression.Cluster.{
  cordon, cordoned, uncordon, uncordoned, delete_movable, delete_of, is_movable, add_label_to_node,
  create_reset, create_of, create_all, delete_down_from, update_pods_from_created_pods, set_label,
}
use kluster_capacity.Compression.Labels.{Unique, replace_node-Unique, length-replace_node}

module _ (e : Env) (laws : NodeLaws e) (answers : Answers e) (k : ℕ) where
  open e use {World}
  open laws use {nodes}

  -- There are `k` nodes, and each has a name of its own.
  abbrev pub Numbered : World → Type 0
  Numbered w = Unique (nodes w) × (length (nodes w) ≡ k)

  Numbered-same : (w w' : World) → nodes w' ≡ nodes w → Numbered w → Numbered w'
  Numbered-same w w' h p = subst (λ ns. Unique ns × (length ns ≡ k)) (sym h) p

  write-Safe :
      (f : World → Result World)
      → ((w : World) → f w ≢ stuck)
      → ((w w' : World) → f w ≡ ok w' → Numbered w → Numbered w')
      → Safe Numbered (write f)
  write-Safe f answer keep w p = (write-Live f answer w, go (f w) refl)
    where
      go : (r : Result World) → f w ≡ r → Numbered (written w r).1
      go (ok w') h = keep w w' h p
      go (err m) h = p
      go panic h = p
      go stuck h = p

  update_node-Safe : (n : Node) → Safe Numbered (write (λ w. e.update_node w n))
  update_node-Safe n =
      write-Safe (λ w. e.update_node w n) (λ w. answers.update_node w n)
        (λ w w' h p.
          subst (λ ns. Unique ns × (length ns ≡ k)) (sym (laws.nodes-update_node w w' n h))
            (replace_node-Unique n (nodes w) p.0, length-replace_node n (nodes w) ∙ p.1))

  delete_pod-Safe : (ns name : String) → Safe Numbered (write (λ w. e.delete_pod w ns name))
  delete_pod-Safe ns name =
      write-Safe (λ w. e.delete_pod w ns name) (λ w. answers.delete_pod w ns name)
        (λ w w' h. Numbered-same w w' (laws.nodes-delete_pod w w' ns name h))

  -- The pod that is created may depend on the outside, as a uid does.
  create_pod-Safe :
      (ns : String) (p : World → Pod) → Safe Numbered (write (λ w. e.create_pod w ns (p w)))
  create_pod-Safe ns p =
      write-Safe (λ w. e.create_pod w ns (p w)) (λ w. answers.create_pod w ns (p w))
        (λ w w' h. Numbered-same w w' (laws.nodes-create_pod w w' ns (p w) h))

  pub files : FileProof e Numbered
  files = record {
    open_file = λ w w' path h. Numbered-same w w' (laws.nodes-open_file w w' path h);
    write_file = λ w w' path text h. Numbered-same w w' (laws.nodes-write_file w w' path text h);
  }

  read-Safe :
      {A : Type 0} (f : World → Result A) → ((w : World) → f w ≢ stuck) → Safe Numbered (read f)
  read-Safe f answer w p = (answer w, p)

  pub get_pods_by_node-Safe :
      (name : String) → Safe Numbered (read (λ w. get_pods_by_node e w name))
  unfolding get_pods_by_node
  get_pods_by_node-Safe name w p = (ground arith, p)

  -- A node is read, changed and written.
  change_node-Safe :
      (name : String) (f : Node → Result Node)
      → ((n : Node) → f n ≢ stuck)
      → Safe Numbered (
          read (λ w. e.get_node w name) >>= λ n. lift (f n) >>= λ m. write (λ w. e.update_node w m))
  change_node-Safe name f answer =
      >>=-Safe Numbered (read (λ w. e.get_node w name))
        (λ n. lift (f n) >>= λ m. write (λ w. e.update_node w m))
        (read-Safe (λ w. e.get_node w name) (λ w. answers.get_node w name))
        (λ n.
          >>=-Safe Numbered (lift (f n)) (λ m. write (λ w. e.update_node w m))
            (λ w p. (answer n, p)) update_node-Safe)

  pub cordon-Safe : (n : Node) → Safe Numbered (cordon e n)
  unfolding cordon
  cordon-Safe n = change_node-Safe n.name (λ m. ok (cordoned m)) (λ m h. cc h)

  pub uncordon-Safe : (name : String) → Safe Numbered (uncordon e name)
  unfolding uncordon
  uncordon-Safe name = change_node-Safe name (λ m. ok (uncordoned m)) (λ m h. cc h)

  pub add_label_to_node-Safe :
      (name key value : String) → Safe Numbered (add_label_to_node e name key value)
  unfolding add_label_to_node
  add_label_to_node-Safe name key value =
      change_node-Safe name (set_label key value) (λ n. ground arith)

  pub create_reset-Safe : (p : Pod) → Safe Numbered (create_reset e p)
  create_reset-Safe p = create_pod-Safe p.namespace (λ w. init_pod e w p)

  delete_of-Safe : (p : Pod) → Safe Numbered (delete_of e p)
  delete_of-Safe p = delete_pod-Safe p.namespace p.name

  pub delete_movable-Safe : (ps : List Pod) → Safe Numbered (delete_movable e ps)
  unfolding delete_movable
  delete_movable-Safe [] = pure-Safe Numbered []
  delete_movable-Safe (p ∷ ps) =
      let rest = delete_movable e ps in
      let then' = λ (u : Unit {0}). rest >>= λ qs. pure {S = World} (p ∷ qs) in
      if-Safe Numbered (is_movable p) (delete_of e p >>= then') rest
        (>>=-Safe Numbered (delete_of e p) then' (delete_of-Safe p) (λ u.
          >>=-Safe Numbered rest (λ qs. pure (p ∷ qs)) (delete_movable-Safe ps)
            (λ qs. pure-Safe Numbered (p ∷ qs))))
        (delete_movable-Safe ps)

  create_all-Safe : (ps : List Pod) → Safe Numbered (create_all e ps)
  unfolding create_all
  create_all-Safe [] = pure-Safe Numbered tt
  create_all-Safe (p ∷ ps) =
      >>=-Safe Numbered (create_of e p) (λ u. create_all e ps)
        (create_pod-Safe p.namespace (λ w. p)) (λ u. create_all-Safe ps)

  delete_at-Safe :
      (o : Option Pod) (rest : Action World (Unit {0}))
      → Safe Numbered rest
      → Safe Numbered (elim o as (λ x. Action World (Unit {0})) [
        | none ↦ crash
        | some p ↦ delete_of e p >> rest
      ])
  delete_at-Safe none rest h = λ w p. (λ x. cc x, p)
  delete_at-Safe (some q) rest h =
      >>=-Safe Numbered (delete_of e q) (λ u. rest) (delete_of-Safe q) (λ u. h)

  delete_down_from-Safe : (i : ℕ) (ps : List Pod) → Safe Numbered (delete_down_from e i ps)
  unfolding delete_down_from
  delete_down_from-Safe zero ps = pure-Safe Numbered tt
  delete_down_from-Safe (suc i) ps =
      delete_at-Safe (get_elem? ps i) (delete_down_from e i ps) (delete_down_from-Safe i ps)

  pub update_pods_from_created_pods-Safe :
      (i : ℕ) (ps : List Pod) → Safe Numbered (update_pods_from_created_pods e i ps)
  unfolding update_pods_from_created_pods
  update_pods_from_created_pods-Safe i ps =
      >>=-Safe Numbered (delete_down_from e i ps) (λ u. create_all e ps)
        (delete_down_from-Safe i ps) (λ u. create_all-Safe ps)
