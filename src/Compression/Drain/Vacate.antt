-- ===== src/Compression/Drain/Vacate.antt =====
-- Emptying a node succeeds where the node and its pods are there, and leaves its pods to be created again.
use kluster_capacity.Base.{
  ◌≡◌, ◌≢◌, refl, sym, ap, ◌∙◌, subst, String, List, [], ◌∷◌, none, some, keep_if, All,
}
use kluster_capacity.Base.Monad.{Result, ok, Action, ◌>>=◌, modify, >>=-ok}
use kluster_capacity.Kube.{Pod, Node}
use kluster_capacity.Env.{Env, read, write}
use kluster_capacity.Env.Laws.{find_pod, first_node, PodLaws, NodeLaws, CacheLaws}
use kluster_capacity.Framework.Control.{get_pods_by_node, or_no_dump, pods_of_dump}
use kluster_capacity.Compression.Cluster.{cordon, cordoned, delete_movable, is_movable}
use kluster_capacity.Compression.Drain.Prepared.{IsPrepared}
use kluster_capacity.Compression.Effects.{world}
use kluster_capacity.Compression.Labels.{first_node-name}
use kluster_capacity.Compression.Keys.{Distinct, first_key, All-get_elem?}
use kluster_capacity.Compression.Simulator.{
  Simulator, in_world, vacate, restart, delete_pods_by_node,
}
use kluster_capacity.Compression.Drain.Deleted.{
  ArePresent, All-keep_if, keep_if-Distinct, delete_movable-total,
}

module _ (e : Env) (pod_laws : PodLaws e) (node_laws : NodeLaws e) (cache_laws : CacheLaws e) where
  open e use {World}
  open node_laws use {nodes}

  -- The node is there, and so are the pods that the cache has on it, with keys and namespaces of their own.
  pub record IsHost (n : Node) (ps : List Pod) (w : World) : Type 0 where
    pub stored : Node
    pub here : first_node n.name (nodes w) ≡ ok stored
    pub listed : get_pods_by_node e w n.name ≡ ok ps
    pub distinct : Distinct ps
    pub present : ArePresent e ps w
    pub named : All (λ p. p.namespace ≢ "") ps

  abbrev moved_to : World → Simulator World → Simulator World
  moved_to w s = record s { framework = record (s.framework) { world = w } }

  in_world-ok :
      {A : Type 0} {a : A} (m : Action World A) (s : Simulator World) (w' : World)
      → m (world s) ≡ (ok a, w')
      → in_world e m s ≡ (ok a, moved_to w' s)
  in_world-ok {A} m s w' h = ap (λ (x : Result A × World). (x.0, moved_to x.1 s)) h

  cordon-total :
      (n m : Node) (w : World)
      → first_node n.name (nodes w) ≡ ok m
      → (w' : World) × (cordon e n w ≡ (ok tt, w')) × (e.update_node w (cordoned m) ≡ ok w')
  unfolding cordon
  cordon-total n m w here =
      let named = first_node-name n.name (nodes w) m here in
      let there = subst (λ name. first_node name (nodes w) ≡ ok m) (sym named) here in
      let (w', written') = node_laws.update_node_ok w (cordoned m) m there in
      (
        w',
        >>=-ok (read (λ v. e.get_node v n.name)) (λ k. write (λ v. e.update_node v (cordoned k))) w
              w (ap (λ r. (r, w)) (node_laws.get_node_lem w n.name ∙ here))
            ∙ rw written' refl,
        written',
      )

  get_pods_by_node-same :
      (w w' : World) (name : String)
      → e.dump w' ≡ e.dump w
      → get_pods_by_node e w' name ≡ get_pods_by_node e w name
  unfolding get_pods_by_node
  get_pods_by_node-same w w' name h = ap (λ d. or_no_dump (pods_of_dump d name)) h

  same-ArePresent :
      (ps : List Pod) (w w' : World)
      → ((ns name : String) → find_pod e w' ns name ≡ find_pod e w ns name)
      → ArePresent e ps w
      → ArePresent e ps w'
  same-ArePresent [] w w' same h = tt
  same-ArePresent (p ∷ ps) w w' same h =
      (same p.namespace p.name ∙ h.0, same-ArePresent ps w w' same h.1)

  -- What emptying a node leaves: its pods that can be moved are to be created again.
  pub record Vacated (n : Node) (ps : List Pod) (s t : Simulator World) : Type 0 where
    pub created : t.created_pods ≡ keep_if is_movable ps
    pub index : t.create_pod_index ≡ 0
    pub bound : t.bind_success_pod_count ≡ 0
    pub node : t.current_node ≡ n.name
    pub status : t.framework.status ≡ s.framework.status
    pub simulated : t.simulated ≡ s.simulated
    pub max_simulated : t.max_simulated ≡ s.max_simulated
    pub prepared : IsPrepared e t
    pub was : ArePresent e t.created_pods (world s)
    pub outside :
        (ns name : String)
        → first_key t.created_pods ns name ≡ none
        → find_pod e (world t) ns name ≡ find_pod e (world s) ns name

  pub vacate-total :
      (n : Node) (ps : List Pod) (s : Simulator World)
      → IsHost n ps (world s)
      → (t : Simulator World) × (vacate e n s ≡ (ok tt, t)) × Vacated n ps s t
  unfolding vacate delete_pods_by_node
  vacate-total n ps s host =
      let (w1, tainted, written') = cordon-total n host.stored (world s) host.here in
      let same = λ (ns name : String).
        cache_laws.find-update_node (world s) w1 (cordoned host.stored) ns name written' in
      let listed =
        get_pods_by_node-same (world s) w1 n.name
          (cache_laws.dump-update_node (world s) w1 (cordoned host.stored) written')
        ∙ host.listed in
      let (w2, deleted, fewer, absent, outside) =
        delete_movable-total e pod_laws ps w1 host.distinct
          (same-ArePresent ps (world s) w1 same host.present) in
      let u = moved_to w1 (restart e n s) in
      let v = moved_to w2 u in
      let set_created =
        λ (qs : List Pod). modify (λ (x : Simulator World). record x { created_pods = qs }) in
      (
        record v { created_pods = keep_if is_movable ps },
        >>=-ok (in_world e (cordon e n)) (λ _. delete_pods_by_node e n) (restart e n s) u
              (in_world-ok (cordon e n) (restart e n s) w1 tainted)
            ∙ >>=-ok (in_world e (read (λ w. get_pods_by_node e w n.name)))
                (λ pods. in_world e (delete_movable e pods) >>= set_created) u u
                (in_world-ok (read (λ w. get_pods_by_node e w n.name)) u w1
                  (ap (λ r. (r, w1)) listed))
            ∙ >>=-ok (in_world e (delete_movable e ps)) set_created u v
                (in_world-ok (delete_movable e ps) u w2 deleted),
        record {
          created = refl;
          index = refl;
          bound = refl;
          node = refl;
          status = refl;
          simulated = refl;
          max_simulated = refl;
          prepared = record {
            distinct = keep_if-Distinct is_movable ps host.distinct;
            named = All-keep_if (λ p. p.namespace ≢ "") is_movable ps host.named;
            absent = λ i p le at.
                All-get_elem? (λ q. find_pod e w2 q.namespace q.name ≡ none) (keep_if is_movable ps)
                  i absent at;
          };
          was =
              All-keep_if (λ p. find_pod e (world s) p.namespace p.name ≡ some p) is_movable ps
                host.present;
          outside = λ ns name h. outside ns name h ∙ same ns name;
        },
      )
