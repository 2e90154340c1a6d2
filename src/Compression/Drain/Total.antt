-- ===== src/Compression/Drain/Total.antt =====
-- A node from its selection to the report: where its pods fit elsewhere, nothing fails on the way.
use kluster_capacity.Base.{
  ℕ, suc, ◌+◌, ◌≡◌, refl, sym, ap, ◌∙◌, subst, String, false, List, ◌∷◌, ◌++◌, Option, none, some,
  keep_if, length, ltb, All, arith, if_true_eq,
}
use kluster_capacity.Base.Frame.{IsPreorder, Keeps, >>=-Keeps}
use kluster_capacity.Base.Monad.{Result, ok, ◌>>=◌, ◌>>◌, modify, continue, caught, >>=-ok}
use kluster_capacity.Kube.{Pod, Node}
use kluster_capacity.Env.{Env}
use kluster_capacity.Env.Laws.{find_pod, PodLaws, NodeLaws, CacheLaws}
use kluster_capacity.Compression.Binding.{create_next_pod_ok}
use kluster_capacity.Compression.Cluster.{is_movable, update_pods_from_created_pods}
use kluster_capacity.Compression.Drain.{IsDraining}
use kluster_capacity.Compression.Drain.Prepared.{
  Turn, IsHarmless, IsPrepared, create_next_pod-total, IsFaithful,
}
use kluster_capacity.Compression.Drain.Turns.{
  take_turns, take_turn, take_turns-reports, take_turns-Drained, TracksIn,
}
use kluster_capacity.Compression.Drain.Deleted.{ArePresent}
use kluster_capacity.Compression.Drain.Vacate.{IsHost, Vacated, vacate-total}
use kluster_capacity.Compression.Effects.{world}
use kluster_capacity.Compression.Events.{is_limited, roll_back, stop_with}
use kluster_capacity.Compression.Progress.{scaled, create_next_pod-SameNodes}
use kluster_capacity.Compression.Rollback.{update_pods_from_created_pods-restores}
use kluster_capacity.Compression.Select.{Selection, chosen, nothing}
use kluster_capacity.Compression.Simulator.{
  Simulator, choose_node, vacate, enter, scale_down, create_next_pod, select_next_node, select,
  node_of, count_selection,
}

-- What choosing a node leaves as it was.
record Unmoved {W : Type 0} (s t : Simulator W) : Type 0 where
  world : t.framework.world ≡ s.framework.world
  scaled : t.framework.status.nodes_to_scale_down ≡ s.framework.status.nodes_to_scale_down
  simulated : t.simulated ≡ s.simulated
  max_simulated : t.max_simulated ≡ s.max_simulated

unmoved : {W : Type 0} → IsPreorder (Unmoved {W = W})
unmoved = record {
  same = λ s. record { world = refl; scaled = refl; simulated = refl; max_simulated = refl };
  then' = λ s t u p q. record {
    world = q.world ∙ p.world;
    scaled = q.scaled ∙ p.scaled;
    simulated = q.simulated ∙ p.simulated;
    max_simulated = q.max_simulated ∙ p.max_simulated;
  };
}

limit_same :
    {W : Type 0} (s t : Simulator W)
    → t.simulated ≡ s.simulated
    → t.max_simulated ≡ s.max_simulated
    → is_limited t ≡ is_limited s
limit_same s t a b = rw (a, b)

module _ (e : Env) where
  open e use {World}

  node_of-Unmoved : (r : Option Selection) → Keeps Unmoved (node_of e r)
  node_of-Unmoved none = unmoved.same
  node_of-Unmoved (some (nothing reason)) = unmoved.same
  node_of-Unmoved (some (chosen n)) = unmoved.same

  choose_node-Unmoved : Keeps Unmoved (choose_node e)
  unfolding choose_node
  choose_node-Unmoved =
      >>=-Keeps unmoved (modify (count_selection e)) (λ _. select e >>= node_of e)
        (λ s. record { world = refl; scaled = refl; simulated = refl; max_simulated = refl })
        (λ _.
          >>=-Keeps unmoved (select e) (node_of e)
            (λ s. record { world = refl; scaled = refl; simulated = refl; max_simulated = refl })
            node_of-Unmoved)

module _ (e : Env) (pod_laws : PodLaws e) (node_laws : NodeLaws e) (cache_laws : CacheLaws e) where
  open e use {World}

  -- The state in which the first pod of the node has been created, and `k` are left.
  record Begun (fuel k : ℕ) (n : Node) (ps : List Pod) (s v : Simulator World) : Type 0 where
    draining : IsDraining e fuel k v
    prepared : IsPrepared e v
    scaled : scaled v ≡ scaled s
    node : v.current_node ≡ n.name
    created : v.created_pods ≡ keep_if is_movable ps
    was : ArePresent e v.created_pods (world s)
    tracks : TracksIn e fuel (world s) v

  first_pod-Begun :
      (fuel k : ℕ) (n : Node) (ps : List Pod) (s t : Simulator World)
      → is_limited s ≡ false
      → length (keep_if is_movable ps) ≡ suc k
      → Vacated e pod_laws node_laws cache_laws n ps s t
      → (v : Simulator World) × (create_next_pod e t ≡ (ok tt, v)) × Begun fuel k n ps s v
  first_pod-Begun fuel k n ps s t free many vacated =
      let size : length t.created_pods ≡ suc k = ap length vacated.created ∙ many in
      let i = vacated.index in
      let b = vacated.bound in
      let (v, made, prepared, tracks) =
        create_next_pod-total e pod_laws t vacated.prepared (omega arith) in
      let (index, bound, created, node, simulated, max_simulated) = create_next_pod_ok e t v made in
      let size' : length v.created_pods ≡ length t.created_pods = ap length created in
      let same : scaled v ≡ scaled t =
        subst (λ (x : Result (Unit {0}) × Simulator World). scaled x.1 ≡ scaled t) made
          (create_next_pod-SameNodes e t) in
      (
        v,
        made,
        record {
          draining = (
            record { outstanding = omega arith; in_range = omega arith },
            limit_same s v (simulated ∙ vacated.simulated) (max_simulated ∙ vacated.max_simulated)
                ∙ free,
            omega arith,
          );
          prepared = prepared;
          scaled = same ∙ ap (λ st. st.nodes_to_scale_down) vacated.status;
          node = node ∙ vacated.node;
          created = created ∙ vacated.created;
          was = subst (λ qs. ArePresent e qs (world s)) (sym created) vacated.was;
          tracks = tracks (world s) ((λ j p lt at. absurd (omega (arith, i))), vacated.outside);
        },
      )

  select_next_node-Begun :
      (fuel k : ℕ) (n : Node) (ps : List Pod) (s u : Simulator World)
      → choose_node e s ≡ (ok n, u)
      → IsHost e pod_laws node_laws cache_laws n ps (world s)
      → length (keep_if is_movable ps) ≡ suc k
      → is_limited s ≡ false
      → (v : Simulator World) × (select_next_node e (suc fuel) s ≡ (ok tt, v))
        × Begun fuel k n ps u v
        × Unmoved s u
  unfolding select_next_node
  select_next_node-Begun fuel k n ps s u chose host many free =
      let kept =
        subst (λ (x : Result Node × Simulator World). Unmoved s x.1) chose
          (choose_node-Unmoved e s) in
      let host' = subst (IsHost e pod_laws node_laws cache_laws n ps) (sym kept.world) host in
      let (w, emptied, vacated) = vacate-total e pod_laws node_laws cache_laws n ps u host' in
      let free' = limit_same s u kept.simulated kept.max_simulated ∙ free in
      let (v, made, begun) = first_pod-Begun fuel k n ps u w free' many vacated in
      let size : length w.created_pods ≡ suc k = ap length vacated.created ∙ many in
      let next = select_next_node e fuel in
      (
        v,
        >>=-ok (choose_node e >>= vacate e) (λ _. enter e next) s w
              (>>=-ok (choose_node e) (vacate e) s u chose ∙ emptied)
            ∙ if_true_eq (ltb 0 (length w.created_pods)) (create_next_pod e) (scale_down e >> next)
                w (ground arith)
            ∙ made,
        begun,
        kept,
      )

  -- The next node is emptied from its selection to its report. The node that comes next is there, the cache has its
  -- pods, which are there with keys and namespaces of their own, and at least one of them can be moved; the limit is
  -- not reached. The scheduler may do anything in its turns but create pods, and has a turn for each pod that can be
  -- moved. Then the selection returns without an error, and so does each turn but perhaps the last; no node is
  -- reported before the last turn, and that turn, whatever its outcome, reports the node first, behind the nodes
  -- reported before.
  pub select_next_node-drains :
      (fuel : ℕ) (n : Node) (ps : List Pod) (turns : List (Turn World)) (last : Turn World)
      → (s u : Simulator World) → choose_node e s ≡ (ok n, u)
      → IsHost e pod_laws node_laws cache_laws n ps (world s)
      → length (keep_if is_movable ps) ≡ suc (length turns)
      → is_limited s ≡ false
      → All (IsHarmless e) turns
      → (v t : Simulator World) × (select_next_node e (suc fuel) s ≡ (ok tt, v))
        × (take_turns e fuel turns v ≡ (ok tt, t))
        × (scaled t ≡ scaled s)
        × ((more : List String) × (scaled (take_turn e fuel last t).1
              ≡ scaled s ++ (n.name ∷ more)))
  select_next_node-drains fuel n ps turns last s u chose host many free harmless =
      let (v, begins, begun, kept) =
        select_next_node-Begun fuel (length turns) n ps s u chose host many free in
      let (t, taken, quiet, (more, reported)) =
        take_turns-reports e fuel pod_laws turns last v harmless begun.draining begun.prepared in
      let before = begun.scaled ∙ kept.scaled in
      (
        v,
        t,
        begins,
        taken,
        quiet ∙ before,
        (more, reported ∙ (λ i. before i ++ (begun.node i ∷ more))),
      )

  roll_back_ok :
      (fuel : ℕ) (s : Simulator World) (w' : World)
      → update_pods_from_created_pods e s.create_pod_index s.created_pods (world s) ≡ (ok tt, w')
      → roll_back e fuel s ≡ (ok tt, record s { framework = record (s.framework) { world = w' } })
  roll_back_ok fuel s w' h =
      ap
        (λ (x : Result (Unit {0}) × World).
          continue (stop_with e fuel "FailedDeletePodsFromCreatedPods: ")
            (caught (x.0, record s { framework = record (s.framework) { world = x.1 } })))
        h

  -- A node whose pods do not all fit gets them back. The next node is emptied as far as the scheduler has turns, fewer
  -- than the pods that can be moved. The scheduler creates and deletes no pod in its turns, and changes none but the
  -- pods that are moved. Then the selection, the turns and the rollback return no error, no node has been reported, and
  -- every pod is as it was before the selection.
  pub select_next_node-roll_back :
      (fuel k : ℕ) (n : Node) (ps : List Pod) (turns : List (Turn World))
      → (s u : Simulator World) → choose_node e s ≡ (ok n, u)
      → IsHost e pod_laws node_laws cache_laws n ps (world s)
      → length (keep_if is_movable ps) ≡ suc (length turns + k)
      → is_limited s ≡ false
      → All (IsHarmless e) turns
      → All (IsFaithful e (keep_if is_movable ps)) turns
      → (v t after : Simulator World) × (select_next_node e (suc fuel) s ≡ (ok tt, v))
        × (take_turns e fuel turns v ≡ (ok tt, t))
        × (roll_back e fuel t ≡ (ok tt, after))
        × (scaled after ≡ scaled s)
        × ((ns name : String) → find_pod e (world after) ns name ≡ find_pod e (world s) ns name)
  select_next_node-roll_back fuel k n ps turns s u chose host many free harmless faithful =
      let (v, begins, begun, kept) =
        select_next_node-Begun fuel (length turns + k) n ps s u chose host many free in
      let (t, taken, drained, tracks) =
        take_turns-Drained e fuel pod_laws k turns v harmless begun.draining begun.prepared in
      let (there, outside) =
        tracks (world u) (subst (λ qs. All (IsFaithful e qs) turns) (sym begun.created) faithful)
          begun.tracks in
      let was = subst (λ qs. ArePresent e qs (world u)) (sym drained.4) begun.was in
      let (w', undone, restored) =
        update_pods_from_created_pods-restores e pod_laws (world u) (world t) t.create_pod_index
          t.created_pods drained.0.0.in_range drained.1.distinct was there drained.1.absent
          outside in
      (
        v,
        t,
        record t { framework = record (t.framework) { world = w' } },
        begins,
        taken,
        roll_back_ok fuel t w' undone,
        drained.2 ∙ begun.scaled ∙ kept.scaled,
        λ ns name. restored ns name ∙ ap (λ w. find_pod e w ns name) kept.world,
      )
