-- ===== src/Compression/Once/ScaleDown.antt =====
-- Reporting the current node, which then carries the label of success.
use kluster_capacity.Base.{
  ◌<◌, ◌≡◌, refl, sym, ap, ◌∙◌, subst, String, true, false, List, [], ◌∷◌, ◌++◌, All, any, ◌==◌,
  eq_iff, length, arith, Bool-cases, Option-cases, inl, inr,
}
use kluster_capacity.Base.Dict.{is_some}
use kluster_capacity.Base.Frame.{IsPreorder, Keeps, >>=-Keeps}
use kluster_capacity.Base.Monad.{ok, ◌>>◌, modify}
use kluster_capacity.Kube.{Node}
use kluster_capacity.Env.{Env}
use kluster_capacity.Env.Laws.{NodeLaws, first_node, replace_node}
use kluster_capacity.Compression.Effects.{world}
use kluster_capacity.Compression.Effects.ScaleDown.{
  with_label, with_label-is_labelled, scale_down_labels,
}
use kluster_capacity.Compression.Filter.{node_scaled_down_success_label}
use kluster_capacity.Compression.Labels.{
  is_labelled, Unique, first_node-name, first_node-replace_node,
}
use kluster_capacity.Compression.Progress.{scaled, scale_down-scaled}
use kluster_capacity.Compression.Select.Queue.{pending}
use kluster_capacity.Compression.Simulator.{
  Simulator, scale_down, label_current, report_current, count_node,
}
use kluster_capacity.Compression.Once.Calls.{label_node-Still}
use kluster_capacity.Compression.Once.Nodes.{
  Distinct, append-Distinct, any-append, HasLabels, Better, first_node-HasLabels,
  replace_node-Better,
}
use kluster_capacity.Compression.Once.State.{Labelled, Waits, Waits-Stays, Sane, Ready, Once}

waits-more :
    (names : List String) (ns : List Node) (name : String) (queue : List Node)
    → any (λ m. m.name == name) queue ≡ false
    → All (Waits names ns) queue
    → All (Waits (names ++ (name ∷ [])) ns) queue
waits-more names ns name [] h all = tt
waits-more names ns name (n ∷ queue) h ((present, missing), all) = (
  (present, ground (arith, any-append n.name name names, eq_iff n.name name, eq_iff name n.name)),
  waits-more names ns name queue (ground arith) all,
)

module _ (e : Env) (laws : NodeLaws e) where
  open e use {World}
  open laws use {nodes}

  abbrev SameCounts : Simulator World → Simulator World → Type 0
  SameCounts s t =
      (t.created_pods ≡ s.created_pods) × (t.bind_success_pod_count ≡ s.bind_success_pod_count)

  same_counts : IsPreorder SameCounts
  same_counts = record { same = λ s. (refl, refl); then' = λ s t u p q. (q.0 ∙ p.0, q.1 ∙ p.1) }

  scale_down-SameCounts : Keeps SameCounts (scale_down e)
  unfolding scale_down
  scale_down-SameCounts =
      let label = label_current e node_scaled_down_success_label in
      >>=-Keeps same_counts (modify (report_current e)) (λ _. label >> modify (count_node e))
        (λ s. (refl, refl))
        (λ _.
          >>=-Keeps same_counts label (λ _. modify (count_node e))
            (λ s.
              let (q, pods, count) =
                label_node-Still e laws s.current_node node_scaled_down_success_label s in
              (pods, count))
            (λ _ s. (refl, refl)))

  -- The current node is reported, and written with the label.
  reported :
      (m : Node) (s t : Simulator World)
      → Ready e laws s
      → first_node s.current_node (nodes (world s)) ≡ ok m
      → (q : Node) → q.name ≡ s.current_node
      → is_labelled q ≡ true
      → HasLabels q
      → nodes (world t) ≡ replace_node q (nodes (world s))
      → scaled t ≡ scaled s ++ (s.current_node ∷ [])
      → pending t.selector ≡ pending s.selector
      → Sane e laws t
  reported m s t (sane, (present, missing, away)) found q named label has written more left =
      let there = subst (λ name. first_node name (nodes (world s)) ≡ ok m) (sym named) found in
      let better : Better (nodes (world s)) (nodes (world t)) =
        subst (Better (nodes (world s))) (sym written)
          (replace_node-Better q (nodes (world s)) m there (λ _. label) (λ _. has)) in
      let (sound, stays) = better sane.sound in
      let here : first_node s.current_node (nodes (world t)) ≡ ok q =
        subst (λ ns. first_node s.current_node ns ≡ ok q) (sym written)
          (subst (λ name. first_node name (replace_node q (nodes (world s))) ≡ ok q) named
            (first_node-replace_node q (nodes (world s)) m there)) in
      record {
        sound = sound;
        labelled = λ name h. elim (Bool-cases (any (λ x. x == name) (scaled s))) [
          | inl old ↦
              let (n, found', l) = sane.labelled name old in
              let (n', found'', keeps) = stays name n found' in (n', found'', keeps l)
          | inr new ↦
              let both =
                sym (any-append name s.current_node (scaled s))
                ∙ subst (λ names. any (λ x. x == name) names ≡ true) more h in
              let is_current : s.current_node ≡ name = ground (arith, eq_iff s.current_node name) in
              subst (Labelled (nodes (world t))) is_current (q, here, label)
        ];
        distinct =
            subst Distinct (sym more)
              (append-Distinct (scaled s) s.current_node sane.distinct missing);
        waiting =
            subst (λ names. All (Waits names (nodes (world t))) (pending t.selector)) (sym more)
              (subst (λ q'. All (Waits (scaled s ++ (s.current_node ∷ [])) (nodes (world t))) q')
                (sym left)
                (waits-more (scaled s) (nodes (world t)) s.current_node (pending s.selector) away
                  (Waits-Stays (scaled s) _ _ (pending s.selector) stays sane.waiting)));
        queue = subst Unique (sym left) sane.queue;
      }

  scale_down-Sane : (s : Simulator World) → Ready e laws s → Sane e laws (scale_down e s).1
  scale_down-Sane s ready =
      let (m, found) = ready.1.0 in
      let has = first_node-HasLabels s.current_node (nodes (world s)) m found ready.0.sound.1 in
      elim (Option-cases m.labels) [
        | inl none' ↦ absurd (cc (ap (λ o. is_some o) none', has))
        | inr (labels, some') ↦
            let q = with_label m labels in
            let named = first_node-name s.current_node (nodes (world s)) m found in
            let there =
              subst (λ name. first_node name (nodes (world s)) ≡ ok m) (sym named) found in
            let got = laws.get_node_lem (world s) s.current_node ∙ found in
            let (w, put) = laws.update_node_ok (world s) q m there in
            let (good, moved, left) = scale_down_labels e laws m labels s w some' got put in
            reported m s (scale_down e s).1 ready found q named (with_label-is_labelled m labels)
              refl (ap nodes moved ∙ laws.nodes-update_node (world s) w q put)
              (scale_down-scaled e s) left
      ]

  -- The current node is reported where no pod of it is left.
  pub scale_down-Once :
      (s : Simulator World)
      → Ready e laws s
      → ¬ (s.bind_success_pod_count < length s.created_pods)
      → Once e laws (scale_down e s).1
  scale_down-Once s ready none_left =
      let (pods, count) = scale_down-SameCounts s in
      (
        scale_down-Sane s ready,
        λ h. absurd (
            none_left (
              subst (λ k. k < length s.created_pods) count
                (subst (λ ps. (scale_down e s).1.bind_success_pod_count < length ps) pods h))),
      )
