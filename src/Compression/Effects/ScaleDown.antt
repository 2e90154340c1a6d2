-- ===== src/Compression/Effects/ScaleDown.antt =====
-- What reporting a node does to the nodes.
use kluster_capacity.Base.{
  ◌≡◌, refl, sym, ap, ◌∙◌, subst, String, true, some, none, arith, Option-cases, inl, inr,
}
use kluster_capacity.Base.Dict.{Dict, insert, lookup-insert}
use kluster_capacity.Base.Monad.{Result, ok, panic}
use kluster_capacity.Kube.{Node}
use kluster_capacity.Env.{Env}
use kluster_capacity.Env.Laws.{NodeLaws, first_node, replace_node}
use kluster_capacity.Compression.Cluster.{add_label_to_node}
use kluster_capacity.Compression.Filter.{node_scaled_down_success_label}
use kluster_capacity.Compression.Labels.{is_labelled, first_node-name}
use kluster_capacity.Compression.Select.{done}
use kluster_capacity.Compression.Select.Queue.{pending}
use kluster_capacity.Compression.Simulator.{Simulator, scale_down, label_node}
use kluster_capacity.Compression.Effects.{world}

abbrev pub with_label : Node → Dict String → Node
with_label m labels = record m {
  labels = some (insert node_scaled_down_success_label "true" labels);
}

pub with_label-is_labelled :
    (m : Node) (labels : Dict String) → is_labelled (with_label m labels) ≡ true
with_label-is_labelled m labels =
    rw (lookup-insert node_scaled_down_success_label node_scaled_down_success_label "true" labels)
      refl

module _ (e : Env) (laws : NodeLaws e) where
  open e use {World}
  open laws use {nodes}

  scale_down_panic :
      (m : Node) (s : Simulator World)
      → m.labels ≡ none
      → e.get_node (world s) s.current_node ≡ ok m
      → (scale_down e s).0 ≡ panic
  unfolding scale_down label_node add_label_to_node
  scale_down_panic m s none' got = ground arith

  pub scale_down_labels :
      (m : Node) (labels : Dict String) (s : Simulator World) (w : World)
      → m.labels ≡ some labels
      → e.get_node (world s) s.current_node ≡ ok m
      → e.update_node (world s) (with_label m labels) ≡ ok w
      → ((scale_down e s).0 ≡ ok tt)
        × (world (scale_down e s).1 ≡ w)
        × (pending (scale_down e s).1.selector ≡ pending s.selector)
  unfolding scale_down label_node add_label_to_node done
  scale_down_labels m labels s w some' got put = ground arith

  -- Where a node is found by the name of the current one, reporting it writes it with the label.
  pub scale_down_ok :
      (m : Node) (s t : Simulator World)
      → first_node s.current_node (nodes (world s)) ≡ ok m
      → scale_down e s ≡ (ok tt, t)
      → (q : Node) × (q.name ≡ m.name)
        × (is_labelled q ≡ true)
        × (nodes (world t) ≡ replace_node q (nodes (world s)))
        × (pending t.selector ≡ pending s.selector)
  unfolding scale_down
  scale_down_ok m s t found h =
      let got = laws.get_node_lem (world s) s.current_node ∙ found in
      elim (Option-cases m.labels) [
        | inl none' ↦ absurd (
            cc (
              scale_down_panic m s none' got,
              ap (λ (x : Result (Unit {0}) × Simulator World). x.0) h,
            ))
        | inr (labels, some') ↦
            let q = with_label m labels in
            let named = first_node-name s.current_node (nodes (world s)) m found in
            let there =
              subst (λ name. first_node name (nodes (world s)) ≡ ok m) (sym named) found in
            let (w, put) = laws.update_node_ok (world s) q m there in
            let (good, moved, queue) = scale_down_labels m labels s w some' got put in
            let end = ap (λ (x : Result (Unit {0}) × Simulator World). x.1) h in
            (
              q,
              refl,
              with_label-is_labelled m labels,
              ap (λ (v : Simulator World). nodes (world v)) (sym end)
                  ∙ ap nodes moved
                  ∙ laws.nodes-update_node (world s) w q put,
              ap (λ (v : Simulator World). pending v.selector) (sym end) ∙ queue,
            )
      ]
