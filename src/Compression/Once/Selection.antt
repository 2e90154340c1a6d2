-- ===== src/Compression/Once/Selection.antt =====
-- A selection reports no node that has been reported before.
use kluster_capacity.Base.{
  ℕ, zero, suc, ◌≡◌, refl, sym, ap, subst, false, [], All, any, ◌==◌, Option, none, some, length,
  ltb, arith, Bool-cases, inl, inr,
}
use kluster_capacity.Base.Int.{ℤ}
use kluster_capacity.Base.Dict.{is_some}
use kluster_capacity.Base.Frame.{IsPreorder, Keeps, >>=-Keeps}
use kluster_capacity.Base.Post.{Yields, any-Yields, >>=-Yields, Yields-any, >>=-after}
use kluster_capacity.Base.Monad.{Result, Action, ◌>>=◌}
use kluster_capacity.Kube.{Node}
use kluster_capacity.Env.{Env}
use kluster_capacity.Env.Laws.{NodeLaws}
use kluster_capacity.Framework.Control.{get_pods_by_node}
use kluster_capacity.Compression.Cluster.{cordon}
use kluster_capacity.Compression.Effects.{world}
use kluster_capacity.Compression.Filter.{success}
use kluster_capacity.Compression.Filter.Laws.{build_filter_func_iff}
use kluster_capacity.Compression.Labels.{is_labelled, Unique}
use kluster_capacity.Compression.Progress.{scaled}
use kluster_capacity.Compression.Select.{NodeSelector, Selection, chosen, nothing, select_node}
use kluster_capacity.Compression.Select.Queue.{pending, pop, select_node-pop}
use kluster_capacity.Compression.Simulator.{
  Simulator, filter_of, create_next_pod, scale_down, choose_node, vacate, restart,
  delete_pods_by_node, select, node_of, count_selection, enter, select_next_node, in_world,
}
use kluster_capacity.Compression.Once.Calls.{
  in_world-Still, create_next_pod-Still, delete_pods_by_node-Quiet,
}
use kluster_capacity.Compression.Once.Nodes.{same-Better}
use kluster_capacity.Compression.Once.Queue.{IsPopped, pop-IsPopped}
use kluster_capacity.Compression.Once.State.{
  Waits, Sane, Fresh, Ready, Once, Ready-Once, quiet, Quiet-Ready, Still, Still-Once,
}
use kluster_capacity.Compression.Once.World.{cordon-Better}
use kluster_capacity.Compression.Once.ScaleDown.{scale_down-Once}

module _ (e : Env) (laws : NodeLaws e) where
  open e use {World}
  open laws use {nodes}

  filter-refuses :
      (s : Simulator World) (w : World) (n : Node)
      → filter_of e s w n ≡ success
      → is_labelled n ≡ false
  filter-refuses s w n h =
      let candidate =
        (build_filter_func_iff (get_pods_by_node e w) s.excluded s.filter_options n).0 h in
      ap is_some (candidate.0.2)

  -- A chosen node can be reported.
  abbrev Chosen : Result Node × Simulator World → Type 0
  Chosen = Yields (λ n t. Sane e laws t × Fresh e laws t n.name) (Once e laws)

  module _ (s : Simulator World) (once : Once e laws s) where
    -- Without a candidate left.
    emptied : (g : NodeSelector) → pending g ≡ [] → Once e laws (record s { selector = g })
    emptied g h =
        let sane = once.0 in
        (
          record {
            sound = sane.sound;
            labelled = sane.labelled;
            distinct = sane.distinct;
            waiting = subst (λ q. All (Waits (scaled s) (nodes (world s))) q) (sym h) tt;
            queue = subst Unique (sym h) tt;
          },
          λ more.
              let (present, missing, away) = once.1 more in
              (
                present,
                missing,
                subst (λ q. any (λ m. m.name == s.current_node) q ≡ false) (sym h) refl,
              ),
        )

    node_of-Chosen :
        (r : Option Selection) (g : NodeSelector)
        → IsPopped (scaled s) (nodes (world s)) once.0.labelled (r, pending g)
        → Chosen (node_of e r (record s { selector = g }))
    node_of-Chosen none g h = emptied g h
    node_of-Chosen (some (nothing reason)) g h = emptied g h
    node_of-Chosen (some (chosen n)) g ((present, missing), away, waiting, queue) = (
      record {
        sound = once.0.sound;
        labelled = once.0.labelled;
        distinct = once.0.distinct;
        waiting = waiting;
        queue = queue;
      },
      (present, missing, away),
    )

    select-Chosen : Chosen ((select e >>= node_of e) s)
    select-Chosen =
        let range = e.range ℤ in
        let filter = filter_of e s (world s) in
        let list = e.list_nodes (world s) in
        let x = select_node range filter list s.selector in
        let popped =
          pop-IsPopped (scaled s) (nodes (world s)) once.0.labelled range filter
            s.selector.selected_count (pending s.selector) (filter-refuses s (world s))
            once.0.sound.0 once.0.waiting once.0.queue in
        node_of-Chosen x.0 x.1 (
          subst (IsPopped (scaled s) (nodes (world s)) once.0.labelled)
            (sym (select_node-pop range filter list s.selector))
            (subst
              (λ l.
                IsPopped (scaled s) (nodes (world s)) once.0.labelled
                  (pop range filter s.selector.selected_count l (pending s.selector)))
              (sym (laws.list_nodes_lem (world s))) popped))

  choose_node-Chosen : (s : Simulator World) → Once e laws s → Chosen (choose_node e s)
  unfolding choose_node
  choose_node-Chosen s once = select-Chosen (count_selection e s) (
      Still-Once e laws s (count_selection e s)
        ((same-Better _ _ refl, refl, refl, refl), refl, refl) once)

  vacate-Ready :
      (n : Node) (s : Simulator World)
      → Sane e laws s
      → Fresh e laws s n.name
      → Ready e laws (vacate e n s).1
  unfolding vacate
  vacate-Ready n s sane fresh =
      let s' = restart e n s in
      let ready : Ready e laws s' = (
        record {
          sound = sane.sound;
          labelled = sane.labelled;
          distinct = sane.distinct;
          waiting = sane.waiting;
          queue = sane.queue;
        },
        fresh,
      ) in
      Quiet-Ready e laws s' (vacate e n s).1
        (>>=-Keeps (quiet e laws) (in_world e (cordon e n)) (λ _. delete_pods_by_node e n)
          (λ t. (in_world-Still e laws (cordon e n) (cordon-Better e laws n) t).0)
          (λ _. delete_pods_by_node-Quiet e laws n) s')
        ready

  -- What keeps the nodes reported once, whatever its outcome.
  abbrev pub OnceThen : Simulator World → Simulator World → Type 0
  OnceThen s t = Once e laws s → Once e laws t

  pub once_then : IsPreorder OnceThen
  once_then = record { same = λ s p. p; then' = λ s t u p q x. q (p x) }

  pub Still-OnceThen :
      {A : Type 0} (m : Action (Simulator World) A) → Keeps (Still e laws) m → Keeps OnceThen m
  Still-OnceThen m h s = Still-Once e laws s (m s).1 (h s)

  enter-Once :
      (next : Action (Simulator World) (Unit {0})) (s : Simulator World)
      → Keeps OnceThen next
      → Ready e laws s
      → Once e laws (enter e next s).1
  enter-Once next s kept ready = elim (Bool-cases (ltb 0 (length s.created_pods))) [
    | inl some' ↦ rw some' (
        Still-OnceThen (create_next_pod e) (create_next_pod-Still e laws) s
          (Ready-Once e laws s ready))
    | inr none' ↦ rw none' (
        >>=-after (Once e laws) (scale_down e) (λ _. next) s
          (scale_down-Once e laws s ready (λ h. ground arith)) (λ _ t once. kept t once))
  ]

  pub select_next_node-Once : (fuel : ℕ) → Keeps OnceThen (select_next_node e fuel)
  unfolding select_next_node
  select_next_node-Once zero s once = once
  select_next_node-Once (suc fuel) s once =
      let next = select_next_node e fuel in
      Yields-any (Once e laws) (select_next_node e (suc fuel) s) (
        >>=-Yields (λ _. Ready e laws) (λ _. Once e laws) (Once e laws) (choose_node e >>= vacate e)
          (λ _. enter e next) s
          (>>=-Yields (λ n t. Sane e laws t × Fresh e laws t n.name) (λ _. Ready e laws)
            (Once e laws) (choose_node e) (vacate e) s (choose_node-Chosen s once)
            (λ n t (sane, fresh).
              let ready = vacate-Ready n t sane fresh in
              any-Yields (λ _. Ready e laws) (Once e laws) (vacate e n t) (λ _. ready)
                (Ready-Once e laws _ ready)))
          (λ _ t ready.
            let once' = enter-Once next t (select_next_node-Once fuel) ready in
            any-Yields (λ _. Once e laws) (Once e laws) (enter e next t) (λ _. once') once'))
