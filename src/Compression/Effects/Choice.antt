-- ===== src/Compression/Effects/Choice.antt =====
-- What choosing a node does to the queue of candidates.
use kluster_capacity.Base.{
  ℕ, ◌≡◌, refl, sym, ap, ◌∙◌, subst, List, [], ◌∷◌, ◌⊎◌, some, none, Option, inl, inr,
}
use kluster_capacity.Base.Int.{ℤ}
use kluster_capacity.Base.Dict.{Dict}
use kluster_capacity.Base.Monad.{ok-injective, Result, ok, >>=-eq-ok}
use kluster_capacity.Kube.{Node}
use kluster_capacity.Env.{Env}
use kluster_capacity.Env.Laws.{NodeLaws}
use kluster_capacity.Compression.Filter.{Reason, FilterStatus}
use kluster_capacity.Compression.Select.{
  Selection, chosen, nothing, accepted, select_node, convert_filter_statuses,
}
use kluster_capacity.Compression.Select.Queue.{pending, pop, refill, select_node-pop}
use kluster_capacity.Compression.Simulator.{
  Simulator, filter_of, choose_node, node_of, select, count_selection,
}
use kluster_capacity.Compression.Effects.{world}

module _ (range : Dict ℤ → Dict ℤ) (filter : Node → FilterStatus) (selected : ℕ) (n : Node) where
  refill-cases :
      (candidates ns : List Node) (reasons : List Reason)
      → refill range filter selected candidates reasons ≡ (some (chosen n), ns)
      → candidates ≡ n ∷ ns
  unfolding convert_filter_statuses
  refill-cases [] ns reasons h =
      let answer = ap (λ (x : Option Selection × List Node). x.0) h in no_node answer
    where
      no_node :
          some (convert_filter_statuses range reasons selected) ≡ some (chosen n)
          → ◌≡◌ {A = List Node} [] (n ∷ ns)
      no_node h' = cc h'
  refill-cases (m ∷ ms) ns reasons h = cc h

  pop-cases :
      (nodes queue queue' : List Node)
      → pop range filter selected (ok nodes) queue ≡ (some (chosen n), queue')
      → (queue ≡ n ∷ queue') ⊎ ((queue ≡ []) × (accepted filter nodes ≡ n ∷ queue'))
  pop-cases nodes [] queue' h = inr (refl, refill-cases (accepted filter nodes) queue' _ h)
  pop-cases nodes (m ∷ queue) queue' h = inl (cc h)

module _ (e : Env) (laws : NodeLaws e) where
  open e use {World}
  open laws use {nodes}

  node_of_ok :
      (r : Option Selection) (n : Node) (u t : Simulator World)
      → node_of e r u ≡ (ok n, t)
      → (r ≡ some (chosen n)) × (u ≡ t)
  node_of_ok none n u t h = cc h
  node_of_ok (some (nothing reason)) n u t h = cc h
  node_of_ok (some (chosen m)) n u t h = (
    ap (λ k. some (chosen k)) (ok-injective (ap (λ (x : Result Node × Simulator World). x.0) h)),
    ap (λ (x : Result Node × Simulator World). x.1) h,
  )

  -- Choosing a node takes it off the candidates, or off a new list of them if there are none left.
  pub choose_node_ok :
      (n : Node) (s t : Simulator World)
      → choose_node e s ≡ (ok n, t)
      → (world t ≡ world s)
        × ((pending s.selector ≡ n ∷ pending t.selector)
            ⊎ ((pending s.selector ≡ [])
                × (accepted (filter_of e s (world s)) (nodes (world s)) ≡ n ∷ pending t.selector)))
  unfolding choose_node
  choose_node_ok n s t h =
      let (r, u, chose, got) = >>=-eq-ok (select e) (node_of e) (count_selection e s) h in
      let (is_n, same) = node_of_ok r n u t got in
      let filter = filter_of e s (world s) in
      let list = e.list_nodes (world s) in
      let x = select_node (e.range ℤ) filter list s.selector in
      let answer : x.0 ≡ r =
        ok-injective (ap (λ (y : Result (Option Selection) × Simulator World). y.0) chose) in
      let queue : x.1 ≡ t.selector =
        ap (λ (y : Result (Option Selection) × Simulator World). y.1.selector) chose
        ∙ ap (λ (v : Simulator World). v.selector) same in
      let there : world s ≡ world t =
        ap (λ (y : Result (Option Selection) × Simulator World). world y.1) chose
        ∙ ap (λ (v : Simulator World). world v) same in
      let popped : pop (e.range ℤ) filter s.selector.selected_count list (pending s.selector)
          ≡ (some (chosen n), pending t.selector) =
        sym (select_node-pop (e.range ℤ) filter list s.selector)
        ∙ (λ i. ((answer ∙ is_n) i, pending (queue i))) in
      (
        sym there,
        pop-cases (e.range ℤ) filter s.selector.selected_count n (nodes (world s))
            (pending s.selector) (pending t.selector)
            (subst
              (λ l.
                pop (e.range ℤ) filter s.selector.selected_count l (pending s.selector)
                ≡ (some (chosen n), pending t.selector))
              (laws.list_nodes_lem (world s)) popped),
      )
