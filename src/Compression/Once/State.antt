-- ===== src/Compression/Once/State.antt =====
-- What holds between two calls of a run, for the nodes that have been reported, those that wait, and the current one.
use kluster_capacity.Base.{
  ◌≡◌, refl, sym, ◌∙◌, subst, String, true, false, List, [], ◌∷◌, All, any, ◌==◌, length, ◌<◌,
}
use kluster_capacity.Base.Monad.{ok}
use kluster_capacity.Base.Frame.{IsPreorder}
use kluster_capacity.Kube.{Node}
use kluster_capacity.Env.{Env}
use kluster_capacity.Env.Laws.{NodeLaws, first_node}
use kluster_capacity.Compression.Effects.{world}
use kluster_capacity.Compression.Labels.{is_labelled, Unique}
use kluster_capacity.Compression.Progress.{scaled}
use kluster_capacity.Compression.Select.Queue.{pending}
use kluster_capacity.Compression.Simulator.{Simulator}
use kluster_capacity.Compression.Once.Nodes.{
  Missing, Distinct, Sound, Stays, same-Better, then-Better,
}
use kluster_capacity.Compression.Once.World.{WorldBetter}

abbrev pub Present : List Node → String → Type 0
Present ns name = (m : Node) × (first_node name ns ≡ ok m)

abbrev pub Labelled : List Node → String → Type 0
Labelled ns name = (m : Node) × (first_node name ns ≡ ok m) × (is_labelled m ≡ true)

-- A candidate that waits to be selected.
abbrev pub Waits : List String → List Node → Node → Type 0
Waits names ns n = Present ns n.name × Missing n.name names

pub Waits-Stays :
    (names : List String) (ns ns' queue : List Node)
    → Stays ns ns'
    → All (Waits names ns) queue
    → All (Waits names ns') queue
Waits-Stays names ns ns' [] stays all = tt
Waits-Stays names ns ns' (n ∷ queue) stays (((m, found), missing), all) =
    let (m', found', l) = stays n.name m found in
    (((m', found'), missing), Waits-Stays names ns ns' queue stays all)

module _ (e : Env) (laws : NodeLaws e) where
  open e use {World}
  open laws use {nodes}

  -- The nodes have labels and names of their own. Those that have been reported are different, and have the label of
  -- success. Those that wait are different too, and have not been reported.
  pub record Sane (s : Simulator World) : Type 0 where
    pub sound : Sound (nodes (world s))
    pub labelled :
        (name : String) → any (λ x. x == name) (scaled s) ≡ true → Labelled (nodes (world s)) name
    pub distinct : Distinct (scaled s)
    pub waiting : All (Waits (scaled s) (nodes (world s))) (pending s.selector)
    pub queue : Unique (pending s.selector)

  -- A node that has not been reported and does not wait.
  abbrev pub Fresh : Simulator World → String → Type 0
  Fresh s name =
      Present (nodes (world s)) name
      × Missing name (scaled s)
      × (any (λ m. m.name == name) (pending s.selector) ≡ false)

  -- The current node can still be reported.
  abbrev pub Ready : Simulator World → Type 0
  Ready s = Sane s × Fresh s s.current_node

  -- No node is reported twice, from here on.
  abbrev pub Once : Simulator World → Type 0
  Once s = Sane s × (s.bind_success_pod_count < length s.created_pods → Fresh s s.current_node)

  pub Ready-Once : (s : Simulator World) → Ready s → Once s
  Ready-Once s (sane, fresh) = (sane, λ _. fresh)

  -- Calls that report and select nothing.
  abbrev pub Quiet : Simulator World → Simulator World → Type 0
  Quiet s t =
      WorldBetter e laws (world s) (world t)
      × (scaled t ≡ scaled s)
      × (pending t.selector ≡ pending s.selector)
      × (t.current_node ≡ s.current_node)

  pub quiet : IsPreorder Quiet
  quiet = record {
    same = λ s. (same-Better _ _ refl, refl, refl, refl);
    then' = λ s t u p q. (then-Better _ _ _ p.0 q.0, q.1 ∙ p.1, q.2 ∙ p.2, q.3 ∙ p.3);
  }

  pub Quiet-Sane : (s t : Simulator World) → Quiet s t → Sane s → Sane t
  Quiet-Sane s t (better, same, left, current) sane =
      let (sound, stays) = better sane.sound in
      record {
        sound = sound;
        labelled = λ name h.
            let (m, found, l) =
              sane.labelled name (subst (λ names. any (λ x. x == name) names ≡ true) same h) in
            let (m', found', keeps) = stays name m found in (m', found', keeps l);
        distinct = subst Distinct (sym same) sane.distinct;
        waiting =
            subst (λ names. All (Waits names (nodes (world t))) (pending t.selector)) (sym same)
              (subst (λ q. All (Waits (scaled s) (nodes (world t))) q) (sym left)
                (Waits-Stays (scaled s) _ _ (pending s.selector) stays sane.waiting));
        queue = subst Unique (sym left) sane.queue;
      }

  pub Quiet-Fresh :
      (s t : Simulator World) (name : String) → Quiet s t → Sane s → Fresh s name → Fresh t name
  Quiet-Fresh s t name (better, same, left, current) sane ((m, found), missing, away) =
      let (m', found', l) = (better sane.sound).1 name m found in
      (
        (m', found'),
        subst (Missing name) (sym same) missing,
        subst (λ q. any (λ n. n.name == name) q ≡ false) (sym left) away,
      )

  pub Quiet-Ready : (s t : Simulator World) → Quiet s t → Ready s → Ready t
  Quiet-Ready s t q (sane, fresh) = (
    Quiet-Sane s t q sane,
    subst (Fresh t) (sym q.3) (Quiet-Fresh s t s.current_node q sane fresh),
  )

  -- Calls that do not count or replace the created pods either.
  abbrev pub Still : Simulator World → Simulator World → Type 0
  Still s t =
      Quiet s t
      × (t.created_pods ≡ s.created_pods)
      × (t.bind_success_pod_count ≡ s.bind_success_pod_count)

  pub still : IsPreorder Still
  still = record {
    same = λ s. (quiet.same s, refl, refl);
    then' = λ s t u p q. (quiet.then' s t u p.0 q.0, q.1 ∙ p.1, q.2 ∙ p.2);
  }

  pub Still-Once : (s t : Simulator World) → Still s t → Once s → Once t
  Still-Once s t (q, pods, count) (sane, fresh) = (
    Quiet-Sane s t q sane,
    λ h. subst (Fresh t) (sym q.3) (
        Quiet-Fresh s t s.current_node q sane (
          fresh (
            subst (λ k. k < length s.created_pods) count
              (subst (λ ps. t.bind_success_pod_count < length ps) pods h)))),
  )
