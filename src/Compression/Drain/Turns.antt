-- ===== src/Compression/Drain/Turns.antt =====
-- The scheduler binds the created pods of a node in their turns: no turn fails.
use kluster_capacity.Base.{
  ℕ, suc, ◌+◌, ◌<◌, ◌≡◌, refl, sym, ◌∙◌, subst, String, List, [], ◌∷◌, ◌++◌, length, All, arith,
}
use kluster_capacity.Base.Monad.{ok, Action, ◌>>◌, pure, modify, >>=-ok}
use kluster_capacity.Env.{Env}
use kluster_capacity.Env.Laws.{PodLaws}
use kluster_capacity.Compression.Binding.{hook_waits, create_next_pod_ok}
use kluster_capacity.Compression.Drain.{IsDraining, post_bind_hook-IsDraining, last_bind-reports}
use kluster_capacity.Compression.Effects.{world}
use kluster_capacity.Compression.Events.{post_bind_hook, count_bind}
use kluster_capacity.Compression.Progress.{scaled}
use kluster_capacity.Compression.Simulator.{Simulator}
use kluster_capacity.Compression.Drain.Prepared.{
  Turn, IsPrepared, Tracks, IsFaithful, IsHarmless, create_next_pod-total,
}

module _ (e : Env) (fuel : ℕ) where
  open e use {World}

  abbrev pub placed : Turn World → Simulator World → Simulator World
  placed turn s = record s {
    framework = record (s.framework) { world = turn.place s.framework.world };
  }

  -- A turn: the scheduler has bound a pod, and calls the hook.
  abbrev pub take_turn : Turn World → Action (Simulator World) (Unit {0})
  take_turn turn = modify (placed turn) >> post_bind_hook e fuel turn.pod

  abbrev pub take_turns : List (Turn World) → Action (Simulator World) (Unit {0})
  take_turns [] = pure tt
  take_turns (turn ∷ turns) = take_turn turn >> take_turns turns

  placed-IsPrepared :
      (turn : Turn World) (s : Simulator World)
      → IsHarmless e turn
      → IsPrepared e s
      → IsPrepared e (placed turn s)
  placed-IsPrepared turn s harmless prepared = record {
    distinct = prepared.distinct;
    named = prepared.named;
    absent = λ i p le at. harmless (world s) p.namespace p.name (prepared.absent i p le at);
  }

  placed-IsDraining :
      (k : ℕ) (turn : Turn World) (s : Simulator World)
      → IsDraining e fuel k s
      → IsDraining e fuel k (placed turn s)
  placed-IsDraining k turn s (moving, below, left) =
      (record { outstanding = moving.outstanding; in_range = moving.in_range }, below, left)

  counted-IsPrepared : (s : Simulator World) → IsPrepared e s → IsPrepared e (count_bind e fuel s)
  counted-IsPrepared s prepared = record {
    distinct = prepared.distinct;
    named = prepared.named;
    absent = prepared.absent;
  }

  -- The node is being emptied after the turns as it was before, with so many pods fewer to be created.
  abbrev pub Drained : ℕ → Simulator World → Simulator World → Type 0
  Drained k s t =
      IsDraining e fuel k t
      × IsPrepared e t
      × (scaled t ≡ scaled s)
      × (t.current_node ≡ s.current_node)
      × (t.created_pods ≡ s.created_pods)

  abbrev pub TracksIn : World → Simulator World → Type 0
  TracksIn before s = Tracks e before s.created_pods s.create_pod_index (world s)

  placed-TracksIn :
      (before : World) (turn : Turn World) (s : Simulator World)
      → IsFaithful e s.created_pods turn
      → TracksIn before s
      → TracksIn before (placed turn s)
  placed-TracksIn before turn s faithful (there, outside) = (
    (λ i p lt at.
        let (r, was) = there i p lt at in (faithful (world s) p.namespace p.name).0 r was),
    λ ns name h. (faithful (world s) ns name).1 h ∙ outside ns name h,
  )

  take_turn-Drained :
      (laws : PodLaws e) (k : ℕ) (turn : Turn World) (s : Simulator World)
      → IsHarmless e turn
      → IsDraining e fuel (suc k) s
      → IsPrepared e s
      → (t : Simulator World) × (take_turn turn s ≡ (ok tt, t))
        × Drained k s t
        × ((before : World)
            → IsFaithful e s.created_pods turn
            → TracksIn before s
            → TracksIn before t)
  take_turn-Drained laws k turn s harmless draining prepared =
      let u = placed turn s in
      let draining' = placed-IsDraining (suc k) turn s draining in
      let left : length u.created_pods ≡ u.create_pod_index + suc k = draining'.2 in
      let lt : u.create_pod_index < length u.created_pods = omega arith in
      let ready = counted-IsPrepared u (placed-IsPrepared turn s harmless prepared) in
      let (t, made, prepared', tracks) =
        create_next_pod-total e laws (count_bind e fuel u) ready lt in
      let done = hook_waits e fuel turn.pod u draining'.1 lt ∙ made in
      let (draining'', same, node) =
        post_bind_hook-IsDraining e fuel k turn.pod u t draining' done in
      (
        t,
        done,
        (draining'', prepared', same, node, (create_next_pod_ok e (count_bind e fuel u) t made).2),
        λ before faithful was. tracks before (placed-TracksIn before turn s faithful was),
      )

  placed_none : (k : ℕ) (s : Simulator World) → IsDraining e fuel (0 + k) s → IsDraining e fuel k s
  placed_none k s (moving, below, left) = (moving, below, omega (arith, left))

  one_more :
      (k : ℕ) (turns : List (Turn World)) (s : Simulator World)
      → IsDraining e fuel (suc (length turns) + k) s
      → IsDraining e fuel (suc (length turns + k)) s
  one_more k turns s (moving, below, left) = (moving, below, omega (arith, left))

  no_more :
      (turns : List (Turn World)) (s : Simulator World)
      → IsDraining e fuel (length turns) s
      → IsDraining e fuel (length turns + 0) s
  no_more turns s (moving, below, left) = (moving, below, omega (arith, left))

  pub take_turns-Drained :
      (laws : PodLaws e) (k : ℕ) (turns : List (Turn World)) (s : Simulator World)
      → All (IsHarmless e) turns
      → IsDraining e fuel (length turns + k) s
      → IsPrepared e s
      → (t : Simulator World) × (take_turns turns s ≡ (ok tt, t))
        × Drained k s t
        × ((before : World)
            → All (IsFaithful e s.created_pods) turns
            → TracksIn before s
            → TracksIn before t)
  take_turns-Drained laws k [] s harmless draining prepared =
      (s, refl, (placed_none k s draining, prepared, refl, refl, refl), λ before faithful was. was)
  take_turns-Drained laws k (turn ∷ turns) s harmless draining prepared =
      let (u, first, step, tracks) =
        take_turn-Drained laws (length turns + k) turn s harmless.0 (one_more k turns s draining)
          prepared in
      let (t, rest, last, tracks') = take_turns-Drained laws k turns u harmless.1 step.0 step.1 in
      (
        t,
        >>=-ok (take_turn turn) (λ _. take_turns turns) s u first ∙ rest,
        (last.0, last.1, last.2 ∙ step.2, last.3 ∙ step.3, last.4 ∙ step.4),
        λ before faithful was.
            tracks' before (subst (λ ps. All (IsFaithful e ps) turns) (sym step.4) faithful.1)
              (tracks before faithful.0 was),
      )

  -- One created pod of the current node is unbound, all before it are bound, the limit is not reached, and as many
  -- pods are left to be created as there are turns; these have keys and namespaces of their own, and no pod has their
  -- keys. The scheduler may do anything in its turns but create pods. Then no turn fails or reports a node, and one
  -- more turn, whatever its outcome, reports the current node first, behind the nodes reported before.
  pub take_turns-reports :
      (laws : PodLaws e) (turns : List (Turn World)) (last : Turn World) (s : Simulator World)
      → All (IsHarmless e) turns
      → IsDraining e fuel (length turns) s
      → IsPrepared e s
      → (t : Simulator World) × (take_turns turns s ≡ (ok tt, t))
        × (scaled t ≡ scaled s)
        × ((more : List String) × (scaled (take_turn last t).1
              ≡ scaled s ++ (s.current_node ∷ more)))
  take_turns-reports laws turns last s harmless draining prepared =
      let (t, taken, drained, tracks) =
        take_turns-Drained laws 0 turns s harmless (no_more turns s draining) prepared in
      let u = placed last t in
      let (same, (more, reported)) =
        last_bind-reports e fuel last.pod u (placed-IsDraining 0 last t drained.0) in
      (t, taken, drained.2, (more, reported ∙ (λ i. drained.2 i ++ (drained.3 i ∷ more))))
