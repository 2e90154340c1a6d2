-- ===== src/Compression/Drain.antt =====
-- A node is reported exactly when the last of its pods has been bound elsewhere.
pub mod Prepared
pub mod Turns
pub mod Deleted
pub mod Vacate
pub mod Total
mod Tests
use native.Mathlib.Decide.{dec_lt}
use kluster_capacity.Base.{
  ℕ, suc, ◌+◌, ◌<◌, ◌≡◌, refl, sym, ap, ◌∙◌, subst, String, true, false, List, [], ◌∷◌, ◌++◌,
  append_assoc, length, arith, inl, inr, ◌⊎◌, Bool-cases,
}
use kluster_capacity.Base.Monad.{
  Result, ok, err, panic, stuck, Action, ◌>>=◌, ◌>>◌, pure, attempt, on_error, >>=-eq-ok,
  attempt-eq-ok, continue,
}
use kluster_capacity.Base.Frame.{Keeps, >>=-Keeps, attempt-Keeps, on_error-Keeps}
use kluster_capacity.Kube.{Pod}
use kluster_capacity.Env.{Env}
use kluster_capacity.Framework.Control.Stop.{stop_ok-stopped}
use kluster_capacity.Compression.Simulator.{Simulator, stop_simulator, scale_down, select_next_node}
use kluster_capacity.Compression.Events.{
  post_bind_hook, is_limited, limit_reached, count_bind, move_on, stop_unselected,
}
use kluster_capacity.Compression.Progress.{
  scaled, SameNodes, MoreNodes, more_nodes, SameNodes-MoreNodes, stop_simulator-SameNodes,
  create_next_pod-SameNodes, scale_down-scaled, select_next_node-MoreNodes,
}
use kluster_capacity.Compression.Binding.{
  IsMoving, create_next_pod_ok, select_next_node-IsMoving, hook_limited, hook_waits, hook_moves_on,
}

-- The limit is checked on the fields that a binding leaves alone.
is_limited_same :
    {W : Type 0} (s t : Simulator W)
    → t.simulated ≡ s.simulated
    → t.max_simulated ≡ s.max_simulated
    → is_limited t ≡ is_limited s
is_limited_same s t a b = rw (a, b)

IsMoving-next :
    {W : Type 0} (s t : Simulator W)
    → IsMoving s
    → s.create_pod_index < length s.created_pods
    → (t.create_pod_index ≡ s.create_pod_index + 1)
      × (t.bind_success_pod_count ≡ s.bind_success_pod_count + 1)
      × (t.created_pods ≡ s.created_pods)
    → IsMoving t
IsMoving-next s t m lt h =
    let many : length t.created_pods ≡ length s.created_pods = ap length h.2 in
    let was = m.outstanding in record { outstanding = omega arith; in_range = omega arith }

module _ (e : Env) (fuel : ℕ) where
  open e use {World}

  stop_simulator-IsStopped :
      (reason : String) (s t : Simulator World)
      → stop_simulator e reason s ≡ (ok tt, t)
      → t.framework.stopped ≡ true
  unfolding stop_simulator
  stop_simulator-IsStopped reason s t h =
      stop_ok-stopped e reason s.framework t.framework
        (ap (λ (x : Result (Unit {0}) × Simulator World). (x.0, x.1.framework)) h)

  stop_unselected-SameNodes : (m : String) → Keeps SameNodes (stop_unselected e fuel m)
  stop_unselected-SameNodes m = stop_simulator-SameNodes e _

  abbrev select_after : Action (Simulator World) (Unit {0})
  select_after =
      attempt (select_next_node e fuel) >>= λ failed. on_error failed (stop_unselected e fuel)

  select_after-MoreNodes : Keeps MoreNodes select_after
  select_after-MoreNodes =
      >>=-Keeps more_nodes (attempt (select_next_node e fuel))
        (λ failed. on_error failed (stop_unselected e fuel))
        (attempt-Keeps more_nodes (select_next_node e fuel) (select_next_node-MoreNodes e fuel))
        (λ failed. on_error-Keeps more_nodes failed (stop_unselected e fuel) λ m s.
          SameNodes-MoreNodes s (stop_unselected e fuel m s).1 (stop_unselected-SameNodes m s))

  abbrev Reports : Simulator World → Simulator World → Type 0
  Reports s t = (more : List String) × (scaled t ≡ scaled s ++ (s.current_node ∷ more))

  Reports-continue :
      (s : Simulator World) (x : Result (Unit {0}) × Simulator World)
      → scaled x.1 ≡ scaled s ++ (s.current_node ∷ [])
      → Reports s (continue (λ _. select_after) x).1
  Reports-continue s (ok a, u) h =
      let (more, rest) = select_after-MoreNodes u in
      (more, rest ∙ ap (λ l. l ++ more) h ∙ append_assoc (scaled s) (s.current_node ∷ []) more)
  Reports-continue s (err m, u) h = ([], h)
  Reports-continue s (panic, u) h = ([], h)
  Reports-continue s (stuck, u) h = ([], h)

  -- After the last binding of a node it is reported, and nodes that can go at once are reported behind it.
  move_on-Reports : (s : Simulator World) → Reports s (move_on e fuel s).1
  unfolding move_on
  move_on-Reports s = Reports-continue s (scale_down e s) (scale_down-scaled e s)

  select_after-IsMoving :
      (s t : Simulator World)
      → select_after s ≡ (ok tt, t)
      → IsMoving t ⊎ (t.framework.stopped ≡ true)
  select_after-IsMoving s t h =
      let (o, v, tried, handled) =
        >>=-eq-ok (attempt (select_next_node e fuel))
          (λ failed. on_error failed (stop_unselected e fuel)) s h in
      elim (attempt-eq-ok (select_next_node e fuel) s v tried) [
        | inl (a, selected, o-none) ↦ inl (
            select_next_node-IsMoving e fuel s t (
              selected
              ∙ subst (λ o'. on_error o' (stop_unselected e fuel) v ≡ (ok tt, t)) o-none handled))
        | inr (m, failed, o-some) ↦ inr (
            stop_simulator-IsStopped _ v t
              (subst (λ o'. on_error o' (stop_unselected e fuel) v ≡ (ok tt, t)) o-some handled))
      ]

  move_on-IsMoving :
      (s t : Simulator World)
      → move_on e fuel s ≡ (ok tt, t)
      → IsMoving t ⊎ (t.framework.stopped ≡ true)
  unfolding move_on
  move_on-IsMoving s t h =
      let (a, u, down, rest) = >>=-eq-ok (scale_down e) (λ _. select_after) s h in
      select_after-IsMoving u t rest

  -- While a pod is left to be created again, no call reports a node, whatever its outcome.
  pub post_bind_hook-SameNodes :
      (p : Pod) (s : Simulator World)
      → s.create_pod_index < length s.created_pods
      → scaled (post_bind_hook e fuel p s).1 ≡ scaled s
  post_bind_hook-SameNodes p s h = elim (Bool-cases (is_limited s)) [
    | inl l ↦
        rw (hook_limited e fuel p s l)
          (stop_simulator-SameNodes e (limit_reached s.max_simulated) s)
    | inr l ↦ rw (hook_waits e fuel p s l h) (create_next_pod-SameNodes e (count_bind e fuel s))
  ]

  -- If one created pod of the current node is unbound and all before it are bound, then after a call
  -- that returns no error this is so again, for the same or the next node, or the simulator has stopped.
  pub post_bind_hook-IsMoving :
      (p : Pod) (s t : Simulator World)
      → IsMoving s
      → post_bind_hook e fuel p s ≡ (ok tt, t)
      → IsMoving t ⊎ (t.framework.stopped ≡ true)
  post_bind_hook-IsMoving p s t m h = elim (Bool-cases (is_limited s)) [
    | inl l ↦ inr (stop_simulator-IsStopped _ s t (sym (hook_limited e fuel p s l) ∙ h))
    | inr l ↦ elim (dec_lt s.create_pod_index (length s.created_pods)) [
      | yes lt ↦
          let made =
            create_next_pod_ok e (count_bind e fuel s) t (sym (hook_waits e fuel p s l lt) ∙ h) in
          inl (IsMoving-next s t m lt (made.0, made.1, made.2))
      | no ge ↦
          move_on-IsMoving (count_bind e fuel s) t
            (sym (hook_moves_on e fuel p s l m (let top = m.in_range in omega arith)) ∙ h)
    ]
  ]

  -- The scheduler binds the given pods one after the other.
  abbrev pub binds : List Pod → Action (Simulator World) (Unit {0})
  binds [] = pure tt
  binds (p ∷ ps) = post_bind_hook e fuel p >> binds ps

  -- `k` pods of the node are left to be created.
  abbrev pub IsDraining : ℕ → Simulator World → Type 0
  IsDraining k s =
      IsMoving s × (is_limited s ≡ false) × (length s.created_pods ≡ s.create_pod_index + k)

  pub post_bind_hook-IsDraining :
      (k : ℕ) (p : Pod) (s t : Simulator World)
      → IsDraining (suc k) s
      → post_bind_hook e fuel p s ≡ (ok tt, t)
      → IsDraining k t × (scaled t ≡ scaled s) × (t.current_node ≡ s.current_node)
  post_bind_hook-IsDraining k p s t d h =
      let left : length s.created_pods ≡ s.create_pod_index + suc k = d.2 in
      let lt : s.create_pod_index < length s.created_pods = omega arith in
      let made =
        create_next_pod_ok e (count_bind e fuel s) t (sym (hook_waits e fuel p s d.1 lt) ∙ h) in
      let moving = IsMoving-next s t d.0 lt (made.0, made.1, made.2) in
      let many : length t.created_pods ≡ length s.created_pods = ap length (made.2) in
      let limit = is_limited_same s t (made.4) (made.5) in
      let same : scaled t ≡ scaled s =
        subst (λ (x : Result (Unit {0}) × Simulator World). scaled x.1 ≡ scaled s) h
          (post_bind_hook-SameNodes p s lt) in
      ((moving, limit ∙ d.1, omega arith), same, made.3)

  abbrev pub Reported :
      String → List String → Action (Simulator World) (Unit {0}) → Simulator World → Type 0
  Reported name before m t =
      (scaled t ≡ before) × ((more : List String) × (scaled (m t).1 ≡ before ++ (name ∷ more)))

  pub last_bind-reports :
      (q : Pod) (s : Simulator World)
      → IsDraining 0 s
      → Reported s.current_node (scaled s) (post_bind_hook e fuel q) s
  last_bind-reports q s d =
      let all : length s.created_pods ≡ s.create_pod_index + 0 = d.2 in
      (
        refl,
        subst (λ (x : Result (Unit {0}) × Simulator World). Reports s x.1)
            (sym (hook_moves_on e fuel q s d.1 d.0 (omega arith)))
            (move_on-Reports (count_bind e fuel s)),
      )

  -- The limit is not reached, one created pod of the current node is unbound, all before it are bound, and
  -- as many are left to be created as there are pods in `ps`. If these many calls return no
  -- error, they report no node, and the next call, whatever its outcome, reports the current node first,
  -- behind the nodes reported before.
  pub binds-reports :
      (ps : List Pod) (q : Pod) (s t : Simulator World)
      → IsDraining (length ps) s
      → binds ps s ≡ (ok tt, t)
      → (scaled t ≡ scaled s)
        × ((more : List String) × (scaled (post_bind_hook e fuel q t).1
              ≡ scaled s ++ (s.current_node ∷ more)))
  binds-reports [] q s t d h =
      subst (Reported s.current_node (scaled s) (post_bind_hook e fuel q))
        (ap (λ (x : Result (Unit {0}) × Simulator World). x.1) h) (last_bind-reports q s d)
  binds-reports (p ∷ ps) q s t d h =
      let (a, u, first, rest) = >>=-eq-ok (post_bind_hook e fuel p) (λ _. binds ps) s h in
      let (d', same, node) = post_bind_hook-IsDraining (length ps) p s u d first in
      subst (λ name. Reported name (scaled s) (post_bind_hook e fuel q) t) node
        (subst (λ before. Reported u.current_node before (post_bind_hook e fuel q) t) same
          (binds-reports ps q u t d' rest))
