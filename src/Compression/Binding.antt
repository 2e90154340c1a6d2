-- ===== src/Compression/Binding.antt =====
-- The pods of a node are created again one at a time: what holds between two calls of postBindHook.
use kluster_capacity.Base.{
  ℕ, zero, suc, ◌+◌, ◌≤◌, ◌<◌, ◌≡◌, refl, ap, ◌∙◌, subst, Bool, true, false, ◌&&◌, ltb, eqb,
  if◌then◌else◌, length, arith, inl, inr, Bool-cases, ltb→lt, eqb_iff, if_true, if_false,
  if_true_eq, if_false_eq,
}
use kluster_capacity.Base.Monad.{Result, ok, ◌>>=◌, ◌>>◌, pure, modify, >>=-eq-ok}
use kluster_capacity.Base.Frame.{IsPreorder, >>=-Keeps}
use kluster_capacity.Kube.{Pod, Node}
use kluster_capacity.Env.{Env, read}
use kluster_capacity.Framework.Control.{get_pods_by_node}
use kluster_capacity.Compression.Cluster.{cordon, delete_movable}
use kluster_capacity.Compression.Simulator.{
  Simulator, in_world, stop_simulator, create_next_pod, scale_down, select_next_node, choose_node,
  vacate, enter, restart, delete_pods_by_node,
}
use kluster_capacity.Compression.Events.{
  post_bind_hook, is_limited, limit_reached, count_bind, after_bind, move_on,
}

-- One pod has been created and not yet bound, and all before it have been bound.
pub record IsMoving {W : Type 0} (s : Simulator W) : Type 0 where
  pub outstanding : s.create_pod_index ≡ s.bind_success_pod_count + 1
  pub in_range : s.create_pod_index ≤ length s.created_pods

abbrev SameCounts : {W : Type 0} → Simulator W → Simulator W → Type 0
SameCounts s t =
    (t.create_pod_index ≡ s.create_pod_index)
    × (t.bind_success_pod_count ≡ s.bind_success_pod_count)

same_counts : {W : Type 0} → IsPreorder (SameCounts {W = W})
same_counts = record { same = λ s. (refl, refl); then' = λ s t u p q. (q.0 ∙ p.0, q.1 ∙ p.1) }

module _ (e : Env) where
  open e use {World}

  -- A node that has just been emptied has no pod created again.
  vacate-counts :
      (n : Node) (s : Simulator World)
      → ((vacate e n s).1.create_pod_index ≡ 0) × ((vacate e n s).1.bind_success_pod_count ≡ 0)
  unfolding vacate delete_pods_by_node
  vacate-counts n s =
      >>=-Keeps same_counts (in_world e (cordon e n)) (λ _. delete_pods_by_node e n)
        (λ t. (refl, refl))
        (λ _.
          >>=-Keeps same_counts (in_world e (read (λ w. get_pods_by_node e w n.name)))
            (λ pods. in_world e (delete_movable e pods) >>= λ created.
              modify (λ t. record t { created_pods = created }))
            (λ t. (refl, refl))
            (λ pods.
              >>=-Keeps same_counts (in_world e (delete_movable e pods))
                (λ created. modify (λ t. record t { created_pods = created })) (λ t. (refl, refl))
                (λ created t. (refl, refl))))
        (restart e n s)

  pub create_next_pod_ok :
      (s t : Simulator World)
      → create_next_pod e s ≡ (ok tt, t)
      → (t.create_pod_index ≡ s.create_pod_index + 1)
        × (t.bind_success_pod_count ≡ s.bind_success_pod_count)
        × (t.created_pods ≡ s.created_pods)
        × (t.current_node ≡ s.current_node)
        × (t.simulated ≡ s.simulated)
        × (t.max_simulated ≡ s.max_simulated)
  unfolding create_next_pod
  create_next_pod_ok s t h = ground arith

  IsMoving-first :
      (u t : Simulator World)
      → u.create_pod_index ≡ 0
      → u.bind_success_pod_count ≡ 0
      → ltb 0 (length u.created_pods) ≡ true
      → create_next_pod e u ≡ (ok tt, t)
      → IsMoving t
  IsMoving-first u t i b some' h =
      let made = create_next_pod_ok u t h in
      let many : length t.created_pods ≡ length u.created_pods = ap length (made.2) in
      let pos = ltb→lt 0 (length u.created_pods) some' in
      record { outstanding = omega arith; in_range = omega arith }

  -- A selection that succeeds has created the first pod of a node.
  pub select_next_node-IsMoving :
      (fuel : ℕ) (s t : Simulator World) → select_next_node e fuel s ≡ (ok tt, t) → IsMoving t
  unfolding select_next_node
  select_next_node-IsMoving zero s t h = absurd (cc h)
  select_next_node-IsMoving (suc fuel) s t h =
      let (a, u, taken, entered) =
        >>=-eq-ok (choose_node e >>= vacate e) (λ _. enter e (select_next_node e fuel)) s h in
      let (n, v, chose, vacated) = >>=-eq-ok (choose_node e) (vacate e) s taken in
      let counts =
        subst
          (λ (x : Result (Unit {0}) × Simulator World).
            (x.1.create_pod_index ≡ 0) × (x.1.bind_success_pod_count ≡ 0))
          vacated (vacate-counts n v) in
      let test = ltb 0 (length u.created_pods) in
      let more = scale_down e >> select_next_node e fuel in
      elim (Bool-cases test) [
        | inl some' ↦
            IsMoving-first u t counts.0 counts.1 some'
              (if_true test (create_next_pod e) more u some' entered)
        | inr none' ↦
            let (b, w, down, next) =
              >>=-eq-ok (scale_down e) (λ _. select_next_node e fuel) u
                (if_false test (create_next_pod e) more u none' entered) in
            select_next_node-IsMoving fuel w t next
      ]

module _ (e : Env) (fuel : ℕ) where
  open e use {World}

  abbrev pods_left : Simulator World → Bool
  pods_left s = ltb 0 (length s.created_pods) && ltb s.create_pod_index (length s.created_pods)

  abbrev all_bound : Simulator World → Bool
  all_bound s = eqb s.bind_success_pod_count (length s.created_pods)

  pub pods_left-true :
      (s : Simulator World) → s.create_pod_index < length s.created_pods → pods_left s ≡ true
  pods_left-true s h = ground arith

  pub pods_left-false :
      (s : Simulator World) → s.create_pod_index ≡ length s.created_pods → pods_left s ≡ false
  pods_left-false s h = ground arith

  -- What a call does, by the limit and the pods that are left.
  pub hook_limited :
      (p : Pod) (s : Simulator World)
      → is_limited s ≡ true
      → post_bind_hook e fuel p s ≡ stop_simulator e (limit_reached s.max_simulated) s
  unfolding post_bind_hook
  hook_limited p s h =
      if_true_eq (is_limited s) (stop_simulator e (limit_reached s.max_simulated))
        (modify (count_bind e fuel) >> after_bind e fuel) s h

  pub hook_waits :
      (p : Pod) (s : Simulator World)
      → is_limited s ≡ false
      → s.create_pod_index < length s.created_pods
      → post_bind_hook e fuel p s ≡ create_next_pod e (count_bind e fuel s)
  unfolding post_bind_hook
  hook_waits p s l h =
      let t = count_bind e fuel s in
      if_false_eq (is_limited s) (stop_simulator e (limit_reached s.max_simulated))
        (modify (count_bind e fuel) >> after_bind e fuel) s l
      ∙ if_true_eq (pods_left t) (create_next_pod e)
          (if all_bound t then move_on e fuel else pure tt) t (pods_left-true t h)

  pub hook_moves_on :
      (p : Pod) (s : Simulator World)
      → is_limited s ≡ false
      → IsMoving s
      → s.create_pod_index ≡ length s.created_pods
      → post_bind_hook e fuel p s ≡ move_on e fuel (count_bind e fuel s)
  unfolding post_bind_hook
  hook_moves_on p s l m h =
      let t = count_bind e fuel s in
      if_false_eq (is_limited s) (stop_simulator e (limit_reached s.max_simulated))
        (modify (count_bind e fuel) >> after_bind e fuel) s l
      ∙ if_false_eq (pods_left t) (create_next_pod e)
          (if all_bound t then move_on e fuel else pure tt) t (pods_left-false t h)
      ∙ if_true_eq (all_bound t) (move_on e fuel) (pure tt) t ((eqb_iff _ _).1 (omega arith))
