-- ===== src/Estimation/Limit.antt =====
-- A run that schedules everything stops at the limit: what it has estimated then.
use kluster_capacity.Base.{
  ℕ, suc, ◌+◌, ◌≡◌, sym, ap, ◌∙◌, subst, true, false, List, [], ◌∷◌, ◌++◌, length, length-append,
  append-nil, append_assoc, arith, if_true_eq, if_false_eq,
}
use kluster_capacity.Base.Monad.{Result, ok, Action, ◌>>◌, pure, >>=-eq-ok}
use kluster_capacity.Kube.{Pod}
use kluster_capacity.Env.{Env}
use kluster_capacity.Framework.Control.{stop, create}
use kluster_capacity.Framework.Control.Stop.{Ends, IsConsistent, stop-Ends, stop_first_reason}
use kluster_capacity.Estimation.{
  Simulator, is_limited, limit_reached, estimate, create_next_pod, create_or_wrap, stop_simulator,
  post_bind_hook,
}

abbrev pub estimated : {W : Type 0} → Simulator W → List Pod
estimated s = s.framework.status.pods_for_estimation

-- The simulation runs, and one pod more has been created than bound.
pub record IsWaiting {W : Type 0} (s : Simulator W) : Type 0 where
  pub counted : s.simulated ≡ length (estimated s) + 1
  pub running : s.framework.stopped ≡ false
  pub consistent : IsConsistent s.framework

module _ (e : Env) where
  open e use {World}

  create_or_wrap_ok :
      (s t : Simulator World)
      → create_or_wrap e s ≡ (ok tt, t)
      → (t.simulated ≡ s.simulated + 1)
        × (t.max_simulated ≡ s.max_simulated)
        × (estimated t ≡ estimated s)
        × (t.framework.stopped ≡ s.framework.stopped)
        × (t.framework.stop_ch ≡ s.framework.stop_ch)
        × (t.framework.informer_ch ≡ s.framework.informer_ch)
        × (t.framework.scheduler_ch ≡ s.framework.scheduler_ch)
  unfolding create_next_pod create
  create_or_wrap_ok s t h = ground arith

  hook_below :
      (p : Pod) (s : Simulator World)
      → is_limited s ≡ false
      → post_bind_hook e p s ≡ create_or_wrap e (estimate p s)
  unfolding post_bind_hook
  hook_below p s h =
      if_false_eq (is_limited s) (stop_simulator e (limit_reached s.max_simulated))
        (create_or_wrap e) (estimate p s) h

  hook_at_limit :
      (p : Pod) (s : Simulator World)
      → is_limited s ≡ true
      → post_bind_hook e p s ≡ stop_simulator e (limit_reached s.max_simulated) (estimate p s)
  unfolding post_bind_hook
  hook_at_limit p s h =
      if_true_eq (is_limited s) (stop_simulator e (limit_reached s.max_simulated))
        (create_or_wrap e) (estimate p s) h

  hook-IsWaiting :
      (p : Pod) (s t : Simulator World)
      → IsWaiting s
      → is_limited s ≡ false
      → post_bind_hook e p s ≡ (ok tt, t)
      → IsWaiting t × (estimated t ≡ estimated s ++ (p ∷ [])) × (t.max_simulated ≡ s.max_simulated)
  hook-IsWaiting p s t w l h =
      let made = create_or_wrap_ok (estimate p s) t (sym (hook_below p s l) ∙ h) in
      let c = w.consistent in
      let counted = w.counted in
      let running = w.running in
      let many : length (estimated t) ≡ length (estimated s) + 1 =
        ap length made.2 ∙ length-append (estimated s) (p ∷ []) in
      (
        record {
          counted = omega arith;
          running = made.3 ∙ running;
          consistent = record {
            stop_ch = made.4 ∙ c.stop_ch ∙ sym (made.3);
            informer_ch = made.5 ∙ c.informer_ch ∙ sym (made.3);
            scheduler_ch = made.6 ∙ c.scheduler_ch ∙ sym (made.3);
          };
        },
        made.2,
        made.1,
      )

  -- The scheduler binds the given pods one after the other.
  abbrev pub binds : List Pod → Action (Simulator World) (Unit {0})
  binds [] = pure tt
  binds (p ∷ ps) = post_bind_hook e p >> binds ps

  -- `k` pods may be bound before the one that reaches the limit.
  abbrev pub IsBelow : ℕ → Simulator World → Type 0
  IsBelow k s = IsWaiting s × (s.max_simulated ≡ length (estimated s) + suc k)

  abbrev pub IsFull : List Pod → ℕ → Simulator World → Type 0
  IsFull pods limit u =
      (u.framework.stopped ≡ true)
      × (u.framework.status.stop_reason ≡ limit_reached limit)
      × (estimated u ≡ pods)
      × (length (estimated u) ≡ limit)

  IsBelow-is_limited : (k : ℕ) (s : Simulator World) → IsBelow (suc k) s → is_limited s ≡ false
  IsBelow-is_limited k s b = let c = b.0.counted in let m = b.1 in ground arith

  IsBelow-is_limited_last : (s : Simulator World) → IsBelow 0 s → is_limited s ≡ true
  IsBelow-is_limited_last s b = let c = b.0.counted in let m = b.1 in ground arith

  estimate-IsConsistent :
      (q : Pod) (s : Simulator World)
      → IsConsistent s.framework
      → IsConsistent (estimate q s).framework
  estimate-IsConsistent q s c = record {
    stop_ch = c.stop_ch;
    informer_ch = c.informer_ch;
    scheduler_ch = c.scheduler_ch;
  }

  last_bind-IsFull :
      (q : Pod) (s u : Simulator World)
      → IsBelow 0 s
      → post_bind_hook e q s ≡ (ok tt, u)
      → IsFull (estimated s ++ (q ∷ [])) s.max_simulated u
  unfolding stop_simulator
  last_bind-IsFull q s u b h =
      let f = (estimate q s).framework in
      let reason = limit_reached s.max_simulated in
      let done : stop e reason f ≡ (ok tt, u.framework) =
        ap (λ (x : Result (Unit {0}) × Simulator World). (x.0, x.1.framework))
          (sym (hook_at_limit q s (IsBelow-is_limited_last s b)) ∙ h) in
      let c = estimate-IsConsistent q s b.0.consistent in
      let first = stop_first_reason e reason f u.framework c b.0.running done in
      let ends = subst (Ends e f) done (stop-Ends e reason f c b.0.running) in
      let m = b.1 in
      let many = ap length (ends.3) ∙ length-append (estimated s) (q ∷ []) in
      (first.0, first.2, ends.3, omega arith)

  -- The simulation runs, one pod more has been created than bound, and the limit is as many pods above
  -- those already estimated as `ps` has, and one. If the pods of `ps` and then `q` are bound and these
  -- calls return no error, then the simulation still runs before `q` and has stopped after it, with the limit as its
  -- reason, and the estimated pods are those before, `ps` and `q`, as many as the limit says.
  pub binds-IsFull :
      (ps : List Pod) (q : Pod) (s t u : Simulator World)
      → IsBelow (length ps) s
      → binds ps s ≡ (ok tt, t)
      → post_bind_hook e q t ≡ (ok tt, u)
      → (t.framework.stopped ≡ false) × IsFull ((estimated s ++ ps) ++ (q ∷ [])) s.max_simulated u
  binds-IsFull [] q s t u b h last =
      let same = ap (λ (x : Result (Unit {0}) × Simulator World). x.1) h in
      let full =
        last_bind-IsFull q s u b (subst (λ v. post_bind_hook e q v ≡ (ok tt, u)) (sym same) last) in
      (
        subst (λ (v : Simulator World). v.framework.stopped ≡ false) same b.0.running,
        subst (λ pods. IsFull (pods ++ (q ∷ [])) s.max_simulated u) (sym (append-nil (estimated s)))
            full,
      )
  binds-IsFull (p ∷ ps) q s t u b h last =
      let (a, v, first, rest) = >>=-eq-ok (post_bind_hook e p) (λ _. binds ps) s h in
      let (w, pods, limit) = hook-IsWaiting p s v b.0 (IsBelow-is_limited (length ps) s b) first in
      let m = b.1 in
      let many = ap length pods ∙ length-append (estimated s) (p ∷ []) in
      let (running, full) = binds-IsFull ps q v t u (w, omega arith) rest last in
      (
        running,
        subst (λ n. IsFull ((estimated s ++ (p ∷ ps)) ++ (q ∷ [])) n u) limit
            (subst (λ done. IsFull (done ++ (q ∷ [])) v.max_simulated u)
              (ap (λ done. done ++ ps) pods ∙ append_assoc (estimated s) (p ∷ []) ps) full),
      )
