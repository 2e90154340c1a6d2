-- ===== src/Framework/Control/Stop.antt =====
-- What `Stop` does.
use kluster_capacity.Base.{
  String, Bool, true, false, ◌≡◌, refl, sym, subst, ap, ◌∙◌, ◌==◌, if◌then◌else◌, arith, inl, inr,
  Bool-cases,
}
use kluster_capacity.Base.Monad.{Result, ok, err, panic, stuck, ◌>>◌, >>=-eq-ok, pure, continue}
use kluster_capacity.Base.Frame.{IsPreorder, Keeps, >>=-Keeps, if-Keeps}
use kluster_capacity.Status.{Status}
use kluster_capacity.Env.{Env}
use kluster_capacity.Framework.{Framework}
use kluster_capacity.Framework.Control.{stop, prepare, finish, items, take_stock, save, save_as_set}

-- The three channels are closed exactly when the simulation has stopped.
pub record IsConsistent {W H : Type 0} (f : Framework W H) : Type 0 where
  pub stop_ch : f.stop_ch ≡ f.stopped
  pub informer_ch : f.informer_ch ≡ f.stopped
  pub scheduler_ch : f.scheduler_ch ≡ f.stopped

abbrev pub closed : {W H : Type 0} → Framework W H → Framework W H
closed f = record f { stop_ch = true; informer_ch = true; scheduler_ch = true; stopped = true }

-- What taking stock and saving leave alone.
record Untouched {W H : Type 0} (f g : Framework W H) : Type 0 where
  stop_ch : g.stop_ch ≡ f.stop_ch
  informer_ch : g.informer_ch ≡ f.informer_ch
  scheduler_ch : g.scheduler_ch ≡ f.scheduler_ch
  stopped : g.stopped ≡ f.stopped
  scaled : g.status.nodes_to_scale_down ≡ f.status.nodes_to_scale_down
  estimated : g.status.pods_for_estimation ≡ f.status.pods_for_estimation

Untouched-preorder : {W H : Type 0} → IsPreorder (Untouched {W = W} {H = H})
Untouched-preorder = record {
  same = λ f. record {
    stop_ch = refl;
    informer_ch = refl;
    scheduler_ch = refl;
    stopped = refl;
    scaled = refl;
    estimated = refl;
  };
  then' = λ f g h p q. record {
    stop_ch = q.stop_ch ∙ p.stop_ch;
    informer_ch = q.informer_ch ∙ p.informer_ch;
    scheduler_ch = q.scheduler_ch ∙ p.scheduler_ch;
    stopped = q.stopped ∙ p.stopped;
    scaled = q.scaled ∙ p.scaled;
    estimated = q.estimated ∙ p.estimated;
  };
}

abbrev pub SameScaled : {W H : Type 0} → Framework W H → Framework W H → Type 0
SameScaled f g = g.status.nodes_to_scale_down ≡ f.status.nodes_to_scale_down

abbrev pub is_ok : {A : Type 0} → Result A → Bool
is_ok (ok a) = true
is_ok (err m) = false
is_ok panic = false
is_ok stuck = false

module _ (e : Env) {H : Type 0} where
  open e use {World}

  items-Untouched : {A : Type 0} (r : Result A) → Keeps Untouched (items e {H = H} r)
  items-Untouched (ok a) = Untouched-preorder.same
  items-Untouched (err m) = Untouched-preorder.same
  items-Untouched panic = Untouched-preorder.same
  items-Untouched stuck = Untouched-preorder.same

  take_stock-Untouched : (reason : String) → Keeps Untouched (take_stock e {H = H} reason)
  unfolding take_stock
  take_stock-Untouched reason f = ground arith

  save-Untouched : (path : String) → Keeps Untouched (save e {H = H} path)
  unfolding save
  save-Untouched path f = ground arith

  prepare-Untouched : (reason : String) → Keeps Untouched (prepare e {H = H} reason)
  unfolding prepare
  prepare-Untouched reason =
      >>=-Keeps Untouched-preorder (take_stock e reason) (λ _. save_as_set e)
        (take_stock-Untouched reason)
        (λ _ f.
          if-Keeps Untouched-preorder (f.save_to == "") (pure tt) (save e f.save_to)
            Untouched-preorder.same (save-Untouched f.save_to) f)

  pub finish_lem :
      (f : Framework World H)
      → f.stop_ch ≡ false
      → f.informer_ch ≡ false
      → f.scheduler_ch ≡ false
      → finish e f ≡ (ok tt, closed f)
  unfolding finish
  finish_lem f a b c = ground arith

  abbrev pub Ends : Framework World H → Result (Unit {0}) × Framework World H → Type 0
  Ends f y =
      (y.1.stopped ≡ is_ok y.0)
      × IsConsistent y.1
      × (y.1.status.nodes_to_scale_down ≡ f.status.nodes_to_scale_down)
      × (y.1.status.pods_for_estimation ≡ f.status.pods_for_estimation)

  finish-Ends :
      (f : Framework World H) (x : Result (Unit {0}) × Framework World H)
      → IsConsistent f
      → f.stopped ≡ false
      → Untouched f x.1
      → Ends f (continue (λ _. finish e) x)
  finish-Ends f (ok u, g) c h k = rw (finish_lem g (ground arith) (ground arith) (ground arith)) (
    refl,
    record { stop_ch = refl; informer_ch = refl; scheduler_ch = refl },
    k.scaled,
    k.estimated,
  )
  finish-Ends f (err m, g) c h k = (ground arith, ground arith, k.scaled, k.estimated)
  finish-Ends f (panic, g) c h k = (ground arith, ground arith, k.scaled, k.estimated)
  finish-Ends f (stuck, g) c h k = (ground arith, ground arith, k.scaled, k.estimated)

  -- A call of `Stop` while the simulation runs, whatever its outcome: the simulation has stopped exactly if
  -- the call returns no error, the three channels are closed exactly then, and the nodes to scale down and
  -- the estimated pods found so far are kept.
  pub stop-Ends :
      (reason : String) (f : Framework World H)
      → IsConsistent f
      → f.stopped ≡ false
      → Ends f (stop e reason f)
  unfolding stop
  stop-Ends reason f c h =
      subst (λ b. Ends f ((if b then pure tt else (prepare e reason >> finish e)) f)) (sym h)
        (finish-Ends f (prepare e reason f) c h (prepare-Untouched reason f))

  take_stock-reason :
      (reason : String) (f g : Framework World H)
      → take_stock e reason f ≡ (ok tt, g)
      → g.status.stop_reason ≡ reason
  unfolding take_stock
  take_stock-reason reason f g h = ground arith

  save-status : (path : String) → Keeps (λ f g. g.status ≡ f.status) (save e {H = H} path)
  unfolding save
  save-status path f = ground arith

  save_as_set-status : Keeps (λ f g. g.status ≡ f.status) (save_as_set e {H = H})
  save_as_set-status f = elim (Bool-cases (f.save_to == "")) [
    | inl yes' ↦ rw yes' refl
    | inr no' ↦ rw no' (save-status f.save_to f)
  ]

  finish-status : Keeps (λ f g. g.status ≡ f.status) (finish e {H = H})
  unfolding finish
  finish-status f = ground arith

  prepare-reason :
      (reason : String) (f g : Framework World H)
      → prepare e reason f ≡ (ok tt, g)
      → g.status.stop_reason ≡ reason
  unfolding prepare
  prepare-reason reason f g h =
      let (a, u, stock, saved) = >>=-eq-ok (take_stock e reason) (λ _. save_as_set e) f h in
      ap (λ (x : Result (Unit {0}) × Framework World H). x.1.status.stop_reason) (sym saved)
      ∙ ap (λ (st : Status). st.stop_reason) (save_as_set-status u)
      ∙ take_stock-reason reason f u stock

  stop-reason :
      (reason : String) (f g : Framework World H)
      → f.stopped ≡ false
      → stop e reason f ≡ (ok tt, g)
      → g.status.stop_reason ≡ reason
  unfolding stop
  stop-reason reason f g c h =
      let running =
        subst (λ b. (if b then pure tt else (prepare e reason >> finish e)) f ≡ (ok tt, g)) c h in
      let (a, u, before, after) = >>=-eq-ok (prepare e reason) (λ _. finish e) f running in
      ap (λ (x : Result (Unit {0}) × Framework World H). x.1.status.stop_reason) (sym after)
      ∙ ap (λ (st : Status). st.stop_reason) (finish-status u)
      ∙ prepare-reason reason f u before

  -- A simulation that has stopped ignores further calls.
  pub stop-stopped :
      (reason : String) (f : Framework World H) → f.stopped ≡ true → stop e reason f ≡ (ok tt, f)
  unfolding stop
  stop-stopped reason f h = rw h

  -- A call of `Stop` that returns no error, the first one of a simulation, records its reason and closes
  -- the three channels; from then on every further call returns no error and changes nothing, so that the
  -- first reason stays and no channel is closed twice.
  pub stop_first_reason :
      (reason : String) (f g : Framework World H)
      → IsConsistent f
      → f.stopped ≡ false
      → stop e reason f ≡ (ok tt, g)
      → (g.stopped ≡ true)
        × IsConsistent g
        × (g.status.stop_reason ≡ reason)
        × ((later : String) → stop e later g ≡ (ok tt, g))
  stop_first_reason reason f g c h done =
      let ends = subst (Ends f) done (stop-Ends reason f c h) in
      (ends.0, ends.1, stop-reason reason f g h done, λ later. stop-stopped later g ends.0)

  same_scaled : IsPreorder (SameScaled {W = World} {H = H})
  same_scaled = record { same = λ f. refl; then' = λ f g h p q. q ∙ p }

  -- No call of `Stop` touches the list of nodes to scale down, whatever its outcome.
  pub stop-SameScaled : (reason : String) → Keeps SameScaled (stop e {H = H} reason)
  unfolding stop
  stop-SameScaled reason f =
      if-Keeps same_scaled f.stopped (pure tt) (prepare e reason >> finish e) (λ g. refl)
        (>>=-Keeps same_scaled (prepare e reason) (λ _. finish e)
          (λ g. (prepare-Untouched reason g).scaled)
          (λ _ g. ap (λ (st : Status). st.nodes_to_scale_down) (finish-status g)))
        f

  finish-stopped : (f g : Framework World H) → finish e f ≡ (ok tt, g) → g.stopped ≡ true
  unfolding finish
  finish-stopped f g h = ground arith

  pub stop_ok-stopped :
      (reason : String) (f g : Framework World H) → stop e reason f ≡ (ok tt, g) → g.stopped ≡ true
  unfolding stop
  stop_ok-stopped reason f g h = elim (Bool-cases f.stopped) [
    | inl c ↦
        ap (λ (x : Result (Unit {0}) × Framework World H). x.1.stopped)
          (sym (
            subst (λ b. (if b then pure tt else (prepare e reason >> finish e)) f ≡ (ok tt, g)) c
              h))
        ∙ c
    | inr c ↦
        let running =
          subst (λ b. (if b then pure tt else (prepare e reason >> finish e)) f ≡ (ok tt, g)) c h in
        let (a, u, before, after) = >>=-eq-ok (prepare e reason) (λ _. finish e) f running in
        finish-stopped u g after
  ]
