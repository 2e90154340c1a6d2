-- ===== src/Compression/Fuel.antt =====
-- The fuel of selectNextNode.
use native.Mathlib.Nat.{add-zero, add-suc}
use kluster_capacity.Base.{
  ℕ, zero, suc, ◌+◌, ◌≡◌, ◌≢◌, refl, sym, subst, ◌∙◌, ap, true, false, ltb, length, if◌then◌else◌,
  Bool,
}
use kluster_capacity.Base.Monad.{Result, ok, err, panic, stuck, Action, continue, ◌>>◌, ◌>>=◌}
use kluster_capacity.Env.{Env}
use kluster_capacity.Compression.Simulator.{
  Simulator, create_next_pod, scale_down, choose_node, vacate, enter, select_next_node,
}

-- Two actions agree on a state where the first does not run out of fuel.
abbrev pub AgreesAt : {S A : Type 0} → Action S A → Action S A → S → Type 0
AgreesAt m n s = (m s).0 ≢ stuck → n s ≡ m s

continue-AgreesAt :
    {S A B : Type 0} (f g : A → Action S B) (x : Result A × S)
    → ((a : A) (s : S) → AgreesAt (f a) (g a) s)
    → (continue f x).0 ≢ stuck
    → continue g x ≡ continue f x
continue-AgreesAt f g (ok a, s) h live = h a s live
continue-AgreesAt f g (err m, s) h live = refl
continue-AgreesAt f g (panic, s) h live = refl
continue-AgreesAt f g (stuck, s) h live = refl

if-AgreesAt :
    {S A : Type 0} (b : Bool) (k m n : Action S A) (s : S)
    → AgreesAt m n s
    → AgreesAt (if b then k else m) (if b then k else n) s
if-AgreesAt true k m n s h live = refl
if-AgreesAt false k m n s h live = h live

module _ (e : Env) where
  open e use {World}

  select_next_node-suc :
      (fuel : ℕ) (s : Simulator World)
      → AgreesAt (select_next_node e fuel) (select_next_node e (suc fuel)) s
  unfolding select_next_node
  select_next_node-suc zero s live = absurd (live refl)
  select_next_node-suc (suc fuel) s live =
      let next = select_next_node e fuel in
      let more = select_next_node e (suc fuel) in
      continue-AgreesAt (λ _. enter e next) (λ _. enter e more) ((choose_node e >>= vacate e) s)
        (λ _ t.
          if-AgreesAt (ltb 0 (length t.created_pods)) (create_next_pod e) (scale_down e >> next)
            (scale_down e >> more) t
            (continue-AgreesAt (λ _. next) (λ _. more) (scale_down e t)
              (λ _ u. select_next_node-suc fuel u)))
        live

  -- A selection that does not run out of its fuel has the same outcome and the same effects with any
  -- more fuel: the fuel bounds the recursion and decides nothing else.
  pub select_next_node-more_fuel :
      (fuel extra : ℕ) (s : Simulator World)
      → (select_next_node e fuel s).0 ≢ stuck
      → select_next_node e (fuel + extra) s ≡ select_next_node e fuel s
  select_next_node-more_fuel fuel zero s live = ap (λ n. select_next_node e n s) (add-zero fuel)
  select_next_node-more_fuel fuel (suc extra) s live =
      let rest = select_next_node-more_fuel fuel extra s live in
      ap (λ n. select_next_node e n s) (add-suc fuel extra)
      ∙ select_next_node-suc (fuel + extra) s
          (subst (λ (x : Result (Unit {0}) × Simulator World). x.0 ≢ stuck) (sym rest) live)
      ∙ rest
