-- ===== src/Estimation/Names.antt =====
-- The names of the pods that are created.
use text.Mathlib.TextLemmas.{append_cancel_left}
use kluster_capacity.Base.{ℕ, zero, suc, ◌^◌, ◌<◌, ◌≡◌, ◌≢◌, refl, sym, ◌∙◌, ◌<>◌, arith}
use kluster_capacity.Base.Text.{show_nat}
use kluster_capacity.Base.Digits.{show_nat-injective}
use kluster_capacity.Kube.{Pod}
use kluster_capacity.Env.{Env}
use kluster_capacity.Estimation.{Generator, new_single_pod_generator, generate}

module _ (e : Env) where
  open e use {World}

  -- The generator after `i` calls, in whatever worlds they are made.
  abbrev pub after : (ℕ → World) → Pod → ℕ → Generator
  after worlds p zero = new_single_pod_generator p
  after worlds p (suc i) = (generate e (worlds i) (after worlds p i)).1

  -- The pod that call `i` returns.
  abbrev pub generated : (ℕ → World) → Pod → ℕ → Pod
  generated worlds p i = (generate e (worlds i) (after worlds p i)).0

  after-template : (worlds : ℕ → World) (p : Pod) (i : ℕ) → (after worlds p i).pod_template ≡ p
  unfolding new_single_pod_generator generate
  after-template worlds p zero = refl
  after-template worlds p (suc i) = after-template worlds p i

  after-counter :
      (worlds : ℕ → World) (p : Pod) (i : ℕ) → i < 2 ^ 64 → (after worlds p i).counter ≡ i
  unfolding new_single_pod_generator generate
  after-counter worlds p zero h = refl
  after-counter worlds p (suc i) h =
      let before = after-counter worlds p i (omega arith) in omega arith

  generated-name :
      (worlds : ℕ → World) (p : Pod) (i : ℕ)
      → i < 2 ^ 64
      → (generated worlds p i).name ≡ p.name <> ("-" <> show_nat i)
  unfolding generate
  generated-name worlds p i h = rw (after-template worlds p i, after-counter worlds p i h) refl

  -- The pods that one generator returns in different calls, in whatever worlds, have different names,
  -- as long as its counter does not wrap around.
  pub generated-names_differ :
      (worlds : ℕ → World) (p : Pod) (i j : ℕ)
      → i < 2 ^ 64
      → j < 2 ^ 64
      → i ≢ j
      → (generated worlds p i).name ≢ (generated worlds p j).name
  generated-names_differ worlds p i j hi hj d same = d (
      show_nat-injective i j (
        append_cancel_left "-" (show_nat i) (show_nat j) (
          append_cancel_left p.name ("-" <> show_nat i) ("-" <> show_nat j)
            (sym (generated-name worlds p i hi) ∙ same ∙ generated-name worlds p j hj))))
