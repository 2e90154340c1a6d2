-- ===== src/Estimation/Executor/Laws.antt =====
-- The simulators run at the same time: what is reported does not depend on the order in which they finish.
use kluster_capacity.Base.{
  ℕ, zero, suc, ◌<◌, ◌≡◌, ◌≢◌, refl, sym, ap, ◌∙◌, subst, String, true, false, List, [], ◌∷◌, ◌++◌,
  append_assoc, append-nil, map, Option, none, some, eqb_iff, get_elem?, get_elem?_lt, set, length,
  All, arith, Option-cases, inl, inr,
}
use mathlib.Core.Option.{some-injective}
use kluster_capacity.Base.Monad.{Result, ok, err, panic, stuck, Action, >>=-ok}
use kluster_capacity.Kube.{Pod, Resource}
use kluster_capacity.Env.{Env}
use kluster_capacity.Executor.{Builder, build_framework}
use kluster_capacity.Framework.{Framework}
use kluster_capacity.Estimation.{
  Simulator, Hook, framework_options, new_simulator, new_single_pod_generator,
}
use kluster_capacity.Estimation.Report.{Review}
use kluster_capacity.Estimation.Executor.{
  Group, blank_reports, start_group, run_and_report, finished, finish_one, finish_all, run_all,
  collected, Limits, new_ce_simulator, cons, new_ce_simulator_executor,
}
use kluster_capacity.Estimation.Executor.Slots.{
  finishes, Distinct, IsOrder, IsSettled, returned_of, put, put_all, put_all_lem, length-put_all,
  get_elem?-set_other, All-none, finishes_lt,
}

-- The documented behaviour of errgroup.Group.Wait: an error is returned exactly if a goroutine has returned one.
pub record WaitLaws (wait : List (Option String) → Option String) : Type 0 where
  pub wait-none : (rs : List (Option String)) → All (λ r. r ≡ none) rs → wait rs ≡ none
  pub wait-some :
      (rs : List (Option String)) (k : ℕ) (m : String)
      → get_elem? rs k ≡ some (some m)
      → (first : String) × (wait rs ≡ some first)

length-blank : {A : Type 0} (ss : List A) → length (blank_reports ss) ≡ length ss
length-blank [] = refl
length-blank (s ∷ ss) = ap suc (length-blank ss)

blank-lem :
    {A : Type 0} (ss : List A) (i : ℕ) → i < length ss → get_elem? (blank_reports ss) i ≡ some none
blank-lem [] i h = absurd (omega arith)
blank-lem (s ∷ ss) zero h = refl
blank-lem (s ∷ ss) (suc i) h = blank-lem ss i (omega arith)

some_lt : {A : Type 0} (xs : List A) (i : ℕ) (x : A) → get_elem? xs i ≡ some x → i < length xs
some_lt [] i x h = cc h
some_lt (y ∷ xs) zero x h = omega arith
some_lt (y ∷ xs) (suc i) x h = omega (arith, some_lt xs i x h)

-- Where all places of a list are known, so is the list.
all_at :
    {A : Type 0} (rs : List (Option A)) (xs : List A)
    → length rs ≡ length xs
    → ((i : ℕ) (x : A) → get_elem? xs i ≡ some x → get_elem? rs i ≡ some (some x))
    → rs ≡ map some xs
all_at [] [] size at = refl
all_at [] (x ∷ xs) size at = absurd (omega (arith, size))
all_at (r ∷ rs) [] size at = absurd (omega (arith, size))
all_at (r ∷ rs) (x ∷ xs) size at =
    let rest = all_at rs xs (omega (arith, size)) (λ j y h. at (suc j) y h) in
    (λ i. some-injective r (some x) (at 0 x refl) i ∷ rest i)

module _ (e : Env) (compute : Pod → Resource)
    (schedule : ℕ → Action (Simulator e.World) (Unit {0})) where
  open e use {World}

  -- What the run of a simulator comes to.
  abbrev pub outcome : List (Simulator World) → ℕ → Result Review
  outcome ss i = elim (get_elem? ss i) [
    | none ↦ panic
    | some s ↦ (run_and_report e compute schedule i s).0
  ]

  abbrev left : ℕ → Result Review → Simulator World → Group World → Group World
  left i r t g = record g {
    simulators = set g.simulators i t;
    reports = put r i g.reports;
    returned = g.returned ++ (returned_of r ∷ []);
  }

  finished_lem :
      (i : ℕ) (x : Result Review × Simulator World) (g : Group World)
      → IsSettled x.0
      → finished e compute schedule i x g ≡ (ok tt, left i x.0 x.1 g)
  finished_lem i (ok v, t) g h = refl
  finished_lem i (err m, t) g h = refl
  finished_lem i (panic, t) g h = elim h [ inl (v, e) ↦ cc e | inr (m, e) ↦ cc e ]
  finished_lem i (stuck, t) g h = elim h [ inl (v, e) ↦ cc e | inr (m, e) ↦ cc e ]

  finish_one_lem :
      (i : ℕ) (g : Group World) (r : Result Review)
      → outcome g.simulators i ≡ r
      → IsSettled r
      → (t : Simulator World) × (finish_one e compute schedule i g ≡ (ok tt, left i r t g))
  finish_one_lem i g r o h = elim (Option-cases (get_elem? g.simulators i)) [
    | inl e' ↦ elim h [ inl (v, e'') ↦ ground arith | inr (m, e'') ↦ ground arith ]
    | inr (s, e') ↦
        let x = run_and_report e compute schedule i s in
        let same : x.0 ≡ r = ground arith in
        (
          x.1,
          rw (e', finish_one) (finished_lem i x g (subst IsSettled (sym same) h))
              ∙ ap (λ q. (ok tt, left i q x.1 g)) same,
        )
  ]

  outcome-set :
      (ss : List (Simulator World)) (i j : ℕ) (t : Simulator World)
      → i ≢ j
      → outcome (set ss i t) j ≡ outcome ss j
  outcome-set ss i j t h = rw (get_elem?-set_other ss i j t h, outcome) refl

  -- What the goroutines leave, in the order in which they finish.
  finish_all_lem :
      (out : ℕ → Result Review) (order : List ℕ) (g : Group World)
      → Distinct order
      → ((i : ℕ) → finishes i order ≡ true → (outcome g.simulators i ≡ out i) × IsSettled (out i))
      → (g' : Group World) × (finish_all e compute schedule order g ≡ (ok tt, g'))
        × (g'.returned ≡ g.returned ++ map (λ i. returned_of (out i)) order)
        × (g'.reports ≡ put_all out order g.reports)
  unfolding finish_all
  finish_all_lem out [] g d h = (g, refl, sym (append-nil g.returned), refl)
  finish_all_lem out (i ∷ order) g (fresh, d) h =
      let (here, settled) = h i (ground (arith, eqb_iff i i)) in
      let (t, one) = finish_one_lem i g (out i) here settled in
      let g1 = left i (out i) t g in
      let (g', all, returned, reports) = finish_all_lem out order g1 d (λ j f.
        let (there, settled') = h j (ground arith) in
        (
          outcome-set g.simulators i j t
                (λ same. cc (sym f ∙ subst (λ k. finishes k order ≡ false) same fresh))
              ∙ there,
          settled',
        )) in
      (
        g',
        >>=-ok (finish_one e compute schedule i) (λ _. finish_all e compute schedule order) g g1 one
            ∙ all,
        returned
            ∙ append_assoc g.returned (returned_of (out i) ∷ [])
                (map (λ k. returned_of (out k)) order),
        reports,
      )

  run_all-places :
      (wait : List (Option String) → Option String)
      → WaitLaws wait
      → (order : List ℕ) (ss : List (Simulator World)) → IsOrder (length ss) order
      → ((i : ℕ) → i < length ss → (v : Review) × (outcome ss i ≡ ok v))
      → (reports : List (Option Review)) × (run_all e compute schedule wait order ss ≡ ok reports)
        × (length reports ≡ length ss)
        × ((i : ℕ) (v : Review)
            → i < length ss
            → outcome ss i ≡ ok v
            → get_elem? reports i ≡ some (some v))
  unfolding run_all start_group
  run_all-places wait laws order ss is_order good =
      let out = outcome ss in
      let good' : (i : ℕ) → finishes i order ≡ true → (v : Review) × (outcome ss i ≡ ok v) =
        λ i f. good i (finishes_lt (length ss) i order is_order.within f) in
      let (g, all, returned, reports) =
        finish_all_lem out order (start_group ss) is_order.distinct
          (λ i f. (refl, inl (good' i f))) in
      let calm =
        laws.wait-none g.returned
          (subst (λ rs. All (λ r. r ≡ none) rs) (sym returned) (All-none out order good')) in
      (
        g.reports,
        rw (all, calm, collected) refl,
        ap length reports ∙ length-put_all out order (blank_reports ss) ∙ length-blank ss,
        λ i v lt o.
            ap (λ rs. get_elem? rs i) reports
            ∙ put_all_lem out order i (blank_reports ss) v none is_order.distinct
                (is_order.covers i lt) o (blank-lem ss i lt),
      )

  -- The simulators end with these reviews.
  pub record Reviewed (ss : List (Simulator World)) (reviews : List Review) : Type 0 where
    pub size : length reviews ≡ length ss
    pub at : (i : ℕ) (v : Review) → get_elem? reviews i ≡ some v → outcome ss i ≡ ok v

  -- The simulators of all pods run at the same time. If each of them ends with a report, then the run of all ends
  -- with these reports, in the order of the simulators, whatever the order in which they finish.
  pub run_all-reports :
      (wait : List (Option String) → Option String)
      → WaitLaws wait
      → (order : List ℕ) (ss : List (Simulator World)) → IsOrder (length ss) order
      → (reviews : List Review) → Reviewed ss reviews
      → run_all e compute schedule wait order ss ≡ ok (map some reviews)
  run_all-reports wait laws order ss is_order reviews reviewed =
      let size = reviewed.size in
      let (reports, ran, same, places) = run_all-places wait laws order ss is_order (λ i lt.
        let (v, here) = get_elem?_lt reviews i (omega (arith, size)) in
        (v, reviewed.at i v here)) in
      ran
      ∙ ap ok (
          all_at reports reviews (same ∙ sym size) (λ i v here.
            let lt = some_lt reviews i v here in
            places i v (omega (arith, size, lt)) (reviewed.at i v here)))

-- The constructor of the executor makes a simulator for each pod, in the order of the pods. All of them start from
-- the same framework, with nothing simulated and with the limit of the options.
pub new_ce_simulator_executor-map :
    {W : Type 0} (b : Builder W Hook) (limits : Limits) (f : Framework W Hook)
    → build_framework b limits.scheduler_config limits.kube_config
        (framework_options limits.exclude_nodes)
      ≡ ok f
    → (pods : List Pod)
    → new_ce_simulator_executor b limits pods
      ≡ ok (
          map
            (λ p. record {
              framework = f;
              pod_generator = record { counter = 0; pod_template = p };
              simulated_pod = p;
              max_simulated = limits.max_limit;
              simulated = 0;
            })
            pods)
unfolding new_ce_simulator_executor new_simulator new_single_pod_generator
new_ce_simulator_executor-map b limits f built [] = refl
new_ce_simulator_executor-map b limits f built (p ∷ pods) =
    rw (built, new_ce_simulator_executor-map b limits f built pods, new_ce_simulator, cons) refl
