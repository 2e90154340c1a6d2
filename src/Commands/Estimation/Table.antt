-- ===== src/Commands/Estimation/Table.antt =====
-- A run of the command ce from its options to the table that it prints.
use kluster_capacity.Base.{
  ℕ, suc, ◌≡◌, refl, sym, ap, ◌∙◌, String, ◌<>◌, false, List, [], ◌∷◌, ◌++◌, map, Option, none,
  some, get_elem?, length, All,
}
use kluster_capacity.Base.Monad.{
  Result, ok, err, panic, stuck, Action, ok-injective, lift, >>=-ok, ◌>>=◌,
}
use kluster_capacity.Kube.{Pod, Object, Resource}
use kluster_capacity.Env.{Env}
use kluster_capacity.Executor.{Builder}
use kluster_capacity.StopReason.{newline}
use kluster_capacity.Print.{Output}
use kluster_capacity.Commands.Estimation.{CapacityEstimationOptions}
use kluster_capacity.Commands.Estimation.Spec.{
  Web, all_set, parse_api_spec, limits_of, run, run_ce_simulator, pods_of, print_wrapped, run_made,
  run_filled, found, print_set, wrapped,
}
use kluster_capacity.Estimation.{Simulator, Hook, initialize_all, run_simulator}
use kluster_capacity.Estimation.Executor.{
  new_ce_simulator_executor, run_all, report, run_and_report,
}
use kluster_capacity.Estimation.Executor.Slots.{IsOrder}
use kluster_capacity.Estimation.Executor.Laws.{WaitLaws, Reviewed, outcome, run_all-reports}
use kluster_capacity.Estimation.Report.{
  Review, ReviewSpec, ReviewStatus, Requirements, generate_report, with_status, get_review_spec,
  get_review_status, get_pods_requirements,
}
use kluster_capacity.Estimation.Report.Print.{Printing, Rows, print_reviews}
use kluster_capacity.Estimation.Report.Print.Laws.{Tabulates, print_reviews-table}

-- A report names the requirements of a pod.
abbrev pub HasRequirements : Review → Type 0
HasRequirements r =
    (req : Requirements) × (reqs : List Requirements) × (r.spec.pod_requirements ≡ req ∷ reqs)

all_set-ok : (reviews : List Review) → all_set (map some reviews) ≡ ok reviews
all_set-ok [] = refl
all_set-ok (r ∷ reviews) = rw (all_set-ok reviews) refl

All-get_elem? :
    (P : Review → Type 0) (reviews : List Review)
    → ((i : ℕ) (v : Review) → get_elem? reviews i ≡ some v → P v)
    → All P reviews
All-get_elem? P [] h = tt
All-get_elem? P (r ∷ reviews) h =
    (h 0 r refl, All-get_elem? P reviews (λ i v here. h (suc i) v here))

module _ (printing : Printing) where
  tabulate :
      ((req : Requirements) → (text : String) × (printing.marshal_requirements req ≡ ok text))
      → (reviews : List Review) → All HasRequirements reviews
      → (rows : Rows) × Tabulates printing reviews rows
        × (map (λ row. row.1) rows ≡ map (λ r. r.status.replicas) reviews)
  tabulate marshal [] h = ([], refl, refl)
  tabulate marshal (r ∷ reviews) ((req, reqs, here), more) =
      let (text, good) = marshal req in
      let (rows, tabulated, same) = tabulate marshal reviews more in
      (
        (text, r.status.replicas) ∷ rows,
        (req, reqs, text, rows, here, good, refl, tabulated),
        (λ i. r.status.replicas ∷ same i),
      )

module _ (e : Env) (compute : Pod → Resource)
    (schedule : ℕ → Action (Simulator e.World) (Unit {0})) where
  open e use {World}

  with_status-spec :
      (spec : ReviewSpec) (q : Result ReviewStatus) (v : Review)
      → with_status spec q ≡ ok v
      → v.spec ≡ spec
  with_status-spec spec (ok status) v h = ap (λ (r : Review). r.spec) (sym (ok-injective h))
  with_status-spec spec (err m) v h = cc h
  with_status-spec spec panic v h = cc h
  with_status-spec spec stuck v h = cc h

  report-HasRequirements :
      (s : Simulator World) (v : Review) → report e compute schedule s ≡ ok v → HasRequirements v
  unfolding report generate_report get_pods_requirements
  report-HasRequirements s v h =
      let same =
        with_status-spec (get_review_spec compute (s.simulated_pod ∷ []))
          (get_review_status (s.simulated_pod ∷ []) s.framework.status) v h in
      (_, [], ap (λ (spec : ReviewSpec). spec.pod_requirements) same)

  run-HasRequirements :
      (x : Result (Unit {0}) × Simulator World) (v : Review)
      → (elim x.0 [
        | ok u ↦ report e compute schedule x.1
        | err m ↦ err m
        | panic ↦ panic
        | stuck ↦ stuck
      ])
        ≡ ok v
      → HasRequirements v
  run-HasRequirements (ok u, t) v h = report-HasRequirements t v h
  run-HasRequirements (err m, t) v h = cc h
  run-HasRequirements (panic, t) v h = cc h
  run-HasRequirements (stuck, t) v h = cc h

  place-HasRequirements :
      (i : ℕ) (o : Option (Simulator World)) (v : Review)
      → (elim o [ none ↦ panic | some s ↦ (run_and_report e compute schedule i s).0 ]) ≡ ok v
      → HasRequirements v
  place-HasRequirements i none v h = cc h
  place-HasRequirements i (some s) v h = run-HasRequirements (run_simulator e (schedule i) s) v h

  outcome-HasRequirements :
      (ss : List (Simulator World)) (i : ℕ) (v : Review)
      → outcome e compute schedule ss i ≡ ok v
      → HasRequirements v
  outcome-HasRequirements ss i v h = place-HasRequirements i (get_elem? ss i) v h

module _ (e : Env) (b : Builder e.World Hook) (web : Web) (cluster : List (Result Object))
    (compute : Pod → Resource) (schedule : ℕ → Action (Simulator e.World) (Unit {0}))
    (wait : List (Option String) → Option String) (order : List ℕ) (printing : Printing) where
  open e use {World}

  -- The simulators of the pods of the options, filled with the objects of the cluster.
  abbrev pub IsStarted : CapacityEstimationOptions → List Pod → List (Simulator World) → Type 0
  IsStarted opt pods ts =
      (parse_api_spec web b.packages opt [] ≡ (ok tt, pods))
      × (ss : List (Simulator World)) × (new_ce_simulator_executor b (limits_of opt) pods ≡ ok ss)
      × (initialize_all e cluster [] ss ≡ (ok tt, ts))

  run_ce_simulator-ok :
      (opt : CapacityEstimationOptions) (pods : List Pod) (ts : List (Simulator World))
      (reports : List (Option Review))
      → IsStarted opt pods ts
      → run_all e compute schedule wait order ts ≡ ok reports
      → run_ce_simulator e b web cluster compute schedule wait order printing opt pods ≡ ok reports
  unfolding run_ce_simulator
  run_ce_simulator-ok opt pods ts reports (parsed, ss, made, filled) ran =
      ap (run_made e b web cluster compute schedule wait order printing) made
      ∙ ap (run_filled e b web cluster compute schedule wait order printing) filled
      ∙ ran

  -- A run of ce without a format and not in verbose mode. Let its pods be found, the simulators of the pods be made and
  -- filled, each of them end with a report, and requirements be encoded. Then, whatever the order in which the
  -- simulators finish, the run prints one table and nothing else. The table has a row for each simulator, in the
  -- order of the simulators, with the number of replicas of its report.
  pub run-table :
      WaitLaws wait
      → (opt : CapacityEstimationOptions) (pods : List Pod) (ts : List (Simulator World))
        (out : Output)
      → opt.base.verbose ≡ false
      → opt.base.output_format ≡ ""
      → IsStarted opt pods ts
      → IsOrder (length ts) order
      → (reviews : List Review) → Reviewed e compute schedule ts reviews
      → ((req : Requirements) → (text : String) × (printing.marshal_requirements req ≡ ok text))
      → (rows : Rows) × (run e b web cluster compute schedule wait order printing opt out
          ≡ (ok tt, out ++ ((printing.render rows <> newline) ∷ [])))
        × (map (λ row. row.1) rows ≡ map (λ r. r.status.replicas) reviews)
  unfolding run
  run-table laws opt pods ts out quiet plain started is_order reviews reviewed marshal =
      let ran = run_all-reports e compute schedule wait laws order ts is_order reviews reviewed in
      let all =
        All-get_elem? HasRequirements reviews
          (λ i v here. outcome-HasRequirements e compute schedule ts i v (reviewed.at i v here)) in
      let (rows, tabulated, replicas) = tabulate printing marshal reviews all in
      let printed = print_reviews-table printing reviews rows out tabulated in
      let print = print_wrapped e b web cluster compute schedule wait order printing opt in
      let simulate = λ (ps : List Pod).
        lift {S = Output}
          (run_ce_simulator e b web cluster compute schedule wait order printing opt ps)
        >>= print in
      let found' = ap (found e b web cluster compute schedule wait order printing) started.0 in
      let simulated = run_ce_simulator-ok opt pods ts (map some reviews) started ran in
      (
        rows,
        >>=-ok (lift (pods_of e b web cluster compute schedule wait order printing opt)) simulate
              out out (ap (λ r. (r, out)) found')
            ∙ >>=-ok
                (lift
                  (run_ce_simulator e b web cluster compute schedule wait order printing opt pods))
                print out out (ap (λ r. (r, out)) simulated)
            ∙ ap (λ r. print_set e b web cluster compute schedule wait order printing opt r out)
                (all_set-ok reviews)
            ∙ ap (wrapped e b web cluster compute schedule wait order printing)
                ((λ i. print_reviews printing (quiet i) (plain i) reviews out) ∙ printed),
        replicas,
      )
