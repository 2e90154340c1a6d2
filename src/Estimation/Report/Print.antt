-- ===== src/Estimation/Report/Print.antt =====
-- The printing of report.go.
pub mod Laws
use kluster_capacity.Base.{
  ℕ, suc, ◌+◌, String, ◌<>◌, Bool, false, not, ◌&&◌, ◌||◌, List, [], ◌∷◌, ◌++◌, Option, none, some,
  ◌==◌, ltb, if◌then◌else◌,
}
use kluster_capacity.Base.Dict.{Dict}
use kluster_capacity.Base.Int.{ℤ, pos, negsuc}
use kluster_capacity.Base.Text.{show_nat}
use kluster_capacity.Base.Monad.{
  Result, ok, err, panic, stuck, Action, ◌>>=◌, ◌>>◌, pure, raise, lift,
}
use kluster_capacity.Print.{
  Output, Encoders, print, print_line, for_each, print_json, print_yaml, not_recognized,
}
use kluster_capacity.StopReason.{newline}
use kluster_capacity.Estimation.Report.{
  Review, Requirements, ReviewResult, ReplicasOnNode, StopReasonSummary, instances_sum,
}

-- What the report is printed with: the encoders, the verb %v of a map, a selector as a text, the JSON of the
-- requirements of a pod, and the table of go-pretty, whose header is "spec", "replicas", with its rows.
pub record Printing : Type 0 where
  pub encoders : Encoders Review
  pub show_scalars : Dict ℕ → String
  pub show_selector : Dict String → String
  pub marshal_requirements : Requirements → Result String
  pub render : List (String × ℤ) → String

abbrev pub Rows : Type 0
Rows = List (String × ℤ)

abbrev pub when : Bool → Action Output (Unit {0}) → Action Output (Unit {0})
when b m = if b then m else pure tt

abbrev pub instances_line : Bool → ReviewResult → String
instances_line verbose pod =
    let instances = show_nat (instances_sum pod.replicas_on_nodes) in
    if verbose
    then "The cluster can schedule "
      <> (instances <> (" instance(s) of the pod " <> (pod.pod_name <> ".")))
    else instances

abbrev print_summary : Option (List StopReasonSummary) → Action Output (Unit {0})
print_summary none = pure tt
print_summary (some summary) = do
  print "fit failure summary on nodes: "
  for_each (λ fs. print (fs.reason <> (" (" <> (show_nat fs.count <> "), ")))) summary
  print newline

abbrev print_node : ReplicasOnNode → Action Output (Unit {0})
print_node ron =
    print_line ("\t- " <> (ron.node_name <> (": " <> (show_nat ron.replicas <> " instance(s)"))))

print_distribution : Review → Action Output (Unit {0})
print_distribution r = do
  for_each (λ pod. print_summary pod.summary) r.status.pods
  print_line (newline <> "Pod distribution among nodes:")
  for_each (λ pod. print_line pod.pod_name >> for_each print_node pod.replicas_on_nodes)
      r.status.pods

abbrev is_positive : ℤ → Bool
is_positive (pos n) = ltb 0 n
is_positive (negsuc n) = false

module _ (printing : Printing) where
  open printing use {encoders, show_scalars, show_selector, marshal_requirements, render}

  abbrev print_scalars : Option (Dict ℕ) → Action Output (Unit {0})
  print_scalars none = pure tt
  print_scalars (some m) = print_line ("\t- ScalarResources: " <> show_scalars m)

  abbrev print_selectors : Option (Dict String) → Action Output (Unit {0})
  print_selectors none = pure tt
  print_selectors (some m) = print_line ("\t- NodeSelector: " <> show_selector m)

  print_requirements : Requirements → Action Output (Unit {0})
  print_requirements req = do
    print_line (req.pod_name <> " pod requirements:")
    print_line ("\t- CPU(m): " <> show_nat req.resources.milli_cpu)
    print_line ("\t- Memory(B): " <> show_nat req.resources.memory)
    print_scalars req.resources.scalar_resources
    print_selectors req.node_selectors
    print newline

  -- capacityEstimationReviewPrettyPrint
  unfoldable pub pretty_print : Bool → Review → Action Output (Unit {0})
  unfolding print_requirements print_distribution
  pretty_print verbose r = do
    when verbose (for_each print_requirements r.spec.pod_requirements)
    for_each (λ pod. print_line (instances_line verbose pod)) r.status.pods
    when verbose (
        print_line (
          newline
          <> ("Termination reason: "
              <> (r.status.stop_reason.stop_type <> (": " <> r.status.stop_reason.stop_message)))))
    when (verbose && is_positive r.status.replicas) (print_distribution r)

  -- The method Print of one review.
  unfoldable pub print_review :
      (verbose : Bool) → (format : String) → Review → Action Output (Unit {0})
  unfolding print_json print_yaml pretty_print
  print_review verbose format r =
      if format == "json"
      then print_json encoders r
      else if format == "yaml"
      then print_yaml encoders r
      else if format == ""
      then pretty_print verbose r
      else raise (not_recognized encoders format)

  -- A row of the table; reading the first of no requirements panics.
  abbrev pub row_of : Review → Result (String × ℤ)
  row_of r = elim r.spec.pod_requirements [
    | [] ↦ panic
    | req ∷ reqs ↦ elim (marshal_requirements req) [
      | ok text ↦ ok (text, r.status.replicas)
      | err m ↦ err m
      | panic ↦ panic
      | stuck ↦ stuck
    ]
  ]

  abbrev pub keep_rows : Rows → Action Output (Unit {0}) → Action Output Rows
  keep_rows rows m = m >>= λ _. pure rows

  -- One round of the loop: what it prints, and the rows of the table after it.
  abbrev pub print_one : (verbose : Bool) → (format : String) → Review → Rows → Action Output Rows
  print_one verbose format r rows =
      if format == "json"
      then keep_rows rows (print_json encoders r)
      else if format == "yaml"
      then keep_rows rows (print_yaml encoders r)
      else if not (format == "")
      then raise (not_recognized encoders format)
      else if verbose
      then keep_rows rows (pretty_print verbose r)
      else lift (row_of r) >>= λ row. pure (rows ++ (row ∷ []))

  abbrev pub separator : String
  separator = "---------------------------------------------------------------"

  abbrev pub separate : (verbose : Bool) → (format : String) → (i : ℕ) → Action Output (Unit {0})
  separate verbose format i =
      when (ltb 0 i && (not (format == "") || verbose)) (print_line separator)

  unfoldable pub print_loop :
      (verbose : Bool) → (format : String) → ℕ → List Review → Rows → Action Output Rows
  print_loop verbose format i [] rows = pure rows
  print_loop verbose format i (r ∷ rs) rows =
      let rest = print_loop verbose format (i + 1) rs in
      (separate verbose format i >> print_one verbose format r rows) >>= rest

  -- The method Print of all reviews.
  unfoldable pub print_reviews :
      (verbose : Bool) → (format : String) → List Review → Action Output (Unit {0})
  unfolding print_loop
  print_reviews verbose format rs = print_loop verbose format 0 rs [] >>= λ rows.
      when (format == "" && not verbose) (print_line (render rows))
