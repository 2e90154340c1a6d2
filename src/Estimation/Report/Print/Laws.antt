-- ===== src/Estimation/Report/Print/Laws.antt =====
-- What is printed of the reports of all pods.
use kluster_capacity.Base.{
  ℕ, ◌+◌, String, ◌<>◌, ◌≡◌, ◌≢◌, sym, ap, ◌∙◌, Bool, true, false, List, [], ◌∷◌, ◌++◌, append-nil,
  append_assoc, eq_iff, arith,
}
use kluster_capacity.Base.Int.{ℤ}
use kluster_capacity.Base.Monad.{ok, err, ◌>>◌, >>=-ok}
use kluster_capacity.Print.{Output, print_line, not_recognized}
use kluster_capacity.StopReason.{newline}
use kluster_capacity.Estimation.Report.{Review, Requirements}
use kluster_capacity.Estimation.Report.Print.{
  Printing, Rows, print_loop, print_reviews, print_one, separate, when,
}

module _ (printing : Printing) where
  open printing use {encoders, marshal_requirements, render}

  -- A row for each review: its first requirements in JSON, and how many copies of the pod fit.
  abbrev pub Tabulates : List Review → Rows → Type 0
  Tabulates [] rows = rows ≡ []
  Tabulates (r ∷ rs) rows =
      (req : Requirements) × (reqs : List Requirements) × (text : String) × (rest : Rows)
      × (r.spec.pod_requirements ≡ req ∷ reqs)
      × (marshal_requirements req ≡ ok text)
      × (rows ≡ (text, r.status.replicas) ∷ rest)
      × Tabulates rs rest

  print_loop-rows :
      (i : ℕ) (rs : List Review) (before rows : Rows) (out : Output)
      → Tabulates rs rows
      → print_loop printing false "" i rs before out ≡ (ok (before ++ rows), out)
  unfolding print_loop
  print_loop-rows i [] before rows out same =
      ap (λ l. (ok l, out)) (sym (append-nil before) ∙ ap (λ l. before ++ l) (sym same))
  print_loop-rows i (r ∷ rs) before rows out (req, reqs, text, rest, spec, marshal, same, more) =
      let row : String × ℤ = (text, r.status.replicas) in
      let loop = print_loop printing false "" (i + 1) rs in
      let one = print_one printing false "" r before in
      let printed : one out ≡ (ok (before ++ (row ∷ [])), out) = ground arith in
      >>=-ok (separate printing false "" i >> one) loop out out
        (>>=-ok (separate printing false "" i) (λ _. one) out out (ground arith) ∙ printed)
      ∙ print_loop-rows (i + 1) rs (before ++ (row ∷ [])) rest out more
      ∙ ap (λ l. (ok l, out))
          (append_assoc before (row ∷ []) rest ∙ ap (λ l. before ++ l) (sym same))

  -- Without a format, and not in verbose mode, all that is printed is one table. It has a row for each review, in
  -- their order, if the requirements of each can be encoded.
  pub print_reviews-table :
      (rs : List Review) (rows : Rows) (out : Output)
      → Tabulates rs rows
      → print_reviews printing false "" rs out ≡ (ok tt, out ++ ((render rows <> newline) ∷ []))
  unfolding print_reviews
  print_reviews-table rs rows out h =
      >>=-ok (print_loop printing false "" 0 rs []) (λ rows'. when true (print_line (render rows')))
        out out (print_loop-rows 0 rs [] rows out h)

  -- A format that is not known is an error if there is a review to print, and nothing is printed.
  pub print_reviews-refuses :
      (verbose : Bool) (format : String) (r : Review) (rs : List Review) (out : Output)
      → format ≢ "json"
      → format ≢ "yaml"
      → format ≢ ""
      → print_reviews printing verbose format (r ∷ rs) out
        ≡ (err (not_recognized encoders format), out)
  unfolding print_reviews print_loop
  print_reviews-refuses verbose format r rs out json yaml none' =
      ground (arith, eq_iff format "json", eq_iff format "yaml", eq_iff format "")
