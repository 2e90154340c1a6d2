-- ===== src/Compression/Select.antt =====
-- singleNodeFilter of nodeFilter.go: the candidates are listed once, handed out one by one, and
-- listed anew when all have been.
pub mod Queue
pub mod Reasons
use kluster_capacity.Base.{
  ℕ, zero, suc, ◌+◌, String, ◌<>◌, Bool, true, false, not, ◌&&◌, List, [], ◌∷◌, ◌++◌, Option, none,
  some, ltb, eqb, ◌==◌, if◌then◌else◌, get_elem?, length, map,
}
use kluster_capacity.Base.Dict.{Dict, lookup, insert, erase}
use kluster_capacity.Base.Int.{ℤ, pos, negsuc, sub_ℕ, show_int}
use kluster_capacity.Base.Monad.{Result, ok, err, panic, stuck}
use kluster_capacity.Kube.{Node}
use kluster_capacity.Compression.Filter.{Reason, FilterStatus, success, refused, taint_node, text}

-- The fields of the struct that change; the filter and the client are arguments.
pub record NodeSelector : Type 0 where
  pub selected_count : ℕ
  pub candidate_node : List Node
  pub candidate_index : ℕ

-- `Status`: a node, or why there is none.
pub data Selection : Type 0 where
  chosen : Node → Selection
  nothing : String → Selection

unfoldable pub done : NodeSelector → NodeSelector
done g = record g { selected_count = g.selected_count + 1 }

-- `statusMap[status.ErrReason]++`
abbrev or_zero : Option ℕ → ℕ
or_zero none = 0
or_zero (some n) = n

abbrev pub increment : String → Dict ℕ → Dict ℕ
increment key m = insert key (or_zero (lookup key m) + 1) m

unfoldable pub count_reasons : Dict ℕ → List Reason → Dict ℕ
count_reasons m [] = m
count_reasons m (r ∷ rs) = count_reasons (increment (text r) m) rs

abbrev as_ints : Dict ℕ → Dict ℤ
as_ints [] = []
as_ints ((key, n) ∷ m) = (key, pos n) ∷ as_ints m

abbrev adjust_taint : Option ℕ → ℕ → Dict ℤ → Dict ℤ
adjust_taint none selected m = m
adjust_taint (some count) selected m =
    if eqb count selected
    then erase (text taint_node) m
    else insert (text taint_node) (sub_ℕ count selected) m

-- The map that the message is printed from: from the taints the number of selected nodes is subtracted.
unfoldable pub reason_counts : List Reason → (selected_count : ℕ) → Dict ℤ
unfolding count_reasons
reason_counts reasons selected =
    let m = count_reasons [] reasons in
    adjust_taint (lookup (text taint_node) m) selected (as_ints m)

print_counts : Dict ℤ → String
print_counts [] = ""
print_counts ((reason, n) ∷ m) = show_int n <> (" " <> (reason <> ("; " <> print_counts m)))

-- `range` is the order in which Go visits the map.
unfoldable pub convert_filter_statuses : (Dict ℤ → Dict ℤ) → List Reason → ℕ → Selection
unfolding reason_counts print_counts
convert_filter_statuses range reasons selected =
    nothing (print_counts (range (reason_counts reasons selected)))

-- The results of the parallel filter, in the order of the nodes.
abbrev pub is_success : FilterStatus → Bool
is_success success = true
is_success (refused r) = false

unfoldable pub accepted : (Node → FilterStatus) → List Node → List Node
accepted filter [] = []
accepted filter (n ∷ ns) =
    if is_success (filter n) then n ∷ accepted filter ns else accepted filter ns

abbrev with_reason : FilterStatus → List Reason → List Reason
with_reason success rs = rs
with_reason (refused r) rs = r ∷ rs

unfoldable pub refusals : (Node → FilterStatus) → List Node → List Reason
refusals filter [] = []
refusals filter (n ∷ ns) = with_reason (filter n) (refusals filter ns)

module _ (range : Dict ℤ → Dict ℤ) (filter : Node → FilterStatus) where
  -- The first node of a new list of candidates.
  abbrev first_of_new : List Node → List Reason → NodeSelector → Option Selection × NodeSelector
  first_of_new [] reasons g = (
    some (convert_filter_statuses range reasons g.selected_count),
    record g { candidate_node = []; candidate_index = 0 },
  )
  first_of_new (n ∷ ns) reasons g =
      (some (chosen n), record g { candidate_node = n ∷ ns; candidate_index = 1 })

  -- `none` is the nil status of a failed list.
  relist : Result (List Node) → NodeSelector → Option Selection × NodeSelector
  unfolding accepted refusals
  relist (ok nodes) g = first_of_new (accepted filter nodes) (refusals filter nodes) g
  relist (err m) g = (none, record g { candidate_node = []; candidate_index = 0 })
  relist _ g = (none, record g { candidate_node = []; candidate_index = 0 })

  abbrev advance : NodeSelector → NodeSelector
  advance g =
      if eqb (g.candidate_index + 1) (length g.candidate_node)
      then record g { candidate_node = []; candidate_index = 0 }
      else record g { candidate_index = g.candidate_index + 1 }

  -- The read is in bounds exactly under the guard `candidateIndex <= len(candidateNode)-1`.
  unfoldable pub select_node : Result (List Node) → NodeSelector → Option Selection × NodeSelector
  unfolding relist
  select_node nodes g = elim (get_elem? g.candidate_node g.candidate_index) [
    | some n ↦ (some (chosen n), advance g)
    | none ↦ relist nodes g
  ]
