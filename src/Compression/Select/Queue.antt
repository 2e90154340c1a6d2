-- ===== src/Compression/Select/Queue.antt =====
-- The index and the list of singleNodeFilter are a queue of candidates.
use native.Mathlib.Numerals.{add-one}
use kluster_capacity.Base.{
  ℕ, suc, ◌+◌, ◌≡◌, refl, List, [], ◌∷◌, Option, none, some, get_elem?, drop, length,
  drop-get_elem?, arith, Option-cases, inl, inr, eqb, Bool-cases, drop-length, sym,
}
use kluster_capacity.Base.Dict.{Dict}
use kluster_capacity.Base.Int.{ℤ}
use kluster_capacity.Base.Monad.{Result, ok, err, panic, stuck}
use kluster_capacity.Kube.{Node}
use kluster_capacity.Compression.Filter.{Reason, FilterStatus}
use kluster_capacity.Compression.Select.{
  NodeSelector, Selection, chosen, accepted, refusals, convert_filter_statuses, select_node, relist,
  advance, first_of_new,
}

-- The candidates still to be handed out.
abbrev pub pending : NodeSelector → List Node
pending g = drop g.candidate_index g.candidate_node

module _ (range : Dict ℤ → Dict ℤ) (filter : Node → FilterStatus) (selected : ℕ) where
  -- The queue's head, of what a new list gives if the queue is empty.
  abbrev pub refill : List Node → List Reason → Option Selection × List Node
  refill [] reasons = (some (convert_filter_statuses range reasons selected), [])
  refill (n ∷ ns) reasons = (some (chosen n), ns)

  abbrev pub pop : Result (List Node) → List Node → Option Selection × List Node
  pop nodes (n ∷ ns) = (some (chosen n), ns)
  pop (ok nodes) [] = refill (accepted filter nodes) (refusals filter nodes)
  pop (err m) [] = (none, [])
  pop panic [] = (none, [])
  pop stuck [] = (none, [])

-- Past the last candidate nothing is left.
drop-get_elem?-none : {A : Type 0} (i : ℕ) (xs : List A) → get_elem? xs i ≡ none → drop i xs ≡ []
drop-get_elem?-none ℕ.zero [] e = refl
drop-get_elem?-none ℕ.zero (x ∷ xs) e = ground arith
drop-get_elem?-none (suc i) [] e = refl
drop-get_elem?-none (suc i) (x ∷ xs) e = drop-get_elem?-none i xs e

drop_all : {A : Type 0} (n : ℕ) (xs : List A) → n ≡ length xs → drop n xs ≡ []
drop_all n xs e = rw e (drop-length xs)

-- What a caller sees of a call: its answer and the queue.
abbrev pub view : Option Selection × NodeSelector → Option Selection × List Node
view r = (r.0, pending r.1)

module _ (range : Dict ℤ → Dict ℤ) (filter : Node → FilterStatus) where
  pending-advance :
      (g : NodeSelector)
      → pending (advance range filter g) ≡ drop (suc g.candidate_index) g.candidate_node
  pending-advance g = elim (Bool-cases (eqb (g.candidate_index + 1) (length g.candidate_node))) [
    | inl e ↦ rw e (sym (drop_all (suc g.candidate_index) g.candidate_node (ground arith)))
    | inr e ↦ rw e (rw add-one refl)
  ]

  first_of_new-refill :
      (ns : List Node) (rs : List Reason) (g : NodeSelector)
      → view (first_of_new range filter ns rs g) ≡ refill range filter g.selected_count ns rs
  first_of_new-refill [] rs g = refl
  first_of_new-refill (n ∷ ns) rs g = refl

  pending-relist :
      (nodes : Result (List Node)) (g : NodeSelector)
      → view (relist range filter nodes g) ≡ pop range filter g.selected_count nodes []
  unfolding relist
  pending-relist (ok nodes) g = first_of_new-refill (accepted filter nodes) _ g
  pending-relist (err m) g = refl
  pending-relist panic g = refl
  pending-relist stuck g = refl

  -- `SelectNode` pops the queue of candidates: it hands out the next one, and lists and filters the
  -- nodes anew exactly when the queue is empty, whatever index and list represent the queue.
  pub select_node-pop :
      (nodes : Result (List Node)) (g : NodeSelector)
      → view (select_node range filter nodes g)
        ≡ pop range filter g.selected_count nodes (pending g)
  unfolding select_node
  select_node-pop nodes g = elim (Option-cases (get_elem? g.candidate_node g.candidate_index)) [
    | inl e ↦
        rw (e, select_node)
          (rw (drop-get_elem?-none g.candidate_index g.candidate_node e) (pending-relist nodes g))
    | inr (n, e) ↦
        rw (e, select_node)
          (rw (drop-get_elem? g.candidate_index g.candidate_node e) (rw (pending-advance g)))
  ]
