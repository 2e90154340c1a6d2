-- ===== src/Compression/Once/Queue.antt =====
-- A candidate that is taken from the queue, or from a new one, has not been reported.
use kluster_capacity.Base.{
  ℕ, ◌≡◌, refl, sym, ap, ◌∙◌, String, true, false, List, [], ◌∷◌, All, any, ◌==◌, eq_iff, Option,
  none, some, arith, Bool-cases, inl, inr,
}
use kluster_capacity.Base.Int.{ℤ}
use kluster_capacity.Base.Dict.{Dict}
use kluster_capacity.Base.Monad.{ok, ok-injective}
use kluster_capacity.Kube.{Node}
use kluster_capacity.Env.Laws.{first_node}
use kluster_capacity.Compression.Filter.{FilterStatus, Reason, success}
use kluster_capacity.Compression.Labels.{is_labelled, is_success-eq, Unique, other_name}
use kluster_capacity.Compression.Select.{
  Selection, chosen, nothing, accepted, is_success, refusals, convert_filter_statuses,
}
use kluster_capacity.Compression.Select.Queue.{pop, refill}
use kluster_capacity.Compression.Once.State.{Labelled, Waits}

module _ (filter : Node → FilterStatus)
    (refuses : (n : Node) → filter n ≡ success → is_labelled n ≡ false) where
  any-accepted :
      (name : String) (ns : List Node)
      → any (λ m. m.name == name) ns ≡ false
      → any (λ m. m.name == name) (accepted filter ns) ≡ false
  unfolding accepted
  any-accepted name [] h = refl
  any-accepted name (n ∷ ns) h = ground (arith, any-accepted name ns)

  accepted-Unique : (ns : List Node) → Unique ns → Unique (accepted filter ns)
  unfolding accepted
  accepted-Unique [] u = tt
  accepted-Unique (n ∷ ns) u = elim (Bool-cases (is_success (filter n))) [
    | inl e ↦ rw e (any-accepted n.name ns u.0, accepted-Unique ns u.1)
    | inr e ↦ rw e (accepted-Unique ns u.1)
  ]

  -- A node of the list that is found by its name, and has no label of success.
  abbrev Open : List Node → Node → Type 0
  Open ns n = (first_node n.name ns ≡ ok n) × (is_labelled n ≡ false)

  Open-more :
      (m : Node) (ns queue : List Node)
      → any (λ x. x.name == m.name) ns ≡ false
      → All (Open ns) queue
      → All (Open (m ∷ ns)) queue
  Open-more m ns [] u all = tt
  Open-more m ns (n ∷ queue) u ((found, free), all) =
      ((other_name m n ns u found, free), Open-more m ns queue u all)

  accepted-Open : (ns : List Node) → Unique ns → All (Open ns) (accepted filter ns)
  unfolding accepted
  accepted-Open [] u = tt
  accepted-Open (n ∷ ns) u =
      let rest = Open-more n ns (accepted filter ns) u.0 (accepted-Open ns u.1) in
      elim (Bool-cases (is_success (filter n))) [
        | inl e ↦
            rw e
              ((ground (arith, eq_iff n.name n.name), refuses n (is_success-eq (filter n) e)), rest)
        | inr e ↦ rw e rest
      ]

module _ (names : List String) (ns : List Node)
    (labelled : (name : String) → any (λ x. x == name) names ≡ true → Labelled ns name) where
  Open-Waits :
      (filter : Node → FilterStatus)
      (refuses : (n : Node) → filter n ≡ success → is_labelled n ≡ false) (queue : List Node)
      → All (Open filter refuses ns) queue
      → All (Waits names ns) queue
  Open-Waits filter refuses [] all = tt
  Open-Waits filter refuses (n ∷ queue) ((found, free), all) = (
    (
      (n, found),
      elim (Bool-cases (any (λ x. x == n.name) names)) [
        | inl e ↦
            let (m, found', l) = labelled n.name e in
            let same : m ≡ n = ok-injective (sym found' ∙ found) in
            absurd (cc (ap (λ x. is_labelled x) same, l, free))
        | inr e ↦ e
      ],
    ),
    Open-Waits filter refuses queue all,
  )

  -- What comes out of the queue, and what is left.
  abbrev pub IsPopped : Option Selection × List Node → Type 0
  IsPopped (none, q) = q ≡ []
  IsPopped (some (nothing reason), q) = q ≡ []
  IsPopped (some (chosen n), q) =
      Waits names ns n × (any (λ m. m.name == n.name) q ≡ false) × All (Waits names ns) q × Unique q

  module _ (range : Dict ℤ → Dict ℤ) (filter : Node → FilterStatus) (selected : ℕ) where
    refill-IsPopped :
        (queue : List Node) (rs : List Reason)
        → All (Waits names ns) queue
        → Unique queue
        → IsPopped (refill range filter selected queue rs)
    unfolding convert_filter_statuses
    refill-IsPopped [] rs all u = refl
    refill-IsPopped (n ∷ queue) rs all u = (all.0, u.0, all.1, u.1)

    pub pop-IsPopped :
        (queue : List Node)
        → ((n : Node) → filter n ≡ success → is_labelled n ≡ false)
        → Unique ns
        → All (Waits names ns) queue
        → Unique queue
        → IsPopped (pop range filter selected (ok ns) queue)
    pop-IsPopped [] refuses unique all u =
        refill-IsPopped (accepted filter ns) (refusals filter ns)
          (Open-Waits filter refuses (accepted filter ns) (accepted-Open filter refuses ns unique))
          (accepted-Unique filter refuses ns unique)
    pop-IsPopped (n ∷ queue) refuses unique all u = (all.0, u.0, all.1, u.1)
