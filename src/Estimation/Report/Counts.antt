-- ===== src/Estimation/Report/Counts.antt =====
-- The report counts every pod once.
use kluster_capacity.Base.{
  ℕ, zero, suc, ◌+◌, ◌%◌, ◌<◌, ◌≡◌, refl, ap, subst, ◌∙◌, String, Bool, true, false, ◌==◌, eq_iff,
  List, [], ◌∷◌, ◌++◌, any, All, length, if◌then◌else◌, arith, Bool-cases, inl, inr,
}
use kluster_capacity.Base.Monad.{ok}
use kluster_capacity.Kube.{Pod}
use kluster_capacity.Status.{Status}
use kluster_capacity.Estimation.Report.{
  ReplicasOnNode, ReviewResult, is_on, bump, place, place_at, place_pods, blank, parse_pods_review,
  new_entry,
}

-- The replicas on the nodes that a test picks, in one result and in all.
abbrev pub replicas_on : (String → Bool) → List ReplicasOnNode → ℕ
replicas_on f [] = 0
replicas_on f (r ∷ rs) = (if f r.node_name then r.replicas else 0) + replicas_on f rs

abbrev pub total_on : (String → Bool) → List ReviewResult → ℕ
total_on f [] = 0
total_on f (r ∷ rs) = replicas_on f r.replicas_on_nodes + total_on f rs

abbrev pub pods_on : (String → Bool) → List Pod → ℕ
pods_on f [] = 0
pods_on f (p ∷ ps) = (if f p.spec.node_name then 1 else 0) + pods_on f ps

abbrev one : (String → Bool) → String → ℕ
one f node = if f node then 1 else 0

-- No node has two entries.
abbrev Unique : List ReplicasOnNode → Type 0
Unique [] = Unit
Unique (r ∷ rs) = (any (is_on r.node_name) rs ≡ false) × Unique rs

any-bump :
    (k node : String) (rs : List ReplicasOnNode) → any (is_on k) (bump node rs) ≡ any (is_on k) rs
any-bump k node [] = refl
any-bump k node (r ∷ rs) = ground (arith, any-bump k node rs)

bump-Unique : (node : String) (rs : List ReplicasOnNode) → Unique rs → Unique (bump node rs)
bump-Unique node [] u = tt
bump-Unique node (r ∷ rs) u = ground (arith, any-bump r.node_name node rs, bump-Unique node rs u.1)

any-append :
    (f : ReplicasOnNode → Bool) (rs : List ReplicasOnNode) (r : ReplicasOnNode)
    → any f (rs ++ (r ∷ [])) ≡ (if any f rs then true else f r)
any-append f [] r = ground arith
any-append f (q ∷ rs) r = ground (arith, any-append f rs r)

append-Unique :
    (node : String) (rs : List ReplicasOnNode)
    → any (is_on node) rs ≡ false
    → Unique rs
    → Unique (rs ++ (new_entry node ∷ []))
append-Unique node [] h u = (refl, tt)
append-Unique node (r ∷ rs) h u = ground (
  arith,
  any-append (is_on r.node_name) rs (new_entry node),
  append-Unique node rs,
  eq_iff node r.node_name,
  eq_iff r.node_name node,
)

place-Unique : (node : String) (rs : List ReplicasOnNode) → Unique rs → Unique (place node rs)
place-Unique node rs u = elim (Bool-cases (any (is_on node) rs)) [
  | inl e ↦ rw e (bump-Unique node rs u)
  | inr e ↦ rw e (append-Unique node rs e u)
]

replicas_on-bump_other :
    (f : String → Bool) (node : String) (rs : List ReplicasOnNode)
    → any (is_on node) rs ≡ false
    → replicas_on f (bump node rs) ≡ replicas_on f rs
replicas_on-bump_other f node [] h = refl
replicas_on-bump_other f node (r ∷ rs) h = ground (arith, replicas_on-bump_other f node rs)

replicas_on-bump :
    (f : String → Bool) (node : String) (rs : List ReplicasOnNode)
    → Unique rs
    → any (is_on node) rs ≡ true
    → replicas_on f (bump node rs) ≡ replicas_on f rs + one f node
replicas_on-bump f node [] u h = ground arith
replicas_on-bump f node (r ∷ rs) u h = elim (Bool-cases (r.node_name == node)) [
  | inl e ↦
      let same = (eq_iff r.node_name node).0 e in
      let rest =
        replicas_on-bump_other f node rs (subst (λ n. any (is_on n) rs ≡ false) same u.0) in
      let agree = ap f same in rw e (ground arith)
  | inr e ↦ ground (arith, replicas_on-bump f node rs u.1)
]

replicas_on-append :
    (f : String → Bool) (node : String) (rs : List ReplicasOnNode)
    → replicas_on f (rs ++ (new_entry node ∷ [])) ≡ replicas_on f rs + one f node
replicas_on-append f node [] = ground arith
replicas_on-append f node (r ∷ rs) = ground (arith, replicas_on-append f node rs)

replicas_on-place :
    (f : String → Bool) (node : String) (rs : List ReplicasOnNode)
    → Unique rs
    → replicas_on f (place node rs) ≡ replicas_on f rs + one f node
replicas_on-place f node rs u = elim (Bool-cases (any (is_on node) rs)) [
  | inl e ↦ rw e (replicas_on-bump f node rs u e)
  | inr e ↦ rw e (replicas_on-append f node rs)
]

abbrev AllUnique : List ReviewResult → Type 0
AllUnique = All (λ r. Unique r.replicas_on_nodes)

place_at-AllUnique :
    (i : ℕ) (node : String) (rs : List ReviewResult) → AllUnique rs → AllUnique (place_at i node rs)
place_at-AllUnique i node [] u = tt
place_at-AllUnique zero node (r ∷ rs) u = (place-Unique node r.replicas_on_nodes u.0, u.1)
place_at-AllUnique (suc i) node (r ∷ rs) u = (u.0, place_at-AllUnique i node rs u.1)

length-place_at :
    (i : ℕ) (node : String) (rs : List ReviewResult) → length (place_at i node rs) ≡ length rs
length-place_at i node [] = refl
length-place_at zero node (r ∷ rs) = refl
length-place_at (suc i) node (r ∷ rs) = ground (arith, length-place_at i node rs)

total_on-place_at :
    (f : String → Bool) (i : ℕ) (node : String) (rs : List ReviewResult)
    → i < length rs
    → AllUnique rs
    → total_on f (place_at i node rs) ≡ total_on f rs + one f node
total_on-place_at f i node [] h u = absurd (omega arith)
total_on-place_at f zero node (r ∷ rs) h u =
    let placed = replicas_on-place f node r.replicas_on_nodes u.0 in omega arith
total_on-place_at f (suc i) node (r ∷ rs) h u =
    let rest = total_on-place_at f i node rs (omega arith) u.1 in omega arith

total_on-place_pods :
    (f : String → Bool) (count i : ℕ) (ps : List Pod) (rs : List ReviewResult)
    → 0 < count
    → length rs ≡ count
    → AllUnique rs
    → total_on f (place_pods count i ps rs) ≡ total_on f rs + pods_on f ps
unfolding place_pods
total_on-place_pods f count i [] rs h l u = omega arith
total_on-place_pods f count i (p ∷ ps) rs h l u =
    let node = p.spec.node_name in
    let rest =
      total_on-place_pods f count (i + 1) ps (place_at (i % count) node rs) h
        (length-place_at (i % count) node rs ∙ l) (place_at-AllUnique (i % count) node rs u) in
    let here = total_on-place_at f (i % count) node rs (omega arith) u in omega arith

length-blank : (ts : List Pod) → length (blank ts) ≡ length ts
length-blank [] = refl
length-blank (t ∷ ts) = omega (arith, length-blank ts)

blank-AllUnique : (ts : List Pod) → AllUnique (blank ts)
blank-AllUnique [] = tt
blank-AllUnique (t ∷ ts) = (tt, blank-AllUnique ts)

total_on-blank : (f : String → Bool) (ts : List Pod) → total_on f (blank ts) ≡ 0
total_on-blank f [] = refl
total_on-blank f (t ∷ ts) = omega (arith, total_on-blank f ts)

-- With at least one template the pods are parsed without a panic, and on any choice of nodes the
-- replicas of all results add up to the number of estimated pods on these nodes.
pub parse_pods_review-total :
    (t : Pod) (ts : List Pod) (status : Status)
    → (rs : List ReviewResult) × (parse_pods_review (t ∷ ts) status ≡ ok rs)
      × ((f : String → Bool) → total_on f rs ≡ pods_on f status.pods_for_estimation)
unfolding parse_pods_review
parse_pods_review-total t ts status = (
  _,
  refl,
  λ f.
      let start = total_on-blank f (t ∷ ts) in
      let all =
        total_on-place_pods f (length (t ∷ ts)) 0 status.pods_for_estimation (blank (t ∷ ts))
          (omega arith) (length-blank (t ∷ ts)) (blank-AllUnique (t ∷ ts)) in
      omega arith,
)
