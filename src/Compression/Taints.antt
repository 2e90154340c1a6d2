-- ===== src/Compression/Taints.antt =====
-- cordon and unCordon: the taint that keeps the scheduler off the node being emptied.
use kluster_capacity.Base.{
  ◌≡◌, refl, ap, ◌∙◌, Bool, true, List, [], ◌∷◌, ◌==◌, all, keep_if, keep_if-all, arith,
}
use kluster_capacity.Kube.{Node, Taint}
use kluster_capacity.Compression.Cluster.{
  taint_node_unschedulable, unschedule_taint, is_other_taint, cordoned, uncordoned,
}

abbrev pub is_unschedule_taint : Taint → Bool
is_unschedule_taint t = t.key == taint_node_unschedulable

keep_if-twice :
    (ts : List Taint)
    → keep_if is_other_taint (keep_if is_other_taint ts) ≡ keep_if is_other_taint ts
keep_if-twice [] = refl
keep_if-twice (t ∷ ts) = ground (arith, keep_if-twice ts)

no_unschedule_taint :
    (ts : List Taint) → keep_if is_unschedule_taint (keep_if is_other_taint ts) ≡ []
no_unschedule_taint [] = refl
no_unschedule_taint (t ∷ ts) = ground (arith, no_unschedule_taint ts)

-- A cordoned node has the taint `unschedulable` exactly once, and its other taints as they were.
pub cordoned_taints :
    (n : Node)
    → (keep_if is_unschedule_taint (cordoned n).taints ≡ unschedule_taint ∷ [])
      × (keep_if is_other_taint (cordoned n).taints ≡ keep_if is_other_taint n.taints)
unfolding cordoned
cordoned_taints n =
    (ap (◌∷◌ unschedule_taint) (no_unschedule_taint n.taints), keep_if-twice n.taints)

-- Cordoning and uncordoning a node gives it back unchanged if it did not have the taint `unschedulable`.
pub uncordoned-cordoned :
    (n : Node) → all is_other_taint n.taints ≡ true → uncordoned (cordoned n) ≡ n
unfolding cordoned uncordoned
uncordoned-cordoned n h =
    ap (λ ts. record n { taints = ts })
      (keep_if-twice n.taints ∙ keep_if-all is_other_taint n.taints h)
