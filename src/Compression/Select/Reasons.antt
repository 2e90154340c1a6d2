-- ===== src/Compression/Select/Reasons.antt =====
-- What the message of a failed selection counts.
use native.Mathlib.Numerals.{add-one}
use kluster_capacity.Base.{
  sym, ap, ◌∙◌, ℕ, suc, ◌+◌, ◌≡◌, refl, String, List, [], ◌∷◌, Option, none, some, ◌==◌, eq_iff,
  if◌then◌else◌, eqb, arith, inl, inr, Bool-cases,
}
use kluster_capacity.Base.Dict.{Dict, lookup, lookup-insert, lookup-erase}
use kluster_capacity.Base.Int.{ℤ, pos, sub_ℕ}
use kluster_capacity.Compression.Filter.{Reason, taint_node, text}
use kluster_capacity.Compression.Select.{
  count_reasons, reason_counts, increment, or_zero, as_ints, adjust_taint,
}

-- How many refusals have a wording.
abbrev pub count : String → List Reason → ℕ
count key [] = 0
count key (r ∷ rs) = if text r == key then count key rs + 1 else count key rs

-- A key that was never counted is not in the map.
abbrev pub entry : ℕ → Option ℤ
entry ℕ.zero = none
entry (suc n) = some (pos (suc n))

-- The entry of the taints, less the number of selected nodes: it may be negative.
abbrev pub taint_entry : ℕ → ℕ → Option ℤ
taint_entry ℕ.zero selected = none
taint_entry (suc n) selected = if eqb (suc n) selected then none else some (sub_ℕ (suc n) selected)

or_zero-count_reasons :
    (key : String) (m : Dict ℕ) (rs : List Reason)
    → or_zero (lookup key (count_reasons m rs)) ≡ or_zero (lookup key m) + count key rs
unfolding count_reasons
or_zero-count_reasons key m [] = omega arith
or_zero-count_reasons key m (r ∷ rs) = ground (
  arith,
  or_zero-count_reasons key (increment (text r) m) rs,
  lookup-insert (text r) key (or_zero (lookup (text r) m) + 1) m,
  eq_iff (text r) key,
)

-- Nothing is counted as zero: an entry is positive or missing.
abbrev tally : ℕ → Option ℕ
tally ℕ.zero = none
tally (suc n) = some (suc n)

tally-add_one : (n : ℕ) → tally (n + 1) ≡ some (n + 1)
tally-add_one n = rw add-one

increment-tally :
    (key k : String) (m : Dict ℕ)
    → lookup k m ≡ tally (or_zero (lookup k m))
    → lookup k (increment key m) ≡ tally (or_zero (lookup k (increment key m)))
increment-tally key k m h =
    rw (lookup-insert key k (or_zero (lookup key m) + 1) m) (elim (Bool-cases (key == k)) [
      | inl e ↦ rw e (sym (tally-add_one (or_zero (lookup key m))))
      | inr e ↦ rw e h
    ])

count_reasons-tally :
    (key : String) (m : Dict ℕ) (rs : List Reason)
    → lookup key m ≡ tally (or_zero (lookup key m))
    → lookup key (count_reasons m rs) ≡ tally (or_zero (lookup key (count_reasons m rs)))
unfolding count_reasons
count_reasons-tally key m [] h = h
count_reasons-tally key m (r ∷ rs) h =
    count_reasons-tally key (increment (text r) m) rs (increment-tally (text r) key m h)

lookup-count_reasons :
    (key : String) (rs : List Reason) → lookup key (count_reasons [] rs) ≡ tally (count key rs)
lookup-count_reasons key rs =
    count_reasons-tally key [] rs refl ∙ ap tally (or_zero-count_reasons key [] rs ∙ omega arith)

as_int : Option ℕ → Option ℤ
as_int none = none
as_int (some n) = some (pos n)

lookup-as_ints : (key : String) (m : Dict ℕ) → lookup key (as_ints m) ≡ as_int (lookup key m)
unfolding as_int
lookup-as_ints key [] = refl
lookup-as_ints key ((k, n) ∷ m) = ground (arith, lookup-as_ints key m)

as_int-tally : (n : ℕ) → as_int (tally n) ≡ entry n
unfolding as_int
as_int-tally ℕ.zero = refl
as_int-tally (suc n) = refl

adjust_taint-entry :
    (key : String) (n selected : ℕ) (m : Dict ℤ)
    → (key ≡ text taint_node → lookup key m ≡ entry n)
    → lookup key (adjust_taint (tally n) selected m)
      ≡ (if key == text taint_node then taint_entry n selected else lookup key m)
adjust_taint-entry key ℕ.zero selected m h = ground (arith, eq_iff key (text taint_node))
adjust_taint-entry key (suc n) selected m h = ground (
  arith,
  lookup-erase (text taint_node) key m,
  lookup-insert (text taint_node) key (sub_ℕ (suc n) selected) m,
  eq_iff key (text taint_node),
  eq_iff (text taint_node) key,
)

plain-entry :
    (key : String) (rs : List Reason)
    → lookup key (as_ints (count_reasons [] rs)) ≡ entry (count key rs)
plain-entry key rs =
    lookup-as_ints key (count_reasons [] rs)
    ∙ ap as_int (lookup-count_reasons key rs)
    ∙ as_int-tally (count key rs)

-- The map behind the message of a failed selection holds, for every wording, how many nodes were refused
-- with it, and no entry if there is none. For the taints it is that number less the number of nodes
-- already selected, which is negative if fewer nodes were refused for a taint, and no entry if the difference is zero.
pub lookup-reason_counts :
    (key : String) (rs : List Reason) (selected : ℕ)
    → lookup key (reason_counts rs selected) ≡ (
        if key == text taint_node
        then taint_entry (count (text taint_node) rs) selected
        else entry (count key rs))
unfolding reason_counts
lookup-reason_counts key rs selected = rw (lookup-count_reasons (text taint_node) rs) (
    adjust_taint-entry key (count (text taint_node) rs) selected (as_ints (count_reasons [] rs))
      (λ e. rw e (plain-entry (text taint_node) rs))
    ∙ ap
        (λ v.
          if key == text taint_node then taint_entry (count (text taint_node) rs) selected else v)
        (plain-entry key rs))
