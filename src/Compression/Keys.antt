-- ===== src/Compression/Keys.antt =====
-- Pods by their keys: which pod of a list has a given namespace and name.
use mathlib.Core.Option.{some-injective}
use native.Mathlib.Decide.{ℕ_discrete}
use kluster_capacity.Base.{
  subst, inl, inr, Bool-cases, ℕ, zero, suc, ◌<◌, ◌≡◌, ◌↔◌, refl, String, Bool, true, false, ◌||◌,
  List, [], ◌∷◌, Option, none, some, eq_iff, if◌then◌else◌, get_elem?, All, arith,
}
use kluster_capacity.Kube.{Pod}
use kluster_capacity.Env.Laws.{same_key}

pub same_key_iff :
    (ns name ns' name' : String)
    → (same_key ns name ns' name' ≡ true) ↔ ((ns ≡ ns') × (name ≡ name'))
same_key_iff ns name ns' name' = ground (arith, eq_iff ns ns', eq_iff name name')

abbrev pub has_key : Pod → String → String → Bool
has_key p ns name = same_key p.namespace p.name ns name

-- The first pod with a key, and whether one of the first `k` pods has it.
abbrev pub first_key : List Pod → String → String → Option Pod
first_key [] ns name = none
first_key (p ∷ ps) ns name = if has_key p ns name then some p else first_key ps ns name

abbrev pub key_at : Option Pod → String → String → Bool
key_at none ns name = false
key_at (some p) ns name = has_key p ns name

abbrev pub key_below : ℕ → List Pod → String → String → Bool
key_below zero ps ns name = false
key_below (suc i) ps ns name = key_at (get_elem? ps i) ns name || key_below i ps ns name

-- No two pods have one key.
abbrev pub Distinct : List Pod → Type 0
Distinct [] = Unit
Distinct (p ∷ ps) = All (λ q. has_key p q.namespace q.name ≡ false) ps × Distinct ps

pub All-get_elem? :
    (P : Pod → Type 0) (ps : List Pod) (i : ℕ) {p : Pod} → All P ps → get_elem? ps i ≡ some p → P p
All-get_elem? P [] i h e = absurd (ground arith)
All-get_elem? P (q ∷ ps) zero h e = subst P (some-injective q _ e) h.0
All-get_elem? P (q ∷ ps) (suc i) h e = All-get_elem? P ps i h.1 e

pub get_elem?-All :
    (P : Pod → Type 0) (ps : List Pod)
    → ((i : ℕ) (p : Pod) → get_elem? ps i ≡ some p → P p)
    → All P ps
get_elem?-All P [] h = tt
get_elem?-All P (p ∷ ps) h = (h 0 p refl, get_elem?-All P ps (λ i. h (suc i)))

pub Distinct-get_elem? :
    (ps : List Pod) (i j : ℕ) (p q : Pod)
    → Distinct ps
    → i < j
    → get_elem? ps i ≡ some p
    → get_elem? ps j ≡ some q
    → has_key p q.namespace q.name ≡ false
Distinct-get_elem? [] i j p q d h ei ej = absurd (ground arith)
Distinct-get_elem? (x ∷ ps) zero zero p q d h ei ej = absurd (omega arith)
Distinct-get_elem? (x ∷ ps) zero (suc j) p q d h ei ej =
    All-get_elem? (λ r. has_key p r.namespace r.name ≡ false) ps j
      (subst (λ y. All (λ r. has_key y r.namespace r.name ≡ false) ps) (some-injective x p ei) d.0)
      ej
Distinct-get_elem? (x ∷ ps) (suc i) zero p q d h ei ej = absurd (omega arith)
Distinct-get_elem? (x ∷ ps) (suc i) (suc j) p q d h ei ej =
    Distinct-get_elem? ps i j p q d.1 (omega arith) ei ej

pub key_below_of_get_elem? :
    (k i : ℕ) (ps : List Pod) (p : Pod)
    → i < k
    → get_elem? ps i ≡ some p
    → key_below k ps p.namespace p.name ≡ true
key_below_of_get_elem? zero i ps p h e = absurd (omega arith)
key_below_of_get_elem? (suc k) i ps p h e = elim (ℕ_discrete i k) [
  | yes same ↦
      let at : get_elem? ps k ≡ some p = rw (← same) e in
      rw at (ground (arith, same_key_iff p.namespace p.name p.namespace p.name))
  | no other ↦ ground (arith, key_below_of_get_elem? k i ps p (omega arith) e)
]

-- A key that no pod of the list has is below no index.
pub key_below-first_key :
    (k : ℕ) (ps : List Pod) (ns name : String)
    → first_key ps ns name ≡ none
    → key_below k ps ns name ≡ false
key_below-first_key zero ps ns name h = refl
key_below-first_key (suc k) ps ns name h =
    ground (arith, key_at-first_key k ps ns name h, key_below-first_key k ps ns name h)
  where
    key_at-first_key :
        (i : ℕ) (qs : List Pod) (ns' name' : String)
        → first_key qs ns' name' ≡ none
        → key_at (get_elem? qs i) ns' name' ≡ false
    key_at-first_key i [] ns' name' h' = refl
    key_at-first_key zero (q ∷ qs) ns' name' h' = ground arith
    key_at-first_key (suc i) (q ∷ qs) ns' name' h' = key_at-first_key i qs ns' name' (ground arith)

pub first_key-some :
    (ps : List Pod) (ns name : String) {q : Pod}
    → first_key ps ns name ≡ some q
    → (i : ℕ) × (get_elem? ps i ≡ some q) × (has_key q ns name ≡ true)
first_key-some [] ns name h = absurd (ground arith)
first_key-some (p ∷ ps) ns name h = elim (Bool-cases (has_key p ns name)) [
  | inl e ↦ (0, ground arith, ground arith)
  | inr e ↦ let (i, at, key) = first_key-some ps ns name (ground arith) in (suc i, at, key)
]

-- If no pod has a key, none at any place has it.
pub first_key-none :
    (ps : List Pod) (i : ℕ) (p : Pod) (ns name : String)
    → first_key ps ns name ≡ none
    → get_elem? ps i ≡ some p
    → has_key p ns name ≡ false
first_key-none [] i p ns name h at = absurd (ground arith)
first_key-none (q ∷ ps) zero p ns name h at =
    subst (λ x. has_key x ns name ≡ false) (some-injective q p at) (ground arith)
first_key-none (q ∷ ps) (suc i) p ns name h at = first_key-none ps i p ns name (ground arith) at
