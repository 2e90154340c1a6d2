-- ===== src/Estimation/Executor/Slots.antt =====
-- The places of the reports, and the order in which the simulators finish.
use kluster_capacity.Base.{
  length, ℕ, zero, suc, ◌<◌, ◌≡◌, ◌≢◌, refl, sym, ap, ◌∙◌, subst, String, Bool, true, false, List,
  [], ◌∷◌, map, Option, none, some, eqb, eqb_iff, get_elem?, set, any, All, arith, Bool-cases, ◌⊎◌,
  inl, inr,
}
use kluster_capacity.Base.Monad.{Result, ok, err, panic, stuck}
use kluster_capacity.Estimation.Report.{Review}

pub get_elem?-set :
    {A : Type 0} (xs : List A) (i : ℕ) (v : A) (x : A)
    → get_elem? xs i ≡ some x
    → get_elem? (set xs i v) i ≡ some v
get_elem?-set [] i v x h = cc h
get_elem?-set (y ∷ xs) zero v x h = refl
get_elem?-set (y ∷ xs) (suc i) v x h = get_elem?-set xs i v x h

pub get_elem?-set_other :
    {A : Type 0} (xs : List A) (i j : ℕ) (v : A) → i ≢ j → get_elem? (set xs i v) j ≡ get_elem? xs j
get_elem?-set_other [] i j v h = refl
get_elem?-set_other (y ∷ xs) zero zero v h = absurd (h refl)
get_elem?-set_other (y ∷ xs) zero (suc j) v h = refl
get_elem?-set_other (y ∷ xs) (suc i) zero v h = refl
get_elem?-set_other (y ∷ xs) (suc i) (suc j) v h = get_elem?-set_other xs i j v (λ e. h (ap suc e))

abbrev pub finishes : ℕ → List ℕ → Bool
finishes i order = any (λ j. eqb j i) order

abbrev pub Distinct : List ℕ → Type 0
Distinct [] = Unit
Distinct (i ∷ order) = (finishes i order ≡ false) × Distinct order

-- Each of the numbers below `n`, once.
pub record IsOrder (n : ℕ) (order : List ℕ) : Type 0 where
  pub within : All (λ i. i < n) order
  pub distinct : Distinct order
  pub covers : (i : ℕ) → i < n → finishes i order ≡ true

abbrev pub IsSettled : Result Review → Type 0
IsSettled r = ((v : Review) × (r ≡ ok v)) ⊎ ((m : String) × (r ≡ err m))

-- What a goroutine returns, and what it leaves in its place among the reports.
abbrev pub returned_of : Result Review → Option String
returned_of (ok v) = none
returned_of (err m) = some m
returned_of panic = none
returned_of stuck = none

abbrev pub put : Result Review → ℕ → List (Option Review) → List (Option Review)
put (ok v) i rs = set rs i (some v)
put (err m) i rs = rs
put panic i rs = rs
put stuck i rs = rs

abbrev pub put_all : (ℕ → Result Review) → List ℕ → List (Option Review) → List (Option Review)
put_all out [] rs = rs
put_all out (i ∷ order) rs = put_all out order (put (out i) i rs)

length-set : {A : Type 0} (xs : List A) (i : ℕ) (v : A) → length (set xs i v) ≡ length xs
length-set [] i v = refl
length-set (x ∷ xs) zero v = refl
length-set (x ∷ xs) (suc i) v = ap suc (length-set xs i v)

length-put :
    (r : Result Review) (i : ℕ) (rs : List (Option Review)) → length (put r i rs) ≡ length rs
length-put (ok v) i rs = length-set rs i (some v)
length-put (err m) i rs = refl
length-put panic i rs = refl
length-put stuck i rs = refl

pub length-put_all :
    (out : ℕ → Result Review) (order : List ℕ) (rs : List (Option Review))
    → length (put_all out order rs) ≡ length rs
length-put_all out [] rs = refl
length-put_all out (i ∷ order) rs =
    length-put_all out order (put (out i) i rs) ∙ length-put (out i) i rs

pub put-other :
    (r : Result Review) (i j : ℕ) (rs : List (Option Review))
    → i ≢ j
    → get_elem? (put r i rs) j ≡ get_elem? rs j
put-other (ok v) i j rs h = get_elem?-set_other rs i j (some v) h
put-other (err m) i j rs h = refl
put-other panic i j rs h = refl
put-other stuck i j rs h = refl

pub put_all-other :
    (out : ℕ → Result Review) (order : List ℕ) (j : ℕ) (rs : List (Option Review))
    → finishes j order ≡ false
    → get_elem? (put_all out order rs) j ≡ get_elem? rs j
put_all-other out [] j rs h = refl
put_all-other out (i ∷ order) j rs h =
    put_all-other out order j (put (out i) i rs) (ground arith)
    ∙ put-other (out i) i j rs (ground (arith, eqb_iff i j))

pub put_all_lem :
    (out : ℕ → Result Review) (order : List ℕ) (j : ℕ) (rs : List (Option Review)) (v : Review)
    (r : Option Review)
    → Distinct order
    → finishes j order ≡ true
    → out j ≡ ok v
    → get_elem? rs j ≡ some r
    → get_elem? (put_all out order rs) j ≡ some (some v)
put_all_lem out [] j rs v r d f o h = cc f
put_all_lem out (i ∷ order) j rs v r (fresh, d) f o h = elim (Bool-cases (eqb i j)) [
  | inl e ↦
      let same = (eqb_iff i j).0 e in
      put_all-other out order j (put (out i) i rs)
        (subst (λ k. finishes k order ≡ false) same fresh)
      ∙ subst (λ k. get_elem? (put (out k) k rs) j ≡ some (some v)) (sym same)
          (subst (λ x. get_elem? (put x j rs) j ≡ some (some v)) (sym o)
            (get_elem?-set rs j (some v) r h))
  | inr e ↦
      put_all_lem out order j (put (out i) i rs) v r d (ground arith) o
        (put-other (out i) i j rs (ground (arith, eqb_iff i j)) ∙ h)
]

pub All-none :
    (out : ℕ → Result Review) (order : List ℕ)
    → ((i : ℕ) → finishes i order ≡ true → (v : Review) × (out i ≡ ok v))
    → All (λ r. r ≡ none) (map (λ i. returned_of (out i)) order)
All-none out [] h = tt
All-none out (i ∷ order) h =
    let (v, good) = h i (ground (arith, eqb_iff i i)) in
    (rw good refl, All-none out order (λ j f. h j (ground arith)))

pub finishes_lt :
    (n i : ℕ) (order : List ℕ) → All (λ j. j < n) order → finishes i order ≡ true → i < n
finishes_lt n i [] h f = cc f
finishes_lt n i (j ∷ order) (here, rest) f = elim (Bool-cases (eqb j i)) [
  | inl e' ↦ subst (λ k. k < n) ((eqb_iff j i).0 e') here
  | inr e' ↦ finishes_lt n i order rest (ground arith)
]
