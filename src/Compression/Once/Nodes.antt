-- ===== src/Compression/Once/Nodes.antt =====
-- Names without repetition, and nodes of which none loses its labels.
use kluster_capacity.Base.{
  ◌≡◌, refl, sym, ap, ◌∙◌, subst, String, true, false, ◌||◌, List, [], ◌∷◌, ◌++◌, All, any, ◌==◌,
  eq_iff, if◌then◌else◌, arith, Bool-cases, inl, inr,
}
use kluster_capacity.Base.Dict.{is_some}
use kluster_capacity.Base.Monad.{ok, ok-injective}
use kluster_capacity.Kube.{Node}
use kluster_capacity.Env.Laws.{first_node, replace_node}
use kluster_capacity.Compression.Labels.{
  is_labelled, Unique, replace_node-Unique, first_node-replace_node,
}

abbrev pub Missing : String → List String → Type 0
Missing name xs = any (λ x. x == name) xs ≡ false

-- No name stands twice in the list.
abbrev pub Distinct : List String → Type 0
Distinct [] = Unit
Distinct (x ∷ xs) = Missing x xs × Distinct xs

pub any-append :
    (name last : String) (xs : List String)
    → any (λ x. x == name) (xs ++ (last ∷ [])) ≡ (any (λ x. x == name) xs || last == name)
any-append name last [] = ground arith
any-append name last (x ∷ xs) = ground (arith, any-append name last xs)

pub append-Distinct :
    (xs : List String) (name : String)
    → Distinct xs
    → Missing name xs
    → Distinct (xs ++ (name ∷ []))
append-Distinct [] name d h = (refl, tt)
append-Distinct (x ∷ xs) name d h = (
  ground (arith, any-append x name xs, eq_iff x name, eq_iff name x),
  append-Distinct xs name d.1 (ground arith),
)

abbrev pub HasLabels : Node → Type 0
HasLabels n = is_some n.labels ≡ true

abbrev pub Sound : List Node → Type 0
Sound ns = Unique ns × All HasLabels ns

-- A node stays where it is, and does not lose the label of success.
abbrev pub Stays : List Node → List Node → Type 0
Stays ns ns' =
    (name : String) (m : Node)
    → first_node name ns ≡ ok m
    → (m' : Node) × (first_node name ns' ≡ ok m') × (is_labelled m ≡ true → is_labelled m' ≡ true)

abbrev pub Better : List Node → List Node → Type 0
Better ns ns' = Sound ns → Sound ns' × Stays ns ns'

pub same-Better : (ns ns' : List Node) → ns' ≡ ns → Better ns ns'
same-Better ns ns' h =
    subst (λ l. Better ns l) (sym h) (λ s. (s, λ name m found. (m, found, λ l. l)))

pub then-Better : (ns ms ls : List Node) → Better ns ms → Better ms ls → Better ns ls
then-Better ns ms ls p q s =
    let (s', stays) = p s in
    let (s'', stays') = q s' in
    (
      s'',
      λ name m found.
          let (m', found', l) = stays name m found in
          let (m'', found'', l') = stays' name m' found' in (m'', found'', λ x. l' (l x)),
    )

pub first_node-HasLabels :
    (name : String) (ns : List Node) (m : Node)
    → first_node name ns ≡ ok m
    → All HasLabels ns
    → HasLabels m
first_node-HasLabels name [] m h all = cc h
first_node-HasLabels name (n ∷ ns) m h all = elim (Bool-cases (n.name == name)) [
  | inl e ↦
      subst HasLabels
        (ok-injective (subst (λ b. (if b then ok n else first_node name ns) ≡ ok m) e h)) all.0
  | inr e ↦
      first_node-HasLabels name ns m
        (subst (λ b. (if b then ok n else first_node name ns) ≡ ok m) e h) all.1
]

replace_node-HasLabels :
    (q : Node) (ns : List Node) → HasLabels q → All HasLabels ns → All HasLabels (replace_node q ns)
replace_node-HasLabels q [] h all = tt
replace_node-HasLabels q (n ∷ ns) h all = elim (Bool-cases (n.name == q.name)) [
  | inl e ↦ rw e (h, all.1)
  | inr e ↦ rw e (all.0, replace_node-HasLabels q ns h all.1)
]

first_node-replace_node_other :
    (name : String) (q : Node) (ns : List Node)
    → q.name == name ≡ false
    → first_node name (replace_node q ns) ≡ first_node name ns
first_node-replace_node_other name q [] h = refl
first_node-replace_node_other name q (n ∷ ns) h = ground (
  arith,
  first_node-replace_node_other name q ns,
  eq_iff n.name q.name,
  eq_iff q.name name,
  eq_iff n.name name,
)

-- A node is written back with the labels that it had, or more.
pub replace_node-Better :
    (q : Node) (ns : List Node) (m : Node)
    → first_node q.name ns ≡ ok m
    → (is_labelled m ≡ true → is_labelled q ≡ true)
    → (HasLabels m → HasLabels q)
    → Better ns (replace_node q ns)
replace_node-Better q ns m found keeps has s = (
  (
    replace_node-Unique q ns s.0,
    replace_node-HasLabels q ns (has (first_node-HasLabels q.name ns m found s.1)) s.1,
  ),
  λ name n found'. elim (Bool-cases (q.name == name)) [
    | inl e ↦
        let here = (eq_iff q.name name).0 e in
        let same : m ≡ n = ok-injective (sym found ∙ ap (λ x. first_node x ns) here ∙ found') in
        (
          q,
          subst (λ x. first_node x (replace_node q ns) ≡ ok q) here
              (first_node-replace_node q ns m found),
          λ l. keeps (subst (λ x. is_labelled x ≡ true) (sym same) l),
        )
    | inr e ↦ (n, first_node-replace_node_other name q ns e ∙ found', λ l. l)
  ],
)
