-- ===== src/Config/Requests.antt =====
-- ComputePodResourceRequest: what a pod asks of a node. framework.Resource of the scheduler is an argument.
use kluster_capacity.Base.{
  ℕ, ◌+◌, ◌^◌, ◌<◌, ◌≡◌, String, List, [], ◌∷◌, Option, none, some, ltb, if◌then◌else◌, arith,
}
use kluster_capacity.Base.Dict.{lookup}
use kluster_capacity.Kube.{Pod, ResourceList}

pub record Resources : Type 1 where
  pub Resource : Type 0
  pub empty : Resource
  pub add : Resource → ResourceList → Resource
  pub set_max_resource : Resource → ResourceList → Resource

module _ (resources : Resources) where
  open resources use {Resource, empty, add, set_max_resource}

  unfoldable pub add_all : List ResourceList → Resource → Resource
  add_all [] r = r
  add_all (l ∷ ls) r = add_all ls (add r l)

  unfoldable pub max_all : List ResourceList → Resource → Resource
  max_all [] r = r
  max_all (l ∷ ls) r = max_all ls (set_max_resource r l)

  abbrev pub add_overhead : Option ResourceList → Resource → Resource
  add_overhead none r = r
  add_overhead (some l) r = add r l

  unfoldable pub compute_pod_resource_request : Pod → Resource
  unfolding add_all max_all
  compute_pod_resource_request p =
      add_overhead p.spec.overhead
        (max_all p.spec.init_containers (add_all p.spec.containers empty))

abbrev or_zero : Option ℕ → ℕ
or_zero none = 0
or_zero (some n) = n

-- How much of a resource a list asks for.
abbrev pub requested : String → ResourceList → ℕ
requested name l = or_zero (lookup name l)

abbrev pub larger : ℕ → ℕ → ℕ
larger a b = if ltb a b then b else a

-- The documented behaviour of framework.Resource for one of the resources that it counts, whose amount
-- `value` reads. The amount is an int64: the laws hold of non-negative amounts as long as they stay below 2 ^ 63.
pub record ResourceLaws (resources : Resources) (name : String) : Type 0 where
  pub value : resources.Resource → ℕ
  pub value-empty : value resources.empty ≡ 0
  pub value-add :
      (r : resources.Resource) (l : ResourceList)
      → value r + requested name l < 2 ^ 63
      → value (resources.add r l) ≡ value r + requested name l
  pub value-set_max_resource :
      (r : resources.Resource) (l : ResourceList)
      → value r < 2 ^ 63
      → requested name l < 2 ^ 63
      → value (resources.set_max_resource r l) ≡ larger (value r) (requested name l)

-- What the containers ask for together, and the most that one of them asks for.
abbrev pub total : String → List ResourceList → ℕ
total name [] = 0
total name (l ∷ ls) = requested name l + total name ls

abbrev pub most : String → List ResourceList → ℕ
most name [] = 0
most name (l ∷ ls) = larger (requested name l) (most name ls)

abbrev pub overhead_of : String → Option ResourceList → ℕ
overhead_of name none = 0
overhead_of name (some l) = requested name l

module _ (resources : Resources) (name : String) (laws : ResourceLaws resources name) where
  open resources use {Resource}
  open laws use {value, value-empty, value-add, value-set_max_resource}

  value-add_all :
      (ls : List ResourceList) (r : Resource)
      → value r + total name ls < 2 ^ 63
      → value (add_all resources ls r) ≡ value r + total name ls
  unfolding add_all
  value-add_all [] r fits = omega arith
  value-add_all (l ∷ ls) r fits =
      let first = value-add r l (omega arith) in
      let rest = value-add_all ls (resources.add r l) (omega arith) in omega arith

  value-max_all :
      (ls : List ResourceList) (r : Resource)
      → larger (value r) (most name ls) < 2 ^ 63
      → value (max_all resources ls r) ≡ larger (value r) (most name ls)
  unfolding max_all
  value-max_all [] r fits = ground arith
  value-max_all (l ∷ ls) r fits =
      let first = value-set_max_resource r l (ground arith) (ground arith) in
      let rest = value-max_all ls (resources.set_max_resource r l) (ground arith) in ground arith

  value-add_overhead :
      (o : Option ResourceList) (r : Resource)
      → value r + overhead_of name o < 2 ^ 63
      → value (add_overhead resources o r) ≡ value r + overhead_of name o
  value-add_overhead none r fits = omega arith
  value-add_overhead (some l) r fits = value-add r l fits

  -- The request of a pod, for a resource that the scheduler counts as an int64: the containers' requests
  -- together or the largest request of an init container, whichever is more, and the overhead on top of that,
  -- provided that this number is below 2 ^ 63.
  pub compute_pod_resource_request-value :
      (p : Pod)
      → larger (total name p.spec.containers) (most name p.spec.init_containers)
          + overhead_of name p.spec.overhead
        < 2 ^ 63
      → value (compute_pod_resource_request resources p)
        ≡ larger (total name p.spec.containers) (most name p.spec.init_containers)
          + overhead_of name p.spec.overhead
  unfolding compute_pod_resource_request
  compute_pod_resource_request-value p fits =
      let sum_of = add_all resources p.spec.containers resources.empty in
      let sum = value-add_all p.spec.containers resources.empty (ground (arith, value-empty)) in
      let max = value-max_all p.spec.init_containers sum_of (ground (arith, value-empty)) in
      let all =
        value-add_overhead p.spec.overhead (max_all resources p.spec.init_containers sum_of)
          (ground (arith, value-empty)) in
      ground (arith, value-empty)
