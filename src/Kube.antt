-- ===== src/Kube.antt =====
-- The objects of k8s.io/api that the program reads and writes, with the fields that it touches.
-- They are not code of the repository. A pointer or map that may be nil is an `Option`.
use kluster_capacity.Base.{ℕ, String, Bool, List, [], Option, none}
use kluster_capacity.Base.Dict.{Dict}

-- corev1.ResourceList: quantities by resource name.
abbrev pub ResourceList : Type 0
ResourceList = Dict ℕ

pub record PodCondition : Type 0 where
  pub type : String
  pub status : String
  pub reason : String
  pub message : String

pub record Volume : Type 0 where
  pub host_path : Option String
  pub empty_dir : Option String

pub record PodSpec : Type 0 where
  pub node_name : String
  pub scheduler_name : String
  pub node_selector : Option (Dict String)
  pub volumes : List Volume
  pub containers : List ResourceList  -- the requests of each container
  pub init_containers : List ResourceList
  pub overhead : Option ResourceList

pub record PodStatus : Type 0 where
  pub phase : String
  pub conditions : List PodCondition

-- `owner_references` lists the kinds of the owners.
pub record Pod : Type 0 where
  pub name : String
  pub namespace : String
  pub uid : String
  pub annotations : Option (Dict String)
  pub owner_references : List String
  pub deletion_timestamp : Option ℕ
  pub spec : PodSpec
  pub status : PodStatus

pub record Taint : Type 0 where
  pub key : String
  pub effect : String

pub record NodeCondition : Type 0 where
  pub type : String
  pub status : String

pub record Node : Type 0 where
  pub name : String
  pub labels : Option (Dict String)
  pub taints : List Taint
  pub unschedulable : Bool
  pub conditions : List NodeCondition
  pub images : List String
  pub allocatable : ResourceList

-- runtime.Object: what the fake API server stores.
pub data Object : Type 0 where
  pod : Pod → Object
  node : Node → Object
  unstructured : Object
  other : (kind : String) → Object

-- corev1.PodStatus{}
abbrev pub no_status : PodStatus
no_status = record { phase = ""; conditions = [] }

-- framework.Resource of the scheduler: int64 quantities, as numbers below 2^64.
pub record Resource : Type 0 where
  pub milli_cpu : ℕ
  pub memory : ℕ
  pub ephemeral_storage : ℕ
  pub scalar_resources : Option (Dict ℕ)

abbrev pub no_resource : Resource
no_resource = record { milli_cpu = 0; memory = 0; ephemeral_storage = 0; scalar_resources = none }
