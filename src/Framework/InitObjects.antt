-- ===== src/Framework/InitObjects.antt =====
-- getInitObjects: the objects of the running cluster, which all simulators of a process share.
use kluster_capacity.Base.{
  String, ◌<>◌, ◌≡◌, arith, Bool, List, [], ◌∷◌, ◌++◌, Option, none, some, ◌==◌, if◌then◌else◌,
}
use kluster_capacity.Base.Monad.{Result, ok, err, panic, stuck}

pub record GroupVersionKind : Type 0 where
  pub group : String
  pub version : String
  pub kind : String

abbrev gvk : String → String → String → GroupVersionKind
gvk group version kind = record { group = group; version = version; kind = kind }

-- The keys of the map `initResources`.
unfoldable pub init_resources : List GroupVersionKind
init_resources =
    gvk "" "v1" "Namespace"
    ∷ gvk "" "v1" "Pod"
    ∷ gvk "" "v1" "Node"
    ∷ gvk "" "v1" "PersistentVolume"
    ∷ gvk "" "v1" "PersistentVolumeClaim"
    ∷ gvk "" "v1" "Service"
    ∷ gvk "" "v1" "ReplicationController"
    ∷ gvk "apps" "v1" "StatefulSet"
    ∷ gvk "apps" "v1" "ReplicaSet"
    ∷ gvk "storage.k8s.io" "v1" "StorageClass"
    ∷ gvk "storage.k8s.io" "v1" "CSINode"
    ∷ gvk "storage.k8s.io" "v1" "CSIDriver"
    ∷ gvk "storage.k8s.io" "v1" "CSIStorageCapacity"
    ∷ gvk "resource.k8s.io" "v1alpha1" "PodScheduling"
    ∷ gvk "resource.k8s.io" "v1alpha1" "ResourceClaim"
    ∷ []

-- meta.RESTMapping: the scope is the root or a namespace.
pub record RestMapping : Type 0 where
  pub is_root : Bool
  pub resource : String

-- An error and whether meta.IsNoMatchError or apierrors.IsNotFound holds of it.
pub record ClusterError : Type 0 where
  pub expected : Bool
  pub message : String

-- The mapper and the dynamic client of the running cluster: the second call lists a resource in all namespaces,
-- with a selector of fields. A pointer that is returned may be nil.
pub record Cluster (U : Type 0) : Type 0 where
  pub rest_mapping : GroupVersionKind → Option RestMapping × Option ClusterError
  pub list : String → Option (List U) × Option ClusterError
  pub list_all : String → (field_selector : String) → Option (List U) × Option ClusterError
  pub show : GroupVersionKind → String
  pub range : List GroupVersionKind → List GroupVersionKind  -- the order in which Go visits the map

abbrev running_pods : String
running_pods = "status.phase!=Succeeded,status.phase!=Failed"

-- `err` is the text that is printed before os.Exit(1).
module _ {U : Type 0} (c : Cluster U) where
  open c use {rest_mapping, list, list_all, show, range}

  -- An error that is not expected ends the program; after an expected one the pointer is used all the same.
  abbrev unless_expected :
      {A B : Type 0} → String → Option ClusterError → Option A → (Option A → Result B) → Result B
  unless_expected text none p f = f p
  unless_expected text (some e) p f =
      let rest = f p in if e.expected then rest else err (text <> (", error: " <> e.message))

  -- `list.EachListItem(…)`, which reads a field of the list.
  abbrev append_items : List U → Option (List U) → Result (List U)
  append_items objs none = panic
  append_items objs (some items) = ok (objs ++ items)

  abbrev listed : RestMapping → Option (List U) × Option ClusterError
  listed m =
      if m.is_root
      then list m.resource
      else if m.resource == "pods"
      then list_all m.resource running_pods
      else list_all m.resource ""

  abbrev list_mapped : GroupVersionKind → List U → Option RestMapping → Result (List U)
  list_mapped k objs none = ok objs
  list_mapped k objs (some m) =
      let (items, error) = listed m in
      unless_expected ("unable to list " <> show k) error items (append_items objs)

  unfoldable pub gather : List GroupVersionKind → List U → Result (List U)
  gather [] objs = ok objs
  gather (k ∷ ks) objs =
      let (mapping, error) = rest_mapping k in
      elim (unless_expected ("unable to get rest mapping for " <> show k) error mapping
        (list_mapped k objs)) [
          | ok more ↦ gather ks more
          | err m ↦ err m
          | panic ↦ panic
          | stuck ↦ stuck
        ]

  -- `once.Do(…)`: the state is what the first call has gathered.
  unfoldable pub get_init_objects : Option (List U) → Result (List U) × Option (List U)
  unfolding gather init_resources
  get_init_objects (some objs) = (ok objs, some objs)
  get_init_objects none = elim (gather (range init_resources) []) [
    | ok objs ↦ (ok objs, some objs)
    | err m ↦ (err m, none)
    | panic ↦ (panic, none)
    | stuck ↦ (stuck, none)
  ]

-- The objects that a call returns are those of every later call, whatever the cluster has become, and whether or
-- not it can be reached.
pub get_init_objects-shared :
    {U : Type 0} (c d : Cluster U) (before after : Option (List U)) (objs : List U)
    → get_init_objects c before ≡ (ok objs, after)
    → get_init_objects d after ≡ (ok objs, after)
unfolding get_init_objects
get_init_objects-shared c d (some objs') after objs h = ground arith
get_init_objects-shared c d none after objs h = ground arith
