-- ===== src/Pods.antt =====
-- pkg/utils/pod.go: what kind of pod it is, and the reset of a template.
pub mod Laws
use kluster_capacity.Base.{
  String, Bool, true, false, not, ◌&&◌, ◌||◌, List, [], ◌∷◌, Option, none, some, ◌==◌, ◌<>◌,
  if◌then◌else◌, any,
}
use kluster_capacity.Base.Dict.{Dict, lookup_nil, insert, is_some}
use kluster_capacity.Base.Monad.{Result, ok, err, panic, stuck}
use kluster_capacity.Kube.{Pod, Volume, no_status}
use kluster_capacity.Status.{pod_provisioner, scheduler_name}
use kluster_capacity.Env.{Env}

-- corev1.MirrorPodAnnotationKey
abbrev pub mirror_pod_annotation_key : String
mirror_pod_annotation_key = "kubernetes.io/config.mirror"

-- metav1.HasAnnotation
abbrev pub has_annotation : Pod → String → Bool
has_annotation p key = is_some (lookup_nil key p.annotations)

unfoldable pub is_mirror_pod : Pod → Bool
is_mirror_pod p = is_some (lookup_nil mirror_pod_annotation_key p.annotations)

unfoldable pub is_pod_terminating : Pod → Bool
is_pod_terminating p = is_some p.deletion_timestamp

source_of : String → Option String → Result String
source_of uid none = err ("cannot get source of pod \"" <> (uid <> "\""))
source_of uid (some source) = ok source

-- The uid is quoted, as `%q` quotes a UUID.
unfoldable pub get_pod_source : Pod → Result String
unfolding source_of
get_pod_source p = source_of p.uid (lookup_nil "kubernetes.io/config.source" p.annotations)

unfoldable pub is_static_pod : Pod → Bool
unfolding get_pod_source
is_static_pod p = elim (get_pod_source p) [
  | ok source ↦ not (source == "api")
  | err e ↦ false
  | panic ↦ false
  | stuck ↦ false
]

unfoldable pub is_clone_set_pod : List String → Bool
is_clone_set_pod [] = false
is_clone_set_pod (kind ∷ refs) = if kind == "CloneSet" then true else is_clone_set_pod refs

unfoldable pub is_daemonset_pod : List String → Bool
is_daemonset_pod [] = false
is_daemonset_pod (kind ∷ refs) = if kind == "DaemonSet" then true else is_daemonset_pod refs

has_local_volume : List Volume → Bool
has_local_volume [] = false
has_local_volume (v ∷ vs) =
    if is_some v.host_path || is_some v.empty_dir then true else has_local_volume vs

unfoldable pub is_pod_with_local_storage : Pod → Bool
unfolding has_local_volume
is_pod_with_local_storage p = has_local_volume p.spec.volumes

abbrev with_provisioner : Option (Dict String) → Dict String
with_provisioner none = insert pod_provisioner scheduler_name []
with_provisioner (some m) = insert pod_provisioner scheduler_name m

abbrev or_default_namespace : String → String
or_default_namespace ns = if ns == "" then "default" else ns

module _ (e : Env) where
  open e use {World, set_object_defaults, new_uid}

  unfoldable pub init_pod : World → Pod → Pod
  init_pod w template =
      let p = set_object_defaults template in
      record p {
        spec = record (p.spec) { node_name = ""; scheduler_name = scheduler_name };
        namespace = or_default_namespace template.namespace;
        status = no_status;
        name = template.name;
        uid = new_uid w;
        annotations = some (with_provisioner p.annotations);
      }
