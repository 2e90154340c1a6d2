-- ===== src/Samples.antt =====
-- Small objects that the tests share.
use kluster_capacity.Base.{String, false, [], ◌∷◌, none, some}
use kluster_capacity.Kube.{Pod, Node, no_status}
use kluster_capacity.Status.{scheduler_name}
use kluster_capacity.Env.Memory.{Store}

abbrev pub pod_on : (node name : String) → Pod
pod_on node name = record {
  name = name;
  namespace = "web";
  uid = "";
  annotations = some [];
  owner_references = [];
  deletion_timestamp = none;
  spec = record {
    node_name = node;
    scheduler_name = scheduler_name;
    node_selector = none;
    volumes = [];
    containers = [];
    init_containers = [];
    overhead = none;
  };
  status = no_status;
}

abbrev pub node_of_name : String → Node
node_of_name name = record {
  name = name;
  labels = some [];
  taints = [];
  unschedulable = false;
  conditions = [];
  images = [];
  allocatable = [];
}

abbrev pub two_nodes : Store
two_nodes = record {
  pods = pod_on "n1" "a" ∷ pod_on "n1" "b" ∷ [];
  nodes = node_of_name "n1" ∷ node_of_name "n2" ∷ [];
}
