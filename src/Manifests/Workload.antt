-- ===== src/Manifests/Workload.antt =====
-- The parts of a Deployment and of its pods that the renderer reads or writes
-- (k8s.io/api/apps/v1 and core/v1), and the constants of internal/manifests/builder.go and
-- operator_placement.go. What a record leaves out, the renderer passes on unread.
use yanet_operator.Base.{ℤ, Option, List, String}
use yanet_operator.Base.Dict.{Dict}
use yanet_operator.Kube.{OwnerReference}

pub record PodPort : Type 0 where
  pub name : String
  pub number : ℤ
  pub host_port : ℤ
  pub protocol : String

-- intstr.IntOrString
pub data PortRef : Type 0 where
  port_number : ℤ → PortRef
  port_name : String → PortRef

-- A container. `mounts` and `devices` are the names of the volumes that its mounts and its devices
-- refer to, `field_refs` the container names of the resourceFieldRefs of its environment,
-- `actions` the ports of its HTTP and TCP probes and hooks, and `grpc_probes` those of its gRPC
-- probes.
pub record PodContainer : Type 0 where
  pub name : String
  pub image : String
  pub restart_policy : Option String
  pub ports : List PodPort
  pub mounts : List String
  pub devices : List String
  pub field_refs : List String
  pub actions : List PortRef
  pub grpc_probes : List ℤ

-- A volume, with the container names of the resourceFieldRefs of its downward API items.
pub record PodVolume : Type 0 where
  pub name : String
  pub field_refs : List String

pub record Pod : Type 0 where
  pub containers : List PodContainer
  pub init_containers : List PodContainer
  pub volumes : List PodVolume
  pub node_name : String
  pub node_selector : Dict String String

pub record LabelSelector : Type 0 where
  pub match_labels : Dict String String
  pub match_expressions : List (String × (String × List String))

pub record Strategy : Type 0 where
  pub kind : String
  pub rolling_update : Option (String × String)

-- A Deployment as it is rendered.
pub record Workload : Type 0 where
  pub name : String
  pub namespace : String
  pub owners : List OwnerReference
  pub labels : Dict String String
  pub selector : Option LabelSelector
  pub strategy : Strategy
  pub pod_labels : Dict String String
  pub pod : Pod

abbrev pub label_yanet : String
label_yanet = "yanet.yanet-platform.io/yanet"

abbrev pub label_box_type : String
label_box_type = "yanet.yanet-platform.io/box-type"

abbrev pub label_component : String
label_component = "yanet.yanet-platform.io/component"

abbrev pub label_numa : String
label_numa = "yanet.yanet-platform.io/numa"

abbrev pub label_node : String
label_node = "yanet.yanet-platform.io/node"

abbrev pub label_shared_service : String
label_shared_service = "yanet.yanet-platform.io/shared-service"

abbrev pub operator_container_prefix : String
operator_container_prefix = "op-"

abbrev pub operator_membership_prefix : String
operator_membership_prefix = "yanet.yanet-platform.io/operator-"
