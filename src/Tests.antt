-- ===== src/Tests.antt =====
-- A small cluster for the tests: a palette of two sidecars and one operator, one box type that wires
-- one of each, two installations, and a node.
mod Admission
mod Rendering
mod Reconciling
mod Status
mod Overriding
mod Building
mod Applying
mod Identifying
mod Serving
mod Placing
mod Looping
use yanet_operator.Base.{
  ◌≡◌, ◌≢◌, ℕ, Bool, true, false, not, Option, none, some, [], ◌∷◌, arith, String, ◌==◌, nat_eq,
  string_eq, int_eq, option_eq, ok, pos,
}
use yanet_operator.Kube.{ObjectMeta, OwnerReference, Node, PodSpec, Deployment}
use yanet_operator.Api.Names.{NameRules}
use yanet_operator.Api.Hugepages.{Quantity}
use yanet_operator.Api.Admission.{Outside}
use yanet_operator.Api.Types.{
  ImageRef, NetworkAttachment, ControlplaneSpec, SidecarSpec, DataplaneSpec, OperatorContainer,
  OperatorSpec, ComponentsSpec, NamedPatch, BoxDataplane, BoxType, YanetConfigSpec, YanetSpec,
}
use yanet_operator.Controller.Ownership.{Yanet, group_version}
use yanet_operator.Manifests.Workload.{label_node}

abbrev pub is_named : String → Bool
is_named s = not (s == "")

abbrev pub rules : NameRules
rules = record {
  is_dns1123_label = is_named;
  is_dns1123_subdomain = is_named;
  is_qualified_name = is_named;
}

-- A stand-in for the short identity.
abbrev pub short_key : String → String
short_key name = name

abbrev pub image : String → ImageRef
image name = record { registry = none; prefix = none; name = name; tag = "" }

abbrev pub sidecar_named : String → SidecarSpec
sidecar_named name = record {
  name = name;
  image = image name;
  config = none;
  listeners = some ("grpc" ∷ "http" ∷ []);
}

abbrev pub agent : OperatorContainer
agent = record { name = "agent"; image = image "agent"; config = none }

abbrev pub route : OperatorSpec
route = record { name = "route"; containers = agent ∷ []; listeners = none }

abbrev pub controlplane_spec : ControlplaneSpec
controlplane_spec = record {
  image = image "controlplane";
  config = none;
  numa = some (pos 2);
  disabled_numa = pos 0 ∷ [];
}

abbrev pub attachment : NetworkAttachment
attachment = record {
  name = "uplink";
  namespace = "";
  interface = "net0";
  resource_name = "intel.com/uplink";
}

abbrev pub dataplane_spec : DataplaneSpec
dataplane_spec = record {
  image = image "dataplane";
  config = none;
  hugepages = none;
  networks = some (attachment ∷ []);
  sidecars = sidecar_named "acl" ∷ sidecar_named "nat" ∷ [];
}

abbrev pub components : ComponentsSpec
components = record {
  controlplane = controlplane_spec;
  dataplane = dataplane_spec;
  bird_adapter = none;
  operators = route ∷ [];
}

abbrev pub wiring : BoxDataplane
wiring = record { patches = []; sidecars = ("nat", record { enabled = none; patches = [] }) ∷ [] }

abbrev pub release : BoxType
release = record {
  name = "release";
  components = record {
    controlplane = some (record { patches = [] });
    dataplane = some wiring;
    bird_adapter = none;
  };
  operators = ("route", record { patches = [] }) ∷ [];
}

abbrev pub patch : String → NamedPatch
patch name = record { name = name; patch = "{}" }

abbrev pub config : YanetConfigSpec
config = record {
  stop = false;
  update_window = pos 60;
  images = record {
    registry = "cr";
    prefix = "";
    tag = "1.0";
    pull_policy = "";
    pull_secrets = [];
  };
  components = components;
  patches = patch "debug" ∷ [];
  box_types = release ∷ [];
}

abbrev pub spec : YanetSpec
spec = record {
  box_type = "release";
  node_selector = ("pool", "edge") ∷ [];
  enabled = some false;
  auto_sync = some true;
  components = none;
}

abbrev pub no_pod : PodSpec
no_pod = record { volumes = []; containers = []; init_containers = [] }

abbrev pub owner : String → OwnerReference
owner name = record { api_version = group_version; kind = "Yanet"; name = name; uid = "" }

abbrev pub object : String → Option OwnerReference → ObjectMeta
object name owned = record {
  name = name;
  namespace = "default";
  uid = "";
  resource_version = "1";
  generation = 1;
  labels = (label_node, "n1") ∷ [];
  annotations = [];
  controller = owned;
  finalizers = [];
  deleting = false;
}

abbrev pub yanet : String → ℕ → Yanet
yanet name created = record { meta = object name none; created = created; spec = spec }

abbrev pub node : Node
node = record { name = "n1"; labels = ("pool", "edge") ∷ [] }

abbrev pub deployment : String → String → Deployment
deployment name owned_by = record {
  meta = object name (some (owner owned_by));
  replicas = some (pos 1);
  pod = no_pod;
  observed_generation = 1;
  updated_replicas = pos 1;
  status_replicas = pos 1;
}

-- Two texts that the test tells apart.
pub apart : (s t : String) → (s == t) ≡ false → s ≢ t
apart s t h = ground arith

abbrev pub parse : String → Option Quantity
parse size = some (record { is_positive = true; value = pos 2097152; is_whole = true })

abbrev pub outside : Outside
outside = record {
  rules = rules;
  parse_quantity = parse;
  dry_run_patch = λ p. ok tt;
  validate_sidecar_patch = λ p. ok tt;
  validate_box_private_network = λ s b. ok tt;
}
