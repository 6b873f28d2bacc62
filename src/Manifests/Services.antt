-- ===== src/Manifests/Services.antt =====
-- The plans of the Services that a box type's installations share (internal/manifests/service.go).
-- Whether apimachinery's IsDNS1035Label accepts a name is a parameter, as are the short hash and the
-- names of colocated target ports.
pub mod Accepted
use yanet_operator.Base.{
  ℕ, zero, suc, Bool, true, false, not, ◌||◌, Option, none, some, List, [], ◌∷◌, map, String, ◌==◌,
  contains, if◌then◌else◌, nat_eq, string_eq, int_eq, option_eq, Result, ok, err, ◌>>=◌, ◌>>◌,
  fail_if, ℤ, pos, ltb_ℤ, is_empty,
}
use yanet_operator.Base.Dict.{Dict, lookup, insert}
use yanet_operator.Kube.{ObjectMeta, OwnerReference}
use yanet_operator.Api.Numa.{validate_controlplane_numa}
use yanet_operator.Resolve.{Resolved, ComponentKind, controlplane}
use yanet_operator.Manifests.Workload.{
  PortRef, port_name, port_number, label_box_type, label_component, label_numa,
  label_shared_service,
}
use yanet_operator.Manifests.Ports.{ListenerPort, listener_ports, is_colocated}
use yanet_operator.Manifests.Fanout.{effective_numa, rounds}
use yanet_operator.Manifests.Names.{
  shared_service_name, operator_membership_label, colocated_target_port, decimal,
}

pub record ServicePortPlan : Type 0 where
  pub name : String
  pub port : ℤ
  pub target_port : ℤ
  pub target_port_name : String

pub record ServicePlan : Type 0 where
  pub name : String
  pub box_type : String
  pub component : String
  pub selector : Dict String String
  pub ports : List ServicePortPlan
  pub local : Bool

-- The fields of BuildContext that the plans read.
pub record BuildContext : Type 0 where
  pub namespace : String
  pub box_type : String

pub data PlanError : Type 0 where
  no_box_type no_component no_selector no_ports unnamed_port : PlanError
  invalid_name port_name_duplicated : String → PlanError
  port_out_of_range port_duplicated target_out_of_range : ℤ → PlanError

-- The loop over the ports, with the sets of the names and of the numbers seen.
unfoldable pub ports_loop :
    List String → List ℤ → List ServicePortPlan → Result PlanError (Unit {0})
ports_loop ns ms [] = ok tt
ports_loop ns ms (p ∷ ps) =
    fail_if (p.name == "") unnamed_port
    >> fail_if (contains ns p.name) (port_name_duplicated p.name)
    >> fail_if (ltb_ℤ p.port (pos 1) || ltb_ℤ (pos 65535) p.port) (port_out_of_range p.port)
    >> fail_if (contains ms p.port) (port_duplicated p.port)
    >> fail_if (ltb_ℤ p.target_port (pos 0) || ltb_ℤ (pos 65535) p.target_port)
        (target_out_of_range p.target_port)
    >> ports_loop (p.name ∷ ns) (p.port ∷ ms) ps

-- ServicePlan.Validate
unfoldable pub validate_plan : (String → Bool) → ServicePlan → Result PlanError (Unit {0})
unfolding ports_loop
validate_plan is_dns1035_label p =
    fail_if (not (is_dns1035_label p.name)) (invalid_name p.name)
    >> fail_if (p.box_type == "") no_box_type
    >> fail_if (p.component == "") no_component
    >> fail_if (is_empty p.selector) no_selector
    >> fail_if (is_empty p.ports) no_ports
    >> ports_loop [] [] p.ports

abbrev pub listener_target_port_name : ListenerPort → String
listener_target_port_name l = if not (l.target_port_name == "") then l.target_port_name else l.name

abbrev pub port_plan : ListenerPort → ServicePortPlan
port_plan listener = record {
  name = listener.name;
  port = pos listener.service_port;
  target_port = pos 0;
  target_port_name = listener_target_port_name listener;
}

abbrev select_numa : Option ℕ → Dict String String → Dict String String
select_numa none selector = selector
select_numa (some n) selector = insert label_numa (decimal n) selector

abbrev pub is_controlplane : ComponentKind → Bool
is_controlplane controlplane = true
is_controlplane k = false

module _ (S : Type 0) (short_key : String → String) where
  abbrev pub service_selector : BuildContext → Resolved S → Dict String String
  service_selector context component =
      let selector =
        insert label_component component.name (insert label_box_type context.box_type []) in
      if is_colocated S component
      then insert (operator_membership_label short_key component.name) component.name
          (insert label_component "dataplane" selector)
      else selector

  unfoldable pub build_service_plan :
      BuildContext → Resolved S → Option ℕ → List ListenerPort → ServicePlan
  unfolding insert shared_service_name operator_membership_label decimal
  build_service_plan context component numa listeners = record {
    name = shared_service_name short_key context.box_type component.name numa;
    box_type = context.box_type;
    component = component.name;
    selector = select_numa numa (service_selector context component);
    ports = map port_plan listeners;
    local = true;
  }

  -- The loop over the NUMA indices from one on.
  unfoldable pub numa_plans :
      BuildContext → Resolved S → List ListenerPort → ℕ → ℕ → List ServicePlan
  unfolding build_service_plan
  numa_plans context component listeners i zero = []
  numa_plans context component listeners i (suc n) =
      build_service_plan context component (some i) listeners
      ∷ numa_plans context component listeners (suc i) n

  abbrev pub plans_for : BuildContext → Resolved S → List ListenerPort → List ServicePlan
  plans_for context component [] = []
  plans_for context component (l ∷ ls) =
      if not (is_controlplane component.kind)
      then build_service_plan context component none (l ∷ ls) ∷ []
      else let numa = effective_numa component.numa in
        elim (validate_controlplane_numa numa) [
          | err e ↦ []
          | ok u ↦ numa_plans context component (l ∷ ls) 0 (rounds numa)
        ]

  unfoldable pub build_services : BuildContext → Resolved S → List ServicePlan
  unfolding build_service_plan numa_plans listener_ports effective_numa validate_controlplane_numa
      colocated_target_port
  build_services context component =
      plans_for context component (listener_ports S (colocated_target_port short_key) component)

-- A Service as it is applied. What a record leaves out, the operator does not set.
pub record ServicePort : Type 0 where
  pub name : String
  pub port : ℤ
  pub protocol : String
  pub target : PortRef

pub record ServiceSpec : Type 0 where
  pub kind : String
  pub selector : Dict String String
  pub ports : List ServicePort
  pub internal_traffic_policy : Option String
  pub session_affinity : String
  pub cluster_ip : String
  pub cluster_ips : List String
  pub ip_families : List String
  pub ip_family_policy : Option String

pub record Service : Type 0 where
  pub meta : ObjectMeta
  pub owners : List OwnerReference
  pub spec : ServiceSpec

abbrev target_of : ServicePortPlan → PortRef
target_of p =
    if not (p.target_port_name == "")
    then port_name p.target_port_name
    else if p.target_port == pos 0
    then port_number p.port
    else port_number p.target_port

abbrev service_port : ServicePortPlan → ServicePort
service_port p = record { name = p.name; port = p.port; protocol = "TCP"; target = target_of p }

abbrev numa_label : Option String → Dict String String → Dict String String
numa_label none labels = labels
numa_label (some numa) labels = insert label_numa numa labels

-- The owner is a controller reference.
unfoldable pub to_service : ServicePlan → String → OwnerReference → Service
unfolding insert
to_service p namespace owner = record {
  meta = record {
    name = p.name;
    namespace = namespace;
    uid = "";
    resource_version = "";
    generation = 0;
    labels = numa_label (lookup label_numa p.selector) (
        insert label_component p.component
          (insert label_box_type p.box_type (insert label_shared_service "true" [])));
    annotations = [];
    controller = if not (owner.name == "") then some owner else none;
    finalizers = [];
    deleting = false;
  };
  owners = if not (owner.name == "") then owner ∷ [] else [];
  spec = record {
    kind = "ClusterIP";
    selector = p.selector;
    ports = map service_port p.ports;
    internal_traffic_policy = if p.local then some "Local" else none;
    session_affinity = "";
    cluster_ip = "";
    cluster_ips = [];
    ip_families = [];
    ip_family_policy = none;
  };
}
